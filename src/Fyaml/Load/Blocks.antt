-- ===== src/Fyaml/Load/Blocks.antt =====
-- Blocks of lines that are written from a forest of titles, and the sons that `load` gives them.
use solutions.Base.{
  ℕ, ◌+◌, ◌≤◌, ◌≡◌, refl, ap, ◌∙◌, false, true, List, [], ◌∷◌, ◌++◌, ◌==◌, Bytes, All, arith,
}
use solutions.Fyaml.{Line}
use solutions.Fyaml.Load.{son_names, line_name}

-- Titles with what stands below them.
mutual
  pub data Branch : Type 0 where
    item : Bytes → Forest → Branch

  pub data Forest : Type 0 where
    nil : Forest
    cons : Branch → Forest → Forest

-- The lines of a forest at a level.
unfoldable mutual
  pub item_lines : ℕ → Branch → List Line
  item_lines n (item t f) = record { level = n; conf = t } ∷ forest_lines (n + 1) f

  pub forest_lines : ℕ → Forest → List Line
  forest_lines n nil = []
  forest_lines n (cons i f) = item_lines n i ++ forest_lines n f

unfoldable pub item_names : Forest → List Bytes
item_names nil = []
item_names (cons (item t g) f) = line_name t ∷ item_names f

-- The lines of a forest stand at its level or deeper.
abbrev pub AreBelow : ℕ → List Line → Type 0
AreBelow n ls = All (λ (l : Line). n ≤ l.level) ls

AreBelow-append :
    (n : ℕ) (xs ys : List Line) → AreBelow n xs → AreBelow n ys → AreBelow n (xs ++ ys)
AreBelow-append n [] ys h k = k
AreBelow-append n (x ∷ xs) ys h k = (h.0, AreBelow-append n xs ys h.1 k)

AreBelow-le : (m n : ℕ) (ls : List Line) → m ≤ n → AreBelow n ls → AreBelow m ls
AreBelow-le m n [] h b = tt
AreBelow-le m n (l ∷ ls) h b = (omega (arith, b.0), AreBelow-le m n ls h b.1)

mutual
  unfolding item_lines forest_lines

  item-AreBelow : (n : ℕ) (i : Branch) → AreBelow n (item_lines n i)
  item-AreBelow n (item t f) = (
    omega arith,
    AreBelow-le n (n + 1) (forest_lines (n + 1) f) (omega arith) (forest-AreBelow (n + 1) f),
  )

  forest-AreBelow : (n : ℕ) (f : Forest) → AreBelow n (forest_lines n f)
  forest-AreBelow n nil = tt
  forest-AreBelow n (cons i f) =
      AreBelow-append n (item_lines n i) (forest_lines n f) (item-AreBelow n i)
        (forest-AreBelow n f)

-- Lines that stand deeper than the sons are passed over.
son_names-deep :
    (n : ℕ) (xs ys : List Line) → AreBelow (n + 2) xs → son_names n (xs ++ ys) ≡ son_names n ys
unfolding son_names
son_names-deep n [] ys h = refl
son_names-deep n (x ∷ xs) ys h =
    let e : (x.level == n + 1) ≡ false = ground (arith, h.0) in rw e (son_names-deep n xs ys h.1)

-- The loop of `load` over the lines below a title finds the names of its own sons, in order, and none
-- of those that stand deeper.
pub son_names-forest_lines :
    (n : ℕ) (f : Forest) → son_names n (forest_lines (n + 1) f) ≡ item_names f
unfolding son_names forest_lines item_lines item_names
son_names-forest_lines n nil = refl
son_names-forest_lines n (cons (item t g) f) =
    let e : (n + 1 == n + 1) ≡ true = ground arith in
    let deep : n + 1 + 1 ≡ n + 2 = omega arith in
    rw e (
      ap (◌∷◌ (line_name t)) (
        son_names-deep n (forest_lines (n + 1 + 1) g) (forest_lines (n + 1) f)
          (rw deep (forest-AreBelow (n + 2) g))
        ∙ unfold son_names item_names in son_names-forest_lines n f))
