-- ===== src/Fyaml/Build/Forests.antt =====
-- A file that is written from a forest of titles, loaded and made a tree.
use solutions.Base.{
  Option-cases, inl, inr, ℕ, ◌+◌, ◌-◌, ◌≤◌, ◌≡◌, refl, ap, ap₂, ◌∙◌, sym, true, false, some, List,
  [], ◌∷◌, ◌++◌, append_assoc, leb, length, replicate, map, Bytes, All, arith, bind_some, ◌>>=◌,
}
use mathlib.Core.Path.{subst}
use solutions.Fyaml.{Line, raise, load_from_file, buffer_size}
use solutions.Fyaml.Lines.{IsLine, render, map-append, load_from_file-render}
use solutions.Fyaml.Load.{Heap}
use solutions.Fyaml.Load.Blocks.{
  Branch, Forest, item, nil, cons, item_lines, forest_lines, item_names, son_names-forest_lines,
}
use solutions.Fyaml.Load.Reads.{reads}
use solutions.Fyaml.Build.{block_of, auto_make_data}
use solutions.Fyaml.Build.Roots.{root_sons}
use solutions.Fyaml.Build.Nested.{IsNested, reads_block, auto_make_data_lem}

-- The titles with nothing below them are lines that are read.
abbrev pub HaveValues : Forest → Type 0
HaveValues nil = Unit
HaveValues (cons (item t nil) f) = (reads t ≡ true) × HaveValues f
HaveValues (cons (item t (cons i g)) f) = HaveValues (cons i g) × HaveValues f

-- Lines that do not begin deeper than a level.
abbrev Returns : ℕ → List Line → Type 0
Returns n [] = Unit
Returns n (l ∷ ls) = l.level ≤ n

-- Lines that can stand behind those of a forest at level `n`.
abbrev Follows : ℕ → List Line → Type 0
Follows n ls = Returns n ls × ((p : ℕ) → n ≤ p + 1 → IsNested p ls)

-- A title with nothing below it.
reads_block-leaf :
    (n : ℕ) (t : Bytes) (ls : List Line)
    → reads t ≡ true
    → Returns n ls
    → reads_block (record { level = n; conf = t }) ls ≡ true
unfolding block_of
reads_block-leaf n t [] h r = refl
reads_block-leaf n t (l ∷ ls) h r =
    let e : leb l.level n ≡ true = ground (arith, r) in rw (reads_block, e) h

-- A title with others below it.
reads_block-deeper :
    (n : ℕ) (t : Bytes) (l : Line) (ls : List Line)
    → l.level ≡ n + 1
    → reads_block (record { level = n; conf = t }) (l ∷ ls) ≡ true
unfolding block_of
reads_block-deeper n t l ls h =
    let e : leb l.level n ≡ false = ground (arith, h) in
    elim (Option-cases (block_of n ls)) [
      | inl z ↦ rw (reads_block, e, z) refl
      | inr (block, z) ↦ rw (reads_block, e, z) refl
    ]

Returns-le : (n m : ℕ) (ls : List Line) → n ≤ m → Returns n ls → Returns m ls
Returns-le n m [] h r = tt
Returns-le n m (l ∷ ls) h r = omega (arith, r)

-- The lines of a forest whose last titles are read are nested, and can stand where the lines behind them can.
forest_lines-Follows :
    (n : ℕ) (f : Forest) (ls : List Line)
    → 1 ≤ n
    → HaveValues f
    → Follows n ls
    → Follows n (forest_lines n f ++ ls)
unfolding forest_lines item_lines
forest_lines-Follows n nil ls o h r = r
forest_lines-Follows n (cons (item t nil) f) ls o h r =
    let rest = forest_lines-Follows n f ls o h.1 r in
    (
      omega arith,
      λ p le.
          (o, le, reads_block-leaf n t (forest_lines n f ++ ls) h.0 rest.0, rest.1 n (omega arith)),
    )
forest_lines-Follows n (cons (item t (cons (item u v) g)) f) ls o h r =
    let rest = forest_lines-Follows n f ls o h.1 r in
    let tail = forest_lines n f ++ ls in
    let deeper = forest_lines (n + 1) (cons (item u v) g) in
    let behind : Follows (n + 1) tail =
      (Returns-le n (n + 1) tail (omega arith) rest.0, λ p le. rest.1 p (omega (arith, le))) in
    let below = forest_lines-Follows (n + 1) (cons (item u v) g) tail (omega arith) h.0 behind in
    let assoc = append_assoc deeper (forest_lines n f) ls in
    (
      omega arith,
      λ p le. (
        o,
        le,
        reads_block-deeper n t (record { level = n + 1; conf = u }) _ refl,
        subst (IsNested n) (sym assoc) (below.1 n (omega arith)),
      ),
    )

-- The last line.
last-Follows : (l : Line) → l.level ≡ 1 → Follows 1 (l ∷ [])
unfolding block_of
last-Follows l e = (omega (arith, e), λ p h. (omega (arith, e), omega (arith, e), refl, tt))

mutual
  unfolding forest_lines item_lines

  raise-item : (n : ℕ) (e : Branch) → map raise (item_lines n e) ≡ item_lines (n + 1) e
  raise-item n (item t f) = ap (◌∷◌ (record { level = n + 1; conf = t })) (raise-forest (n + 1) f)

  raise-forest : (n : ℕ) (f : Forest) → map raise (forest_lines n f) ≡ forest_lines (n + 1) f
  raise-forest n nil = refl
  raise-forest n (cons e f) =
      map-append raise (item_lines n e) (forest_lines n f)
      ∙ ap₂ (◌++◌) (raise-item n e) (raise-forest n f)

-- A file of at most 2048 bytes, written from a forest of titles, each behind as many tabs as it is deep
-- and before a newline, where no title is empty or has a tab or a newline, and the titles with nothing
-- below them are lines that are read: loading it and making the tree goes to the end, with no null
-- pointer, no index out of range and no exception, and the sons of the root are the names of the
-- titles of the forest, in order.
pub auto_make_data-load_from_file :
    (f : Forest)
    → All IsLine (forest_lines 0 f)
    → length (render (forest_lines 0 f)) ≤ buffer_size
    → HaveValues f
    → (h : Heap) × ((load_from_file (render (forest_lines 0 f)) >>= auto_make_data) ≡ some h)
      × (root_sons h ≡ some (item_names f))
auto_make_data-load_from_file f lines fits values =
    let last : Line = record {
      level = 1;
      conf = replicate (buffer_size - length (render (forest_lines 0 f))) 0;
    } in
    let nested =
      (forest_lines-Follows 1 f (last ∷ []) (omega arith) values (last-Follows last refl)).1 0
        (omega arith) in
    let (h, made, sons) = auto_make_data_lem (forest_lines 1 f) last refl nested in
    let loaded =
      load_from_file-render (forest_lines 0 f) lines fits
      ∙ ap (λ ls. some (ls ++ last ∷ [])) (raise-forest 0 f) in
    (h, bind_some auto_make_data loaded made, sons ∙ ap some (son_names-forest_lines 0 f))
