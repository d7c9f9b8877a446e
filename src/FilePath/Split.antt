-- ===== src/FilePath/Split.antt =====
-- `Path::getdirs` reads back the names of a path that `Path::init` renders.
use solutions.Base.{
  take-length, drop-length, ℕ, suc, ◌+◌, ◌-◌, ◌^◌, leb, ◌≡◌, ◌≢◌, refl, ap, ap₂, ◌∙◌, sym, false,
  some, List, [], ◌∷◌, ◌++◌, append-nil, append_assoc, arith, length, length-append, ◌==◌, Bytes,
  All, Lacks,
}
use solutions.FilePath.{substr, last_elem, split_ins, names, getdirs, slash, render, IsShort}

-- A directory name: not empty, and without the separator.
abbrev pub IsName : ℕ → Bytes → Type 0
IsName sep d = (d ≢ []) × Lacks sep d

-- The bytes between two positions.
substr_mid : (p d t : Bytes) → substr (p ++ (d ++ t)) (length p) (length d) ≡ d
substr_mid p d t = rw (drop-length p (d ++ t)) (take-length d t)

pub last_elem-cons {ℓ} :
    {A : Type ℓ} (a b : A) (xs : List A) → last_elem (a ∷ b ∷ xs) ≡ last_elem (b ∷ xs)
last_elem-cons a b xs =
    let e : suc (suc (length xs)) - 1 ≡ suc (length xs) = omega arith in
    let f : suc (length xs) - 1 ≡ length xs = omega arith in rw (e, f)

-- The last element of an append whose second part is not empty.
pub last_elem-append {ℓ} :
    {A : Type ℓ} (p : List A) (c : A) (d : List A) → last_elem (p ++ c ∷ d) ≡ last_elem (c ∷ d)
last_elem-append [] c d = refl
last_elem-append (a ∷ []) c d = last_elem-cons a c d
last_elem-append (a ∷ b ∷ p) c d = last_elem-cons a b (p ++ c ∷ d) ∙ last_elem-append (b ∷ p) c d

module _ (sep : ℕ) where
  -- A name without the separator has no split in it.
  pub split_ins-append :
      (d t : Bytes) (i : ℕ)
      → Lacks sep d
      → split_ins sep i (d ++ t) ≡ split_ins sep (i + length d) t
  unfolding split_ins
  split_ins-append [] t i h = let e : i + 0 ≡ i = omega arith in rw e
  split_ins-append (c ∷ d) t i h =
      let e : i + suc (length d) ≡ suc i + length d = omega arith in
      rw e (ground (arith, h.0, split_ins-append d t (suc i) h.1))

  -- The last byte of a name is no separator.
  last_elem-Lacks :
      (c : ℕ) (d : Bytes) → Lacks sep (c ∷ d) → (x : ℕ) × (last_elem (c ∷ d) ≡ some x) × (x ≢ sep)
  last_elem-Lacks c [] h = (c, refl, h.0)
  last_elem-Lacks c (b ∷ d) h =
      let (x, e, n) = last_elem-Lacks b d h.1 in (x, last_elem-cons c b d ∙ e, n)

-- The name before a split.
pub substr_name :
    (p d t : Bytes) (e : ℕ)
    → e ≡ length p + length d
    → substr (p ++ (d ++ t)) (length p) (e - length p) ≡ d
substr_name p d t e h = let n : e - length p ≡ length d = omega arith in rw n (substr_mid p d t)

-- The prefix before the next name.
behind :
    (p d e : Bytes) (ds : List Bytes) (u : Bytes)
    → p ++ (d ++ ((slash ∷ (e ++ render ds)) ++ u))
      ≡ (p ++ (d ++ slash ∷ [])) ++ (e ++ (render ds ++ u))
behind p d e ds u = simp append_assoc

length-behind : (p d : Bytes) → length (p ++ (d ++ slash ∷ [])) ≡ suc (length p + length d)
length-behind p d = omega (arith, length-append p (d ++ slash ∷ []), length-append d (slash ∷ []))

-- Walking over the splits of a rendered path gives its names, whatever follows the path.
pub names-render :
    (p d : Bytes) (ds : List Bytes) (u path : Bytes) (n : ℕ)
    → Lacks slash d
    → All (Lacks slash) ds
    → path ≡ p ++ (d ++ (render ds ++ u))
    → n ≡ length p + length (d ++ render ds)
    → names path (length p) (split_ins slash (length p) (d ++ render ds) ++ n ∷ []) ≡ d ∷ ds
unfolding names render split_ins
names-render p d [] u path n h hs e m =
    rw (split_ins-append slash d [] (length p) h, e)
      (ap (λ x. x ∷ []) (substr_name p d u n (omega (arith, m, length-append d []))))
names-render p d (f ∷ ds) u path n h hs e m =
    let q = p ++ (d ++ slash ∷ []) in
    let rest =
      names-render q f ds u path n hs.0 hs.1 (e ∙ unfold render in behind p d f ds u)
        (omega (arith, m, length-behind p d, length-append d (slash ∷ (f ++ render ds)))) in
    rw (split_ins-append slash d (slash ∷ (f ++ render ds)) (length p) h) (
      ap₂ ◌∷◌ (rw e (substr_name p d _ (length p + length d) refl))
        (rw (length-behind p d) at rest))

abbrev pub AllNames : List Bytes → Type 0
AllNames ds = All (IsName slash) ds

pub names-Lacks : (ds : List Bytes) → AllNames ds → All (Lacks slash) ds
names-Lacks [] h = tt
names-Lacks (d ∷ ds) h = (h.0.1, names-Lacks ds h.1)

-- A rendered path does not end in a separator.
last_elem-render :
    (c : ℕ) (d : Bytes) (ds : List Bytes)
    → AllNames ((c ∷ d) ∷ ds)
    → (x : ℕ) × (last_elem (slash ∷ ((c ∷ d) ++ render ds)) ≡ some x) × ((x == slash) ≡ false)
unfolding render
last_elem-render c d [] h =
    let (x, e, n) = last_elem-Lacks slash c d h.0.1 in
    (x, rw (append-nil d) (last_elem-cons slash c d ∙ e), ground arith)
last_elem-render c d ([] ∷ ds) h = absurd (h.1.0.0 refl)
last_elem-render c d ((b ∷ e) ∷ ds) h =
    let (x, l, n) = last_elem-render b e ds h.1 in
    (x, last_elem-append (slash ∷ c ∷ d) slash (b ∷ (e ++ render ds)) ∙ l, n)

-- `getdirs` of names rendered behind separators, at least one, gives these names back, where the path
-- has fewer than 2 ^ 31 bytes.
pub getdirs-render :
    (ds : List Bytes)
    → ds ≢ []
    → AllNames ds
    → IsShort (render ds)
    → getdirs slash (render ds) ≡ some ds
unfolding getdirs render
getdirs-render [] n h b = absurd (n refl)
getdirs-render ([] ∷ ds) n h b = absurd (h.0.0 refl)
getdirs-render ((c ∷ d) ∷ ds) n h b =
    let (x, e, m) = last_elem-render c d ds h in
    let short : leb (2 ^ 31) (length (slash ∷ ((c ∷ d) ++ render ds))) ≡ false =
      ground (arith, b) in
    rw (short, e, m)
      (ap some (
        names-render (slash ∷ []) (c ∷ d) ds [] _ _ h.0.1 (names-Lacks ds h.1)
          (rw (append-nil (render ds)) refl) (omega arith)))

-- Names joined by separators, with none in front.
abbrev pub relative : List Bytes → Bytes
relative [] = []
relative (d ∷ ds) = d ++ render ds

relative_starts : (c : ℕ) (s : Bytes) → c ≢ slash → split_ins slash 1 s ≡ split_ins slash 0 (c ∷ s)
unfolding split_ins
relative_starts c s n = ground arith

-- `getdirs` of a relative path gives its names too.
pub getdirs-relative :
    (ds : List Bytes)
    → ds ≢ []
    → AllNames ds
    → IsShort (relative ds)
    → getdirs slash (relative ds) ≡ some ds
unfolding getdirs
getdirs-relative [] n h b = absurd (n refl)
getdirs-relative ([] ∷ ds) n h b = absurd (h.0.0 refl)
getdirs-relative ((c ∷ d) ∷ ds) n h b =
    let short : leb (2 ^ 31) (length ((c ∷ d) ++ render ds)) ≡ false = ground (arith, b) in
    let (x, e, m) = last_elem-render c d ds h in
    let first : (c == slash) ≡ false = ground (arith, h.0.1.0) in
    rw
      (
        short,
        first,
        sym (last_elem-cons slash c (d ++ render ds)) ∙ e,
        m,
        relative_starts c (d ++ render ds) h.0.1.0,
      )
      (ap some (
        names-render [] (c ∷ d) ds [] _ _ h.0.1 (names-Lacks ds h.1)
          (rw (append-nil (render ds)) refl) (omega arith)))
