-- ===== src/PathSearch/Trails.antt =====
-- The search of tct.cc: it ends, leaves its marks as it found them, and prints only paths.
use solutions.Base.{
  get_elem?-lt, Option-cases, get_elem?-set_ne, ℕ, zero, suc, ◌<◌, ◌≡◌, refl, sym, ap, ◌∙◌, Bool,
  true, false, ◌==◌, ltb, Option, none, some, List, [], ◌∷◌, ◌++◌, arith, length, get_elem?, set,
  replicate, All, All-append, Bool-cases, inl, inr, if◌then◌else◌, length-set,
}
use mathlib.Core.Option.{some-injective}
use mathlib.Core.Path.{subst}
use solutions.PathSearch.{
  Side, Point, full_print, have_end, no_this_point, mark, Printed, visit, pp, print_tree,
}

-- Whether a point is a key of a map of sides.
abbrev pub side_to : ℕ → Side → Bool
side_to n [] = false
side_to n ((k, w) ∷ m) = if k == n then true else side_to n m

-- A graph of eight points whose sides stay inside.
pub record IsGrap (g : List Point) : Type 0 where
  pub count : length g ≡ 8
  pub inside : All (λ p. All (λ s. s.0 < 8) p.side) g

-- A vector of different points, the back first, each reached by a side of the one before it.
abbrev pub IsTrail : List Point → List ℕ → Type 0
IsTrail g [] = Unit
IsTrail g (x ∷ []) = Unit
IsTrail g (x ∷ y ∷ vec) =
    ((p : Point) × (get_elem? g y ≡ some p) × (side_to x p.side ≡ true))
    × (no_this_point (y ∷ vec) x ≡ true)
    × IsTrail g (y ∷ vec)

-- The points in range that are not in the vector are not marked.
record Marks (vec hp : List ℕ) : Type 0 where
  size : length hp ≡ 8
  unmarked : (n : ℕ) → n < 8 → no_this_point vec n ≡ true → get_elem? hp n ≡ some 0

zeros : List ℕ → ℕ
zeros [] = 0
zeros (c ∷ hp) = if c == 0 then suc (zeros hp) else zeros hp

zeros-set : (hp : List ℕ) (n : ℕ) → get_elem? hp n ≡ some 0 → suc (zeros (set hp n 1)) ≡ zeros hp
unfolding zeros
zeros-set [] n h = cc
zeros-set (c ∷ hp) zero h = let e : c ≡ 0 = some-injective _ _ h in rw e refl
zeros-set (c ∷ hp) (suc n) h = ground (arith, zeros-set hp n h)

set-set : (hp : List ℕ) (n : ℕ) → get_elem? hp n ≡ some 0 → set (set hp n 1) n 0 ≡ hp
set-set [] n h = refl
set-set (c ∷ hp) zero h = ap (λ x. x ∷ hp) (sym (some-injective _ _ h))
set-set (c ∷ hp) (suc n) h = ap (◌∷◌ c) (set-set hp n h)

have_end-some :
    (m : Side) (hp : List ℕ)
    → All (λ s. s.0 < length hp) m
    → (end : Option ℕ) × (have_end m hp ≡ some end)
unfolding have_end
have_end-some [] hp h = (none, refl)
have_end-some ((n, w) ∷ m) hp h =
    let (c, e) = get_elem?-lt hp n h.0 in
    let (end, f) = have_end-some m hp h.1 in
    elim (Bool-cases (c == 0)) [
      | inl z ↦ (some n, rw (e, z) refl)
      | inr z ↦ (end, rw (e, z, f) refl)
    ]

mark-some : (hp : List ℕ) (n c : ℕ) → length hp ≡ 8 → n < 8 → mark hp n c ≡ some (set hp n c)
unfolding mark
mark-some hp n c e h = let inside : ltb n (length hp) ≡ true = ground arith in rw inside refl

All-get {ℓ κ} :
    {A : Type ℓ} (P : A → Type κ) (xs : List A) (i : ℕ) (x : A)
    → All P xs
    → get_elem? xs i ≡ some x
    → P x
All-get P [] i x h e = cc
All-get P (y ∷ xs) zero x h e = subst P (some-injective _ _ e) h.0
All-get P (y ∷ xs) (suc i) x h e = All-get P xs i x h.1 e

Marks-mark : (vec hp : List ℕ) (n : ℕ) → Marks vec hp → Marks (n ∷ vec) (set hp n 1)
unfolding no_this_point
Marks-mark vec hp n m = record {
  size = length-set hp n 1 ∙ m.size;
  unmarked = λ k h q. elim (Bool-cases (n == k)) [
    | inl same ↦ cc (rw same at q)
    | inr differ ↦
        get_elem?-set_ne hp 1 (λ e. absurd (ground (arith, e, differ)))
        ∙ m.unmarked k h (rw differ at q)
  ];
}

-- The first point of a vector, which is its last element here.
abbrev pub begins : ℕ → List ℕ → Bool
begins n [] = false
begins n (x ∷ []) = x == n
begins n (x ∷ y ∷ vec) = begins n (y ∷ vec)

-- What is printed: a path through eight different points, the first of which is `n`.
abbrev pub IsPrinted : List Point → ℕ → List ℕ → Type 0
IsPrinted g n p = IsTrail g p × (length p ≡ 8) × (begins n p ≡ true)

-- A call that ends with the marks that it was given and prints only such paths.
abbrev Found : List Point → ℕ → List ℕ → Printed → Type 0
Found g s hp o = (out : List (List ℕ)) × (o ≡ some (hp, out)) × All (IsPrinted g s) out

-- A side in range, whose point is a key of the map `all`.
abbrev IsSide : Side → ℕ × ℕ → Type 0
IsSide all x = (x.0 < 8) × (side_to x.0 all ≡ true)

module _ (g : List Point) (s e : ℕ) (v : List ℕ) (p : Point) (at_e : get_elem? g e ≡ some p)
    (trail : IsTrail g (e ∷ v)) (from : begins s (e ∷ v) ≡ true)
    (search : List ℕ → List ℕ → Printed) (left : ℕ)
    (ih : (n : ℕ) (hp : List ℕ)
      → n < 8
      → Marks (n ∷ e ∷ v) hp
      → IsTrail g (n ∷ e ∷ v)
      → suc (zeros hp) ≡ left
      → Found g s hp (search (n ∷ e ∷ v) hp)) where
  visit-Found :
      (sides : Side) (hp : List ℕ)
      → All (IsSide p.side) sides
      → Marks (e ∷ v) hp
      → zeros hp ≡ left
      → Found g s hp (visit search sides (e ∷ v) hp)
  unfolding visit
  visit-Found [] hp h m z = ([], refl, tt)
  visit-Found ((n, w) ∷ sides) hp h m z =
      let (later, e₂, a₂) = visit-Found sides hp h.1 m z in
      elim (Bool-cases (no_this_point (e ∷ v) n)) [
        | inr there ↦ (later, rw there e₂, a₂)
        | inl new ↦
            let free = m.unmarked n h.0.0 new in
            let (first, e₁, a₁) =
              ih n (set hp n 1) h.0.0 (Marks-mark (e ∷ v) hp n m) ((p, at_e, h.0.1), new, trail)
                (zeros-set hp n free ∙ z) in
            (
              first ++ later,
              rw
                  (
                    new,
                    mark-some hp n 1 m.size h.0.0,
                    e₁,
                    mark-some (set hp n 1) n 0 (length-set hp n 1 ∙ m.size) h.0.0,
                    set-set hp n free,
                    e₂,
                  )
                  refl,
              All-append (IsPrinted g s) first later a₁ a₂,
            )
      ]

IsSide-more : (k w : ℕ) (all xs : Side) → All (IsSide all) xs → All (IsSide ((k, w) ∷ all)) xs
IsSide-more k w all [] h = tt
IsSide-more k w all (x ∷ xs) h = ((h.0.0, ground (arith, h.0.1)), IsSide-more k w all xs h.1)

-- Every key of a map of sides is one of its keys.
sides-IsSide : (all : Side) → All (λ x. x.0 < 8) all → All (IsSide all) all
sides-IsSide [] h = tt
sides-IsSide ((k, w) ∷ m) h =
    let same : (k == k) ≡ true = ground arith in
    ((h.0, rw same refl), IsSide-more k w m m (sides-IsSide m h.1))

module _ (g : List Point) (ok : IsGrap g) (s : ℕ) where
  pp-Found :
      (fuel e : ℕ) (vec hp : List ℕ)
      → e < 8
      → Marks (e ∷ vec) hp
      → IsTrail g (e ∷ vec)
      → begins s (e ∷ vec) ≡ true
      → zeros hp < fuel
      → Found g s hp (pp g fuel (e ∷ vec) hp)
  unfolding pp full_print
  pp-Found zero e vec hp le m t b z = absurd (omega arith)
  pp-Found (suc fuel) e vec hp le m t b z =
      let (p, at_e) = get_elem?-lt g e (omega (arith, ok.count)) in
      let sides = All-get _ g e p ok.inside at_e in
      let (end, found) = have_end-some p.side hp (rw m.size sides) in
      elim (Option-cases end) [
        | inl last ↦ elim (Bool-cases (length (e ∷ vec) == 8)) [
          | inl full ↦
              ((e ∷ vec) ∷ [], rw (at_e, found, last, full) refl, ((t, ground arith, b), tt))
          | inr short ↦ ([], rw (at_e, found, last, short) refl, tt)
        ]
        | inr (n, more) ↦
            let (out, ran, all) =
              visit-Found g s e vec p at_e t b (pp g fuel) (zeros hp)
                (λ k hp₁ lk mk tk zk. pp-Found fuel k (e ∷ vec) hp₁ lk mk tk b (omega arith)) p.side
                hp (sides-IsSide p.side sides) m refl in
            (out, rw (at_e, found, more) ran, all)
      ]

replicate-zeros : (k n : ℕ) → n < k → get_elem? {A = ℕ} (replicate k 0) n ≡ some 0
replicate-zeros zero n h = absurd (omega arith)
replicate-zeros (suc k) zero h = refl
replicate-zeros (suc k) (suc n) h = replicate-zeros k n (omega arith)

zeros-replicate : zeros (replicate 8 0) ≡ 8
unfolding zeros
zeros-replicate = refl

-- On a graph of eight points `print_tree` ends without an access outside the graph or the marks, and
-- every path that it prints visits eight different points along sides of the graph, from point 5.
pub print_tree-IsPrinted :
    (g : List Point)
    → IsGrap g
    → (out : List (List ℕ)) × (print_tree g ≡ some out) × All (IsPrinted g 5) out
unfolding print_tree
print_tree-IsPrinted g ok =
    let start : Marks (5 ∷ []) (replicate 8 0) = record {
      size = refl;
      unmarked = λ n h q. replicate-zeros 8 n h;
    } in
    let (out, ran, all) =
      pp-Found g ok 5 9 5 [] (replicate 8 0) (omega arith) start tt refl
        (omega (arith, zeros-replicate)) in
    (out, rw ran refl, all)

visit-nothing :
    (search : List ℕ → List ℕ → Printed) (sides : Side) (vec hp : List ℕ)
    → All (λ x. no_this_point vec x.0 ≡ false) sides
    → visit search sides vec hp ≡ some (hp, [])
unfolding visit
visit-nothing search [] vec hp h = refl
visit-nothing search ((n, w) ∷ sides) vec hp h =
    rw (h.0, visit-nothing search sides vec hp h.1) refl

-- Where all neighbours of the last point, which is in the graph, are in the vector, but one of them
-- is not marked, nothing is printed, however many points the vector has. `print_tree` never marks
-- its first point.
pub pp-unmarked :
    (g : List Point) (fuel e n : ℕ) (vec hp : List ℕ) (p : Point)
    → get_elem? g e ≡ some p
    → have_end p.side hp ≡ some (some n)
    → All (λ x. no_this_point (e ∷ vec) x.0 ≡ false) p.side
    → pp g (suc fuel) (e ∷ vec) hp ≡ some (hp, [])
unfolding pp
pp-unmarked g fuel e n vec hp p at_e found h =
    rw (at_e, found) (visit-nothing (pp g fuel) p.side (e ∷ vec) hp h)
