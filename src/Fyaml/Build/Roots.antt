-- ===== src/Fyaml/Build/Roots.antt =====
-- What an object that is added does to the heap and to the open levels.
use native.Mathlib.Decide.{ℕ_discrete}
use solutions.Base.{
  ℕ, zero, suc, ◌+◌, ◌<◌, ◌≤◌, ◌≡◌, refl, ap, ◌∙◌, sym, inl, inr, Option, some, List, [], ◌∷◌, ◌++◌,
  ◌==◌, if◌then◌else◌, length, set, get_elem?, length-set, get_elem?-set_self, get_elem?-set_ne,
  get_elem?-lt, Bytes, arith, Bool-cases, fmap,
}
use solutions.Fyaml.Load.{Node, Heap, add_node}
use solutions.Fyaml.Load.Queues.{add_node-kept}
use solutions.Fyaml.Build.{Builder, join_opt, cur_at, change, add_to_root, set_cur}

-- The names of the sons of the root.
abbrev pub root_sons : Heap → Option (List Bytes)
root_sons h = fmap (λ (d : Node). d.sons) (get_elem? h 0)

-- A change of an object that keeps its sons keeps those of the root.
pub root_sons-set :
    (h : Heap) (q : ℕ) (d d' : Node)
    → get_elem? h q ≡ some d
    → d'.sons ≡ d.sons
    → root_sons (set h q d') ≡ root_sons h
root_sons-set [] q d d' e k = refl
root_sons-set (x ∷ h) zero d d' e k = ap some k ∙ ap (fmap (λ (x : Node). x.sons)) (sym e)
root_sons-set (x ∷ h) (suc q) d d' e k = refl

pub root_sons-append :
    (h more : Heap) (ss : List Bytes) → root_sons h ≡ some ss → root_sons (h ++ more) ≡ some ss
root_sons-append [] more ss e = cc
root_sons-append (x ∷ h) more ss e = e

-- What `auto_make_data` holds after a line of level `p`: a pointer into the heap at each level up to it.
pub record Fits (p size : ℕ) (ss : List Bytes) (b : Builder) : Type 0 where
  pub width : length b.cur ≡ size
  pub pointer : (k : ℕ) → k ≤ p → (q : ℕ) × (cur_at k b ≡ some q) × (q < length b.heap)
  pub root : root_sons b.heap ≡ some ss

pub change_lem :
    (q : ℕ) (f : Node → Node) (h : Heap)
    → q < length h
    → (d : Node) × (get_elem? h q ≡ some d) × (change q f h ≡ some (set h q (f d)))
unfolding change
change_lem q f h l = let (d, e) = get_elem?-lt h q l in (d, e, rw e refl)

pub change-add_node :
    (q p : ℕ) (n : Bytes) (h : Heap)
    → q < length h
    → (h' : Heap) × (change q (add_node n p) h ≡ some h')
      × (root_sons h' ≡ root_sons h)
      × (length h' ≡ length h)
change-add_node q p n h l =
    let (d, e, c) = change_lem q (add_node n p) h l in
    (_, c, root_sons-set h q d _ e (add_node-kept n p d).1, length-set h q _)

-- The names of the sons of the root behind a line of a level.
abbrev pub sons_with : ℕ → Bytes → List Bytes → List Bytes
sons_with level n ss = if level == 1 then ss ++ n ∷ [] else ss

pub add_to_root_lem :
    (level : ℕ) (n : Bytes) (h : Heap) (ss : List Bytes)
    → root_sons h ≡ some ss
    → (h' : Heap) × (add_to_root level n h ≡ some h')
      × (root_sons h' ≡ some (sons_with level n ss))
      × (length h' ≡ length h)
unfolding add_to_root change
add_to_root_lem level n [] ss r = absurd (cc r)
add_to_root_lem level n (d ∷ h) ss r = elim (Bool-cases (level == 1)) [
  | inl e ↦ rw e (_, refl, ap (fmap (λ x. x ++ n ∷ [])) r, refl)
  | inr e ↦ rw e (_, refl, r, refl)
]

pub set_cur_lem :
    (level p : ℕ) (b : Builder)
    → level < length b.cur
    → (set_cur level p b ≡ some (record b { cur = set b.cur level (some p) }))
unfolding set_cur
set_cur_lem level p b h = let (x, e) = get_elem?-lt b.cur level h in rw e refl

-- The pointers after a line at a level.
pub pointer-set :
    (p n size : ℕ) (ss : List Bytes) (b : Builder) (h : Heap)
    → Fits p size ss b
    → n ≤ p + 1
    → n < size
    → length b.heap ≤ length h
    → (x : ℕ) → x < length h
    → (k : ℕ) → k ≤ n
    → (q : ℕ) × (join_opt (get_elem? (set b.cur n (some x)) k) ≡ some q) × (q < length h)
pointer-set p n size ss b h fits l w g x y k m = elim (ℕ_discrete n k) [
  | yes e ↦ (x, rw (← e, get_elem?-set_self b.cur n (some x) (omega (arith, fits.width))) refl, y)
  | no ne ↦
      let (q, e, z) = fits.pointer k (omega (arith, ne)) in
      (q, ap join_opt (get_elem?-set_ne b.cur (some x) ne) ∙ e, omega (arith, z, g))
]
