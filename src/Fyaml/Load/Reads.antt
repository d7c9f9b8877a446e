-- ===== src/Fyaml/Load/Reads.antt =====
-- The texts that `load_line` reads without an exception, and what `load` then does to the heap.
use solutions.Base.{
  length, ℕ, ◌+◌, ◌≡◌, refl, sym, inl, inr, Bool, true, false, Option, none, some, List, [], ◌∷◌,
  ◌++◌, append-nil, Bytes, arith, Option-cases, ◌==◌, not,
}
use solutions.Fyaml.{Line}
use solutions.Fyaml.Load.{
  Node, Heap, FyamlType, new_node, add_scala, find_from, follows, line_name, load, load_line,
  load_one, load_block, load_parts, load_values, map_value, queue_names,
}
use solutions.Fyaml.Load.Queues.{add_scalas-kept}

abbrev pub is_some {ℓ} : {A : Type ℓ} → Option A → Bool
is_some none = false
is_some (some _) = true

-- Whether `load_line` throws nothing for a text.
unfoldable pub reads : Bytes → Bool
reads s = is_some (load_line s 0 0 (new_node, []))

-- A heap that only got new objects at its end.
abbrev pub Grown : Heap → Heap → Type 0
Grown h h' = (more : Heap) × (h' ≡ h ++ more)

-- Whether a line is read depends on its text alone.
load_values-reads :
    (s : Bytes) (i j m n sp : ℕ) (d e : Node) (h g : Heap) (o : Option ℕ)
    → is_some (load_values s i m sp (d, h) o) ≡ true
    → (r : Node × Heap) × (load_values s j n sp (e, g) o ≡ some r) × Grown g r.1
unfolding load_values add_scala
load_values-reads s i j m n sp d e h g none k = elim (Option-cases (map_value s sp)) [
  | inl z ↦ ground (arith, k, z)
  | inr (v, z) ↦ rw z (_, refl, (_, refl))
]
load_values-reads s i j m n sp d e h g (some q) k =
    let first = find_from (λ c. not (follows c)) s (q + 2) in
    elim (Option-cases (queue_names (length s + 1) s (q + 2) first)) [
      | inl z ↦ ground (arith, k, z)
      | inr (v, z) ↦
          rw z (_, refl, (_, (add_scalas-kept j n v (record e { kind = FyamlType.queue }) g).2))
    ]

load_line-reads :
    (s : Bytes) (j n : ℕ) (e : Node) (g : Heap)
    → reads s ≡ true
    → (r : Node × Heap) × (load_line s j n (e, g) ≡ some r) × Grown g r.1
unfolding reads load_line load_parts
load_line-reads s j n e g k = elim (Option-cases (find_from (λ c. c == b':') s 0)) [
  | inl z ↦ rw z (_, refl, ([], sym (append-nil g)))
  | inr (sp, z) ↦ rw z (
      load_values-reads s 0 j 0 n sp (record new_node { len = 1 })
        (record e { level = n; line = j; len = 1 }) [] g (find_from (λ c. c == b'[') s 0)
        (rw z at k))
]

-- A line with lines below it, or with a text that is read.
abbrev pub reads_line : Line → List Line → Bool
reads_line l [] = reads l.conf
reads_line l (_ ∷ _) = true

-- `load` gives an object its line's name, and only adds to the heap.
pub load-reads :
    (l : Line) (block : List Line) (i : ℕ) (h : Heap)
    → reads_line l block ≡ true
    → (r : Node × Heap) × (load l block i (new_node, h) ≡ some r)
      × (r.0.name ≡ line_name l.conf)
      × Grown h r.1
unfolding load load_one load_block
load-reads l [] i h k =
    let (r, e, g) = load_line-reads l.conf i l.level new_node h k in
    elim (Option-cases (find_from (λ c. c == b':') l.conf 0)) [
      | inl z ↦ rw (e, z) (_, refl, refl, g)
      | inr (sp, z) ↦ rw (e, z) (_, refl, refl, g)
    ]
load-reads l (x ∷ xs) i h k = elim (Option-cases (find_from (λ c. c == b':') l.conf 0)) [
  | inl z ↦ rw z (_, refl, refl, ([], sym (append-nil h)))
  | inr (sp, z) ↦ rw z (_, refl, refl, ([], sym (append-nil h)))
]
