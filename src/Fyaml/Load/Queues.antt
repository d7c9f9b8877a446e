-- ===== src/Fyaml/Load/Queues.antt =====
-- A queue that is written on one line, and read by `load_line`.
use solutions.Base.{
  Option-cases, inl, inr, ℕ, ◌+◌, ◌<◌, ◌≡◌, refl, ap, ◌∙◌, sym, false, not, some, List, [], ◌∷◌,
  ◌++◌, append_assoc, append-nil, ◌==◌, length, length-append, take, drop-length, take-length,
  Bytes, codes, All, arith, map,
}
use mathlib.Core.Path.{subst}
use solutions.Fyaml.Load.Words.{
  IsWord, join, find_in-skip, length-le-join, word_ends, queue_names-end, queue_names-join,
  get_or-at, blank-ends, comma-ends,
}
use solutions.Fyaml.Load.{
  find_node, add_name, find_in, find_from, follows, Node, Heap, new_scala, add_node, add_scala,
  add_scalas, queue_names, load_line, FyamlType,
}

pub add_node-kept :
    (n : Bytes) (p : ℕ) (d : Node)
    → let d' = add_node n p d in
      (d'.kind ≡ d.kind) × (d'.sons ≡ d.sons) × (d'.level ≡ d.level) × (d'.len ≡ d.len)
unfolding add_node
add_node-kept n p d = elim (Option-cases (find_node n d.nodes)) [
  | inl e ↦ rw (e, add_node) (refl, refl, refl, refl)
  | inr (q, e) ↦ rw (e, add_node) (refl, refl, refl, refl)
]

pub add_scalas-kept :
    (location level : ℕ) (ns : List Bytes) (d : Node) (h : Heap)
    → let r = add_scalas location level ns (d, h) in
      (r.0.kind ≡ d.kind)
      × (r.0.sons ≡ d.sons ++ ns)
      × (r.1 ≡ h ++ map (λ (n : Bytes). new_scala n location (level + 1)) ns)
      × (r.0.level ≡ d.level)
      × (r.0.len ≡ d.len)
unfolding add_scalas add_scala
add_scalas-kept location level [] d h =
    (refl, sym (append-nil d.sons), sym (append-nil h), refl, refl)
add_scalas-kept location level (n ∷ ns) d h =
    let d' = add_node n (length h) (add_name n d) in
    let (k, s, l, n₁) = add_node-kept n (length h) (add_name n d) in
    let h' = h ++ new_scala n location (level + 1) ∷ [] in
    let (kind, sons, heap, lev, len) = add_scalas-kept location level ns d' h' in
    (
      kind ∙ k,
      sons ∙ ap (λ (x : List Bytes). x ++ ns) s ∙ append_assoc d.sons (n ∷ []) ns,
      heap ∙ append_assoc h (new_scala n location (level + 1) ∷ []) _,
      lev ∙ l,
      len ∙ n₁,
    )

-- A queue of a name without colons and brackets, and of values of word bytes.
abbrev pub queue_text : Bytes → Bytes → List Bytes → Bytes
queue_text name v ws = name ++ (codes ": [ " ++ (join v ws ++ codes " ]"))

abbrev pub IsPlainName : Bytes → Type 0
IsPlainName name = All (λ (c : ℕ). ((c == b':') ≡ false) × ((c == b'[') ≡ false)) name

no_colon : (name : Bytes) → IsPlainName name → All (λ (c : ℕ). (c == b':') ≡ false) name
no_colon [] h = tt
no_colon (c ∷ s) h = (h.0.0, no_colon s h.1)

no_bracket :
    (name : Bytes) → IsPlainName name → All (λ (c : ℕ). (c == b'[') ≡ false) (name ++ codes ": ")
no_bracket [] h = (refl, (refl, tt))
no_bracket (c ∷ s) h = (h.0.1, no_bracket s h.1)

-- Where the parts of a line that holds a queue stand.
pub colon_at :
    (name v : Bytes) (ws : List Bytes)
    → IsPlainName name
    → find_in (λ c. c == b':') 0 (queue_text name v ws) ≡ some (length name)
colon_at name v ws h =
    find_in-skip (λ c. c == b':') 0 name b':' _ (no_colon name h) refl ∙ ap some (omega arith)

bracket_at :
    (name v : Bytes) (ws : List Bytes)
    → IsPlainName name
    → find_in (λ c. c == b'[') 0 (queue_text name v ws) ≡ some (length name + 2)
bracket_at name v ws h =
    let t = b' ' ∷ (join v ws ++ codes " ]") in
    let same : queue_text name v ws ≡ (name ++ codes ": ") ++ b'[' ∷ t = simp append_assoc in
    ap (find_in (λ c. c == b'[') 0) same
    ∙ find_in-skip (λ c. c == b'[') 0 (name ++ codes ": ") b'[' t (no_bracket name h) refl
    ∙ ap some (omega (arith, length-append name (codes ": ")))

-- The byte that ends the first value.
value_at :
    (u v t s : Bytes) (x n : ℕ)
    → s ≡ u ++ (v ++ x ∷ t)
    → length u ≡ n
    → IsWord v
    → follows x ≡ false
    → find_from (λ c. not (follows c)) s n ≡ some (length u + length v)
value_at u v t s x n e m w h =
    rw (← m, e, drop-length u (v ++ x ∷ t))
      (find_in-skip (λ c. not (follows c)) (length u) v x t (word_ends v w) (rw h refl))

-- What `load_line` makes of a line whose loop over the values gives `ns`.
load_line_queue :
    (name v : Bytes) (ws ns : List Bytes) (location level end : ℕ) (d : Node) (h : Heap)
    → IsPlainName name
    → find_from (λ c. not (follows c)) (queue_text name v ws) (length name + 2 + 2) ≡ some end
    → queue_names
        (length (queue_text name v ws) + 1)
        (queue_text name v ws)
        (length name + 2 + 2)
        (some end)
      ≡ some ns
    → (r : Node × Heap) × (load_line (queue_text name v ws) location level (d, h) ≡ some r)
      × (r.0.name ≡ name)
      × (r.0.kind ≡ FyamlType.queue)
      × (r.0.sons ≡ d.sons ++ ns)
      × (r.1 ≡ h ++ map (λ (n : Bytes). new_scala n location (level + 1)) ns)
      × (r.0.level ≡ level)
      × (r.0.len ≡ 1)
unfolding load_line
load_line_queue name v ws ns location level end d h a e q =
    let d₁ = record d { level = level; line = location; len = 1; kind = FyamlType.queue } in
    let (kind, sons, heap, lev, len) = add_scalas-kept location level ns d₁ h in
    let (d₂, h₂) = add_scalas location level ns (d₁, h) in
    (
      (record d₂ { name = take (length name) (queue_text name v ws) }, h₂),
      rw (colon_at name v ws a, bracket_at name v ws a, e, q) refl,
      take-length name _,
      kind,
      sons,
      heap,
      lev,
      len,
    )

abbrev opening : Bytes → Bytes
opening name = name ++ codes ": [ "

length-opening : (name : Bytes) → length (opening name) ≡ length name + 2 + 2
length-opening name = omega (arith, length-append name (codes ": [ "))

queue_text-opening :
    (name v : Bytes) (ws : List Bytes)
    → queue_text name v ws ≡ opening name ++ (join v ws ++ b' ' ∷ b']' ∷ [])
queue_text-opening name v ws = sym (append_assoc name (codes ": [ ") (join v ws ++ codes " ]"))

length-queue_text :
    (name v : Bytes) (ws : List Bytes) → length ws + 1 < length (queue_text name v ws) + 1
length-queue_text name v ws = omega (
  arith,
  length-append name (codes ": [ " ++ (join v ws ++ codes " ]")),
  length-append (join v ws) (codes " ]"),
  length-le-join v ws,
)

-- A line that holds a queue of at least two values, of the bytes that names are made of, behind a name
-- without colons and brackets, is read as a queue of that name with these values as its sons, in order,
-- and a new scala node for each, at its level and of one line. The loop has rounds enough.
pub load_line-queue_text :
    (name v w : Bytes) (ws : List Bytes) (location level : ℕ) (d : Node) (h : Heap)
    → IsPlainName name
    → All IsWord (v ∷ w ∷ ws)
    → (r : Node × Heap) × (load_line (queue_text name v (w ∷ ws)) location level (d, h) ≡ some r)
      × (r.0.name ≡ name)
      × (r.0.kind ≡ FyamlType.queue)
      × (r.0.sons ≡ d.sons ++ v ∷ w ∷ ws)
      × (r.1 ≡ h ++ map (λ (n : Bytes). new_scala n location (level + 1)) (v ∷ w ∷ ws))
      × (r.0.level ≡ level)
      × (r.0.len ≡ 1)
load_line-queue_text name v w ws location level d h a b =
    let s = queue_text name v (w ∷ ws) in
    let u = opening name in
    let x = b' ' ∷ (join w ws ++ b' ' ∷ b']' ∷ []) in
    let whole = queue_text-opening name v (w ∷ ws) in
    let first : s ≡ u ++ (v ++ b',' ∷ x) = whole ∙ simp append_assoc in
    load_line_queue name v (w ∷ ws) (v ∷ w ∷ ws) location level (length u + length v) d h a
      (value_at u v x s b',' (length name + 2 + 2) first (length-opening name) b.0 comma-ends)
      (subst (λ k. queue_names (length s + 1) s k (some (length u + length v)) ≡ some (v ∷ w ∷ ws))
        (length-opening name)
        (queue_names-join v (w ∷ ws) (length s + 1) s u (b']' ∷ []) (length u + length v) whole b.0
          b.1 (get_or-at s u v x b',' first) (length-queue_text name v (w ∷ ws))))

-- A queue of one value is read as a queue without sons.
pub load_line-queue_one :
    (name v : Bytes) (location level : ℕ) (d : Node) (h : Heap)
    → IsPlainName name
    → IsWord v
    → (r : Node × Heap) × (load_line (queue_text name v []) location level (d, h) ≡ some r)
      × (r.0.kind ≡ FyamlType.queue)
      × (r.0.sons ≡ d.sons)
      × (r.1 ≡ h)
load_line-queue_one name v location level d h a b =
    let s = queue_text name v [] in
    let u = opening name in
    let t : Bytes = b']' ∷ [] in
    let whole = queue_text-opening name v [] in
    let (r, e, n, k, sons, heap, lev, len) =
      load_line_queue name v [] [] location level (length u + length v) d h a
        (value_at u v t s b' ' (length name + 2 + 2) whole (length-opening name) b blank-ends)
        (queue_names-end (length s + 1) s (length name + 2 + 2) (length u + length v) (omega arith)
          (get_or-at s u v t b' ' whole)) in
    (r, e, k, sons ∙ append-nil d.sons, heap ∙ append-nil h)
