-- ===== src/Fyaml/Build/Nodes.antt =====
-- The nodes of an object, searched once one is added.
use solutions.Base.{
  Bool-cases, ℕ, ◌≡◌, refl, some, none, List, [], ◌∷◌, ◌++◌, Bytes, inl, inr, same, if◌then◌else◌,
}
use solutions.Fyaml.Load.{Node, find_node, add_node}

pub find_node-append :
    (n : Bytes) (p : ℕ) (ns ms : List (Bytes × ℕ))
    → find_node n ns ≡ some p
    → find_node n (ns ++ ms) ≡ some p
unfolding find_node
find_node-append n p [] ms e = absurd (cc e)
find_node-append n p ((m, q) ∷ ns) ms e = elim (Bool-cases (same m n)) [
  | inl x ↦ rw x (rw x at e)
  | inr x ↦ rw x (find_node-append n p ns ms (rw x at e))
]

pub find_node-new :
    (n m : Bytes) (p : ℕ) (ns : List (Bytes × ℕ))
    → find_node n ns ≡ none
    → find_node n (ns ++ (m, p) ∷ []) ≡ (if same m n then some p else none)
unfolding find_node
find_node-new n m p [] e = refl
find_node-new n m p ((o, q) ∷ ns) e = elim (Bool-cases (same o n)) [
  | inl x ↦ absurd (cc (rw x at e))
  | inr x ↦ rw x (find_node-new n m p ns (rw x at e))
]

pub add_node-new :
    (n : Bytes) (p : ℕ) (d : Node)
    → find_node n d.nodes ≡ none
    → add_node n p d ≡ record d { nodes = d.nodes ++ (n, p) ∷ [] }
unfolding add_node
add_node-new n p d e = rw (add_node, e) refl
