-- ===== src/Fyaml/Build/Print.antt =====
-- `fyaml_data::to_string` of an object that `load` made of one line.
use solutions.Base.{
  arith, ℕ, suc, ◌-◌, ◌≡◌, refl, ap, ◌∙◌, sym, false, some, List, [], ◌∷◌, ◌++◌, append_assoc,
  append-nil, replicate, take-length, Bytes, codes, All, ◌==◌,
}
use solutions.Fyaml.{Line, tab, newline}
use solutions.Fyaml.Load.{
  load_block, Node, Heap, FyamlType, new_node, load, load_one, load_block, kind_of, son_names,
}
use solutions.Fyaml.Load.Words.{IsWord, join}
use solutions.Fyaml.Load.Queues.{queue_text, IsPlainName, load_line-queue_text, colon_at}
use solutions.Fyaml.Build.{print_sons, print_rest, print_head}

print_sons-join : (v : Bytes) (ws : List Bytes) → print_sons (v ∷ ws) ≡ join v ws ++ codes " ]"
unfolding print_sons
print_sons-join v [] = refl
print_sons-join v (w ∷ ws) = rw (print_sons-join w ws) (sym (append_assoc v _ _))

-- What is printed of a queue of one line at a level.
print_queue :
    (d : Node) (n : ℕ)
    → print_head (record d { kind = FyamlType.queue; level = suc n; len = 1 })
      ≡ some (
        replicate n tab
            ++ ((d.name ++ codes ": ") ++ ((codes "[ " ++ print_sons d.sons) ++ newline ∷ [])),
        false,
      )
unfolding print_head print_rest
print_queue d n =
    let z : (suc n == 0) ≡ false = ground arith in
    let e : suc n - 1 ≡ n = omega arith in rw (z, e) refl

-- A line that holds a queue of at least two values is printed as it was written, behind the tabs of its
-- level, and `to_string` ends there.
pub print_head-queue_text :
    (name v w : Bytes) (ws : List Bytes) (n i : ℕ) (h : Heap)
    → IsPlainName name
    → All IsWord (v ∷ w ∷ ws)
    → (r : Node × Heap) × (load
          (record { level = suc n; conf = queue_text name v (w ∷ ws) })
          []
          i
          (new_node, h)
        ≡ some r)
      × (print_head r.0
          ≡ some (replicate n tab ++ (queue_text name v (w ∷ ws) ++ newline ∷ []), false))
unfolding load load_one load_block kind_of son_names print_head print_rest
print_head-queue_text name v w ws n i h a b =
    let (r, e, nm, kind, sons, heap, lev, len) =
      load_line-queue_text name v w ws i (suc n) new_node h a b in
    let line : Line = record { level = suc n; conf = queue_text name v (w ∷ ws) } in
    let d : Node = record r.0 {
      name = name;
      level = suc n;
      kind = FyamlType.queue;
      sons = v ∷ w ∷ ws;
      line = i;
      len = 1;
    } in
    (
      (d, r.1),
      rw (e, colon_at name v (w ∷ ws) a, take-length, kind, sons, append-nil) refl,
      print_queue d n
          ∙ ap (λ (x : Bytes). some (replicate n tab ++ x, false))
              (rw (print_sons-join v (w ∷ ws)) (simp append_assoc)),
    )
