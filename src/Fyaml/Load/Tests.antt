-- ===== src/Fyaml/Load/Tests.antt =====
-- Lines of `fyaml.conf`.
use solutions.Base.{All, ◌≡◌, refl, some, none, [], ◌∷◌, codes}
use solutions.Fyaml.Load.{
  load_line, queue_names, map_value, find_in, has_byte, add_scala, add_scalas, add_node, find_node,
  new_node, new_scala, FyamlType, Node, Heap,
}
use solutions.Fyaml.Load.Words.{IsWord}
use solutions.Fyaml.Load.Queues.{load_line-queue_text}

queue_line :
    load_line (codes "a: [ b, c ]") 3 1 (new_node, new_node ∷ [])
    ≡ some (
      record {
        name = codes "a";
        level = 1;
        kind = FyamlType.queue;
        sons = codes "b" ∷ codes "c" ∷ [];
        line = 3;
        len = 1;
        nodes = (codes "b", 1) ∷ (codes "c", 2) ∷ [];
      },
      new_node ∷ new_scala (codes "b") 3 2 ∷ new_scala (codes "c") 3 2 ∷ [],
    )
unfolding load_line queue_names find_in has_byte add_scala add_scalas add_node find_node
queue_line = refl

value_reaches_the_end : map_value (codes "a: b") 1 ≡ some (codes "b")
unfolding map_value find_in has_byte
value_reaches_the_end = refl

quoted_value : map_value (codes "a: \"b c\" d") 1 ≡ some (codes "\"b c\"")
unfolding map_value find_in has_byte
quoted_value = refl

no_value : map_value (codes "a:") 1 ≡ none
unfolding map_value find_in has_byte
no_value = refl

words_bc : All IsWord (codes "b" ∷ codes "c" ∷ [])
unfolding has_byte
words_bc = ((refl, tt), ((refl, tt), tt))

load_line-queue_text_example :
    (r : Node × Heap) × (load_line (codes "a: [ b, c ]") 3 1 (new_node, new_node ∷ []) ≡ some r)
    × (r.0.name ≡ codes "a")
    × (r.0.kind ≡ FyamlType.queue)
    × (r.0.sons ≡ codes "b" ∷ codes "c" ∷ [])
    × (r.1 ≡ new_node ∷ new_scala (codes "b") 3 2 ∷ new_scala (codes "c") 3 2 ∷ [])
    × (r.0.level ≡ 1)
    × (r.0.len ≡ 1)
load_line-queue_text_example =
    load_line-queue_text (codes "a") (codes "b") (codes "c") [] 3 1 new_node (new_node ∷ [])
      ((refl, refl), tt) words_bc
