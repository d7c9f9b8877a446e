-- ===== src/Fyaml/Build/Tests.antt =====
-- The tree of a file of four lines, printed.
use solutions.Fyaml.{load_from_file}
use solutions.Fyaml.Lines.{IsLine, AreText}
use solutions.Fyaml.Load.Blocks.{Forest, item, nil, cons, forest_lines, item_names, item_lines}
use solutions.Fyaml.Build.Flat.{Queue, IsPlain}
use solutions.Fyaml.Build.Whole.{to_string-load_from_file}
use solutions.Fyaml.Build.Forests.{HaveValues, auto_make_data-load_from_file}
use solutions.Base.{
  true, Bytes, Bool, leb, ◌&&◌, ◌≤◌, All, ◌++◌, arith, ◌≡◌, refl, some, none, List, [], ◌∷◌, ◌>>=◌,
  codes,
}
use solutions.Fyaml.{Line, mapper_size, max_level}
use solutions.Fyaml.Load.{
  load, load_one, load_block, load_line, load_parts, load_values, map_value, queue_names, son_names,
  kind_of, find_in, has_byte, add_scala, add_scalas, add_node, find_node,
}
use solutions.Fyaml.Load.{Heap}
use solutions.Fyaml.Load.Reads.{reads}
use solutions.Fyaml.Build.Roots.{root_sons}
use solutions.Fyaml.Build.Nested.{IsNested, auto_make_data_lem}
use solutions.Fyaml.Build.{
  auto_make_data, add_lines, add_line, add_block, block_of, change, add_to_root, set_cur, to_string,
  print_names, print_head, print_rest, print_sons,
}

abbrev front : List Line
front =
    record { level = 1; conf = codes "a: [ b, c ]" }
    ∷ record { level = 1; conf = codes "d:" }
    ∷ record { level = 2; conf = codes "e: f" }
    ∷ record { level = 2; conf = codes "g" }
    ∷ []

abbrev zeros : Line
zeros = record { level = 1; conf = 0 ∷ [] }

abbrev conf_lines : List Line
conf_lines = front ++ zeros ∷ []

printed :
    (auto_make_data conf_lines >>= λ h. to_string 9 h 0)
    ≡ some (codes "a: [ b, c ]\nd: \n\te: f\n\tg\n")
unfolding auto_make_data add_lines add_line add_block block_of change add_to_root set_cur to_string
    print_names print_head print_rest print_sons load load_one load_block map_value queue_names
    son_names kind_of find_in has_byte add_scala add_scalas add_node find_node mapper_size max_level
    load_line load_parts load_values
printed = refl

front-IsNested : IsNested 0 conf_lines
unfolding block_of reads load load_one load_block map_value queue_names find_in has_byte add_scala
    add_scalas add_node find_node load_line load_parts load_values
front-IsNested = (
  (omega arith),
  omega arith,
  refl,
  (
    omega arith,
    omega arith,
    refl,
    (
      omega arith,
      omega arith,
      refl,
      (omega arith, omega arith, refl, (omega arith, omega arith, refl, tt)),
    ),
  ),
)

auto_make_data_lem_example :
    (h : Heap) × (auto_make_data conf_lines ≡ some h) × (root_sons h ≡ some (son_names 0 front))
auto_make_data_lem_example = auto_make_data_lem front zeros refl front-IsNested

-- A line two levels below the one before it is a null pointer.
skipped_level :
    auto_make_data (
      record { level = 1; conf = codes "a:" } ∷ record { level = 3; conf = codes "b" } ∷ zeros ∷ [])
    ≡ none
unfolding auto_make_data add_lines add_line add_block block_of change add_to_root set_cur load
    load_one load_block map_value queue_names son_names kind_of find_in has_byte add_scala
    add_scalas add_node find_node mapper_size max_level load_line load_parts load_values
skipped_level = refl

abbrev titles : Forest
titles =
    cons (item (codes "a:") (cons (item (codes "b: c") nil) nil))
      (cons (item (codes "d: e") nil) nil)

titles-HaveValues : HaveValues titles
unfolding reads load_line load_parts load_values map_value find_in has_byte add_scala add_node
    find_node
titles-HaveValues = ((refl, tt), (refl, tt))

abbrev printable : Bytes → Bool
printable [] = true
printable (c ∷ s) = leb 11 c && printable s

printable_text : (s : Bytes) → printable s ≡ true → AreText s
printable_text [] h = tt
printable_text (c ∷ s) h =
    let high : 11 ≤ c = ground (arith, h) in
    let rest : printable s ≡ true = ground (arith, h) in
    (((λ e. omega (arith, high, e)), (λ e. omega (arith, high, e))), printable_text s rest)

titles-AreLines : All IsLine (forest_lines 0 titles)
unfolding forest_lines item_lines
titles-AreLines = (
  ((λ e. cc), printable_text (codes "a:") refl),
  (
    ((λ e. cc), printable_text (codes "b: c") refl),
    (((λ e. cc), printable_text (codes "d: e") refl), tt),
  ),
)

auto_make_data-load_from_file_example :
    (h : Heap) × ((load_from_file (codes "a:\n\tb: c\nd: e\n") >>= auto_make_data) ≡ some h)
    × (root_sons h ≡ some (codes "a" ∷ codes "d" ∷ []))
unfolding item_names find_in forest_lines item_lines
auto_make_data-load_from_file_example =
    auto_make_data-load_from_file titles titles-AreLines (omega arith) titles-HaveValues

abbrev menu : List Queue
menu =
    record { name = codes "a"; first = codes "b"; second = codes "c"; others = [] }
    ∷ record { name = codes "d"; first = codes "e"; second = codes "f"; others = codes "g" ∷ [] }
    ∷ []

menu-IsPlain : All IsPlain menu
unfolding has_byte
menu-IsPlain = (
  (((refl, refl), tt), ((refl, tt), ((refl, tt), tt))),
  ((((refl, refl), tt), ((refl, tt), ((refl, tt), ((refl, tt), tt)))), tt),
)

to_string-load_from_file_example :
    (load_from_file (codes "a: [ b, c ]\nd: [ e, f, g ]\n") >>= λ ls.
    auto_make_data ls >>= λ h. to_string 2 h 0)
    ≡ some (codes "a: [ b, c ]\nd: [ e, f, g ]\n")
to_string-load_from_file_example =
    to_string-load_from_file menu menu-IsPlain
      (
        printable_text (codes "a: [ b, c ]") refl,
        (printable_text (codes "d: [ e, f, g ]") refl, tt),
      )
      ((refl, tt), (tt, tt)) (omega arith)
