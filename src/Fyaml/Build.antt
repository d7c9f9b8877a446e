-- ===== src/Fyaml/Build.antt =====
-- DataStruct/src/fyaml/fyaml.cc: `fyaml_loader::auto_make_data`, which builds the tree of a file's
-- lines, and `fyaml_data::to_string`. A pointer is an index of the heap, where the root is 0. `none` is
-- an exception of `load`, or undefined behaviour: a null pointer, an index outside a vector.
pub mod Roots
pub mod Nested
pub mod Print
pub mod Forests
pub mod Nodes
pub mod Flat
pub mod Whole
mod Tests
use solutions.Base.{
  fmap, ℕ, zero, suc, ◌+◌, ◌-◌, Bool, true, false, Option, none, some, List, [], ◌∷◌, ◌++◌, ◌==◌,
  leb, if◌then◌else◌, length, set, get_elem?, replicate, Bytes, codes, ◌>>=◌,
}
use solutions.Fyaml.{Line, tab, newline, mapper_size}
use solutions.Fyaml.Load.{
  Node, Heap, FyamlType, map, queue, scala, error, new_node, add_node, add_name, find_node, load,
}

-- The loop over `j`: the lines before the first that does not stand deeper, if there is such a line.
pub block_of : ℕ → List Line → Option (List Line)
block_of level [] = none
block_of level (l ∷ ls) =
    let rest = block_of level ls >>= λ b. some (l ∷ b) in
    if leb l.level level then some [] else rest

-- `level_cur_new` and the heap.
pub record Builder : Type 0 where
  pub cur : List (Option ℕ)
  pub heap : Heap

abbrev pub join_opt {ℓ} : {A : Type ℓ} → Option (Option A) → Option A
join_opt none = none
join_opt (some o) = o

-- `level_cur_new[level]` as a pointer that is used.
abbrev pub cur_at : ℕ → Builder → Option ℕ
cur_at level b = join_opt (get_elem? b.cur level)

-- A change of the object behind a pointer.
pub change : ℕ → (Node → Node) → Heap → Option Heap
change p f h = get_elem? h p >>= λ d. some (set h p (f d))

-- `root()->add_son(name)` for a new object of level 1.
pub add_to_root : ℕ → Bytes → Heap → Option Heap
add_to_root level name h = if level == 1 then change 0 (add_name name) h else some h

-- `level_cur_new[level] = new_data`.
pub set_cur : ℕ → ℕ → Builder → Option Builder
set_cur level p b =
    get_elem? b.cur level >>= λ _. some (record b { cur = set b.cur level (some p) })

-- The object of a line at `i` and its block: `load`, the two calls of `add_son`, and `level_cur_new`.
-- The level of a line is at least 1.
pub add_block : Line → List Line → ℕ → Builder → Option Builder
add_block l block i b = do
  (d, h₁) ← load l block i (new_node, b.heap)
  let p = length h₁
  parent ← cur_at (l.level - 1) b
  h₂ ← change parent (add_node d.name p) (h₁ ++ d ∷ [])
  h₃ ← add_to_root l.level d.name h₂
  set_cur l.level p (record b { heap = h₃ })

-- A round of the outer loop.
pub add_line : Line → List Line → ℕ → Builder → Option Builder
add_line l rest i b = elim (block_of l.level rest) [
  | none ↦ some b
  | some block ↦ add_block l block i b
]

pub add_lines : List Line → ℕ → Builder → Option Builder
add_lines [] i b = some b
add_lines (l ∷ ls) i b = add_line l ls i b >>= λ b'. add_lines ls (i + 1) b'

-- `fyaml_loader::auto_make_data` of the lines that were loaded: the heap.
pub auto_make_data : List Line → Option Heap
auto_make_data ls = do
  b ←
      add_lines ls 0
        (record { cur = some 0 ∷ replicate (mapper_size ls - 1) none; heap = new_node ∷ [] })
  some b.heap

-- `ss << m_sons[i]` with the separators of the loop.
unfoldable pub print_sons : List Bytes → Bytes
print_sons [] = []
print_sons (s ∷ []) = s ++ codes " ]"
print_sons (s ∷ t ∷ ss) = s ++ (codes ", " ++ print_sons (t ∷ ss))

-- The text of an object that is no scalar, behind the tabs, and whether `to_string` goes on to the sons.
-- The son of a map of one line is `m_sons[0]`.
unfoldable pub print_rest : Node → Option (Bytes × Bool)
print_rest d =
    let head = d.name ++ codes ": " in
    let one : Option Bytes = elim d.kind [
      | map ↦ get_elem? d.sons 0
      | _ ↦ some (codes "[ " ++ print_sons d.sons)
    ] in
    let line = fmap (λ (t : Bytes). (head ++ (t ++ newline ∷ []), false)) one in
    if d.len == 1 then line else some (head ++ newline ∷ [], true)

-- What `to_string` writes before the sons of an object, and whether it goes on to them.
unfoldable pub print_head : Node → Option (Bytes × Bool)
print_head d =
    let tabs = replicate (d.level - 1) tab in
    let text : Option (Bytes × Bool) = elim d.kind [
      | scala ↦ some (d.name ++ newline ∷ [], false)
      | _ ↦ print_rest d
    ] in
    let behind = fmap (λ (r : Bytes × Bool). (tabs ++ r.0, r.1)) text in
    if d.level == 0 then some ([], true) else behind

-- `fyaml_data::to_string`, with the calls left: of an object, and of the sons of one.
pub print_names : (ℕ → Option Bytes) → List (Bytes × ℕ) → List Bytes → Option Bytes
print_names print nodes [] = some []
print_names print nodes (s ∷ ss) = do
  p ← find_node s nodes
  t ← print p
  u ← print_names print nodes ss
  some (t ++ u)

pub to_string : ℕ → Heap → ℕ → Option Bytes
to_string zero h p = none
to_string (suc f) h p = do
  d ← get_elem? h p
  (text, on) ← print_head d
  elim on [
    | false ↦ some text
    | true ↦ fmap (λ (t : Bytes). text ++ t) (print_names (to_string f h) d.nodes d.sons)
  ]
