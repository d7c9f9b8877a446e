-- ===== src/Fyaml/Load.antt =====
-- DataStruct/src/fyaml/fyaml.cc and fyaml.h: `fyaml_data`, its `load_line` and its `load`. The objects
-- stand in a heap, the list in which a pointer is an index. `none` is an exception that `substr` throws,
-- or undefined behaviour: a byte behind the end of a line. A line fits an `int`.
pub mod Words
pub mod Queues
pub mod Blocks
pub mod Reads
mod Tests
use solutions.Base.{
  ℕ, zero, suc, ◌+◌, ◌-◌, Bool, true, false, not, ◌&&◌, ◌||◌, Option, none, some, List, [], ◌∷◌,
  ◌++◌, ◌==◌, ltb, if◌then◌else◌, length, take, drop, get_or, Bytes, codes, same, ◌>>=◌,
}
use solutions.Fyaml.{Line}

-- The first index from `i` on whose byte satisfies the test; the bytes are those from `i` on.
unfoldable pub find_in : (ℕ → Bool) → ℕ → Bytes → Option ℕ
find_in p i [] = none
find_in p i (c ∷ s) = let rest = find_in p (suc i) s in if p c then some i else rest

-- `find`, `find_first_of` and `find_first_not_of` from a position on; `none` is `npos`.
abbrev pub find_from : (ℕ → Bool) → Bytes → ℕ → Option ℕ
find_from p s pos = find_in p pos (drop pos s)

-- `s_name_follows`.
abbrev pub name_follows : Bytes
name_follows = codes "abcdefghijklmnopqrstuvwxyz_1234567890"

unfoldable pub has_byte : Bytes → ℕ → Bool
has_byte [] c = false
has_byte (b ∷ s) c = c == b || has_byte s c

abbrev pub follows : ℕ → Bool
follows c = has_byte name_follows c

-- `fyaml_type::type`.
pub data FyamlType : Type 0 where
  map queue scala error : FyamlType

-- `fyaml_data`; `nodes` is `m_son_nodes`.
pub record Node : Type 0 where
  pub name : Bytes
  pub level : ℕ
  pub kind : FyamlType
  pub sons : List Bytes
  pub line : ℕ
  pub len : ℕ
  pub nodes : List (Bytes × ℕ)

abbrev pub Heap : Type 0
Heap = List Node

-- `fyaml_data::fyaml_data()` and `fyaml_data(name, location, level)`.
abbrev pub new_node : Node
new_node = record {
  name = codes "root";
  level = 0;
  kind = error;
  sons = [];
  line = 0;
  len = 0;
  nodes = [];
}

abbrev pub new_scala : Bytes → ℕ → ℕ → Node
new_scala name location level = record {
  name = name;
  level = level;
  kind = scala;
  sons = [];
  line = location;
  len = 1;
  nodes = [];
}

-- `m_son_nodes.find`.
unfoldable pub find_node : Bytes → List (Bytes × ℕ) → Option ℕ
find_node name [] = none
find_node name ((n, p) ∷ ns) = if same n name then some p else find_node name ns

-- `add_son(name, addr)`: `map::insert` keeps the node that is there.
unfoldable pub add_node : Bytes → ℕ → Node → Node
add_node name p d = elim (find_node name d.nodes) [
  | none ↦ record d { nodes = d.nodes ++ (name, p) ∷ [] }
  | some _ ↦ d
]

-- `add_son(name)`.
abbrev pub add_name : Bytes → Node → Node
add_name name d = record d { sons = d.sons ++ name ∷ [] }

-- A value of a line: its name and a new scala node.
unfoldable pub add_scala : ℕ → ℕ → Bytes → Node × Heap → Node × Heap
add_scala location level name (d, h) =
    (add_node name (length h) (add_name name d), h ++ new_scala name location (level + 1) ∷ [])

unfoldable pub add_scalas : ℕ → ℕ → List Bytes → Node × Heap → Node × Heap
add_scalas location level [] r = r
add_scalas location level (n ∷ ns) r = add_scalas location level ns (add_scala location level n r)

-- `line_str.substr(beg, end - beg)` where `end` may be `npos`, whose difference is more than any length.
abbrev pub piece : Bytes → ℕ → Option ℕ → Bytes
piece s beg none = drop beg s
piece s beg (some end) = take (end - beg) (drop beg s)

-- `substr(0, sp_pos)`.
abbrev pub name_before : Bytes → Option ℕ → Bytes
name_before s none = s
name_before s (some sp) = take sp s

-- The value behind the colon at `sp`. Where the second quote is missing, and where the value reaches to
-- the end, the rest of the line is taken; where there is no value, `substr` throws.
unfoldable pub map_value : Bytes → ℕ → Option Bytes
map_value s sp = elim (find_from (λ c. c == b'"') s sp) [
  | some beg ↦ some (elim (find_from (λ c. c == b'"') s (beg + 1)) [
    | none ↦ drop beg s
    | some end ↦ piece s beg (some (end + 1))
  ])
  | none ↦ elim (find_from follows s sp) [
    | none ↦ none
    | some beg ↦ some (piece s beg (find_from (λ c. not (follows c)) s beg))
  ]
]

-- The loop over the values of a queue, with the rounds left. Without a byte that ends the name, the next
-- test reads `line_str[npos]`. The byte behind the last one is 0.
unfoldable pub queue_names : ℕ → Bytes → ℕ → Option ℕ → Option (List Bytes)
queue_names zero s beg end = none
queue_names (suc f) s beg none = none
queue_names (suc f) s beg (some end) =
    let rest = find_from (λ c. not (follows c)) s beg >>= λ end'.
    queue_names f s (end' + 2) (some end') >>= λ names. some (piece s beg (some end') ∷ names) in
    if get_or s end 0 == b',' then rest else some []

-- The branches of `load_line` for a map and for a queue, by where the bracket stands.
unfoldable pub load_values : Bytes → ℕ → ℕ → ℕ → Node × Heap → Option ℕ → Option (Node × Heap)
load_values s location level sp (d, h) none = do
  value ← map_value s sp
  let (d', h') = add_scala location level value (record d { kind = map }, h)
  some (record d' { name = take sp s }, h')
load_values s location level sp (d, h) (some q) = do
  names ← queue_names (length s + 1) s (q + 2) (find_from (λ c. not (follows c)) s (q + 2))
  let (d', h') = add_scalas location level names (record d { kind = queue }, h)
  some (record d' { name = take sp s }, h')

-- The branches by where the colon stands.
unfoldable pub load_parts : Bytes → ℕ → ℕ → Node × Heap → Option ℕ → Option (Node × Heap)
load_parts s location level (d, h) none =
    let sp = find_from (λ c. not (follows c)) s 0 in
    some (record d { kind = scala; name = name_before s sp }, h)
load_parts s location level r (some sp) =
    load_values s location level sp r (find_from (λ c. c == b'[') s 0)

-- `fyaml_data::load_line`.
unfoldable pub load_line : Bytes → ℕ → ℕ → Node × Heap → Option (Node × Heap)
unfolding load_parts load_values
load_line s location level (d, h) =
    load_parts s location level (record d { level = level; line = location; len = 1 }, h)
      (find_from (λ c. c == b':') s 0)

-- The name of a line, its text before the colon.
abbrev pub line_name : Bytes → Bytes
line_name s = name_before s (find_from (λ c. c == b':') s 0)

-- The loop of `load`: the names of the lines one level below.
unfoldable pub son_names : ℕ → List Line → List Bytes
son_names level [] = []
son_names level (l ∷ ls) =
    let rest = son_names level ls in if l.level == level + 1 then line_name l.conf ∷ rest else rest

-- The type that the number of these names gives.
unfoldable pub kind_of : ℕ → FyamlType → FyamlType
kind_of n k = if n == 1 then map else if ltb 1 n then queue else k

-- What `load` does behind the test for one line, by where the colon stands.
unfoldable pub load_block : Line → List Line → ℕ → Node × Heap → Option ℕ → Node × Heap
load_block l block beg (d, h) none = (
  record d { line = beg; len = length block + 1; level = l.level; kind = scala; name = l.conf },
  h,
)
load_block l block beg (d, h) (some sp) =
    let names = son_names l.level block in
    (
      record d {
        line = beg;
        len = length block + 1;
        level = l.level;
        name = take sp l.conf;
        sons = d.sons ++ names;
        kind = kind_of (length names) d.kind;
      },
      h,
    )

-- The call of `load_line` for one line.
unfoldable pub load_one : Line → List Line → ℕ → Node × Heap → Option (Node × Heap)
load_one l [] beg r = load_line l.conf beg l.level r
load_one l (_ ∷ _) beg r = some r

-- `fyaml_data::load` of the line `l` at `beg` and the lines of its block behind it.
unfoldable pub load : Line → List Line → ℕ → Node × Heap → Option (Node × Heap)
unfolding load_one load_block
load l block beg r = do
  r' ← load_one l block beg r
  some (load_block l block beg r' (find_from (λ c. c == b':') l.conf 0))
