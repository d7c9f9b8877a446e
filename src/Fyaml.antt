-- ===== src/Fyaml.antt =====
-- DataStruct/src/fyaml/fyaml.cc: `fyaml_loader::load_from_file`, which cuts a file into lines with their
-- levels. The bytes of the file are an argument. `none` is undefined behaviour: the byte before the
-- buffer. `Load` reads a line and its block into an object, and `Build` makes the tree of all lines.
pub mod Lines
pub mod Load
pub mod Build
mod Tests
use solutions.Base.{
  ℕ, zero, suc, ◌+◌, ◌-◌, Bool, true, false, not, ◌&&◌, Option, none, some, List, [], ◌∷◌, ◌++◌,
  ◌==◌, if◌then◌else◌, length, take, replicate, map, Bytes, ltb,
}

abbrev pub tab : ℕ
tab = 9

abbrev pub newline : ℕ
newline = 10

-- `buffer_size`.
abbrev pub buffer_size : ℕ
buffer_size = 2048

-- The bytes of the buffer below `buffer_size` after the read: those of the file, and zeros.
abbrev pub read_buffer : Bytes → Bytes
read_buffer file = take buffer_size file ++ replicate (buffer_size - length file) 0

-- An element of `m_levels` and the one of `m_confs` at the same index.
pub record Line : Type 0 where
  pub level : ℕ
  pub conf : Bytes

-- What a byte does to the last line.
pub put_byte : ℕ → Line → Line
put_byte c l =
    if c == tab
    then record l { level = l.level + 1 }
    else if c == newline
    then l
    else record l { conf = l.conf ++ c ∷ [] }

-- Whether a byte ends a line: a newline that does not follow another.
pub ends_line : ℕ → ℕ → Bool
ends_line prev c = (c == newline) && not (prev == newline)

-- The loop over the buffer from a byte on, with the byte before it and the last line: this line as it
-- becomes, and those behind it.
pub split_lines : ℕ → Bytes → Line → List Line
split_lines prev [] l = l ∷ []
split_lines prev (c ∷ cs) l =
    let ended = ends_line prev c in
    let next = if ended then record { level = 0; conf = [] } else put_byte c l in
    let rest = split_lines c cs next in if ended then l ∷ rest else rest

-- `m_levels[i]++` for all.
abbrev pub raise : Line → Line
raise l = record l { level = l.level + 1 }

-- The greatest level, from a first value on.
unfoldable pub max_level : ℕ → List Line → ℕ
max_level m [] = m
max_level m (l ∷ ls) = max_level (if ltb l.level m then m else l.level) ls

-- The loop over the whole buffer, and the raised levels. A newline at index 0 is compared with
-- `buffer[-1]`.
pub split_buffer : Bytes → Option (List Line)
split_buffer [] = some (record { level = 1; conf = [] } ∷ [])
split_buffer (c ∷ cs) =
    if c == newline
    then none
    else some (map raise (split_lines 0 (c ∷ cs) (record { level = 0; conf = [] })))

-- `fyaml_loader::load_from_file` of a new loader: its lines.
pub load_from_file : Bytes → Option (List Line)
load_from_file file = split_buffer (read_buffer file)

-- The size of `m_mapper`.
unfoldable pub mapper_size : List Line → ℕ
mapper_size [] = 1
mapper_size (l ∷ ls) = max_level (l.level - 1) (l ∷ ls) + 1
