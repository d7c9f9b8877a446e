-- ===== src/FileEntry.antt =====
-- lsylar/src/File.cc and lsylar/include/File.h: the class `Entry`, a file through a C stream, and `Data`.
-- The disk holds the contents of the files by their paths. Whether `fopen` gives a stream, and how many
-- bytes `fwrite` and `fread` take at most, are arguments. `none` is undefined behaviour: a null
-- stream, a read right behind a write or a write right behind a read that is not at the end, and that
-- of `Path`.
pub mod Contents
mod Tests
use solutions.Base.{
  ℕ, ◌+◌, ◌-◌, Bool, true, false, Option, none, some, List, [], ◌∷◌, ◌++◌, ◌==◌, leb, if◌then◌else◌,
  length, take, drop, replicate, Bytes, same, ◌>>=◌, ℤ, int_of, ◌%◌, ◌^◌,
}
use solutions.FilePath.{DirPath, slash, new_path}

abbrev pub Disk : Type 0
Disk = Bytes → Option Bytes

-- The modes that the code opens files with: "a+" and "w".
pub data Mode : Type 0 where
  append truncate : Mode

-- What a stream did since it was opened or set to a position.
pub data Last : Type 0 where
  nothing read_some wrote : Last

pub record Stream : Type 0 where
  pub path : Bytes
  pub mode : Mode
  pub at : ℕ
  pub last : Last

-- `Data`: `m_file_path` and `m_exit`.
pub record Data : Type 0 where
  pub file_path : Bytes
  pub exit : Bool

-- `Entry`: `m_stream`, `m_pos`, `m_path` and `m_data`.
pub record Entry : Type 0 where
  pub stream : Option Stream
  pub pos : ℕ
  pub path : DirPath
  pub data_of : Data

abbrev is_there : Option Bytes → Bool
is_there none = false
is_there (some _) = true

-- `Data::reset`.
pub reset_data : Bytes → Disk → Data → Data
reset_data path disk d = record {
  file_path = if length path == 0 then d.file_path else path;
  exit = is_there (disk path);
}

-- `Entry::Entry(path)`.
pub new_entry : Bytes → Bytes → Disk → Option Entry
new_entry cwd path disk = do
  p ← new_path cwd path slash
  some (record {
    stream = none;
    pos = 0;
    path = p;
    data_of = reset_data p.ori_path disk (record { file_path = []; exit = false });
  })

-- `Entry::resetPath` and `Entry::resetData`: a stream that is open stays.
pub reset_path : Bytes → Bytes → Entry → Option Entry
reset_path cwd path e = new_path cwd path slash >>= λ p. some (record e { path = p })

abbrev pub reset_data_of : Bytes → Disk → Entry → Entry
reset_data_of path disk e = record e { data_of = reset_data path disk e.data_of }

abbrev pub put : Bytes → Bytes → Disk → Disk
put path text disk q = if same q path then some text else disk q

abbrev pub contents : Bytes → Disk → Bytes
contents path disk = elim (disk path) [ none ↦ [] | some c ↦ c ]

-- What `fopen` makes of the file.
abbrev pub opened : Mode → Bytes → Bytes
opened append c = c
opened truncate c = []

-- `Entry::reopen`.
pub reopen : Mode → Bool → Entry → Disk → Bool × Entry × Disk
reopen mode false e disk = (false, record e { stream = none }, disk)
reopen mode true e disk =
    let path = e.path.ori_path in
    let stream : Stream = record { path = path; mode = mode; at = 0; last = nothing } in
    (true, record e { stream = some stream }, put path (opened mode (contents path disk)) disk)

-- `Entry::close`.
pub close : Entry → Entry
close e = record e { stream = none }

-- `Entry::getPos` and `Entry::setPos`.
pub get_pos : Entry → Option (ℕ × Entry)
get_pos e = e.stream >>= λ s. some (s.at, record e { pos = s.at })

pub set_pos : ℕ → Entry → Option Entry
set_pos pos e = do
  s ← e.stream
  (_, e') ← get_pos (record e { stream = some (record s { at = pos; last = nothing }) })
  some e'

abbrev pub seek : ℕ → Entry → Option Entry
seek pos e = if pos == 0 then some e else set_pos pos e

-- A write into a file at a position; zeros fill what lies between.
abbrev pub overwrite : Bytes → ℕ → Bytes → Bytes
overwrite c at t = take at c ++ (replicate (at - length c) 0 ++ (t ++ drop (at + length t) c))

-- `fwrite` of a text, of which the stream takes `n` bytes at most, and what it leaves of the stream.
pub fwrite : ℕ → Bytes → Stream → Disk → Option (Bytes × Stream × Disk)
fwrite n text s disk =
    let t = take n text in
    let c = contents s.path disk in
    let added : Stream × Disk =
      (record s { at = length c + length t; last = wrote }, put s.path (c ++ t) disk) in
    let into : Stream × Disk =
      (record s { at = s.at + length t; last = wrote }, put s.path (overwrite c s.at t) disk) in
    let both : Stream × Disk = elim s.mode [ append ↦ added | truncate ↦ into ] in
    let written : Bytes × Stream × Disk = (t, both.0, both.1) in
    elim s.last [
      | read_some ↦ if leb (length c) s.at then some written else none
      | _ ↦ some written
    ]

-- `fread`: a stream that was opened with "w" gives nothing.
pub fread : ℕ → ℕ → Stream → Disk → Option (Bytes × Stream)
fread n size s disk =
    let got : Bytes = elim s.mode [
      | append ↦ take n (take size (drop s.at (contents s.path disk)))
      | truncate ↦ []
    ] in
    elim s.last [
      | wrote ↦ none
      | _ ↦ some (got, record s { at = s.at + length got; last = read_some })
    ]

-- `Entry::write` and `Entry::read`. The position 0 is no position, and a result of at most 0 is only
-- printed.
pub write : ℕ → Bytes → ℕ → Entry → Disk → Option (ℤ × Entry × Disk)
write n t pos e disk = do
  e₁ ← seek pos e
  s ← e₁.stream
  (taken, s', disk') ← fwrite n t s disk
  some (int_of (length taken), record e₁ { stream = some s' }, disk')

pub read : ℕ → ℕ → ℕ → Entry → Disk → Option (ℤ × Bytes × Entry)
read n size pos e disk = do
  e₁ ← seek pos e
  s ← e₁.stream
  (got, s') ← fread n size s disk
  some (int_of (length got), got, record e₁ { stream = some s' })
