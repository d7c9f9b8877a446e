-- ===== src/FilePath.antt =====
-- lsylar/src/File.cc and lsylar/include/File.h: the class `Path`, which splits a path into directory
-- names and makes it absolute. Paths are byte strings. The working directory belongs to the
-- operating system and is a parameter. `none` is undefined behaviour: an
-- `int` that overflows, the last byte of an empty string, `pop_back` or the last element of an empty vector.
pub mod Split
pub mod Resolve
pub mod Trailing
mod Tests
use solutions.Base.{
  ℕ, zero, suc, ◌+◌, ◌-◌, ◌^◌, ◌<◌, leb, Bool, true, false, not, ◌&&◌, Option, none, some, List, [],
  ◌∷◌, ◌++◌, ◌==◌, if◌then◌else◌, length, get_elem?, take, drop, Bytes, codes, same, ◌>>=◌,
}

-- `std::string::substr(pos, n)` with `pos` inside the string.
abbrev pub substr : Bytes → ℕ → ℕ → Bytes
substr s pos n = take n (drop pos s)

-- `s[i] == c`; the byte behind the last one is 0.
abbrev pub starts : ℕ → Bytes → Bool
starts c [] = c == 0
starts c (x ∷ s) = x == c

-- The last element of a vector or string, `v[v.size() - 1]`.
abbrev pub last_elem {ℓ} : {A : Type ℓ} → List A → Option A
last_elem xs = get_elem? xs (length xs - 1)

-- `vector::pop_back`.
unfoldable pub pop_back {ℓ} : {A : Type ℓ} → List A → Option (List A)
pop_back [] = none
pop_back (x ∷ xs) = some (take (length xs) (x ∷ xs))

-- `for (auto name_end : split_ins)`: the name before each split.
unfoldable pub names : Bytes → ℕ → List ℕ → List Bytes
names path beg [] = []
names path beg (e ∷ ends) = substr path beg (e - beg) ∷ names path (suc e) ends

module _ (sep : ℕ) where
  -- `for (int i = 1; i < path.size(); i++) if (path[i] == m_dir_split) split_ins.push_back(i);`
  -- over the bytes from index `i` on.
  unfoldable pub split_ins : ℕ → Bytes → List ℕ
  split_ins i [] = []
  split_ins i (c ∷ s) = if c == sep then i ∷ split_ins (suc i) s else split_ins (suc i) s

  -- `Path::getdirs`, whose `int i` overflows from 2 ^ 31 bytes on, without the vector that the names are appended to.
  unfoldable pub getdirs : Bytes → Option (List Bytes)
  unfolding split_ins names
  getdirs path = if leb (2 ^ 31) (length path) then none else (do
    let beg = if starts sep path then 1 else 0
    let inner = split_ins 1 (drop 1 path)
    c ← last_elem path
    some (names path beg (if c == sep then inner else inner ++ length path ∷ [])))

-- A path that `getdirs` can count the bytes of.
abbrev pub IsShort : Bytes → Type 0
IsShort s = length s < 2 ^ 31

abbrev pub slash : ℕ
slash = b'/'

-- `ss << "/" << dirname` for each name.
unfoldable pub render : List Bytes → Bytes
render [] = []
render (d ∷ ds) = slash ∷ (d ++ render ds)

-- The loop over `ori_dirs` in `Path::init`.
unfoldable pub walk : List Bytes → List Bytes → Option (List Bytes)
walk abs [] = some abs
walk abs (d ∷ ds) =
    if same d (codes ".")
    then walk abs ds
    else (if same d (codes "..") then pop_back abs else some (abs ++ d ∷ [])) >>= λ abs'.
        walk abs' ds

pub record DirPath : Type 0 where
  pub dir_split : ℕ
  pub ori_path : Bytes
  pub abs_path : Bytes
  pub current_dir : Bytes
  pub dirs : List Bytes
  pub name : Bytes

-- `Path::setSplit`.
abbrev pub set_split : ℕ → DirPath → DirPath
set_split val p = record p { dir_split = val }

-- `Path::isAbs`.
unfoldable pub is_abs : DirPath → Bool
is_abs p = starts slash p.ori_path

-- The value that `Path::init` gives `m_abs_path`; `cwd` is the result of `getcwd`.
unfoldable pub absolute : Bytes → DirPath → Option Bytes
unfolding is_abs
absolute cwd p = if is_abs p then some p.ori_path else (do
  abs_dirs ← getdirs p.dir_split cwd
  ori_dirs ← getdirs p.dir_split p.ori_path
  ds ← walk abs_dirs ori_dirs
  some (render ds))

-- `Path::init`.
unfoldable pub init : Bytes → DirPath → Option DirPath
init cwd p = do
  abs ← absolute cwd p
  new ← getdirs p.dir_split abs
  name ← last_elem (p.dirs ++ new)
  some (record p { abs_path = abs; current_dir = cwd; dirs = p.dirs ++ new; name = name })

-- `Path::reset`.
unfoldable pub reset : Bytes → Bytes → DirPath → Option DirPath
reset cwd path p =
    let ori = if length path == 0 then p.ori_path else path in
    init cwd (record p { ori_path = ori; dirs = [] })

-- `Path::Path(path, dir_split)`.
unfoldable pub new_path : Bytes → Bytes → ℕ → Option DirPath
new_path cwd path dir_split = reset cwd path (record {
  dir_split = dir_split;
  ori_path = [];
  abs_path = [];
  current_dir = [];
  dirs = [];
  name = [];
})
