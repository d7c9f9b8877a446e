-- ===== src/Mleak.antt =====
-- lsylar/include/mleak.h: the hooks around `malloc` and `free` that keep a file for every pointer that is
-- allocated. A null pointer is `none`; the result of `malloc` is an argument. The file system is that of
-- FileSystem with the contents of files: `write` is `Entry::reopen("w")`, `write` and `close`, with
-- the number of bytes that `fwrite` took, or `none` where `fopen` gave no stream, and `remove` is the C
-- function. `none` as a result is undefined behaviour: that of `Path`, and a write to a null stream.
-- A short write and a failed `remove` are only logged.
pub mod Reports
pub mod Interleaved
mod Tests
use solutions.Base.{
  ℕ, ◌≡◌, ◌≢◌, Bool, true, false, Option, none, some, List, [], ◌∷◌, ◌++◌, if◌then◌else◌, Bytes,
  take, codes, ◌>>=◌,
}
use solutions.FilePath.{slash, new_path}
use solutions.FileSystem.{Fs, mkdirs}

-- The contents of files.
pub record Files (fs : Fs) : Type 0 where
  pub read : Bytes → fs.State → Option Bytes
  pub write : Bytes → Bytes → fs.State → Option ℕ × fs.State
  pub remove : Bytes → fs.State → Bool × fs.State

-- What these are documented to do.
pub record IsFiles (fs : Fs) (io : Files fs) : Type 0 where
  -- A file that was written holds what `fwrite` took of the text, and other files stay.
  pub written :
      (p t : Bytes) (n : ℕ) (s : fs.State)
      → (io.write p t s).0 ≡ some n
      → io.read p (io.write p t s).1 ≡ some (take n t)
  pub written_others :
      (p q t : Bytes) (s : fs.State) → q ≢ p → io.read q (io.write p t s).1 ≡ io.read q s
  -- A file that was removed is not there. A call that fails removes nothing, and other files stay.
  pub removed :
      (p : Bytes) (s : fs.State) → (io.remove p s).0 ≡ true → io.read p (io.remove p s).1 ≡ none
  pub not_removed :
      (p : Bytes) (s : fs.State)
      → (io.remove p s).0 ≡ false
      → io.read p (io.remove p s).1 ≡ io.read p s
  pub removed_others :
      (p q : Bytes) (s : fs.State) → q ≢ p → io.read q (io.remove p s).1 ≡ io.read q s
  -- A new directory changes no file.
  pub made_others : (p q : Bytes) (s : fs.State) → io.read q (fs.mkdir p s).1 ≡ io.read q s

-- `__MEM_LOG_DIR` of a project.
abbrev pub mem_log_dir : Bytes → Bytes
mem_log_dir project = codes "memcheck/mleak/" ++ (project ++ codes "/")

-- `ss << ptr` is a parameter.
module _ (show : ℕ → Bytes) where
  -- `log_file_name`.
  abbrev pub log_file_name : Bytes → ℕ → Bytes
  log_file_name dir p = dir ++ (show p ++ codes ".mem")

  -- `log.str()`.
  abbrev pub log_text : ℕ → Bytes → Bool → Bytes
  log_text p desc is_malloc =
      show p
      ++ (codes " "
          ++ (codes "[ "
              ++ ((if is_malloc then b'+' else b'-') ∷ codes " ] --> " ++ (desc ++ codes "\n"))))

-- A call that a program makes, with the result of `malloc`.
pub data HookCall : Type 0 where
  malloc free : Option ℕ → Bytes → HookCall

module _ (fs : Fs) (io : Files fs) (show : ℕ → Bytes) (cwd dir : Bytes) where
  -- `write_check_log`.
  pub write_check_log : Option ℕ → Bytes → Bool → fs.State → Option fs.State
  write_check_log none desc is_malloc s = some s
  write_check_log (some p) desc true s = do
    (_, s₁) ← mkdirs fs cwd dir s
    _ ← new_path cwd (log_file_name show dir p) slash
    let (opened, s₂) = io.write (log_file_name show dir p) (log_text show p desc true) s₁
    _ ← opened
    some s₂
  write_check_log (some p) desc false s = some (io.remove (log_file_name show dir p) s).1

  -- `malloc_hook` where `malloc` gives `rt`.
  pub malloc_hook : Option ℕ → Bytes → fs.State → Option (Option ℕ × fs.State)
  malloc_hook rt desc s = write_check_log rt desc true s >>= λ s'. some (rt, s')

  -- `free_hook`; `free` itself is left out.
  pub free_hook : Option ℕ → Bytes → fs.State → Option fs.State
  free_hook none desc s = some s
  free_hook (some p) desc s = write_check_log (some p) desc false s

  pub call : HookCall → fs.State → Option fs.State
  call (malloc rt desc) s = malloc_hook rt desc s >>= λ r. some r.1
  call (free p desc) s = free_hook p desc s

  pub calls : List HookCall → fs.State → Option fs.State
  calls [] s = some s
  calls (c ∷ cs) s = call c s >>= calls cs
