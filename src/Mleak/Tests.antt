-- ===== src/Mleak/Tests.antt =====
-- Two threads that share a pointer.
use solutions.FilePath.{
  getdirs, split_ins, names, render, walk, pop_back, new_path, reset, init, absolute, is_abs,
}
use solutions.FileSystem.{Fs}
use solutions.Mleak.{
  log_text, write_check_log, Files, IsFiles, HookCall, malloc, free, calls, mem_log_dir,
  log_file_name,
}
use solutions.FileSystem.{mkdirs, make_dirs, is_dir}
use solutions.Mleak.Reports.{
  take_all, lookup, Reports, IsTaken, HaveNames, calls-Reports, after, erase,
}
use solutions.Base.{
  sym, length, ◌∙◌, ℕ, ◌≢◌, ap, Option, some, none, Bytes, codes, same, same_refl, same→eq,
  Bool-cases, inl, inr, if◌then◌else◌, get_or, false, ◌≡◌, refl, ◌||◌, true, List, [], ◌∷◌, Steps,
  here, next,
}
use solutions.Mleak.Interleaved.{
  Memory, Step, no_memory, take, write, give, remove, no_memory, member, remove_all, remove_one,
  Steps-logged,
}

-- A file system whose directories are all there.
abbrev Contents : Type 0
Contents = Bytes → Option Bytes

abbrev put : Bytes → Option Bytes → Contents → Contents
put p t s q = if same q p then t else s q

abbrev disk : Fs
disk = record { State = Contents; stat = λ p s. some true; mkdir = λ p s. (false, s) }

abbrev disk_files : Files disk
disk_files = record {
  read = λ p s. s p;
  write = λ p t s. (some (length t), put p (some t) s);
  remove = λ p s. (true, put p none s);
}

put_self : (p : Bytes) (t : Option Bytes) (s : Contents) → put p t s p ≡ t
put_self p t s = rw (same_refl p) refl

put_other : (p q : Bytes) (t : Option Bytes) (s : Contents) → q ≢ p → put p t s q ≡ s q
put_other p q t s n = elim (Bool-cases (same q p)) [
  | inl e ↦ absurd (n (same→eq q p e))
  | inr e ↦ rw e refl
]

disk-IsFiles : IsFiles disk disk_files
disk-IsFiles = record {
  written = λ p t n s h. put_self p (some t) s ∙ ap some (sym (take_all t n h));
  written_others = λ p q t s. put_other p q (some t) s;
  removed = λ p s h. put_self p none s;
  not_removed = λ p s h. absurd (cc h);
  removed_others = λ p q s. put_other p q none s;
  made_others = λ p q s. refl;
}

-- A pointer as one byte.
abbrev as_byte : ℕ → Bytes
as_byte p = p ∷ []

abbrev directory : Bytes
directory = mem_log_dir (codes "default")

names_differ :
    (p q : ℕ) → log_file_name as_byte directory p ≡ log_file_name as_byte directory q → p ≡ q
names_differ p q e = ap (λ s. get_or s 23 0) e

abbrev some_calls : List HookCall
some_calls =
    malloc (some 64) (codes "a.cc > f:1")
    ∷ malloc (some 65) (codes "a.cc > f:2")
    ∷ malloc none (codes "a.cc > f:3")
    ∷ free (some 64) (codes "a.cc > f:4")
    ∷ free none (codes "a.cc > f:5")
    ∷ []

directory-IsTaken : IsTaken (codes "/tt") directory
unfolding new_path reset init absolute is_abs getdirs split_ins names render walk pop_back
directory-IsTaken = (_, refl)

calls-HaveNames : HaveNames as_byte (codes "/tt") directory some_calls
unfolding new_path reset init absolute is_abs getdirs split_ins names render walk pop_back
calls-HaveNames = ((_, refl), ((_, refl), tt))

calls-Reports_example :
    (s : Contents) × (calls disk disk_files as_byte (codes "/tt") directory some_calls (λ p. none)
      ≡ some s)
    × Reports disk disk_files as_byte (codes "/tt") directory ((65, codes "a.cc > f:2") ∷ []) s
unfolding after erase lookup
calls-Reports_example =
    calls-Reports disk disk_files as_byte (codes "/tt") directory disk-IsFiles names_differ
      (λ p t s s' failed m. refl) (λ p s n. refl) directory-IsTaken some_calls [] (λ p. none)
      calls-HaveNames (λ p. refl)

-- A pointer that is freed, and given to another thread before its file is removed.
abbrev Logs : Contents → Contents → Type 0
Logs s t =
    write_check_log disk disk_files as_byte (codes "/tt") directory (some 64) [] true s ≡ some t

abbrev file_64 : Bytes
file_64 = log_file_name as_byte directory 64

abbrev text_64 : Option Bytes
text_64 = some (log_text as_byte 64 [] true)

abbrev once : Contents
once = put file_64 text_64 (λ p. none)

abbrev twice : Contents
twice = put file_64 text_64 once

logged_once : Logs (λ p. none) once
unfolding write_check_log mkdirs make_dirs is_dir new_path reset init absolute is_abs getdirs
    split_ins names render walk pop_back
logged_once = refl

logged_twice : Logs once twice
unfolding write_check_log mkdirs make_dirs is_dir new_path reset init absolute is_abs getdirs
    split_ins names render walk pop_back
logged_twice = refl

abbrev reused : Memory disk
reused = record { live = 64 ∷ []; files = twice; writing = []; removing = 64 ∷ []; failed = [] }

path_to_reused :
    Steps (Step disk disk_files as_byte (codes "/tt") directory) (no_memory disk (λ p. none)) reused
unfolding member remove_all
path_to_reused =
    next
      (next
        (next (next (next here (take 64 refl)) (write 64 [] once refl logged_once))
          (give 64 refl refl))
        (take 64 refl))
      (write 64 [] twice refl logged_twice)

-- Then the first thread removes the file: the pointer is live and has none.
missed :
    (m : Memory disk) × Steps
      (Step disk disk_files as_byte (codes "/tt") directory)
      (no_memory disk (λ p. none))
      m
    × (member 64 m.live ≡ true)
    × (m.files file_64 ≡ none)
unfolding remove_all remove_one member write_check_log
missed = (_, next path_to_reused (remove 64 [] (put file_64 none twice) refl refl), refl, refl)

Steps-logged_example :
    (member 64 reused.live || (member 64 reused.removing || member 64 reused.failed)) ≡ true
unfolding member
Steps-logged_example =
    Steps-logged disk disk_files as_byte (codes "/tt") directory disk-IsFiles names_differ
      (λ p. none) (λ p. refl) reused path_to_reused 64 (λ e. cc)
