-- ===== src/Mleak/Reports.antt =====
-- What the log directory reports, for one thread.
use solutions.Base.{
  ℕ, ◌≡◌, ◌≢◌, refl, ◌∙◌, inl, inr, true, Option, none, some, List, [], ◌∷◌, ◌++◌, ◌==◌,
  if◌then◌else◌, fmap, Bytes, arith, Bool-cases, Option-cases, take, length, ap, sym,
}
use mathlib.Core.Option.{some-injective}
use solutions.FilePath.{DirPath, slash, new_path}
use solutions.FileSystem.{Fs, mkdirs, make_dirs, is_dir}
use solutions.Mleak.{
  Files, IsFiles, log_file_name, log_text, write_check_log, malloc_hook, free_hook, HookCall,
  malloc, free, call, calls,
}

-- The pointers that are live, with what their `malloc_hook` was told.
abbrev pub Live : Type 0
Live = List (ℕ × Bytes)

unfoldable pub lookup : ℕ → Live → Option Bytes
lookup p [] = none
lookup p ((q, d) ∷ l) = let rest = lookup p l in if p == q then some d else rest

unfoldable pub erase : ℕ → Live → Live
erase p [] = []
erase p ((q, d) ∷ l) = let rest = erase p l in if p == q then rest else (q, d) ∷ rest

unfoldable pub after : List HookCall → Live → Live
after [] l = l
after (malloc none d ∷ cs) l = after cs l
after (malloc (some p) d ∷ cs) l = after cs ((p, d) ∷ l)
after (free none d ∷ cs) l = after cs l
after (free (some p) d ∷ cs) l = after cs (erase p l)

lookup-erase : (p q : ℕ) (l : Live) → lookup q (erase p l) ≡ (if q == p then none else lookup q l)
unfolding lookup erase
lookup-erase p q [] = ground arith
lookup-erase p q ((r, d) ∷ l) = ground (arith, lookup-erase p q l)

take_whole : (t : Bytes) → take (length t) t ≡ t
take_whole [] = refl
take_whole (c ∷ t) = ap (◌∷◌ c) (take_whole t)

pub take_all : (t : Bytes) (n : ℕ) → ◌≡◌ {A = Option ℕ} (some (length t)) (some n) → take n t ≡ t
take_all t n h = ap (λ k. take k t) (sym (some-injective (length t) n h)) ∙ take_whole t

-- A path that `Path` takes.
abbrev pub IsTaken : Bytes → Bytes → Type 0
IsTaken cwd path = (d : DirPath) × (new_path cwd path slash ≡ some d)

module _ (show : ℕ → Bytes) (cwd dir : Bytes) where
  -- The files of the calls have such paths.
  abbrev pub HaveNames : List HookCall → Type 0
  HaveNames [] = Unit
  HaveNames (malloc (some p) d ∷ cs) = IsTaken cwd (log_file_name show dir p) × HaveNames cs
  HaveNames (_ ∷ cs) = HaveNames cs

module _ (fs : Fs) (io : Files fs) (show : ℕ → Bytes) (cwd dir : Bytes) where
  -- The directory holds the file of each live pointer, with its text, and no other.
  abbrev pub Reports : Live → fs.State → Type 0
  Reports l s =
      (p : ℕ)
      → io.read (log_file_name show dir p) s ≡ fmap (λ d. log_text show p d true) (lookup p l)

  -- `fopen` gives a stream behind `mkdirs`, and `fwrite` takes the whole text.
  abbrev pub Opens : Type 0
  Opens =
      (p : ℕ) (t : Bytes) (s s' : fs.State) (failed : List Bytes)
      → mkdirs fs cwd dir s ≡ some (failed, s')
      → (io.write (log_file_name show dir p) t s').0 ≡ some (length t)

  -- `remove` succeeds on a file that is there.
  abbrev pub Removes : Type 0
  Removes =
      (p : ℕ) (s : fs.State)
      → io.read (log_file_name show dir p) s ≢ none
      → (io.remove (log_file_name show dir p) s).0 ≡ true

  module _ (good : IsFiles fs io) where
    pub make_dirs-read :
        (path : Bytes) (ds : List Bytes) (q : Bytes) (s : fs.State)
        → io.read q (make_dirs fs path ds s).1 ≡ io.read q s
    unfolding make_dirs
    make_dirs-read path [] q s = refl
    make_dirs-read path (d ∷ ds) q s = elim (Bool-cases (is_dir fs (path ++ slash ∷ d) s)) [
      | inl e ↦ rw e (make_dirs-read (path ++ slash ∷ d) ds q s)
      | inr e ↦ rw e (
          make_dirs-read (path ++ slash ∷ d) ds q (fs.mkdir (path ++ slash ∷ d) s).1
          ∙ good.made_others (path ++ slash ∷ d) q s)
    ]

    module _ (injective : (p q : ℕ) → log_file_name show dir p ≡ log_file_name show dir q → p ≡ q)
        (opens : Opens) (removes : Removes) (made : IsTaken cwd dir) where
      write_check_log-Reports :
          (p : ℕ) (d : Bytes) (l : Live) (s : fs.State)
          → IsTaken cwd (log_file_name show dir p)
          → Reports l s
          → (s' : fs.State) × (write_check_log fs io show cwd dir (some p) d true s ≡ some s')
            × Reports ((p, d) ∷ l) s'
      unfolding write_check_log lookup mkdirs
      write_check_log-Reports p d l s (e, path) h =
          let (d₀, there) = made in
          let (failed, s₁) = make_dirs fs [] d₀.dirs s in
          let text = log_text show p d true in
          let file = log_file_name show dir p in
          let dirs : mkdirs fs cwd dir s ≡ some (failed, s₁) = rw there refl in
          let opened = opens p text s s₁ failed dirs in
          (
            (io.write file text s₁).1,
            rw (there, path, opened) refl,
            λ q. elim (Bool-cases (q == p)) [
              | inl x ↦
                  let same : q ≡ p = ground (arith, x) in
                  rw (x, same)
                    (good.written file text (length text) s₁ opened ∙ ap some (take_whole text))
              | inr x ↦
                  let other : q ≢ p = λ z. ground (arith, x, z) in
                  rw x (
                    good.written_others file (log_file_name show dir q) text s₁
                      (λ z. other (injective q p z))
                    ∙ make_dirs-read [] d₀.dirs (log_file_name show dir q) s
                    ∙ h q)
            ],
          )

      -- The file of a pointer is gone behind `remove`, whether or not it was there.
      gone :
          (p : ℕ) (s : fs.State)
          → io.read (log_file_name show dir p) (io.remove (log_file_name show dir p) s).1 ≡ none
      gone p s =
          let file = log_file_name show dir p in
          elim (Bool-cases (io.remove file s).0) [
            | inl y ↦ good.removed file s y
            | inr y ↦ elim (Option-cases (io.read file s)) [
              | inl z ↦ good.not_removed file s y ∙ z
              | inr (t, z) ↦ let yes = removes p s (λ e. absurd (cc (z, e))) in absurd (cc (y, yes))
            ]
          ]

      removed-Reports :
          (p : ℕ) (l : Live) (s : fs.State)
          → Reports l s
          → Reports (erase p l) (io.remove (log_file_name show dir p) s).1
      removed-Reports p l s h q = elim (Bool-cases (q == p)) [
        | inl x ↦
            let same : q ≡ p = ground (arith, x) in rw (lookup-erase p q l, x, same) (gone p s)
        | inr x ↦
            let other : q ≢ p = λ z. ground (arith, x, z) in
            rw (lookup-erase p q l, x)
              (good.removed_others (log_file_name show dir p) (log_file_name show dir q) s
                  (λ z. other (injective q p z))
                ∙ h q)
      ]

      -- Any calls of the hooks, in one thread, from a directory that reports the live pointers: they
      -- come to an end, and the directory then holds a file for each pointer that is live, with the
      -- text of its last `malloc_hook`, and no other. This is so where `fopen` gives a stream behind
      -- `mkdirs` and `fwrite` takes the whole text, where `remove` succeeds on a file that is there,
      -- where `Path` takes the paths, and where pointers have different file names.
      pub calls-Reports :
          (cs : List HookCall) (l : Live) (s : fs.State)
          → HaveNames show cwd dir cs
          → Reports l s
          → (s' : fs.State) × (calls fs io show cwd dir cs s ≡ some s') × Reports (after cs l) s'
      unfolding calls call malloc_hook free_hook write_check_log after
      calls-Reports [] l s n h = (s, refl, h)
      calls-Reports (malloc none d ∷ cs) l s n h = calls-Reports cs l s n h
      calls-Reports (malloc (some p) d ∷ cs) l s n h =
          let (s₁, e, h₁) = write_check_log-Reports p d l s n.0 h in
          let (s₂, r, h₂) = calls-Reports cs ((p, d) ∷ l) s₁ n.1 h₁ in (s₂, rw e r, h₂)
      calls-Reports (free none d ∷ cs) l s n h = calls-Reports cs l s n h
      calls-Reports (free (some p) d ∷ cs) l s n h =
          calls-Reports cs (erase p l) (io.remove (log_file_name show dir p) s).1 n
            (removed-Reports p l s h)
