-- ===== src/FileSystem/Made.antt =====
-- What `mkdirs` leaves behind.
use solutions.Base.{
  ap, Bool-cases, Option-cases, ◌≡◌, ◌≢◌, refl, ◌⊎◌, inl, inr, Bool, true, false, none, some, List,
  [], ◌∷◌, ◌++◌, Bytes, All,
}
use solutions.FilePath.{IsShort, slash, render}
use solutions.FilePath.Split.{AllNames, relative}
use solutions.FilePath.Resolve.{walk-Leads, Leads, walk-IsPlain, new_path-relative}
use solutions.FileSystem.{Fs, IsFs, IsEntry, is_dir, make_dirs, mkdirs}

pub entries-AllNames : (ds : List Bytes) → All IsEntry ds → AllNames ds
entries-AllNames [] a = tt
entries-AllNames (d ∷ ds) a = (a.0.0, entries-AllNames ds a.1)

pub below-not-nil : (p d : Bytes) → p ++ slash ∷ d ≢ []
below-not-nil [] d e = cc
below-not-nil (c ∷ p) d e = cc

module _ (fs : Fs) where
  -- In the root and in a directory, what is missing can be made.
  abbrev pub IsOpen : Type 0
  IsOpen =
      (p d : Bytes) (s : fs.State)
      → IsEntry d
      → (p ≡ []) ⊎ (fs.stat p s ≡ some true)
      → fs.stat (p ++ slash ∷ d) s ≡ none
      → (fs.mkdir (p ++ slash ∷ d) s).0 ≡ true

  -- Every path that the names give below `p` is a directory.
  abbrev pub AreDirs : Bytes → List Bytes → fs.State → Type 0
  AreDirs p [] s = Unit
  AreDirs p (d ∷ ds) s = (fs.stat (p ++ slash ∷ d) s ≡ some true) × AreDirs (p ++ slash ∷ d) ds s

  -- None of them is a file.
  abbrev pub NoFile : Bytes → List Bytes → fs.State → Type 0
  NoFile p [] s = Unit
  NoFile p (d ∷ ds) s = (fs.stat (p ++ slash ∷ d) s ≢ some false) × NoFile (p ++ slash ∷ d) ds s

  -- The first of them is missing.
  abbrev pub IsFree : Bytes → List Bytes → fs.State → Type 0
  IsFree p [] s = Unit
  IsFree p (d ∷ ds) s = fs.stat (p ++ slash ∷ d) s ≡ none

  pub is_dir-none : (p : Bytes) (s : fs.State) → fs.stat p s ≡ none → is_dir fs p s ≡ false
  unfolding is_dir
  is_dir-none p s e = rw (e, is_dir)

  pub is_dir-some : (p : Bytes) (s : fs.State) (b : Bool) → fs.stat p s ≡ some b → is_dir fs p s ≡ b
  unfolding is_dir
  is_dir-some p s b e = rw (e, is_dir)

module _ (fs : Fs) (law : IsFs fs) where
  pub fresh-IsFree :
      (p : Bytes) (ds : List Bytes) (s : fs.State)
      → p ≢ []
      → All IsEntry ds
      → (fs.mkdir p s).0 ≡ true
      → IsFree fs p ds (fs.mkdir p s).1
  fresh-IsFree p [] s n a m = tt
  fresh-IsFree p (d ∷ ds) s n a m = law.fresh p d s n a.0 m

  -- What exists is there after the loop.
  pub make_dirs_kept :
      (p q : Bytes) (ds : List Bytes) (s : fs.State) (b : Bool)
      → fs.stat q s ≡ some b
      → fs.stat q (make_dirs fs p ds s).1 ≡ some b
  unfolding make_dirs
  make_dirs_kept p q [] s b e = e
  make_dirs_kept p q (d ∷ ds) s b e = elim (Bool-cases (is_dir fs (p ++ slash ∷ d) s)) [
    | inl h ↦ rw h (make_dirs_kept (p ++ slash ∷ d) q ds s b e)
    | inr h ↦ rw h (
        make_dirs_kept (p ++ slash ∷ d) q ds (fs.mkdir (p ++ slash ∷ d) s).1 b
          (law.kept (p ++ slash ∷ d) q s b e))
  ]

  pub make_dirs_no_file :
      (p q : Bytes) (ds : List Bytes) (s : fs.State)
      → fs.stat q s ≢ some false
      → fs.stat q (make_dirs fs p ds s).1 ≢ some false
  unfolding make_dirs
  make_dirs_no_file p q [] s n = n
  make_dirs_no_file p q (d ∷ ds) s n = elim (Bool-cases (is_dir fs (p ++ slash ∷ d) s)) [
    | inl h ↦ rw h (make_dirs_no_file (p ++ slash ∷ d) q ds s n)
    | inr h ↦ rw h (
        make_dirs_no_file (p ++ slash ∷ d) q ds (fs.mkdir (p ++ slash ∷ d) s).1
          (law.no_file (p ++ slash ∷ d) q s n))
  ]

  module _ (can : IsOpen fs) where
    -- Where the first of the names is missing, all are made.
    make_dirs_free :
        (p : Bytes) (ds : List Bytes) (s : fs.State)
        → (p ≡ []) ⊎ (fs.stat p s ≡ some true)
        → All IsEntry ds
        → IsFree fs p ds s
        → ((make_dirs fs p ds s).0 ≡ []) × AreDirs fs p ds (make_dirs fs p ds s).1
    unfolding make_dirs
    make_dirs_free p [] s h a f = (refl, tt)
    make_dirs_free p (d ∷ ds) s h a f =
        let q = p ++ slash ∷ d in
        let m = can p d s a.0 h f in
        let there = law.made q s m in
        let rest =
          make_dirs_free q ds (fs.mkdir q s).1 (inr there) a.1
            (fresh-IsFree q ds s (below-not-nil p d) a.1 m) in
        rw (is_dir-none fs q s f, m)
          (rest.0, (make_dirs_kept q q ds (fs.mkdir q s).1 true there, rest.1))

    -- From a directory, with no file on the way, all are there or are made.
    pub make_dirs_lem :
        (p : Bytes) (ds : List Bytes) (s : fs.State)
        → (p ≡ []) ⊎ (fs.stat p s ≡ some true)
        → All IsEntry ds
        → NoFile fs p ds s
        → ((make_dirs fs p ds s).0 ≡ []) × AreDirs fs p ds (make_dirs fs p ds s).1
    unfolding make_dirs
    make_dirs_lem p [] s h a n = (refl, tt)
    make_dirs_lem p (d ∷ ds) s h a n =
        let q = p ++ slash ∷ d in
        elim (Option-cases (fs.stat q s)) [
          | inl e ↦ unfold make_dirs in make_dirs_free p (d ∷ ds) s h a e
          | inr (true, e) ↦
              let rest = make_dirs_lem q ds s (inr e) a.1 n.1 in
              rw (is_dir-some fs q s true e) (rest.0, (make_dirs_kept q q ds s true e, rest.1))
          | inr (false, e) ↦ absurd (n.0 e)
        ]

    -- Where every entry that is missing in a directory can be made, from a working directory and along
    -- a relative path that leads to the directories `ds` and `d`, with no file on the way, and with paths
    -- of fewer than 2 ^ 31 bytes, `mkdirs` reports no failure, and every directory of the path is there
    -- afterwards.
    pub mkdirs-AreDirs :
        (cs os ds : List Bytes) (d : Bytes) (s : fs.State)
        → cs ≢ []
        → os ≢ []
        → All IsEntry cs
        → AllNames os
        → IsShort (render cs)
        → IsShort (relative os)
        → IsShort (render (ds ++ d ∷ []))
        → Leads cs os (ds ++ d ∷ [])
        → NoFile fs [] (ds ++ d ∷ []) s
        → (t : fs.State) × (mkdirs fs (render cs) (relative os) s ≡ some ([], t))
          × AreDirs fs [] (ds ++ d ∷ []) t
    unfolding mkdirs
    mkdirs-AreDirs cs os ds d s hc ho ac ao bc bo bd l n =
        let w = walk-Leads cs os (ds ++ d ∷ []) l in
        let made =
          make_dirs_lem [] (ds ++ d ∷ []) s (inl refl) (walk-IsPlain cs os (ds ++ d ∷ []) w ao ac)
            n in
        (
          (make_dirs fs [] (ds ++ d ∷ []) s).1,
          rw (new_path-relative cs os ds d hc ho (entries-AllNames cs ac) ao bc bo bd l)
              (ap (λ x. some (x, (make_dirs fs [] (ds ++ d ∷ []) s).1)) made.0),
          made.1,
        )
