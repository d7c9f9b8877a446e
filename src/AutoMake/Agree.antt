-- ===== src/AutoMake/Agree.antt =====
-- AutoMake's `mkdirs` leaves the file system as lsylar's does.
use solutions.Base.{
  Option-cases, ◌≡◌, ◌≢◌, refl, ap, sym, ◌∙◌, ◌⊎◌, inl, inr, true, false, some, List, [], ◌∷◌, ◌++◌,
  Bytes, All, Bool-cases, fmap,
}
use solutions.FilePath.{DirPath, slash, new_path}
use solutions.FileSystem
use solutions.FileSystem.{Fs, IsFs, IsEntry, is_dir, make_dirs}
use solutions.FileSystem.Made.{IsFree, below-not-nil, fresh-IsFree, is_dir-none, is_dir-some}
use solutions.AutoMake.{skip, make_rest, make_from, mkdirs}

module _ (fs : Fs) (law : IsFs fs) where
  -- What is seen as a directory is one.
  pub is_dir_stat : (p : Bytes) (s : fs.State) → is_dir fs p s ≡ true → fs.stat p s ≡ some true
  is_dir_stat p s e = elim (Option-cases (fs.stat p s)) [
    | inl n ↦ cc (is_dir-none fs p s n, e)
    | inr (b, n) ↦ n ∙ ap some (sym (is_dir-some fs p s b n) ∙ e)
  ]

  -- Below what is no directory, nothing is one, and nothing can be made.
  below_dir :
      (p d : Bytes) (s : fs.State)
      → p ≢ []
      → IsEntry d
      → is_dir fs p s ≡ false
      → is_dir fs (p ++ slash ∷ d) s ≡ false
  below_dir p d s n a e = elim (Option-cases (fs.stat (p ++ slash ∷ d) s)) [
    | inl m ↦ is_dir-none fs _ s m
    | inr (b, m) ↦ cc (is_dir-some fs p s true (law.stat_parent p d s b n a m), e)
  ]

  below_mkdir :
      (p d : Bytes) (s : fs.State)
      → p ≢ []
      → IsEntry d
      → is_dir fs p s ≡ false
      → (fs.mkdir (p ++ slash ∷ d) s).0 ≡ false
  below_mkdir p d s n a e = elim (Bool-cases (fs.mkdir (p ++ slash ∷ d) s).0) [
    | inl m ↦ cc (is_dir-some fs p s true (law.mkdir_parent p d s n a m), e)
    | inr m ↦ m
  ]

  make_dirs_stuck :
      (p : Bytes) (ds : List Bytes) (s : fs.State)
      → p ≢ []
      → All IsEntry ds
      → is_dir fs p s ≡ false
      → (make_dirs fs p ds s).1 ≡ s
  unfolding make_dirs
  make_dirs_stuck p [] s n a e = refl
  make_dirs_stuck p (d ∷ ds) s n a e =
      let q = p ++ slash ∷ d in
      let f = below_dir p d s n a.0 e in
      rw (f, law.refused q s (below_mkdir p d s n a.0 e))
        (make_dirs_stuck q ds s (below-not-nil p d) a.1 f)

  -- Where the first name is missing, the second loop does what lsylar's loop does.
  make_rest_lem :
      (p : Bytes) (ds : List Bytes) (s : fs.State)
      → All IsEntry ds
      → IsFree fs p ds s
      → make_rest fs p ds s ≡ (make_dirs fs p ds s).1
  unfolding make_rest make_dirs
  make_rest_lem p [] s a f = refl
  make_rest_lem p (d ∷ ds) s a f =
      let q = p ++ slash ∷ d in
      let n = below-not-nil p d in
      let g = is_dir-none fs q s f in
      elim (Bool-cases (fs.mkdir q s).0) [
        | inl m ↦
            rw (g, m) (make_rest_lem q ds (fs.mkdir q s).1 a.1 (fresh-IsFree fs law q ds s n a.1 m))
        | inr m ↦ rw (g, m, law.refused q s m) (sym (make_dirs_stuck q ds s n a.1 g))
      ]

  -- A name that is seen as a directory is passed over by both.
  skip_seen :
      (p d : Bytes) (ds : List Bytes) (s : fs.State)
      → is_dir fs (p ++ slash ∷ d) s ≡ true
      → skip fs p (d ∷ ds) s ≡ skip fs (p ++ slash ∷ d) ds s
  unfolding skip
  skip_seen p d ds s g = rw g refl

  make_dirs_seen :
      (p d : Bytes) (ds : List Bytes) (s : fs.State)
      → is_dir fs (p ++ slash ∷ d) s ≡ true
      → (make_dirs fs p (d ∷ ds) s).1 ≡ (make_dirs fs (p ++ slash ∷ d) ds s).1
  unfolding make_dirs
  make_dirs_seen p d ds s g = rw g refl

  skip_first :
      (p d : Bytes) (ds : List Bytes) (s : fs.State)
      → is_dir fs (p ++ slash ∷ d) s ≡ false
      → skip fs p (d ∷ ds) s ≡ (p ++ slash ∷ d, d ∷ ds)
  unfolding skip
  skip_first p d ds s g = rw g refl

  -- From the first that is not, both make what they can.
  make_from_first :
      (p d : Bytes) (ds : List Bytes) (s : fs.State)
      → All IsEntry (d ∷ ds)
      → is_dir fs (p ++ slash ∷ d) s ≡ false
      → make_from fs (skip fs p (d ∷ ds) s).0 (skip fs p (d ∷ ds) s).1 s
        ≡ some (make_dirs fs p (d ∷ ds) s).1
  unfolding make_from make_dirs skip
  make_from_first p d ds s a g =
      let q = p ++ slash ∷ d in
      let n = below-not-nil p d in
      elim (Bool-cases (fs.mkdir q s).0) [
        | inl m ↦
            rw (skip_first p d ds s g, g, m)
              (ap some
                (make_rest_lem q ds (fs.mkdir q s).1 a.1 (fresh-IsFree fs law q ds s n a.1 m)))
        | inr m ↦
            rw (skip_first p d ds s g, g, m, law.refused q s m)
              (ap some (sym (make_dirs_stuck q ds s n a.1 g)))
      ]

  make_from_none :
      (p : Bytes) (s : fs.State)
      → fs.stat p s ≡ some true
      → make_from fs (skip fs p [] s).0 (skip fs p [] s).1 s ≡ some (make_dirs fs p [] s).1
  unfolding make_from make_dirs skip
  make_from_none p s e = let m = law.exists p s true e in rw (m, law.refused p s m) refl

  make_from_lem :
      (p : Bytes) (ds : List Bytes) (s : fs.State)
      → All IsEntry ds
      → (ds ≢ []) ⊎ (fs.stat p s ≡ some true)
      → make_from fs (skip fs p ds s).0 (skip fs p ds s).1 s ≡ some (make_dirs fs p ds s).1
  make_from_lem p [] s a (inl n) = absurd (n refl)
  make_from_lem p [] s a (inr e) = make_from_none p s e
  make_from_lem p (d ∷ ds) s a h = elim (Bool-cases (is_dir fs (p ++ slash ∷ d) s)) [
    | inl g ↦
        rw (skip_seen p d ds s g, make_dirs_seen p d ds s g)
          (make_from_lem (p ++ slash ∷ d) ds s a.1 (inr (is_dir_stat (p ++ slash ∷ d) s g)))
    | inr g ↦ make_from_first p d ds s a g
  ]

  -- Where the names of the path can be given to directories, AutoMake's `mkdirs` ends, and leaves the
  -- file system as lsylar's does, whether or not every directory can be made.
  pub mkdirs-mkdirs :
      (cwd path : Bytes) (p : DirPath) (s : fs.State)
      → new_path cwd path slash ≡ some p
      → p.dirs ≢ []
      → All IsEntry p.dirs
      → mkdirs fs cwd path s
        ≡ fmap (λ (r : List Bytes × fs.State). r.1) (FileSystem.mkdirs fs cwd path s)
  unfolding mkdirs FileSystem.mkdirs
  mkdirs-mkdirs cwd path p s e n a = rw e (make_from_lem [] p.dirs s a (inl n))
