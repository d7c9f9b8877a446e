-- ===== src/AutoMake/Solution.antt =====
-- The directories of a new solution.
use solutions.Base.{
  arith, append-nil, ◌≡◌, ◌≢◌, refl, ap, sym, ◌∙◌, inl, inr, true, false, some, List, [], ◌∷◌, ◌++◌,
  append_assoc, Bytes, codes, All, Option-cases,
}
use solutions.FilePath.{slash, render, IsShort}
use solutions.FilePath.Resolve.{not-nil}
use solutions.FilePath.Trailing.{new_path-slash}
use solutions.FileSystem
use solutions.FileSystem.{Fs, IsFs, IsEntry, make_dirs}
use solutions.FileSystem.Made.{
  IsOpen, AreDirs, NoFile, make_dirs_lem, make_dirs_no_file, entries-AllNames,
}
use solutions.AutoMake.{mkdirs, mk_all, mkslt, new_slt, add_dirs, add_dir}
use solutions.AutoMake.Agree.{mkdirs-mkdirs}

module _ (fs : Fs) where
  abbrev pub AllDirs : List Bytes → fs.State → Type 0
  AllDirs ps s = All (λ p. fs.stat p s ≡ some true) ps

  -- Each path `base ++ x` is an entry of a directory that is there when the paths of `known` are, and
  -- these are the paths from the ones before.
  abbrev pub IsOrdered : List Bytes → Bytes → List Bytes → Type 0
  IsOrdered known base [] = Unit
  IsOrdered known base (x ∷ xs) =
      ((q : Bytes) × (d : Bytes) × (base ++ x ≡ q ++ slash ∷ d)
        × IsEntry d
        × ((t : fs.State) → AllDirs known t → fs.stat q t ≡ some true))
      × IsOrdered ((base ++ x) ∷ known) base xs

  abbrev pub NoFiles : Bytes → List Bytes → fs.State → Type 0
  NoFiles base xs s = All (λ x. fs.stat (base ++ x) s ≢ some false) xs

  -- The paths that a list gives behind a base, the last first, before those that were known.
  abbrev pub behind : List Bytes → Bytes → List Bytes → List Bytes
  behind known base [] = known
  behind known base (x ∷ xs) = behind ((base ++ x) ∷ known) base xs

module _ (fs : Fs) (law : IsFs fs) where
  AllDirs-kept :
      (p : Bytes) (ps : List Bytes) (s : fs.State)
      → AllDirs fs ps s
      → AllDirs fs ps (fs.mkdir p s).1
  AllDirs-kept p [] s h = tt
  AllDirs-kept p (q ∷ ps) s h = (law.kept p q s true h.0, AllDirs-kept p ps s h.1)

  NoFiles-kept :
      (p base : Bytes) (xs : List Bytes) (s : fs.State)
      → NoFiles fs base xs s
      → NoFiles fs base xs (fs.mkdir p s).1
  NoFiles-kept p base [] s h = tt
  NoFiles-kept p base (x ∷ xs) s h = (law.no_file p (base ++ x) s h.0, NoFiles-kept p base xs s h.1)

  NoFiles-made_dirs :
      (ds : List Bytes) (base : Bytes) (xs : List Bytes) (s : fs.State)
      → NoFiles fs base xs s
      → NoFiles fs base xs (make_dirs fs [] ds s).1
  NoFiles-made_dirs ds base [] s h = tt
  NoFiles-made_dirs ds base (x ∷ xs) s h =
      (make_dirs_no_file fs law [] (base ++ x) ds s h.0, NoFiles-made_dirs ds base xs s h.1)

  module _ (can : IsOpen fs) where
    -- After `mkdir` of an entry of a directory, which is no file, it is a directory.
    mkdir_there :
        (q d p : Bytes) (s : fs.State)
        → p ≡ q ++ slash ∷ d
        → IsEntry d
        → fs.stat q s ≡ some true
        → fs.stat p s ≢ some false
        → fs.stat p (fs.mkdir p s).1 ≡ some true
    mkdir_there q d p s e a h n = elim (Option-cases (fs.stat p s)) [
      | inl m ↦ law.made p s (rw e (can q d s a (inr h) (rw e at m)))
      | inr (true, m) ↦ law.kept p p s true m
      | inr (false, m) ↦ absurd (n m)
    ]

    mk_all_lem :
        (known : List Bytes) (base : Bytes) (xs : List Bytes) (s : fs.State)
        → AllDirs fs known s
        → IsOrdered fs known base xs
        → NoFiles fs base xs s
        → AllDirs fs (behind fs known base xs) (mk_all fs base xs s)
    unfolding mk_all
    mk_all_lem known base [] s h o n = h
    mk_all_lem known base (x ∷ xs) s h ((q, d, e, a, up), o) n =
        let p = base ++ x in
        mk_all_lem (p ∷ known) base xs (fs.mkdir p s).1
          (mkdir_there q d p s e a (up s h) n.0, AllDirs-kept p known s h) o
          (NoFiles-kept p base xs s n.1)

pub render-concat : (ds : List Bytes) (d : Bytes) → render (ds ++ d ∷ []) ≡ render ds ++ slash ∷ d
unfolding render
render-concat [] d = ap (◌∷◌ slash) (append-nil d)
render-concat (x ∷ ds) d =
    ap (◌∷◌ slash) (ap (◌++◌ x) (render-concat ds d) ∙ sym (append_assoc x (render ds) (slash ∷ d)))

-- The last of the directories of a path is the path.
pub AreDirs-last :
    (fs : Fs) (p : Bytes) (ds : List Bytes) (d : Bytes) (s : fs.State)
    → AreDirs fs p (ds ++ d ∷ []) s
    → fs.stat (p ++ render (ds ++ d ∷ [])) s ≡ some true
unfolding render
AreDirs-last fs p [] d s h = rw (append-nil d) h.0
AreDirs-last fs p (x ∷ ds) d s h =
    let last = AreDirs-last fs (p ++ slash ∷ x) ds d s h.1 in
    rw (append_assoc p (slash ∷ x) (render (ds ++ d ∷ []))) at last

-- The directories of every solution, in the order in which they are made.
abbrev pub slt_dirs : List Bytes
slt_dirs =
    codes "bin"
    ∷ codes "doc"
    ∷ codes "src"
    ∷ codes "depend"
    ∷ codes "depend/include"
    ∷ codes "depend/lib"
    ∷ codes "test"
    ∷ codes "examples"
    ∷ []

-- What `mkslt` puts a directory's name behind.
abbrev pub slt_path : List Bytes → Bytes → Bytes
slt_path ds name = render (ds ++ name ∷ []) ++ slash ∷ []

pub slt_path_lem :
    (ds : List Bytes) (name : Bytes)
    → (render ds ++ slash ∷ []) ++ (name ++ slash ∷ []) ≡ slt_path ds name
slt_path_lem ds name = rw (render-concat ds name) (simp append_assoc)

pub slt_path_append :
    (ds : List Bytes) (name x : Bytes)
    → slt_path ds name ++ x ≡ render (ds ++ name ∷ []) ++ slash ∷ x
slt_path_append ds name x = append_assoc (render (ds ++ name ∷ [])) (slash ∷ []) x

slt_names-IsEntry : All IsEntry (
    codes "bin"
    ∷ codes "doc"
    ∷ codes "src"
    ∷ codes "depend"
    ∷ codes "include"
    ∷ codes "lib"
    ∷ codes "test"
    ∷ codes "examples"
    ∷ [])
slt_names-IsEntry = (
  ((λ e. cc, omega arith), (λ e. cc, λ e. cc)),
  (
    ((λ e. cc, omega arith), (λ e. cc, λ e. cc)),
    (
      ((λ e. cc, omega arith), (λ e. cc, λ e. cc)),
      (
        ((λ e. cc, omega arith), (λ e. cc, λ e. cc)),
        (
          ((λ e. cc, omega arith), (λ e. cc, λ e. cc)),
          (
            ((λ e. cc, omega arith), (λ e. cc, λ e. cc)),
            (
              ((λ e. cc, omega arith), (λ e. cc, λ e. cc)),
              (((λ e. cc, omega arith), (λ e. cc, λ e. cc)), tt),
            ),
          ),
        ),
      ),
    ),
  ),
)

slt_dirs-IsOrdered :
    (fs : Fs) (ds : List Bytes) (name : Bytes)
    → IsOrdered fs (render (ds ++ name ∷ []) ∷ []) (slt_path ds name) slt_dirs
slt_dirs-IsOrdered fs ds name =
    let p = render (ds ++ name ∷ []) in
    let e = slt_path_append ds name in
    let a = slt_names-IsEntry in
    let depend = slt_path ds name ++ codes "depend" in
    let below = λ (x : Bytes). sym (append_assoc (slt_path ds name) (codes "depend") (slash ∷ x)) in
    (
      (p, codes "bin", e (codes "bin"), a.0, λ t h. h.0),
      (
        (p, codes "doc", e (codes "doc"), a.1.0, λ t h. h.1.0),
        (
          (p, codes "src", e (codes "src"), a.1.1.0, λ t h. h.1.1.0),
          (
            (p, codes "depend", e (codes "depend"), a.1.1.1.0, λ t h. h.1.1.1.0),
            (
              (depend, codes "include", below (codes "include"), a.1.1.1.1.0, λ t h. h.0),
              (
                (depend, codes "lib", below (codes "lib"), a.1.1.1.1.1.0, λ t h. h.1.0),
                (
                  (p, codes "test", e (codes "test"), a.1.1.1.1.1.1.0, λ t h. h.1.1.1.1.1.1.0),
                  (
                    (
                      p,
                      codes "examples",
                      e (codes "examples"),
                      a.1.1.1.1.1.1.1.0,
                      λ t h. h.1.1.1.1.1.1.1.0,
                    ),
                    tt,
                  ),
                ),
              ),
            ),
          ),
        ),
      ),
    )

-- Every directory of a list behind a base is there when all these paths are.
behind-All :
    (fs : Fs) (known : List Bytes) (base : Bytes) (xs : List Bytes) (s : fs.State)
    → AllDirs fs (behind fs known base xs) s
    → AllDirs fs known s × All (λ x. fs.stat (base ++ x) s ≡ some true) xs
behind-All fs known base [] s h = (h, tt)
behind-All fs known base (x ∷ xs) s h =
    let rest = behind-All fs ((base ++ x) ∷ known) base xs s h in (rest.0.1, (rest.0.0, rest.1))

pub mkdirs-slt :
    (fs : Fs) (law : IsFs fs) (cwd : Bytes) (ds : List Bytes) (name : Bytes) (s : fs.State)
    → All IsEntry (ds ++ name ∷ [])
    → IsShort (slt_path ds name)
    → mkdirs fs cwd (slt_path ds name) s ≡ some (make_dirs fs [] (ds ++ name ∷ []) s).1
unfolding FileSystem.mkdirs
mkdirs-slt fs law cwd ds name s a b =
    let e = new_path-slash cwd ds name (entries-AllNames (ds ++ name ∷ []) a) b in
    mkdirs-mkdirs fs law cwd (slt_path ds name) _ s e (not-nil ds name) a ∙ rw e refl

-- With an `m_file_manager` that was set, and in a root directory given by an absolute path that ends in a separator, where every missing entry of
-- a directory can be made, no file is in the way and the path has fewer than 2 ^ 31 bytes, `mkslt` leaves a solution with the eight
-- directories of its list, and each of them is there in the file system: `depend` is made before its
-- two entries.
pub mkslt-slt_dirs :
    (fs : Fs) (law : IsFs fs) (can : IsOpen fs) (cwd : Bytes) (ds : List Bytes) (name : Bytes)
    (s : fs.State)
    → All IsEntry (ds ++ name ∷ [])
    → IsShort (slt_path ds name)
    → NoFile fs [] (ds ++ name ∷ []) s
    → NoFiles fs (slt_path ds name) slt_dirs s
    → (t : fs.State) × (mkslt fs true cwd name (render ds ++ slash ∷ []) s
        ≡ some (record (new_slt name (render ds ++ slash ∷ [])) { dirs = slt_dirs }, t))
      × All (λ x. fs.stat (slt_path ds name ++ x) t ≡ some true) slt_dirs
unfolding mkslt new_slt add_dirs add_dir
mkslt-slt_dirs fs law can cwd ds name s a b n m =
    let u = (make_dirs fs [] (ds ++ name ∷ []) s).1 in
    let made = make_dirs_lem fs law can [] (ds ++ name ∷ []) s (inl refl) a n in
    let top = AreDirs-last fs [] ds name u made.1 in
    let all =
      mk_all_lem fs law can (render (ds ++ name ∷ []) ∷ []) (slt_path ds name) slt_dirs u (top, tt)
        (slt_dirs-IsOrdered fs ds name)
        (NoFiles-made_dirs fs law (ds ++ name ∷ []) (slt_path ds name) slt_dirs s m) in
    (
      mk_all fs (slt_path ds name) slt_dirs u,
      rw (slt_path_lem ds name, mkdirs-slt fs law cwd ds name s a b) refl,
      (behind-All fs (render (ds ++ name ∷ []) ∷ []) (slt_path ds name) slt_dirs _ all).1,
    )
