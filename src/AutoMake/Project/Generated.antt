-- ===== src/AutoMake/Project/Generated.antt =====
-- A run of `mkpjt`.
use solutions.Base.{
  ◌^◌, ◌<◌, ◌+◌, Bool, ◌≡◌, ◌≢◌, refl, ap, sym, ◌∙◌, true, some, List, [], ◌∷◌, ◌++◌, Bytes, All,
  All-append, length, length-append, arith, map, codes,
}
use solutions.FilePath.{IsShort, DirPath, slash, render, new_path}
use solutions.FilePath.Split.{IsName, AllNames}
use solutions.FilePath.Resolve.{new_path-absolute, resolved}
use solutions.FileSystem.{Fs, IsFs, IsEntry}
use solutions.FileSystem.Made.{is_dir-some, below-not-nil, entries-AllNames}
use solutions.AutoMake.Solution.{slt_path, slt_path_lem, slt_path_append, render-concat}
use solutions.AutoMake.Project.{
  Kind, context, Files, Making, pjt_files, mkpjt, test_file_name, find_maker,
}
use solutions.AutoMake.Project.Written.{
  AreDistinct, AreNew, IsFiles, content, SameAt, CanWrite, ArePaths, mk_files_lem,
  write_all-appended,
}

-- The names of the files differ, by their lengths.
pjt_files-AreDistinct : (name : Bytes) → name ≢ [] → AreDistinct (pjt_files name)
unfolding pjt_files test_file_name
pjt_files-AreDistinct [] n = absurd (n refl)
pjt_files-AreDistinct (c ∷ s) n =
    let h = length-append s (codes ".h") in
    let cc = length-append s (codes ".cc") in
    let t = length-append (c ∷ s) (codes "_func.cc") in
    (
      (
        (λ e. absurd (omega (arith, h, cc, ap length e))),
        (
          (λ e. absurd (omega (arith, h, t, ap length e))),
          ((λ e. absurd (omega (arith, h, ap length e))), tt),
        ),
      ),
      (
        (
          (λ e. absurd (omega (arith, cc, t, ap length e))),
          ((λ e. absurd (omega (arith, cc, ap length e))), tt),
        ),
        (((λ e. absurd (omega (arith, ap length e))), tt), (tt, tt)),
      ),
    )

pjt_files-AreNew : (name : Bytes) → AreNew (pjt_files name) []
unfolding pjt_files find_maker
pjt_files-AreNew name = (refl, (refl, (refl, (refl, tt))))

append-IsName :
    (name t : Bytes) → IsName slash name → All (λ x. x ≢ slash) t → IsName slash (name ++ t)
append-IsName [] t n l = absurd (n.0 refl)
append-IsName (c ∷ s) t n l = ((λ e. cc), All-append _ (c ∷ s) t n.1 l)

pjt_path :
    (cwd : Bytes) (ds : List Bytes) (name file : Bytes)
    → AllNames (ds ++ name ∷ [])
    → IsName slash file
    → IsShort (slt_path ds name ++ file)
    → (q : DirPath) × (new_path cwd (slt_path ds name ++ file) slash ≡ some q)
pjt_path cwd ds name file a f b =
    let same = slt_path_append ds name file ∙ sym (render-concat (ds ++ name ∷ []) file) in
    (
      resolved cwd (render ((ds ++ name ∷ []) ++ file ∷ [])) (ds ++ name ∷ []) file,
      rw same (
          new_path-absolute cwd (ds ++ name ∷ []) file
            (All-append _ (ds ++ name ∷ []) (file ∷ []) a (f, tt))
            (omega (arith, b, ap length same))),
    )

pjt_files-ArePaths :
    (cwd : Bytes) (ds : List Bytes) (name : Bytes)
    → AllNames (ds ++ name ∷ [])
    → IsName slash name
    → length (slt_path ds name) + length name + 13 < 2 ^ 31
    → ArePaths cwd (slt_path ds name) (pjt_files name)
unfolding pjt_files test_file_name
pjt_files-ArePaths cwd ds name a n b =
    let base = slt_path ds name in
    let tests = name ++ codes "_func.cc" in
    let path = λ (file : Bytes) (f : IsName slash file) (s : IsShort (base ++ file)).
      pjt_path cwd ds name file a f s in
    let tail = append-IsName name (codes "_func.cc") n (omega arith) in
    (
      path (name ++ codes ".h") (append-IsName name (codes ".h") n (omega arith)) (
          omega
            (arith, b, length-append base (name ++ codes ".h"), length-append name (codes ".h"))),
      (
        path (name ++ codes ".cc") (append-IsName name (codes ".cc") n (omega arith)) (
            omega (
              arith,
              b,
              length-append base (name ++ codes ".cc"),
              length-append name (codes ".cc"),
            )),
        (
          path (codes "test_" ++ (name ++ codes "_func.cc"))
              (
                (λ e. cc),
                All-append _ (codes "test_") (name ++ codes "_func.cc") (omega arith) tail.1,
              )
              (omega (
                arith,
                b,
                length-append base (codes "test_" ++ tests),
                length-append name (codes "_func.cc"),
              )),
          (
            path (codes "mk") ((λ e. cc), omega arith)
                (omega (arith, b, length-append base (codes "mk"))),
            tt,
          ),
        ),
      ),
    )

module _ (fs : Fs) (law : IsFs fs) (io : Files fs) (files : IsFiles fs io) where
  read-SameAt :
      (base : Bytes) (fks : List (Bytes × Kind)) (s t : fs.State)
      → ((q : Bytes) → io.read q s ≡ io.read q t)
      → SameAt fs io files base fks s t
  read-SameAt base [] s t h = tt
  read-SameAt base ((file, kind) ∷ fks) s t h = (h (base ++ file), read-SameAt base fks s t h)

  -- For a project whose directory is there, given by an absolute path that ends in a separator, and where
  -- the four files can be opened, `fwrite` takes their texts, and their paths have fewer than 2 ^ 31 bytes: `mkpjt` ends, also where `m_file_manager`
  -- is null, as the constructor leaves it. Its project lists the header, the source, the test and the make
  -- file, and each of these holds what it held before, with the text of its maker for the project's name
  -- behind it.
  pub mkpjt-written :
      (manager : Bool) (cwd : Bytes) (ds : List Bytes) (name : Bytes) (s : fs.State)
      → All IsEntry (ds ++ name ∷ [])
      → IsEntry name
      → length (slt_path ds name) + length name + 13 < 2 ^ 31
      → fs.stat (slt_path ds name) s ≡ some true
      → CanWrite fs io files (render (ds ++ name ∷ [])) (slt_path ds name) name (pjt_files name)
      → (r : Making fs) × (mkpjt fs io manager cwd name (render ds ++ slash ∷ []) s ≡ some r)
        × (r.pjt ≡ record {
          pjt_dir = render ds ++ slash ∷ [];
          pjt_name = name;
          files = map (λ (fk : Bytes × Kind). fk.0) (pjt_files name);
        })
        × All
            (λ (fk : Bytes × Kind).
              io.read (slt_path ds name ++ fk.0) r.disk
              ≡ some (content fs io (slt_path ds name ++ fk.0) s ++ context fk.1 name))
            (pjt_files name)
  unfolding mkpjt
  mkpjt-written manager cwd ds name s a k b there w =
      let base = slt_path ds name in
      let p = render (ds ++ name ∷ []) in
      let fks = pjt_files name in
      let names = entries-AllNames (ds ++ name ∷ []) a in
      let distinct = pjt_files-AreDistinct name k.0.0 in
      let top =
        law.stat_slash p s (λ e. below-not-nil (render ds) name (sym (render-concat ds name) ∙ e))
          there in
      let (r, run, pjt, disk) =
        mk_files_lem fs io files cwd p base name fks
          (record {
            pjt = record { pjt_dir = render ds ++ slash ∷ []; pjt_name = name; files = [] };
            makers = [];
            disk = s;
          })
          distinct (pjt_files-AreNew name) (pjt_files-ArePaths cwd ds name names k.0 b) w top in
      (
        r,
        rw (slt_path_lem ds name, is_dir-some fs base s true there) run,
        pjt,
        rw disk (
            write_all-appended fs io files p base name fks s s distinct w top
              (read-SameAt base fks s s (λ q. refl))),
      )
