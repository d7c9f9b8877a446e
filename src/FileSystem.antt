-- ===== src/FileSystem.antt =====
-- lsylar/include/File.h: `FileManager::mkdirs`, with `Data` and `LinuxDirMaker` of File.cc. The file
-- system is a parameter: a state, `::stat` and `::mkdir`. `none` is the undefined behaviour of `Path`.
-- The `::stat` of `Data d(p->absolute())` is left out, since nothing reads its result.
pub mod Made
pub mod Memory
mod Tests
use solutions.Base.{
  ◌≡◌, ◌≢◌, Bool, true, false, Option, none, some, List, [], ◌∷◌, ◌++◌, if◌then◌else◌, Bytes, ◌>>=◌,
}
use solutions.FilePath.{DirPath, slash, new_path}
use solutions.FilePath.Split.{IsName}
use solutions.FilePath.Resolve.{IsPlain}

-- The operating system: `stat` gives `none` where `::stat` returns -1, otherwise whether the path is a
-- directory; `mkdir` gives whether `::mkdir` did not return -1.
pub record Fs : Type 1 where
  pub State : Type 0
  pub stat : Bytes → State → Option Bool
  pub mkdir : Bytes → State → Bool × State

-- A name that a directory can be given.
abbrev pub IsEntry : Bytes → Type 0
IsEntry d = IsName slash d × IsPlain d

-- What `stat` and `mkdir` are documented to do, for paths below another.
pub record IsFs (fs : Fs) : Type 0 where
  -- A path that was made is a directory.
  pub made :
      (p : Bytes) (s : fs.State) → (fs.mkdir p s).0 ≡ true → fs.stat p (fs.mkdir p s).1 ≡ some true
  -- What exists stays.
  pub kept :
      (p q : Bytes) (s : fs.State) (b : Bool)
      → fs.stat q s ≡ some b
      → fs.stat q (fs.mkdir p s).1 ≡ some b
  -- What is made is no file.
  pub no_file :
      (p q : Bytes) (s : fs.State)
      → fs.stat q s ≢ some false
      → fs.stat q (fs.mkdir p s).1 ≢ some false
  -- A failure changes nothing.
  pub refused : (p : Bytes) (s : fs.State) → (fs.mkdir p s).0 ≡ false → (fs.mkdir p s).1 ≡ s
  -- What exists is not made again.
  pub exists :
      (p : Bytes) (s : fs.State) (b : Bool) → fs.stat p s ≡ some b → (fs.mkdir p s).0 ≡ false
  -- What exists stands in a directory, and what is made is made in one.
  pub stat_parent :
      (p d : Bytes) (s : fs.State) (b : Bool)
      → p ≢ []
      → IsEntry d
      → fs.stat (p ++ slash ∷ d) s ≡ some b
      → fs.stat p s ≡ some true
  pub mkdir_parent :
      (p d : Bytes) (s : fs.State)
      → p ≢ []
      → IsEntry d
      → (fs.mkdir (p ++ slash ∷ d) s).0 ≡ true
      → fs.stat p s ≡ some true
  -- A path with a separator behind it is a directory only where the path is one.
  pub stat_slash :
      (p : Bytes) (s : fs.State)
      → p ≢ []
      → fs.stat (p ++ slash ∷ []) s ≡ some true
      → fs.stat p s ≡ some true
  -- A new directory is empty.
  pub fresh :
      (p d : Bytes) (s : fs.State)
      → p ≢ []
      → IsEntry d
      → (fs.mkdir p s).0 ≡ true
      → fs.stat (p ++ slash ∷ d) (fs.mkdir p s).1 ≡ none

module _ (fs : Fs) where
  -- `d->exit() && d->isDir()` after `d->reset(path)`.
  unfoldable pub is_dir : Bytes → fs.State → Bool
  is_dir p s = elim (fs.stat p s) [ none ↦ false | some b ↦ b ]

  -- The loop of `mkdirs`: the paths reported as not made, and the file system after it.
  unfoldable pub make_dirs : Bytes → List Bytes → fs.State → List Bytes × fs.State
  make_dirs path [] s = ([], s)
  make_dirs path (d ∷ ds) s =
      let p = path ++ slash ∷ d in
      let (ok, s') = if is_dir p s then (true, s) else fs.mkdir p s in
      let (failed, t) = make_dirs p ds s' in (if ok then failed else p ∷ failed, t)

  -- `FileManager::mkdirs`.
  unfoldable pub mkdirs : Bytes → Bytes → fs.State → Option (List Bytes × fs.State)
  mkdirs cwd dirs s = do p ← new_path cwd dirs slash; some (make_dirs [] p.dirs s)
