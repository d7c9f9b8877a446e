-- ===== src/AutoMake.antt =====
-- AutoMake/include/File.h and AutoMake/examples/AutoMaker/AutoMaker.cc: AutoMake's own `mkdirs`, and
-- the directories of a solution. The class `Path` of this copy of File.cc has the `init` and `getdirs`
-- of lsylar's. `none` is undefined behaviour: that of `Path`, an iterator moved behind the end, and a
-- call through the null `m_file_manager`, which the constructor leaves null; whether a subclass has set it
-- is the argument `manager`.
pub mod Agree
pub mod Solution
pub mod Project
mod Tests
use solutions.Base.{
  same, Bool, true, false, Option, none, some, List, [], ◌∷◌, ◌++◌, if◌then◌else◌, Bytes, codes,
  ◌>>=◌,
}
use solutions.FilePath.{slash, new_path}
use solutions.FileSystem.{Fs, is_dir}

-- `AutoMakeSlt`.
pub record AutoMakeSlt : Type 0 where
  pub dirs : List Bytes
  pub root_dir : Bytes
  pub slt_name : Bytes

-- `AutoMakeSlt::addDir`.
pub add_dir : Bytes → AutoMakeSlt → AutoMakeSlt
add_dir d a = record a { dirs = a.dirs ++ d ∷ [] }

-- `m_dirs.erase` of the first that is equal, if one is.
pub erase_first : Bytes → List Bytes → List Bytes
erase_first x [] = []
erase_first x (d ∷ ds) = let rest = erase_first x ds in if same d x then ds else d ∷ rest

-- `AutoMakeSlt::delDir` and `clearDir`.
pub del_dir : Bytes → AutoMakeSlt → AutoMakeSlt
del_dir d a = record a { dirs = erase_first d a.dirs }

pub clear_dir : AutoMakeSlt → AutoMakeSlt
clear_dir a = record a { dirs = [] }

-- The solution that `AutoMaker::mkslt` fills.
pub new_slt : Bytes → Bytes → AutoMakeSlt
new_slt name root = record { dirs = []; root_dir = root; slt_name = name }

-- The calls of `addDir` in `mkslt`.
pub add_dirs : AutoMakeSlt → AutoMakeSlt
add_dirs a =
    let b = add_dir (codes "src") (add_dir (codes "doc") (add_dir (codes "bin") a)) in
    let c =
      add_dir (codes "depend/lib")
        (add_dir (codes "depend/include") (add_dir (codes "depend") b)) in
    add_dir (codes "examples") (add_dir (codes "test") c)

module _ (fs : Fs) where
  -- The first loop of `mkdirs`: the path in `dir_ss` after it, and the names from the
  -- iterator on.
  pub skip : Bytes → List Bytes → fs.State → Bytes × List Bytes
  skip path [] s = (path, [])
  skip path (d ∷ ds) s =
      let p = path ++ slash ∷ d in
      let rest = skip p ds s in if is_dir fs p s then rest else (p, d ∷ ds)

  -- The second loop.
  pub make_rest : Bytes → List Bytes → fs.State → fs.State
  make_rest path [] s = s
  make_rest path (d ∷ ds) s =
      let p = path ++ slash ∷ d in
      let (ok, s') = fs.mkdir p s in let rest = make_rest p ds s' in if ok then rest else s'

  -- What follows the first loop: `mkdir`, `dir_iter++` and the second loop.
  pub make_from : Bytes → List Bytes → fs.State → Option fs.State
  make_from path from s =
      let (ok, s') = fs.mkdir path s in
      if ok then elim from [ [] ↦ none | _ ∷ ds ↦ some (make_rest path ds s') ] else some s'

  -- `FileManager::mkdirs`.
  pub mkdirs : Bytes → Bytes → fs.State → Option fs.State
  mkdirs cwd dirs s = do
    p ← new_path cwd dirs slash
    let (path, from) = skip [] p.dirs s
    make_from path from s

  -- `for(auto dir : dirs) m_file_manager->mkdir(slt_dir + dir);`
  pub mk_all : Bytes → List Bytes → fs.State → fs.State
  mk_all slt_dir [] s = s
  mk_all slt_dir (d ∷ ds) s = mk_all slt_dir ds (fs.mkdir (slt_dir ++ d) s).1

  -- `AutoMaker::mkslt`.
  pub mkslt : Bool → Bytes → Bytes → Bytes → fs.State → Option (AutoMakeSlt × fs.State)
  mkslt false cwd name root s = none
  mkslt true cwd name root s = do
    let slt = new_slt name root
    let slt_dir = slt.root_dir ++ (slt.slt_name ++ slash ∷ [])
    s' ← mkdirs cwd slt_dir s
    let slt' = add_dirs slt
    some (slt', mk_all slt_dir slt'.dirs s')
