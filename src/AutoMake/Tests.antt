-- ===== src/AutoMake/Tests.antt =====
-- A solution in a file system with nothing in it.
use solutions.Base.{arith, ◌≡◌, refl, some, List, [], ◌∷◌, ◌++◌, Bytes, codes, All, fmap}
use solutions.FilePath.{slash, render}
use solutions.FilePath.Resolve.{resolved, new_path-absolute}
use solutions.FileSystem
use solutions.FileSystem.{IsEntry}
use solutions.FileSystem.Made.{entries-AllNames}
use solutions.FileSystem.Memory.{Dirs, no_dirs, memory, memory-IsFs, memory-IsOpen}
use solutions.AutoMake.{true, mkdirs, mkslt, new_slt, add_dir, del_dir, erase_first}
use solutions.AutoMake.Agree.{mkdirs-mkdirs}
use solutions.AutoMake.Solution.{slt_dirs, slt_path, mkslt-slt_dirs}

abbrev home : List Bytes
home = codes "tt" ∷ codes "slt" ∷ []

home-IsEntry : All IsEntry home
home-IsEntry = (
  ((λ e. cc, omega arith), (λ e. cc, λ e. cc)),
  (((λ e. cc, omega arith), (λ e. cc, λ e. cc)), tt),
)

mkdirs-mkdirs_example :
    mkdirs memory (codes "/") (render home) no_dirs
    ≡ fmap (λ r. r.1) (FileSystem.mkdirs memory (codes "/") (render home) no_dirs)
unfolding render
mkdirs-mkdirs_example =
    mkdirs-mkdirs memory memory-IsFs (codes "/") (render home)
      (resolved (codes "/") (render home) (codes "tt" ∷ []) (codes "slt")) no_dirs
      (new_path-absolute (codes "/") (codes "tt" ∷ []) (codes "slt")
        (entries-AllNames home home-IsEntry) (omega arith))
      (λ e. cc) home-IsEntry

slt_made :
    (t : Dirs) × (mkslt memory true
        (codes "/")
        (codes "slt")
        (render (codes "tt" ∷ []) ++ slash ∷ [])
        no_dirs
      ≡ some (
        record (new_slt (codes "slt") (render (codes "tt" ∷ []) ++ slash ∷ [])) { dirs = slt_dirs },
        t,
      ))
    × All (λ x. memory.stat (slt_path (codes "tt" ∷ []) (codes "slt") ++ x) t ≡ some true) slt_dirs
unfolding render
slt_made =
    mkslt-slt_dirs memory memory-IsFs memory-IsOpen (codes "/") (codes "tt" ∷ []) (codes "slt")
      no_dirs home-IsEntry (omega arith) ((λ e. cc), ((λ e. cc), tt))
      (λ e. cc, (λ e. cc, (λ e. cc, (λ e. cc, (λ e. cc, (λ e. cc, (λ e. cc, (λ e. cc, tt))))))))

-- A directory that is not in the list is taken out again.
del_dir_runs :
    del_dir (codes "doc") (add_dir (codes "doc") (new_slt (codes "slt") (codes "/")))
    ≡ new_slt (codes "slt") (codes "/")
unfolding del_dir add_dir new_slt erase_first
del_dir_runs = refl
