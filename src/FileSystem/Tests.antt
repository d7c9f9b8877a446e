-- ===== src/FileSystem/Tests.antt =====
-- `mkdirs` on a file system with nothing in it.
use solutions.Base.{arith, inl, inr, ◌≡◌, refl, some, List, [], ◌∷◌, Bytes, codes, All}
use solutions.FilePath.{render}
use solutions.FilePath.Split.{AllNames, relative}
use solutions.FilePath.Resolve.{Leads}
use solutions.FileSystem.{IsEntry, mkdirs}
use solutions.FileSystem.Made.{AreDirs, mkdirs-AreDirs}
use solutions.FileSystem.Memory.{Dirs, no_dirs, memory, memory-IsFs, memory-IsOpen}

abbrev home : List Bytes
home = codes "tt" ∷ codes "cpp" ∷ []

home-IsEntry : All IsEntry home
home-IsEntry = (
  ((λ e. cc, omega arith), (λ e. cc, λ e. cc)),
  (((λ e. cc, omega arith), (λ e. cc, λ e. cc)), tt),
)

abbrev up_and_down : List Bytes
up_and_down = codes ".." ∷ codes "y" ∷ []

up_and_down-AllNames : AllNames up_and_down
up_and_down-AllNames = ((λ e. cc, omega arith), ((λ e. cc, omega arith), tt))

up_and_down-Leads : Leads home up_and_down (codes "tt" ∷ codes "y" ∷ [])
up_and_down-Leads =
    inr (inl (refl, (codes "tt" ∷ [], _, refl, inr (inr ((λ e. cc, λ e. cc), refl)))))

mkdirs-AreDirs_example :
    (t : Dirs) × (mkdirs memory (render home) (relative up_and_down) no_dirs ≡ some ([], t))
    × AreDirs memory [] (codes "tt" ∷ codes "y" ∷ []) t
unfolding render
mkdirs-AreDirs_example =
    mkdirs-AreDirs memory memory-IsFs memory-IsOpen home up_and_down (codes "tt" ∷ []) (codes "y")
      no_dirs (λ e. cc) (λ e. cc) home-IsEntry up_and_down-AllNames (omega arith) (omega arith)
      (omega arith) up_and_down-Leads ((λ e. cc), ((λ e. cc), tt))
