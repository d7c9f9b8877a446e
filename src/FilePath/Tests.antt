-- ===== src/FilePath/Tests.antt =====
-- Runs of `Path`, and the theorems about it at such paths.
use solutions.Base.{none, ◌≡◌, refl, some, List, [], ◌∷◌, arith, Bytes, codes, inl, inr}
use solutions.FilePath.{
  getdirs, split_ins, names, render, slash, walk, pop_back, new_path, reset, init, absolute, is_abs,
}
use solutions.FilePath.Split.{AllNames, getdirs-render}
use solutions.FilePath.Resolve.{new_path-relative, new_path-ups, resolved}

abbrev home : List Bytes
home = codes "tt" ∷ codes "cpp" ∷ []

getdirs_runs : getdirs slash (codes "/tt//cpp/") ≡ some (codes "tt" ∷ [] ∷ codes "cpp" ∷ [])
unfolding getdirs split_ins names
getdirs_runs = refl

new_path_runs :
    new_path (codes "/tt/cpp") (codes "./x/../y") slash
    ≡ some (record {
      dir_split = slash;
      ori_path = codes "./x/../y";
      abs_path = codes "/tt/cpp/y";
      current_dir = codes "/tt/cpp";
      dirs = codes "tt" ∷ codes "cpp" ∷ codes "y" ∷ [];
      name = codes "y";
    })
unfolding new_path reset init absolute is_abs getdirs split_ins names render walk pop_back
new_path_runs = refl

home-AllNames : AllNames home
home-AllNames = ((λ e. cc, omega arith), ((λ e. cc, omega arith), tt))

getdirs-render_example : getdirs slash (render home) ≡ some home
unfolding render
getdirs-render_example = getdirs-render home (λ e. cc) home-AllNames (omega arith)

abbrev steps : List Bytes
steps = codes "." ∷ codes ".." ∷ codes "y" ∷ []

new_path-relative_example :
    new_path (codes "/tt/cpp") (codes "./../y") slash
    ≡ some (resolved (codes "/tt/cpp") (codes "./../y") (codes "tt" ∷ []) (codes "y"))
unfolding render
new_path-relative_example =
    new_path-relative home steps (codes "tt" ∷ []) (codes "y") (λ e. cc) (λ e. cc) home-AllNames
      ((λ e. cc, omega arith), ((λ e. cc, omega arith), ((λ e. cc, omega arith), tt))) (omega arith)
      (omega arith) (omega arith)
      (inl (
        refl,
        inr (
            inl (refl, (codes "tt" ∷ [], codes "cpp", refl, inr (inr ((λ e. cc, λ e. cc), refl))))),
      ))

-- From a directory of two names, two steps up.
new_path-ups_example : new_path (codes "/tt/cpp") (codes "../..") slash ≡ none
unfolding render
new_path-ups_example =
    new_path-ups (codes "tt") (codes "cpp" ∷ []) home-AllNames (omega arith) (omega arith)
