-- ===== src/CloudWork/Schedule.antt =====
-- What `Manager::schedul` does with a command.
use solutions.Base.{
  take-length, suc, ◌+◌, ◌-◌, ◌%◌, ◌^◌, ◌<◌, ◌≡◌, refl, ap, ap₂, List, [], ◌∷◌, ◌++◌, arith, length,
  length-append, take, drop, Bytes, codes, Lacks,
}
use solutions.Log.Format.{find_first_of-Lacks}
use solutions.CloudWork.{
  position, Worker, new_manager, reset_name, mapping_worker, working, find_blank, cut, init_url,
  schedul, size_t_mod,
}

take-all : (xs : Bytes) → take (length xs) xs ≡ xs
take-all [] = refl
take-all (x ∷ xs) = ap (◌∷◌ x) (take-all xs)

past_blank :
    (cmd url : Bytes) → take (length url) (drop (suc (length cmd)) (cmd ++ b' ' ∷ url)) ≡ url
past_blank [] url = take-all url
past_blank (c ∷ cmd) url = past_blank cmd url

find_blank-Lacks : (cmd url : Bytes) → Lacks b' ' cmd → find_blank (cmd ++ b' ' ∷ url) ≡ length cmd
unfolding find_blank
find_blank-Lacks cmd url h = ap position (find_first_of-Lacks b' ' cmd url h)

-- A command is cut at its first blank.
pub cut-append :
    (cmd url : Bytes)
    → Lacks b' ' cmd
    → length cmd + length url + 1 < size_t_mod
    → cut (cmd ++ b' ' ∷ url) ≡ (cmd, url)
unfolding cut
cut-append cmd url h small =
    let n = length-append cmd (b' ' ∷ url) in
    let beg : (length cmd + 1) % size_t_mod ≡ suc (length cmd) = omega arith in
    let count : (length (cmd ++ b' ' ∷ url) + 2 ^ 65 - length cmd - 1) % size_t_mod ≡ length url =
      omega (arith, n) in
    rw (find_blank-Lacks cmd url h, beg, count)
      (ap₂ (λ a b. (a, b)) (take-length cmd (b' ' ∷ url)) (past_blank cmd url))

-- A command without a blank, with a URL behind its first blank and both together shorter than 2 ^
-- 64, goes to the worker of the command, and the result names the URL below the directory of the
-- user `unknow`, whichever user the manager was made for.
pub schedul-cut :
    (root_dir : Bytes) (mapper : List (Bytes × Worker)) (user_name cmd url : Bytes)
    → Lacks b' ' cmd
    → length cmd + length url + 1 < size_t_mod
    → schedul root_dir (new_manager mapper user_name) (cmd ++ b' ' ∷ url)
      ≡ (mapping_worker mapper cmd, codes "Add " ++ (root_dir ++ (codes "unknow" ++ url)))
unfolding schedul new_manager reset_name init_url working
schedul-cut root_dir mapper user_name cmd url h small = rw (cut-append cmd url h small) refl
