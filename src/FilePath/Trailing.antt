-- ===== src/FilePath/Trailing.antt =====
-- A path with a separator at its end has the names of the path without it.
use solutions.Base.{
  true, false, ◌==◌, ℕ, suc, ◌+◌, ◌^◌, leb, ◌≡◌, ◌≢◌, refl, ap, some, List, [], ◌∷◌, ◌++◌,
  append_assoc, arith, length, Bytes,
}
use solutions.FilePath.Resolve.{resolved, not-nil}
use solutions.FilePath.{
  new_path, reset, init, absolute, is_abs, starts, last_elem, split_ins, getdirs, slash, render,
  IsShort,
}
use solutions.FilePath.Split.{names-render, AllNames, last_elem-append, names-Lacks}

split_ins-slash :
    (s : Bytes) (i : ℕ)
    → split_ins slash i (s ++ slash ∷ []) ≡ split_ins slash i s ++ (i + length s) ∷ []
unfolding split_ins
split_ins-slash [] i = let e : i + 0 ≡ i = omega arith in rw e refl
split_ins-slash (c ∷ s) i =
    let e : i + suc (length s) ≡ suc i + length s = omega arith in
    rw e (ground (arith, split_ins-slash s (suc i)))

-- `getdirs` of rendered names, at least one, with a separator behind them gives the names back.
pub getdirs-slash :
    (ds : List Bytes)
    → ds ≢ []
    → AllNames ds
    → IsShort (render ds ++ slash ∷ [])
    → getdirs slash (render ds ++ slash ∷ []) ≡ some ds
unfolding getdirs
getdirs-slash [] n h b = absurd (n refl)
getdirs-slash (d ∷ ds) n h b =
    let short : leb (2 ^ 31) (length (render (d ∷ ds) ++ slash ∷ [])) ≡ false = ground (arith, b) in
    let e : last_elem (render (d ∷ ds) ++ slash ∷ []) ≡ some slash =
      last_elem-append (render (d ∷ ds)) slash [] in
    let ends = split_ins-slash (d ++ render ds) 1 in
    rw (short, e)
      (unfold render in
        rw ends (
          ap some (
            names-render (slash ∷ []) d ds (slash ∷ []) _ _ h.0.1 (names-Lacks ds h.1)
              (ap (◌∷◌ slash) (append_assoc d (render ds) (slash ∷ []))) refl)))

nonempty_slash : (s : Bytes) → (length (s ++ slash ∷ []) == 0) ≡ false
nonempty_slash [] = ground arith
nonempty_slash (c ∷ s) = ground arith

starts-slash :
    (ds : List Bytes) (d : Bytes) → starts slash (render (ds ++ d ∷ []) ++ slash ∷ []) ≡ true
unfolding render
starts-slash [] d = refl
starts-slash (x ∷ ds) d = refl

-- The constructor of `Path` builds the same directories and name as without the separator.
pub new_path-slash :
    (cwd : Bytes) (ds : List Bytes) (d : Bytes)
    → AllNames (ds ++ d ∷ [])
    → IsShort (render (ds ++ d ∷ []) ++ slash ∷ [])
    → new_path cwd (render (ds ++ d ∷ []) ++ slash ∷ []) slash
      ≡ some (record (resolved cwd (render (ds ++ d ∷ []) ++ slash ∷ []) ds d) {
        abs_path = render (ds ++ d ∷ []) ++ slash ∷ [];
      })
unfolding new_path reset init absolute is_abs
new_path-slash cwd ds d h b =
    rw
      (
        nonempty_slash (render (ds ++ d ∷ [])),
        starts-slash ds d,
        getdirs-slash (ds ++ d ∷ []) (not-nil ds d) h b,
        last_elem-append ds d [],
      )
      refl
