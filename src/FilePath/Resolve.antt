-- ===== src/FilePath/Resolve.antt =====
-- `Path::init`: which directories a path stands for.
use solutions.Base.{
  take-length, zero, suc, take, ℕ, suc, ◌≡◌, ◌≢◌, refl, ap, true, false, none, some, List, [], ◌∷◌,
  ◌++◌, arith, length, length-append, ◌==◌, Bytes, codes, All, All-append, replicate, length-take,
  same, Bool-cases, Option-cases, All-take, same_ne, inl, inr, ◌⊎◌, same→eq,
}
use mathlib.Core.Path.{subst}
use mathlib.Core.Option.{some-injective}
use solutions.FilePath.{
  DirPath, starts, getdirs, slash, render, names, split_ins, pop_back, walk, absolute, init, reset,
  new_path, is_abs, IsShort,
}
use solutions.FilePath.Split.{
  IsName, AllNames, relative, getdirs-render, getdirs-relative, last_elem-append,
}

pub pop_back-concat {ℓ} : {A : Type ℓ} (xs : List A) (x : A) → pop_back (xs ++ x ∷ []) ≡ some xs
unfolding pop_back
pop_back-concat [] x = refl
pop_back-concat (y ∷ xs) x =
    let n : length (xs ++ x ∷ []) ≡ suc (length xs) = omega (arith, length-append xs (x ∷ [])) in
    rw n (ap (λ t. some (y ∷ t)) (take-length xs (x ∷ [])))

-- A name that is neither `.` nor `..`.
abbrev pub IsPlain : Bytes → Type 0
IsPlain d = (d ≢ codes ".") × (d ≢ codes "..")

-- Taking the last element away keeps what holds of every element.
pop_back-All {ℓ κ} :
    {A : Type ℓ} (P : A → Type κ) (xs ys : List A) → pop_back xs ≡ some ys → All P xs → All P ys
unfolding pop_back
pop_back-All P [] ys e h = cc
pop_back-All P (x ∷ xs) ys e h =
    subst (All P) (some-injective _ _ e) (All-take P (length xs) (x ∷ xs) h)

-- What holds of the directories that a walk starts from, and of every plain name that it adds, holds
-- of the directories that it ends with.
walk-All {κ} :
    (P Q : Bytes → Type κ)
    → ((d : Bytes) → Q d → IsPlain d → P d)
    → (abs ds out : List Bytes) → walk abs ds ≡ some out
    → All Q ds
    → All P abs
    → All P out
unfolding walk
walk-All P Q add abs [] out e q h = subst (All P) (some-injective _ _ e) h
walk-All P Q add abs (d ∷ ds) out e q h = elim (Bool-cases (same d (codes "."))) [
  | inl dot ↦ walk-All P Q add abs ds out (rw dot at e) q.1 h
  | inr no_dot ↦ elim (Bool-cases (same d (codes ".."))) [
    | inl up ↦ elim (Option-cases (pop_back abs)) [
      | inl stuck ↦ cc (rw (no_dot, up, stuck) at e)
      | inr (abs', popped) ↦
          walk-All P Q add abs' ds out (rw (no_dot, up, popped) at e) q.1
            (pop_back-All P abs abs' popped h)
    ]
    | inr no_up ↦
        walk-All P Q add (abs ++ d ∷ []) ds out (rw (no_dot, no_up) at e) q.1
          (All-append P abs (d ∷ []) h (add d q.0 (same_ne d _ no_dot, same_ne d _ no_up), tt))
  ]
]

-- From directories that are names without `.` and `..`, a walk over names that ends does so with
-- directories that are names without `.` and `..`.
pub walk-IsPlain :
    (abs ds out : List Bytes)
    → walk abs ds ≡ some out
    → AllNames ds
    → All (λ d. IsName slash d × IsPlain d) abs
    → All (λ d. IsName slash d × IsPlain d) out
walk-IsPlain = walk-All (λ d. IsName slash d × IsPlain d) (IsName slash) (λ d n p. (n, p))

walk-AllNames :
    (abs ds out : List Bytes) → walk abs ds ≡ some out → AllNames ds → AllNames abs → AllNames out
walk-AllNames = walk-All (IsName slash) (IsName slash) (λ d n p. n)

-- The path that the constructor builds when it resolves to the directories `ds ++ d ∷ []`.
abbrev pub resolved : Bytes → Bytes → List Bytes → Bytes → DirPath
resolved cwd path ds d = record {
  dir_split = slash;
  ori_path = path;
  abs_path = render (ds ++ d ∷ []);
  current_dir = cwd;
  dirs = ds ++ d ∷ [];
  name = d;
}

pub not-nil : (ds : List Bytes) (d : Bytes) → ds ++ d ∷ [] ≢ []
not-nil [] d e = cc
not-nil (x ∷ ds) d e = cc

starts-render : (ds : List Bytes) (d : Bytes) → starts slash (render (ds ++ d ∷ [])) ≡ true
unfolding render
starts-render [] d = refl
starts-render (x ∷ ds) d = refl

nonempty-render : (ds : List Bytes) (d : Bytes) → (length (render (ds ++ d ∷ [])) == 0) ≡ false
unfolding render
nonempty-render [] d = ground arith
nonempty-render (x ∷ ds) d = ground arith

starts-relative : (os : List Bytes) → AllNames os → starts slash (relative os) ≡ false
starts-relative [] h = refl
starts-relative ([] ∷ os) h = absurd (h.0.0 refl)
starts-relative ((c ∷ o) ∷ os) h = ground (arith, h.0.1.0)

nonempty-relative : (os : List Bytes) → os ≢ [] → AllNames os → (length (relative os) == 0) ≡ false
nonempty-relative [] n h = absurd (n refl)
nonempty-relative ([] ∷ os) n h = absurd (h.0.0 refl)
nonempty-relative ((c ∷ o) ∷ os) n h = ground arith

-- An absolute path of names, at least one, of fewer than 2 ^ 31 bytes, is taken as it stands, with
-- the last name as its name.
pub new_path-absolute :
    (cwd : Bytes) (ds : List Bytes) (d : Bytes)
    → AllNames (ds ++ d ∷ [])
    → IsShort (render (ds ++ d ∷ []))
    → new_path cwd (render (ds ++ d ∷ [])) slash ≡ some (resolved cwd (render (ds ++ d ∷ [])) ds d)
unfolding new_path reset init absolute is_abs
new_path-absolute cwd ds d h b = rw (
  nonempty-render ds d,
  starts-render ds d,
  getdirs-render (ds ++ d ∷ []) (not-nil ds d) h b,
  last_elem-append ds d [],
)

-- Where a relative path leads from a directory: `.` stays, `..` goes up to the directory above, and a
-- plain name goes down.
abbrev pub Leads : List Bytes → List Bytes → List Bytes → Type 0
Leads cs [] ds = cs ≡ ds
Leads cs (o ∷ os) ds =
    ((o ≡ codes ".") × Leads cs os ds)
    ⊎ (((o ≡ codes "..")
          × ((above : List Bytes) × (d : Bytes) × (cs ≡ above ++ d ∷ []) × Leads above os ds))
        ⊎ (IsPlain o × Leads (cs ++ o ∷ []) os ds))

different : (s t : Bytes) → s ≢ t → same s t ≡ false
different s t n = elim (Bool-cases (same s t)) [ inl e ↦ absurd (n (same→eq s t e)) | inr e ↦ e ]

pub walk-Leads : (cs os ds : List Bytes) → Leads cs os ds → walk cs os ≡ some ds
unfolding walk
walk-Leads cs [] ds h = ap some h
walk-Leads cs (o ∷ os) ds (inl (e, h)) = rw e (walk-Leads cs os ds h)
walk-Leads cs (o ∷ os) ds (inr (inl (e, (above, d, c, h)))) =
    rw (e, c, pop_back-concat above d) (walk-Leads above os ds h)
walk-Leads cs (o ∷ os) ds (inr (inr ((here, up), h))) =
    rw (different o (codes ".") here, different o (codes "..") up)
      (walk-Leads (cs ++ o ∷ []) os ds h)

-- A relative path, made of names as the working directory is, leads from there: `.` stays, `..` goes up,
-- any other name goes down. When it leads to the directories `ds` and `d`, the constructor builds the path
-- of these, with the name `d`. The three paths have fewer than 2 ^ 31 bytes.
pub new_path-relative :
    (cs os ds : List Bytes) (d : Bytes)
    → cs ≢ []
    → os ≢ []
    → AllNames cs
    → AllNames os
    → IsShort (render cs)
    → IsShort (relative os)
    → IsShort (render (ds ++ d ∷ []))
    → Leads cs os (ds ++ d ∷ [])
    → new_path (render cs) (relative os) slash ≡ some (resolved (render cs) (relative os) ds d)
unfolding new_path reset init absolute is_abs
new_path-relative cs os ds d hc ho nc ns bc bo bd l =
    let w = walk-Leads cs os (ds ++ d ∷ []) l in
    rw (
      nonempty-relative os ho ns,
      starts-relative os ns,
      getdirs-render cs hc nc bc,
      getdirs-relative os ho ns bo,
      w,
      getdirs-render (ds ++ d ∷ []) (not-nil ds d) (walk-AllNames cs os (ds ++ d ∷ []) w ns nc) bd,
      last_elem-append ds d [],
    )

-- The root directory has no last name: the constructor reads one element before its first, whatever
-- the working directory is.
pub new_path-root : (cwd : Bytes) → new_path cwd (codes "/") slash ≡ none
unfolding new_path reset init absolute is_abs getdirs names split_ins
new_path-root cwd = refl

-- As many `..` as a directory has names.
abbrev pub ups : ℕ → List Bytes
ups n = replicate n (codes "..")

ups-AllNames : (n : ℕ) → AllNames (ups n)
ups-AllNames zero = tt
ups-AllNames (suc n) = ((λ e. cc, omega arith), ups-AllNames n)

-- Going up once for each name ends above all of them.
pub walk-ups : (n : ℕ) (cs : List Bytes) → length cs ≡ n → walk cs (ups n) ≡ some []
unfolding walk pop_back
walk-ups zero [] h = refl
walk-ups zero (c ∷ cs) h = absurd (omega arith)
walk-ups (suc n) [] h = absurd (omega arith)
walk-ups (suc n) (c ∷ cs) h =
    walk-ups n (take (length cs) (c ∷ cs)) (omega (arith, length-take (length cs) (c ∷ cs)))

-- From a working directory of names, at least one, a relative path that climbs exactly to the root, both
-- of fewer than 2 ^ 31 bytes,
-- is undefined: the path that is put together from no names is the empty string, whose last byte is
-- then read.
pub new_path-ups :
    (c : Bytes) (cs : List Bytes)
    → AllNames (c ∷ cs)
    → IsShort (render (c ∷ cs))
    → IsShort (relative (ups (length (c ∷ cs))))
    → new_path (render (c ∷ cs)) (relative (ups (length (c ∷ cs)))) slash ≡ none
unfolding new_path reset init absolute is_abs
new_path-ups c cs h b u =
    let n = length (c ∷ cs) in
    rw
      (
        nonempty-relative (ups n) (λ e. cc) (ups-AllNames n),
        getdirs-render (c ∷ cs) (λ e. cc) h b,
        getdirs-relative (ups n) (λ e. cc) (ups-AllNames n) u,
        walk-ups n (c ∷ cs) refl,
      )
      (unfold render getdirs in refl)
