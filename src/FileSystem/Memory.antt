-- ===== src/FileSystem/Memory.antt =====
-- A file system of directories alone, kept as the list of their paths, for the tests.
use solutions.Base.{
  ℕ, ◌≡◌, ◌≢◌, refl, ap, sym, ◌∙◌, ◌⊎◌, inl, inr, Bool, true, false, not, ◌&&◌, ◌||◌, Option, none,
  some, List, [], ◌∷◌, ◌++◌, append_assoc, append-nil, ◌==◌, length, length-append, arith, Bytes,
  Lacks, same, same_refl, same→eq, Bool-cases, if◌then◌else◌,
}
use mathlib.Core.Path.{subst}
use solutions.FilePath.{slash}
use solutions.FileSystem.{Fs, IsFs}
use solutions.FileSystem.Made.{IsOpen}

abbrev pub member : Bytes → List Bytes → Bool
member p [] = false
member p (q ∷ s) = same p q || member p s

-- A directory stands in a directory.
abbrev IsClosed : List Bytes → Type 0
IsClosed s = (p d : Bytes) → p ≢ [] → member (p ++ slash ∷ d) s ≡ true → member p s ≡ true

abbrev is_empty : Bytes → Bool
is_empty [] = true
is_empty (c ∷ p) = false

-- Whether all the directories above the path `acc ++ p` from `acc` on are there.
abbrev pub parents : Bytes → Bytes → List Bytes → Bool
parents acc [] s = true
parents acc (c ∷ p) s =
    (not (c == slash && not (is_empty acc)) || member acc s) && parents (acc ++ c ∷ []) p s

snoc : (acc : Bytes) (c : ℕ) (p : Bytes) → acc ++ c ∷ p ≡ (acc ++ c ∷ []) ++ p
snoc acc c p = sym (append_assoc acc (c ∷ []) p)

parents-member :
    (acc p d : Bytes) (s : List Bytes)
    → acc ++ p ≢ []
    → parents acc (p ++ slash ∷ d) s ≡ true
    → member (acc ++ p) s ≡ true
parents-member [] [] d s n h = absurd (n refl)
parents-member (a ∷ acc) [] d s n h = rw (append-nil acc) (ground (arith, h))
parents-member acc (c ∷ p) d s n h =
    rw (snoc acc c p)
      (parents-member (acc ++ c ∷ []) p d s (λ e. n (snoc acc c p ∙ e)) (ground (arith, h)))

parents-Lacks : (acc d : Bytes) (s : List Bytes) → Lacks slash d → parents acc d s ≡ true
parents-Lacks acc [] s h = refl
parents-Lacks acc (c ∷ d) s h = ground (arith, h.0, parents-Lacks (acc ++ c ∷ []) d s h.1)

above :
    (acc : Bytes) (c : ℕ) (p : Bytes) (s : List Bytes)
    → IsClosed s
    → member (acc ++ c ∷ p) s ≡ true
    → (not (c == slash && not (is_empty acc)) || member acc s) ≡ true
above [] c p s k h = ground arith
above (a ∷ acc) c p s k h = elim (Bool-cases (c == slash)) [
  | inl e ↦
      let eq : c ≡ slash = ground (arith, e) in
      rw (e, k (a ∷ acc) p (λ x. cc) (subst (λ x. member (a ∷ (acc ++ x ∷ p)) s ≡ true) eq h)) refl
  | inr e ↦ rw e refl
]

parents_there :
    (acc p d : Bytes) (s : List Bytes)
    → IsClosed s
    → Lacks slash d
    → (acc ++ p ≡ []) ⊎ (member (acc ++ p) s ≡ true)
    → parents acc (p ++ slash ∷ d) s ≡ true
parents_there [] [] d s k l h = parents-Lacks (slash ∷ []) d s l
parents_there (a ∷ acc) [] d s k l (inl h) = cc
parents_there (a ∷ acc) [] d s k l (inr h) =
    rw (rw (append-nil acc) at h, parents-Lacks ((a ∷ acc) ++ slash ∷ []) d s l) refl
parents_there [] (c ∷ p) d s k l (inl h) = cc
parents_there (a ∷ acc) (c ∷ p) d s k l (inl h) = cc
parents_there acc (c ∷ p) d s k l (inr h) =
    rw
      (
        above acc c p s k h,
        parents_there (acc ++ c ∷ []) p d s k l
            (inr (subst (λ q. member q s ≡ true) (snoc acc c p) h)),
      )
      refl

member_later : (q p : Bytes) (s : List Bytes) → member q s ≡ true → member q (p ∷ s) ≡ true
member_later q p s h = ground (arith, h)

-- A directory that is added below others.
pub add-IsClosed :
    (p : Bytes) (s : List Bytes) → IsClosed s → parents [] p s ≡ true → IsClosed (p ∷ s)
add-IsClosed p s k h q d n m = elim (Bool-cases (same (q ++ slash ∷ d) p)) [
  | inl e ↦
      let there = parents-member [] q d s n (rw (sym (same→eq (q ++ slash ∷ d) p e)) at h) in
      member_later q p s there
  | inr e ↦ member_later q p s (k q d n (rw e at m))
]

pub record Dirs : Type 0 where
  pub paths : List Bytes
  pub closed : IsClosed paths

abbrev pub no_dirs : Dirs
no_dirs = record { paths = []; closed = λ p d n h. h }

abbrev stat_dir : Bytes → Dirs → Option Bool
stat_dir p s = if member p s.paths then some true else none

-- Whether a directory can be added.
abbrev is_new : Bytes → Dirs → Bool
is_new p s = not (member p s.paths) && parents [] p s.paths

-- The parts of a conjunction.
new_absent : (p : Bytes) (s : Dirs) → is_new p s ≡ true → member p s.paths ≡ false
new_absent p s h = ground (arith, h)

pub new_parents : (p : Bytes) (s : Dirs) → is_new p s ≡ true → parents [] p s.paths ≡ true
new_parents p s h = ground (arith, h)

abbrev add_if : (p : Bytes) (s : Dirs) → (is_new p s ≡ true) ⊎ (is_new p s ≡ false) → Bool × Dirs
add_if p s (inl h) = (
  true,
  record { paths = p ∷ s.paths; closed = add-IsClosed p s.paths s.closed (new_parents p s h) },
)
add_if p s (inr h) = (false, s)

abbrev pub memory : Fs
memory = record {
  State = Dirs;
  stat = stat_dir;
  mkdir = λ p s. add_if p s (Bool-cases (is_new p s));
}

stat_member :
    (p : Bytes) (s : Dirs) (b : Bool)
    → stat_dir p s ≡ some b
    → (member p s.paths ≡ true) × (b ≡ true)
stat_member p s b h = elim (Bool-cases (member p s.paths)) [
  | inl e ↦ (e, cc (rw e at h))
  | inr e ↦ cc (rw e at h)
]

longer : (p d : Bytes) → p ++ slash ∷ d ≢ p
longer p d e = absurd (omega (arith, ap length e, length-append p (slash ∷ d)))

made_if :
    (p : Bytes) (s : Dirs) (o : (is_new p s ≡ true) ⊎ (is_new p s ≡ false))
    → (add_if p s o).0 ≡ true
    → stat_dir p (add_if p s o).1 ≡ some true
made_if p s (inl h) m = rw (same_refl p) refl
made_if p s (inr h) m = cc

kept_if :
    (p q : Bytes) (s : Dirs) (b : Bool) (o : (is_new p s ≡ true) ⊎ (is_new p s ≡ false))
    → stat_dir q s ≡ some b
    → stat_dir q (add_if p s o).1 ≡ some b
kept_if p q s b (inl h) m =
    let (t, e) = stat_member q s b m in rw (member_later q p s.paths t, e) refl
kept_if p q s b (inr h) m = m

-- No path is a file.
no_if :
    (p q : Bytes) (s : Dirs) (o : (is_new p s ≡ true) ⊎ (is_new p s ≡ false))
    → stat_dir q (add_if p s o).1 ≢ some false
no_if p q s o h = cc (stat_member q (add_if p s o).1 false h).1

refused_if :
    (p : Bytes) (s : Dirs) (o : (is_new p s ≡ true) ⊎ (is_new p s ≡ false))
    → (add_if p s o).0 ≡ false
    → (add_if p s o).1 ≡ s
refused_if p s (inl h) m = cc
refused_if p s (inr h) m = refl

exists_if :
    (p : Bytes) (s : Dirs) (b : Bool) (o : (is_new p s ≡ true) ⊎ (is_new p s ≡ false))
    → stat_dir p s ≡ some b
    → (add_if p s o).0 ≡ false
exists_if p s b (inl h) m = cc (new_absent p s h, (stat_member p s b m).0)
exists_if p s b (inr h) m = refl

parent_if :
    (p d : Bytes) (s : Dirs)
    → p ≢ []
    → (o : (is_new (p ++ slash ∷ d) s ≡ true) ⊎ (is_new (p ++ slash ∷ d) s ≡ false))
    → (add_if (p ++ slash ∷ d) s o).0 ≡ true
    → stat_dir p s ≡ some true
parent_if p d s n (inl h) m =
    rw (parents-member [] p d s.paths n (new_parents (p ++ slash ∷ d) s h)) refl
parent_if p d s n (inr h) m = cc

fresh_if :
    (p d : Bytes) (s : Dirs)
    → p ≢ []
    → (o : (is_new p s ≡ true) ⊎ (is_new p s ≡ false)) → (add_if p s o).0 ≡ true
    → stat_dir (p ++ slash ∷ d) (add_if p s o).1 ≡ none
fresh_if p d s n (inl h) m = elim (Bool-cases (member (p ++ slash ∷ d) (p ∷ s.paths))) [
  | inl e ↦ elim (Bool-cases (same (p ++ slash ∷ d) p)) [
    | inl f ↦ absurd (longer p d (same→eq (p ++ slash ∷ d) p f))
    | inr f ↦ cc (new_absent p s h, s.closed p d n (rw f at e))
  ]
  | inr e ↦ rw e refl
]
fresh_if p d s n (inr h) m = cc

pub memory-IsFs : IsFs memory
memory-IsFs = record {
  made = λ p s. made_if p s (Bool-cases (is_new p s));
  kept = λ p q s b. kept_if p q s b (Bool-cases (is_new p s));
  no_file = λ p q s n h. no_if p q s (Bool-cases (is_new p s)) h;
  refused = λ p s. refused_if p s (Bool-cases (is_new p s));
  exists = λ p s b. exists_if p s b (Bool-cases (is_new p s));
  stat_parent = λ p d s b n a h. rw (s.closed p d n (stat_member (p ++ slash ∷ d) s b h).0) refl;
  stat_slash = λ p s n h. rw (s.closed p [] n (stat_member (p ++ slash ∷ []) s true h).0) refl;
  mkdir_parent = λ p d s n a. parent_if p d s n (Bool-cases (is_new (p ++ slash ∷ d) s));
  fresh = λ p d s n a. fresh_if p d s n (Bool-cases (is_new p s));
}

add_if_new :
    (p : Bytes) (s : Dirs) (o : (is_new p s ≡ true) ⊎ (is_new p s ≡ false))
    → is_new p s ≡ true
    → (add_if p s o).0 ≡ true
add_if_new p s (inl h) e = refl
add_if_new p s (inr h) e = cc

absent_new :
    (p : Bytes) (s : Dirs) → stat_dir p s ≡ none → parents [] p s.paths ≡ true → is_new p s ≡ true
absent_new p s e h = elim (Bool-cases (member p s.paths)) [
  | inl m ↦ cc (rw m at e)
  | inr m ↦ rw (m, h) refl
]

pub memory-IsOpen : IsOpen memory
memory-IsOpen p d s a h e =
    let there : (p ≡ []) ⊎ (member p s.paths ≡ true) = elim h [
      | inl n ↦ inl n
      | inr m ↦ inr (stat_member p s true m).0
    ] in
    add_if_new (p ++ slash ∷ d) s (Bool-cases (is_new (p ++ slash ∷ d) s))
      (absent_new (p ++ slash ∷ d) s e (parents_there [] p d s.paths s.closed a.0.1 there))
