-- ===== src/Mleak/Interleaved.antt =====
-- The hooks of mleak.h in threads, interleaved in any order. Each hook is two steps, as the code has them:
-- `malloc_hook` calls `malloc` and then `write_check_log`, and `free_hook` calls `free` and then it.
use solutions.Base.{
  ℕ, ◌≡◌, refl, inl, inr, Bool, true, false, not, ◌&&◌, ◌||◌, List, [], ◌∷◌, ◌==◌, arith,
  Bool-cases, if◌then◌else◌, Steps, here, next, ◌≢◌, Bytes, Option-cases, ap, sym, ◌∙◌, some, none,
}
use mathlib.Core.Option.{some-injective}
use solutions.FilePath.{slash, new_path}
use solutions.FileSystem.{Fs, mkdirs}
use solutions.Mleak.{Files, IsFiles, log_file_name, log_text, write_check_log}
use solutions.Mleak.Reports.{make_dirs-read}

unfoldable pub member : ℕ → List ℕ → Bool
member p [] = false
member p (q ∷ qs) = (p == q) || member p qs

-- The pointers of a list but one, everywhere and once.
unfoldable pub remove_all : ℕ → List ℕ → List ℕ
remove_all p [] = []
remove_all p (q ∷ qs) = let rest = remove_all p qs in if p == q then rest else q ∷ rest

unfoldable pub remove_one : ℕ → List ℕ → List ℕ
remove_one p [] = []
remove_one p (q ∷ qs) = let rest = remove_one p qs in if p == q then qs else q ∷ rest

member-remove_all :
    (p q : ℕ) (qs : List ℕ) → member q (remove_all p qs) ≡ not (q == p) && member q qs
unfolding member remove_all
member-remove_all p q [] = ground arith
member-remove_all p q (r ∷ qs) = ground (arith, member-remove_all p q qs)

member-remove_one :
    (p q : ℕ) (qs : List ℕ) → (q == p) ≡ false → member q (remove_one p qs) ≡ member q qs
unfolding member remove_one
member-remove_one p q [] h = refl
member-remove_one p q (r ∷ qs) h = ground (arith, h, member-remove_one p q qs h)

-- The pointers that the allocator gave and did not take back, the files, the pointers of the hooks
-- between their two steps, in `malloc_hook` and in `free_hook`, and those whose last `remove` failed.
pub record Memory (fs : Fs) : Type 0 where
  pub live : List ℕ
  pub files : fs.State
  pub writing : List ℕ
  pub removing : List ℕ
  pub failed : List ℕ

abbrev pub no_memory : (fs : Fs) → fs.State → Memory fs
no_memory fs s = record { live = []; files = s; writing = []; removing = []; failed = [] }

module _ (fs : Fs) (io : Files fs) (show : ℕ → Bytes) (cwd dir : Bytes) where
  abbrev file : ℕ → Bytes
  file p = log_file_name show dir p

  -- `malloc` gives a pointer that is not live. A pointer is freed once `malloc_hook` has returned it.
  pub data Step (m : Memory fs) : Memory fs → Type 0 where
    take :
        (p : ℕ)
        → member p m.live ≡ false
        → Step m (record m { live = p ∷ m.live; writing = p ∷ m.writing })
    write :
        (p : ℕ) (desc : Bytes) (s : fs.State)
        → member p m.writing ≡ true
        → write_check_log fs io show cwd dir (some p) desc true m.files ≡ some s
        → Step m (record m { files = s; writing = remove_all p m.writing })
    give :
        (p : ℕ)
        → member p m.live ≡ true
        → member p m.writing ≡ false
        → Step m (record m { live = remove_all p m.live; removing = p ∷ m.removing })
    remove :
        (p : ℕ) (desc : Bytes) (s : fs.State)
        → member p m.removing ≡ true
        → write_check_log fs io show cwd dir (some p) desc false m.files ≡ some s
        → Step m (record m {
          files = s;
          removing = remove_one p m.removing;
          failed =
              if (io.remove (log_file_name show dir p) m.files).0
              then remove_all p m.failed
              else p ∷ m.failed;
        })

  -- A hook that still has to write holds its pointer, and a file is one of a live pointer, of one whose
  -- file is about to be removed, or of one whose last `remove` failed.
  record IsHonest (m : Memory fs) : Type 0 where
    writing : (p : ℕ) → member p m.writing ≡ true → member p m.live ≡ true
    logged :
        (p : ℕ)
        → io.read (file p) m.files ≢ none
        → (member p m.live || (member p m.removing || member p m.failed)) ≡ true

  module _ (good : IsFiles fs io)
      (injective : (p q : ℕ) → log_file_name show dir p ≡ log_file_name show dir q → p ≡ q) where
    mkdirs-read :
        (q : Bytes) (s s' : fs.State) (failed : List Bytes)
        → mkdirs fs cwd dir s ≡ some (failed, s')
        → io.read q s' ≡ io.read q s
    unfolding mkdirs
    mkdirs-read q s s' failed e = elim (Option-cases (new_path cwd dir slash)) [
      | inl x ↦ absurd (cc (rw x at e))
      | inr (d, x) ↦
          let same = some-injective _ _ (rw x at e) in
          ap (λ (r : List Bytes × fs.State). io.read q r.1) (sym same)
          ∙ make_dirs-read fs io show cwd dir good [] d.dirs q s
    ]

    -- `malloc_hook` changes no file of another pointer.
    written_others :
        (p q : ℕ) (desc : Bytes) (s t : fs.State)
        → (q == p) ≡ false
        → write_check_log fs io show cwd dir (some p) desc true s ≡ some t
        → io.read (file q) t ≡ io.read (file q) s
    unfolding write_check_log
    written_others p q desc s t n e = elim (Option-cases (mkdirs fs cwd dir s)) [
      | inl x ↦ absurd (cc (rw x at e))
      | inr ((failed, s₁), x) ↦ elim (Option-cases (new_path cwd (file p) slash)) [
        | inl y ↦ absurd (cc (rw (x, y) at e))
        | inr (d, y) ↦
            let text = log_text show p desc true in
            elim (Option-cases (io.write (file p) text s₁).0) [
              | inl z ↦ absurd (cc (rw (x, y, z) at e))
              | inr (k, z) ↦
                  let same : (io.write (file p) text s₁).1 ≡ t =
                    some-injective _ _ (rw (x, y, z) at e) in
                  ap (io.read (file q)) (sym same)
                  ∙ good.written_others (file p) (file q) text s₁
                      (λ w. let same_p = injective q p w in absurd (ground (arith, n, same_p)))
                  ∙ mkdirs-read (file q) s s₁ failed x
            ]
      ]
    ]

    -- What a `remove` leaves of the files is accounted for.
    removed_logged :
        (m : Memory fs) (p : ℕ) (desc : Bytes) (s : fs.State)
        → write_check_log fs io show cwd dir (some p) desc false m.files ≡ some s
        → IsHonest m
        → (q : ℕ) → io.read (file q) s ≢ none
        → (member q m.live
            || (member q (remove_one p m.removing)
                || member q (
                    if (io.remove (file p) m.files).0
                    then remove_all p m.failed
                    else p ∷ m.failed)))
          ≡ true
    unfolding write_check_log member
    removed_logged m p desc s e h q y =
        let same : (io.remove (file p) m.files).1 ≡ s = some-injective _ _ e in
        let y' : io.read (file q) (io.remove (file p) m.files).1 ≢ none =
          λ z. y (ap (io.read (file q)) (sym same) ∙ z) in
        elim (Bool-cases (q == p)) [
          | inl x ↦
              let eq : q ≡ p = ground (arith, x) in
              elim (Bool-cases (io.remove (file p) m.files).0) [
                | inl ok ↦ absurd (
                    y' (
                      ap (λ k. io.read (file k) (io.remove (file p) m.files).1) eq
                      ∙ good.removed (file p) m.files ok))
                | inr bad ↦ rw bad (ground (arith, x))
              ]
          | inr x ↦
              let other : (file q) ≢ (file p) =
                λ w. let same_p = injective q p w in absurd (ground (arith, x, same_p)) in
              let was =
                h.logged q (λ z. y' (good.removed_others (file p) (file q) m.files other ∙ z)) in
              let one = member-remove_one p q m.removing x in
              elim (Bool-cases (io.remove (file p) m.files).0) [
                | inl ok ↦ rw ok (ground (arith, was, one, member-remove_all p q m.failed, x))
                | inr bad ↦ rw bad (ground (arith, was, one, x))
              ]
        ]

    Step-IsHonest : {m n : Memory fs} → Step m n → IsHonest m → IsHonest n
    unfolding member
    Step-IsHonest (take p new) h = record {
      writing = λ q e. ground (arith, h.writing q, e);
      logged = λ q e. ground (arith, h.logged q e);
    }
    Step-IsHonest {m} (write p desc s held e) h = record {
      writing = λ q y. h.writing q (ground (arith, y, member-remove_all p q m.writing));
      logged = λ q y. elim (Bool-cases (q == p)) [
        | inl x ↦ let there = h.writing p held in ground (arith, x, there)
        | inr x ↦ h.logged q (λ z. y (written_others p q desc m.files s x e ∙ z))
      ];
    }
    Step-IsHonest {m} (give p had back) h = record {
      writing = λ q e. ground (arith, e, back, h.writing q e, member-remove_all p q m.live);
      logged = λ q e. ground (arith, h.logged q e, member-remove_all p q m.live);
    }
    Step-IsHonest {m} (remove p desc s held e) h = record {
      writing = h.writing;
      logged = λ q y. removed_logged m p desc s e h q y;
    }

    no_memory-IsHonest :
        (s : fs.State) → ((p : ℕ) → io.read (file p) s ≡ none) → IsHonest (no_memory fs s)
    unfolding member
    no_memory-IsHonest s empty = record { writing = λ p e. e; logged = λ p e. absurd (e (empty p)) }

    Steps-IsHonest :
        {s : fs.State} {m : Memory fs}
        → ((p : ℕ) → io.read (file p) s ≡ none)
        → Steps Step (no_memory fs s) m
        → IsHonest m
    Steps-IsHonest {s} empty here = no_memory-IsHonest s empty
    Steps-IsHonest empty (next r st) = Step-IsHonest st (Steps-IsHonest empty r)

    -- From a state with no file in the log directory, where pointers have different file names, and
    -- however the steps of the hooks of the threads are interleaved: a file in the log directory is
    -- that of a pointer that is live, of one whose `free_hook` is about to remove the file, or of one
    -- for which the last `remove` failed. No other pointer that was freed is reported.
    pub Steps-logged :
        (s : fs.State)
        → ((p : ℕ) → io.read (log_file_name show dir p) s ≡ none)
        → (m : Memory fs) → Steps Step (no_memory fs s) m
        → (p : ℕ) → io.read (log_file_name show dir p) m.files ≢ none
        → (member p m.live || (member p m.removing || member p m.failed)) ≡ true
    Steps-logged s empty m r = (Steps-IsHonest empty r).logged
