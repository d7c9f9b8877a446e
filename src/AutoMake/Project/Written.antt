-- ===== src/AutoMake/Project/Written.antt =====
-- What the files of a project hold.
use solutions.Base.{
  inr, same→eq, inl, Bool-cases, ◌≡◌, ◌≢◌, refl, ap, sym, ◌∙◌, true, Option, none, some, List, [],
  ◌∷◌, ◌++◌, Bytes, All, same, same_refl, map, ℕ, take, length, take-length,
}
use mathlib.Core.List.{append_assoc, append-nil, append_cancel_left}
use solutions.FilePath.{DirPath, slash, new_path}
use solutions.FileSystem.{Fs}
use solutions.AutoMake.Project.{
  Kind, ContextMaker, context, maker_context, Makers, find_maker, add_maker, set_maker, get_context,
  add_file, Files, Making, mk_file, mk_files,
}

add_maker_new :
    (file : Bytes) (m : ContextMaker) (ms : Makers)
    → find_maker file ms ≡ none
    → add_maker file m ms ≡ (file, m) ∷ ms
unfolding add_maker
add_maker_new file m ms e = rw (e, add_maker) refl

-- A file that no maker is kept for gets its maker's text, once.
get_context-add_maker :
    (name file : Bytes) (kind : Kind) (ms : Makers)
    → find_maker file ms ≡ none
    → get_context name file (add_maker file (record { kind = kind; ss = [] }) ms)
      ≡ some (context kind name, (file, record { kind = kind; ss = context kind name }) ∷ ms)
unfolding get_context find_maker set_maker maker_context
get_context-add_maker name file kind ms e =
    rw (add_maker_new file (record { kind = kind; ss = [] }) ms e, same_refl file) refl

abbrev pub AreOther : Bytes → List (Bytes × Kind) → Type 0
AreOther file fks = All (λ (fk : Bytes × Kind). fk.0 ≢ file) fks

abbrev pub AreDistinct : List (Bytes × Kind) → Type 0
AreDistinct [] = Unit
AreDistinct (fk ∷ fks) = AreOther fk.0 fks × AreDistinct fks

-- No maker is kept for any of the files.
abbrev pub AreNew : List (Bytes × Kind) → Makers → Type 0
AreNew fks ms = All (λ (fk : Bytes × Kind). find_maker fk.0 ms ≡ none) fks

AreNew-cons :
    (fks : List (Bytes × Kind)) (file : Bytes) (m : ContextMaker) (ms : Makers)
    → AreOther file fks
    → AreNew fks ms
    → AreNew fks ((file, m) ∷ ms)
unfolding find_maker
AreNew-cons [] file m ms o n = tt
AreNew-cons ((g, k) ∷ fks) file m ms o n = (
  elim (Bool-cases (same file g)) [
    | inl e ↦ absurd (o.0 (sym (same→eq file g e)))
    | inr e ↦ rw e n.0
  ],
  AreNew-cons fks file m ms o.1 n.1,
)

-- The paths of the files are paths.
abbrev pub ArePaths : Bytes → Bytes → List (Bytes × Kind) → Type 0
ArePaths cwd base fks =
    All (λ (fk : Bytes × Kind). (q : DirPath) × (new_path cwd (base ++ fk.0) slash ≡ some q)) fks

abbrev pub or_empty : Option Bytes → Bytes
or_empty none = []
or_empty (some x) = x

module _ (fs : Fs) (io : Files fs) where
  abbrev pub content : Bytes → fs.State → Bytes
  content p s = or_empty (io.read p s)

  -- What `append` is documented to do.
  pub record IsFiles : Type 0 where
    pub appended :
        (p x : Bytes) (n : ℕ) (s : fs.State)
        → (io.append p x s).0 ≡ some n
        → io.read p (io.append p x s).1 ≡ some (content p s ++ take n x)
    pub others :
        (p q x : Bytes) (s : fs.State) → q ≢ p → io.read q (io.append p x s).1 ≡ io.read q s
    pub unmoved :
        (p q x : Bytes) (s : fs.State)
        → fs.stat q s ≡ some true
        → fs.stat q (io.append p x s).1 ≡ some true

  -- The texts of the files, one after the other.
  abbrev pub write_all : Bytes → Bytes → List (Bytes × Kind) → fs.State → fs.State
  write_all base name [] s = s
  write_all base name ((file, kind) ∷ fks) s =
      write_all base name fks (io.append (base ++ file) (context kind name) s).1

module _ (fs : Fs) (io : Files fs) (law : IsFiles fs io) where
  -- A path that is none of the files keeps its content.
  write_all-others :
      (base name q : Bytes) (fks : List (Bytes × Kind)) (s : fs.State)
      → AreOther q fks
      → io.read (base ++ q) (write_all fs io base name fks s) ≡ io.read (base ++ q) s
  write_all-others base name q [] s o = refl
  write_all-others base name q ((file, kind) ∷ fks) s o =
      write_all-others base name q fks (io.append (base ++ file) (context kind name) s).1 o.1
      ∙ law.others (base ++ file) (base ++ q) (context kind name) s
          (λ e. o.0 (sym (append_cancel_left base q file e)))

  -- In the directory `p`, once it is there, each of the files can be opened, and `fwrite` takes its whole text.
  abbrev pub CanWrite : Bytes → Bytes → Bytes → List (Bytes × Kind) → Type 0
  CanWrite p base name fks =
      All
        (λ (fk : Bytes × Kind).
          (s : fs.State)
          → fs.stat p s ≡ some true
          → (io.append (base ++ fk.0) (context fk.1 name) s).0 ≡ some (length (context fk.1 name)))
        fks

  abbrev pub SameAt : Bytes → List (Bytes × Kind) → fs.State → fs.State → Type 0
  SameAt base fks s t =
      All (λ (fk : Bytes × Kind). io.read (base ++ fk.0) s ≡ io.read (base ++ fk.0) t) fks

  SameAt-append :
      (base file x : Bytes) (fks : List (Bytes × Kind)) (s t : fs.State)
      → AreOther file fks
      → SameAt base fks s t
      → SameAt base fks (io.append (base ++ file) x s).1 t
  SameAt-append base file x [] s t o h = tt
  SameAt-append base file x ((g, k) ∷ fks) s t o h = (
    law.others (base ++ file) (base ++ g) x s (λ e. o.0 (append_cancel_left base g file e)) ∙ h.0,
    SameAt-append base file x fks s t o.1 h.1,
  )

  appended_all :
      (p x : Bytes) (s : fs.State)
      → (io.append p x s).0 ≡ some (length x)
      → io.read p (io.append p x s).1 ≡ some (content fs io p s ++ x)
  appended_all p x s h =
      law.appended p x (length x) s h
      ∙ ap (λ y. some (content fs io p s ++ y))
          (ap (take (length x)) (sym (append-nil x)) ∙ take-length x [])

  -- Every file holds what it held before, with its text behind.
  pub write_all-appended :
      (p base name : Bytes) (fks : List (Bytes × Kind)) (s t : fs.State)
      → AreDistinct fks
      → CanWrite p base name fks
      → fs.stat p s ≡ some true
      → SameAt base fks s t
      → All
          (λ (fk : Bytes × Kind).
            io.read (base ++ fk.0) (write_all fs io base name fks s)
            ≡ some (content fs io (base ++ fk.0) t ++ context fk.1 name))
          fks
  write_all-appended p base name [] s t d w h e = tt
  write_all-appended p base name ((file, kind) ∷ fks) s t d w h e =
      let x = context kind name in
      let s' = (io.append (base ++ file) x s).1 in
      (
        write_all-others base name file fks s' d.0
            ∙ appended_all (base ++ file) x s (w.0 s h)
            ∙ ap (λ (o : Option Bytes). some (or_empty o ++ x)) e.0,
        write_all-appended p base name fks s' t d.1 w.1 (law.unmoved (base ++ file) p x s h)
            (SameAt-append base file x fks s t d.0 e.1),
      )

  mk_file_lem :
      (cwd base name file : Bytes) (kind : Kind) (m : Making fs) (q : DirPath)
      → find_maker file m.makers ≡ none
      → new_path cwd (base ++ file) slash ≡ some q
      → (io.append (base ++ file) (context kind name) m.disk).0 ≡ some (length (context kind name))
      → mk_file fs io cwd base name file kind m
        ≡ some (record {
          pjt = add_file file m.pjt;
          makers = (file, record { kind = kind; ss = context kind name }) ∷ m.makers;
          disk = (io.append (base ++ file) (context kind name) m.disk).1;
        })
  unfolding mk_file
  mk_file_lem cwd base name file kind m q n e w =
      rw (get_context-add_maker name file kind m.makers n, e, w) refl

  pub mk_files_lem :
      (cwd p base name : Bytes) (fks : List (Bytes × Kind)) (m : Making fs)
      → AreDistinct fks
      → AreNew fks m.makers
      → ArePaths cwd base fks
      → CanWrite p base name fks
      → fs.stat p m.disk ≡ some true
      → (r : Making fs) × (mk_files fs io cwd base name fks m ≡ some r)
        × (r.pjt ≡ record m.pjt { files = m.pjt.files ++ map (λ (fk : Bytes × Kind). fk.0) fks })
        × (r.disk ≡ write_all fs io base name fks m.disk)
  unfolding mk_files add_file
  mk_files_lem cwd p base name [] m d n e w h = (m, refl, rw (append-nil m.pjt.files) refl, refl)
  mk_files_lem cwd p base name ((file, kind) ∷ fks) m d n e w h =
      let x = context kind name in
      let (q, ok) = e.0 in
      let (r, run, pjt, disk) =
        mk_files_lem cwd p base name fks
          (record {
            pjt = add_file file m.pjt;
            makers = (file, record { kind = kind; ss = x }) ∷ m.makers;
            disk = (io.append (base ++ file) x m.disk).1;
          })
          d.1 (AreNew-cons fks file (record { kind = kind; ss = x }) m.makers d.0 n.1) e.1 w.1
          (law.unmoved (base ++ file) p x m.disk h) in
      (
        r,
        rw (mk_file_lem cwd base name file kind m q n.0 ok (w.0 m.disk h)) run,
        rw (append_assoc m.pjt.files (file ∷ []) (map (λ (fk : Bytes × Kind). fk.0) fks)) at pjt,
        disk,
      )
