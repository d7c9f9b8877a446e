-- ===== src/AutoMake/Project/Tests.antt =====
-- A project on a file system with its directory, which keeps the text of every path.
use solutions.Base.{
  arith, ◌≡◌, ◌≢◌, refl, ap, true, Option, none, some, List, [], ◌∷◌, ◌++◌, Bytes, codes, All,
  Bool-cases, same, same_refl, same→eq, length, sym, false, inl, inr, if◌then◌else◌, map,
}
use solutions.FilePath.{slash, render}
use solutions.FileSystem.{Fs, IsFs, IsEntry}
use solutions.FileSystem.Memory.{Dirs, no_dirs, memory, memory-IsFs, add-IsClosed, parents}
use solutions.AutoMake.Solution.{slt_path}
use solutions.AutoMake.Project.{
  Kind, context, Files, Making, pjt_files, mkpjt, maker_context, head_context, head,
}
use solutions.AutoMake.Project.Written.{IsFiles, content, or_empty}
use solutions.Mleak.Reports.{take_all}
use solutions.AutoMake.Project.Generated.{mkpjt-written}

record Disk : Type 0 where
  dirs : Dirs
  text : Bytes → Option Bytes

abbrev disk : Fs
disk = record {
  State = Disk;
  stat = λ p s. memory.stat p s.dirs;
  mkdir = λ p s. ((memory.mkdir p s.dirs).0, record s { dirs = (memory.mkdir p s.dirs).1 });
}

disk-IsFs : IsFs disk
disk-IsFs = record {
  made = λ p s. memory-IsFs.made p s.dirs;
  kept = λ p q s. memory-IsFs.kept p q s.dirs;
  no_file = λ p q s. memory-IsFs.no_file p q s.dirs;
  refused = λ p s h. ap (λ (d : Dirs). record s { dirs = d }) (memory-IsFs.refused p s.dirs h);
  exists = λ p s. memory-IsFs.exists p s.dirs;
  stat_parent = λ p d s. memory-IsFs.stat_parent p d s.dirs;
  mkdir_parent = λ p d s. memory-IsFs.mkdir_parent p d s.dirs;
  stat_slash = λ p s. memory-IsFs.stat_slash p s.dirs;
  fresh = λ p d s. memory-IsFs.fresh p d s.dirs;
}

abbrev put : Bytes → Bytes → (Bytes → Option Bytes) → Bytes → Option Bytes
put p x f q = if same q p then some (or_empty (f p) ++ x) else f q

abbrev texts : Files disk
texts = record {
  read = λ p s. s.text p;
  append = λ p x s. (some (length x), record s { text = put p x s.text });
}

put_ne : (p q x : Bytes) (f : Bytes → Option Bytes) → q ≢ p → put p x f q ≡ f q
put_ne p q x f n = elim (Bool-cases (same q p)) [
  | inl e ↦ absurd (n (same→eq q p e))
  | inr e ↦ rw e refl
]

texts-IsFiles : IsFiles disk texts
texts-IsFiles = record {
  appended = λ p x n s h.
      rw (same_refl p) (ap (λ y. some (or_empty (s.text p) ++ y)) (sym (take_all x n h)));
  others = λ p q x s n. put_ne p q x s.text n;
  unmoved = λ p q x s h. h;
}

-- A directory below others.
abbrev added : (p : Bytes) (s : Dirs) → parents [] p s.paths ≡ true → Dirs
added p s h = record { paths = p ∷ s.paths; closed = add-IsClosed p s.paths s.closed h }

made_tt : parents [] (codes "/tt") [] ≡ true
made_tt = refl

made_ring : parents [] (codes "/tt/ring") (codes "/tt" ∷ []) ≡ true
made_ring = refl

made_slash : parents [] (codes "/tt/ring/") (codes "/tt/ring" ∷ codes "/tt" ∷ []) ≡ true
made_slash = refl

abbrev with_ring : Disk
with_ring = record {
  dirs =
      added (codes "/tt/ring/")
        (added (codes "/tt/ring") (added (codes "/tt") no_dirs made_tt) made_ring) made_slash;
  text = λ p. none;
}

abbrev ring : List Bytes
ring = codes "tt" ∷ codes "ring" ∷ []

ring-IsEntry : All IsEntry ring
ring-IsEntry = (
  ((λ e. cc, omega arith), (λ e. cc, λ e. cc)),
  (((λ e. cc, omega arith), (λ e. cc, λ e. cc)), tt),
)

mkpjt-written_example :
    (r : Making disk) × (mkpjt disk texts false
        (codes "/")
        (codes "ring")
        (render (codes "tt" ∷ []) ++ slash ∷ [])
        with_ring
      ≡ some r)
    × (r.pjt ≡ record {
      pjt_dir = render (codes "tt" ∷ []) ++ slash ∷ [];
      pjt_name = codes "ring";
      files = map (λ (fk : Bytes × Kind). fk.0) (pjt_files (codes "ring"));
    })
    × All
        (λ (fk : Bytes × Kind).
          texts.read (slt_path (codes "tt" ∷ []) (codes "ring") ++ fk.0) r.disk
          ≡ some (
              content disk texts (slt_path (codes "tt" ∷ []) (codes "ring") ++ fk.0) with_ring
              ++ context fk.1 (codes "ring")))
        (pjt_files (codes "ring"))
unfolding pjt_files render
mkpjt-written_example =
    mkpjt-written disk disk-IsFs texts texts-IsFiles false (codes "/") (codes "tt" ∷ [])
      (codes "ring") with_ring ring-IsEntry ring-IsEntry.1.0 (omega arith) refl
      (λ s h. refl, (λ s h. refl, (λ s h. refl, (λ s h. refl, tt))))

-- A maker that is asked twice gives its text twice.
maker_context_runs :
    (maker_context (codes "x") (maker_context (codes "x") (record { kind = head; ss = [] })).1).0
    ≡ head_context (codes "x") ++ head_context (codes "x")
unfolding maker_context context
maker_context_runs = refl
