-- ===== src/Fyaml/Build/Flat.antt =====
-- The tree that `auto_make_data` builds of a file of queues, each on a line of its own.
use solutions.Base.{
  ℕ, suc, ◌+◌, ◌<◌, ◌≡◌, refl, ap, ◌∙◌, sym, false, some, none, Option, List, [], ◌∷◌, ◌++◌,
  append_assoc, append-nil, length, set, get_elem?, get_elem?-append, get_elem?-end, get_elem?-lt,
  get_elem?-set_ne, map, take-length, length-set, Bytes, All, All-append, arith, same, same_refl,
  bind_some,
}
use mathlib.Core.Option.{some-injective}
use mathlib.Core.Path.{subst}
use solutions.Fyaml.{Line, newline}
use solutions.Fyaml.Load.{Node, Heap, new_node, find_node, load, line_name}
use solutions.Fyaml.Load.Words.{IsWord}
use solutions.Fyaml.Load.Queues.{queue_text, IsPlainName, load_line-queue_text, colon_at}
use solutions.Fyaml.Load.Reads.{reads, load-reads}
use solutions.Fyaml.Build.{
  Builder, block_of, change, add_to_root, set_cur, add_block, add_line, add_lines, print_head,
}
use solutions.Fyaml.Build.Print.{print_head-queue_text}
use solutions.Fyaml.Build.Nodes.{find_node-append, find_node-new, add_node-new}

-- A queue of at least two values.
pub record Queue : Type 0 where
  pub name : Bytes
  pub first : Bytes
  pub second : Bytes
  pub others : List Bytes

abbrev pub text_of : Queue → Bytes
text_of q = queue_text q.name q.first (q.second ∷ q.others)

abbrev pub IsPlain : Queue → Type 0
IsPlain q = IsPlainName q.name × All IsWord (q.first ∷ q.second ∷ q.others)

-- No two queues have one name.
abbrev pub AreDistinct : List Queue → Type 0
AreDistinct [] = Unit
AreDistinct (q ∷ qs) = All (λ (r : Queue). same q.name r.name ≡ false) qs × AreDistinct qs

abbrev pub line_at : ℕ → Queue → Line
line_at level q = record { level = level; conf = text_of q }

-- The file.
abbrev pub file_of : List Queue → Bytes
file_of [] = []
file_of (q ∷ qs) = text_of q ++ newline ∷ file_of qs

-- The object of a queue is found among the nodes of the root, and prints as its line. The heap is
-- that behind the root.
abbrev pub HasLine : List (Bytes × ℕ) → Heap → Queue → Type 0
HasLine nodes tail q =
    (p : ℕ) × (d : Node) × (find_node q.name nodes ≡ some (suc p))
    × (get_elem? tail p ≡ some d)
    × (print_head d ≡ some (text_of q ++ newline ∷ [], false))

-- What `load` makes of the line of a queue.
load_flat :
    (q : Queue) (i : ℕ) (h : Heap)
    → IsPlain q
    → (d : Node) × (more : Heap) × (load (line_at 1 q) [] i (new_node, h) ≡ some (d, h ++ more))
      × (d.name ≡ q.name)
      × (print_head d ≡ some (text_of q ++ newline ∷ [], false))
unfolding reads
load_flat q i h (a, b) =
    let line = line_at 1 q in
    let (r, e, printed) = print_head-queue_text q.name q.first q.second q.others 0 i h a b in
    let (s, read, _, _, _, _, _, _) =
      load_line-queue_text q.name q.first q.second q.others 0 0 new_node [] a b in
    let (r', e', named, (more, grown)) = load-reads line [] i h (rw read refl) in
    let same_r : r' ≡ r = some-injective r' r (sym e' ∙ e) in
    let name : line_name (text_of q) ≡ q.name =
      rw (colon_at q.name q.first (q.second ∷ q.others) a) (take-length q.name _) in
    (
      r.0,
      more,
      e ∙ ap (λ x. some (r.0, x)) (ap (λ (x : Node × Heap). x.1) (sym same_r) ∙ grown),
      ap (λ (x : Node × Heap). x.0.name) (sym same_r) ∙ named ∙ name,
      printed,
    )

-- The queues that were added, with the objects that came since.
HasLine-later :
    (nodes : List (Bytes × ℕ)) (n : Bytes × ℕ) (tail more : Heap) (qs : List Queue)
    → All (HasLine nodes tail) qs
    → All (HasLine (nodes ++ n ∷ []) (tail ++ more)) qs
HasLine-later nodes n tail more [] h = tt
HasLine-later nodes n tail more (q ∷ qs) ((p, d, found, at, printed), hs) = (
  (
    p,
    d,
    find_node-append q.name (suc p) nodes (n ∷ []) found,
    get_elem?-append tail more p at,
    printed,
  ),
  HasLine-later nodes n tail more qs hs,
)

abbrev pub IsNew : List (Bytes × ℕ) → Queue → Type 0
IsNew nodes q = find_node q.name nodes ≡ none

IsNew-later :
    (nodes : List (Bytes × ℕ)) (q : Queue) (p : ℕ) (qs : List Queue)
    → All (IsNew nodes) qs
    → All (λ (r : Queue). same q.name r.name ≡ false) qs
    → All (IsNew (nodes ++ (q.name, p) ∷ [])) qs
IsNew-later nodes q p [] h d = tt
IsNew-later nodes q p (r ∷ rs) h d =
    (find_node-new r.name q.name p nodes h.0 ∙ rw d.0 refl, IsNew-later nodes q p rs h.1 d.1)

-- The root when an object is added to it.
abbrev with_son : Bytes → ℕ → Node → Node
with_son n p root = record root { sons = root.sons ++ n ∷ []; nodes = root.nodes ++ (n, p) ∷ [] }

line_flat :
    (q : Queue) (qs : List Queue) (z : Bytes) (i : ℕ) (b : Builder)
    → add_line (line_at 1 q) (map (line_at 1) qs ++ record { level = 1; conf = z } ∷ []) i b
      ≡ add_block (line_at 1 q) [] i b
unfolding add_line block_of
line_flat q [] z i b = refl
line_flat q (r ∷ qs) z i b = refl

-- A round of `auto_make_data` at the line of a queue.
add_flat :
    (q : Queue) (i : ℕ) (cs : List (Option ℕ)) (root : Node) (tail : Heap)
    → IsPlain q
    → get_elem? cs 0 ≡ some (some 0)
    → 1 < length cs
    → IsNew root.nodes q
    → (d : Node) × (more : Heap) × (add_block
          (line_at 1 q)
          []
          i
          (record { cur = cs; heap = root ∷ tail })
        ≡ some (record {
          cur = set cs 1 (some (length (root ∷ tail ++ more)));
          heap = with_son q.name (length (root ∷ tail ++ more)) root ∷ (tail ++ more) ++ d ∷ [];
        }))
      × (print_head d ≡ some (text_of q ++ newline ∷ [], false))
unfolding add_block change add_to_root set_cur
add_flat q i cs root tail plain c w new =
    let (d, more, loaded, named, printed) = load_flat q i (root ∷ tail) plain in
    let (x, at_one) = get_elem?-lt cs 1 w in
    (
      d,
      more,
      rw (loaded, c, named, add_node-new q.name (length (root ∷ tail ++ more)) root new, at_one)
          refl,
      printed,
    )

last_flat :
    (z : Bytes) (i : ℕ) (b : Builder) → add_line (record { level = 1; conf = z }) [] i b ≡ some b
unfolding add_line block_of
last_flat z i b = refl

names_snoc :
    (qs : List Queue) (q : Queue)
    → map (λ (r : Queue). r.name) (qs ++ q ∷ []) ≡ map (λ (r : Queue). r.name) qs ++ q.name ∷ []
names_snoc [] q = refl
names_snoc (r ∷ qs) q = ap (◌∷◌ r.name) (names_snoc qs q)

-- The lines of queues, from a builder whose root is open.
pub add_lines-flat :
    (qs done : List Queue) (z : Bytes) (i : ℕ) (cs : List (Option ℕ)) (root : Node) (tail : Heap)
    → All IsPlain qs
    → AreDistinct qs
    → All (IsNew root.nodes) qs
    → get_elem? cs 0 ≡ some (some 0)
    → 1 < length cs
    → root.level ≡ 0
    → root.sons ≡ map (λ (q : Queue). q.name) done
    → All (HasLine root.nodes tail) done
    → (b : Builder) × (root' : Node) × (tail' : Heap) × (add_lines
          (map (line_at 1) qs ++ record { level = 1; conf = z } ∷ [])
          i
          (record { cur = cs; heap = root ∷ tail })
        ≡ some b)
      × (b.heap ≡ root' ∷ tail')
      × (root'.level ≡ 0)
      × (root'.sons ≡ map (λ (q : Queue). q.name) (done ++ qs))
      × All (HasLine root'.nodes tail') (done ++ qs)
unfolding add_lines
add_lines-flat [] done z i cs root tail plain distinct new c w level sons lines = (
  record { cur = cs; heap = root ∷ tail },
  root,
  tail,
  bind_some (λ b. some b) (last_flat z i (record { cur = cs; heap = root ∷ tail })) refl,
  refl,
  level,
  rw (append-nil done) sons,
  rw (append-nil done) lines,
)
add_lines-flat (q ∷ qs) done z i cs root tail plain distinct new c w level sons lines =
    let (d, more, added, printed) = add_flat q i cs root tail plain.0 c w new.0 in
    let p = length (root ∷ tail ++ more) in
    let tail' = (tail ++ more) ++ d ∷ [] in
    let root' = with_son q.name p root in
    let here : HasLine root'.nodes tail' q = (
      length (tail ++ more),
      d,
      find_node-new q.name q.name p root.nodes new.0 ∙ rw (same_refl q.name) refl,
      get_elem?-end (tail ++ more) d [],
      printed,
    ) in
    let before =
      subst (λ (x : Heap). All (HasLine root'.nodes x) done) (sym (append_assoc tail more (d ∷ [])))
        (HasLine-later root.nodes (q.name, p) tail (more ++ d ∷ []) done lines) in
    let (b, r, t, run, heap, lev, names, all) =
      add_lines-flat qs (done ++ q ∷ []) z (i + 1) (set cs 1 (some p)) root' tail' plain.1
        distinct.1 (IsNew-later root.nodes q p qs new.1 distinct.0)
        (get_elem?-set_ne cs (some p) (λ e. omega (arith, e)) ∙ c)
        (omega (arith, w, length-set cs 1 (some p))) level
        (ap (λ x. x ++ q.name ∷ []) sons ∙ sym (names_snoc done q))
        (All-append (HasLine root'.nodes tail') done (q ∷ []) before (here, tt)) in
    let assoc = append_assoc done (q ∷ []) qs in
    (
      b,
      r,
      t,
      bind_some
          (λ x. add_lines (map (line_at 1) qs ++ record { level = 1; conf = z } ∷ []) (i + 1) x)
          (line_flat q qs z i (record { cur = cs; heap = root ∷ tail }) ∙ added) run,
      heap,
      lev,
      rw (← assoc) names,
      rw (← assoc) all,
    )
