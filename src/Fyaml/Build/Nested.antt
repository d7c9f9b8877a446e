-- ===== src/Fyaml/Build/Nested.antt =====
-- `auto_make_data` on the lines of a file that is well nested: each line stands at most one level below
-- the line before it, and the last line, the zeros behind the file, stands at level 1.
use solutions.Base.{
  ℕ, zero, suc, ◌+◌, ◌-◌, ◌<◌, ◌≤◌, ◌≡◌, refl, ap, ◌∙◌, sym, inl, inr, Bool, true, Option, none,
  some, List, [], ◌∷◌, ◌++◌, append_assoc, append-nil, ◌==◌, leb, ltb, if◌then◌else◌, length, set,
  get_elem?, replicate, length-append, length-set, length-replicate, Bytes, All, arith, Bool-cases,
}
use solutions.Fyaml.{Line, mapper_size, max_level}
use solutions.Fyaml.Load.{Heap, new_node, line_name, son_names}
use solutions.Fyaml.Load.Reads.{reads_line, load-reads}
use solutions.Fyaml.Build.{
  block_of, Builder, join_opt, add_block, add_line, add_lines, auto_make_data,
}
use solutions.Fyaml.Build.Roots.{
  root_sons, root_sons-append, Fits, change-add_node, sons_with, add_to_root_lem, set_cur_lem,
  pointer-set,
}

-- A line at most one level below the one before it gets its object, and is open from then on.
add_block-Fits :
    (p size i : ℕ) (l : Line) (block : List Line) (ss : List Bytes) (b : Builder)
    → Fits p size ss b
    → 1 ≤ l.level
    → l.level ≤ p + 1
    → l.level < size
    → reads_line l block ≡ true
    → (b' : Builder) × (add_block l block i b ≡ some b')
      × Fits l.level size (sons_with l.level (line_name l.conf) ss) b'
unfolding add_block
add_block-Fits p size i l block ss b fits low high w r =
    let ((d, h₁), loaded, named, (more, grown)) = load-reads l block i b.heap r in
    let (q, at, y) = fits.pointer (l.level - 1) (omega (arith, high)) in
    let h₁' = h₁ ++ d ∷ [] in
    let long : length h₁' ≡ length b.heap + length more + 1 =
      omega (arith, length-append h₁ (d ∷ []), ap length grown, length-append b.heap more) in
    let root₁ : root_sons h₁' ≡ some ss =
      root_sons-append h₁ (d ∷ []) ss
        (ap root_sons grown ∙ root_sons-append b.heap more ss fits.root) in
    let (h₂, c₂, root₂, long₂) =
      change-add_node q (length h₁) d.name h₁' (omega (arith, long, y)) in
    let (h₃, c₃, root₃, long₃) = add_to_root_lem l.level d.name h₂ ss (root₂ ∙ root₁) in
    let wide : l.level < length b.cur = omega (arith, w, fits.width) in
    let end = set_cur_lem l.level (length h₁) (record b { heap = h₃ }) wide in
    (
      record b { cur = set b.cur l.level (some (length h₁)); heap = h₃ },
      rw (loaded, at, c₂, c₃, end) refl,
      record {
        width = length-set b.cur l.level _ ∙ fits.width;
        pointer =
            pointer-set p l.level size ss b h₃ fits high w (omega (arith, long₃, long₂, long))
              (length h₁) (omega (arith, long₃, long₂, length-append h₁ (d ∷ [])));
        root = root₃ ∙ ap (λ x. some (sons_with l.level x ss)) named;
      },
    )

-- A line before one of level 1 has a block.
block_of-some :
    (n : ℕ) (ls : List Line) (last : Line)
    → 1 ≤ n
    → last.level ≡ 1
    → (block : List Line) × (block_of n (ls ++ last ∷ []) ≡ some block)
unfolding block_of
block_of-some n [] last h e = let t : leb last.level n ≡ true = ground arith in rw t (_, refl)
block_of-some n (l ∷ ls) last h e =
    let (block, found) = block_of-some n ls last h e in
    elim (Bool-cases (leb l.level n)) [ inl t ↦ rw t (_, refl) | inr t ↦ rw (t, found) (_, refl) ]

-- A line that has a block is one with lines below it, or its text is read.
abbrev pub reads_block : Line → List Line → Bool
reads_block l ls = elim (block_of l.level ls) [ none ↦ true | some block ↦ reads_line l block ]

-- Behind a line of level `p`, the lines go at most one level deeper each, and none throws.
abbrev pub IsNested : ℕ → List Line → Type 0
IsNested p [] = Unit
IsNested p (l ∷ ls) =
    (1 ≤ l.level) × (l.level ≤ p + 1) × (reads_block l ls ≡ true) × IsNested l.level ls

add_line-Fits :
    (p size i : ℕ) (l : Line) (rest block : List Line) (ss : List Bytes) (b : Builder)
    → Fits p size ss b
    → 1 ≤ l.level
    → l.level ≤ p + 1
    → l.level < size
    → block_of l.level rest ≡ some block
    → reads_block l rest ≡ true
    → (b' : Builder) × (add_line l rest i b ≡ some b')
      × Fits l.level size (sons_with l.level (line_name l.conf) ss) b'
unfolding add_line
add_line-Fits p size i l rest block ss b fits low high w found r =
    rw (add_line, found)
      (add_block-Fits p size i l block ss b fits low high w (rw (reads_block, found) at r))

sons_with-son_names :
    (l : Line) (ls : List Line) (ss : List Bytes)
    → sons_with l.level (line_name l.conf) ss ++ son_names 0 ls ≡ ss ++ son_names 0 (l ∷ ls)
unfolding son_names
sons_with-son_names l ls ss = elim (Bool-cases (l.level == 1)) [
  | inl e ↦ rw e (append_assoc ss (line_name l.conf ∷ []) (son_names 0 ls))
  | inr e ↦ rw e refl
]

add_lines-Fits :
    (p size i : ℕ) (ls : List Line) (last : Line) (ss : List Bytes) (b : Builder)
    → Fits p size ss b
    → last.level ≡ 1
    → IsNested p (ls ++ last ∷ [])
    → All (λ (l : Line). l.level < size) ls
    → (b' : Builder) × (add_lines (ls ++ last ∷ []) i b ≡ some b')
      × (root_sons b'.heap ≡ some (ss ++ son_names 0 ls))
unfolding add_lines add_line block_of son_names
add_lines-Fits p size i [] last ss b fits e nested w =
    (b, refl, fits.root ∙ ap some (sym (append-nil ss)))
add_lines-Fits p size i (l ∷ ls) last ss b fits e nested w =
    let (h, m, r, deeper) = nested in
    let (block, found) = block_of-some l.level ls last h e in
    let (b₁, c₁, fits₁) =
      add_line-Fits p size i l (ls ++ last ∷ []) block ss b fits h m w.0 found r in
    let (b₂, c₂, root) = add_lines-Fits l.level size (i + 1) ls last _ b₁ fits₁ e deeper w.1 in
    (b₂, rw c₁ c₂, root ∙ ap some (sons_with-son_names l ls ss))

max_level-le : (m : ℕ) (ls : List Line) → m ≤ max_level m ls
unfolding max_level
max_level-le m [] = omega arith
max_level-le m (l ∷ ls) =
    let next = if ltb l.level m then m else l.level in
    let more : m ≤ next = ground arith in omega (arith, more, max_level-le next ls)

levels-max_level : (m : ℕ) (ls : List Line) → All (λ (l : Line). l.level < max_level m ls + 1) ls
unfolding max_level
levels-max_level m [] = tt
levels-max_level m (l ∷ ls) =
    let next = if ltb l.level m then m else l.level in
    let more : l.level ≤ next = ground arith in
    (omega (arith, more, max_level-le next ls), levels-max_level next ls)

pub levels-mapper_size : (ls : List Line) → All (λ (l : Line). l.level < mapper_size ls) ls
unfolding mapper_size
levels-mapper_size [] = tt
levels-mapper_size (l ∷ ls) = levels-max_level (l.level - 1) (l ∷ ls)

All-front {ℓ κ} : {A : Type ℓ} (P : A → Type κ) (xs ys : List A) → All P (xs ++ ys) → All P xs
All-front P [] ys h = tt
All-front P (x ∷ xs) ys h = (h.0, All-front P xs ys h.1)

-- Before the first line, the root is open.
root_only :
    (size : ℕ)
    → 1 ≤ size
    → Fits 0 size [] (record { cur = some 0 ∷ replicate (size - 1) none; heap = new_node ∷ [] })
root_only size h = record {
  width = omega (arith, h, length-replicate {A = Option ℕ} (size - 1) none);
  pointer = root_open;
  root = refl;
}
  where
    root_open :
        (k : ℕ)
        → k ≤ 0
        → (q : ℕ) × (join_opt (get_elem? (some 0 ∷ replicate (size - 1) none) k) ≡ some q) × (q < 1)
    root_open zero m = (0, refl, omega arith)
    root_open (suc k) m = absurd (omega arith)

mapper_size-pos : (ls : List Line) → 1 ≤ mapper_size ls
unfolding mapper_size
mapper_size-pos [] = omega arith
mapper_size-pos (l ∷ ls) = omega arith

-- `auto_make_data` of the lines of a file, each at most one level below the line before it, whose last
-- line stands at level 1 and of which each either has lines below it or is read: it goes to the end,
-- with no null pointer, no index outside `level_cur_new` and no exception, and the sons of the root are
-- the names of the lines at level 1 before the last, in order.
pub auto_make_data_lem :
    (ls : List Line) (last : Line)
    → last.level ≡ 1
    → IsNested 0 (ls ++ last ∷ [])
    → (h : Heap) × (auto_make_data (ls ++ last ∷ []) ≡ some h)
      × (root_sons h ≡ some (son_names 0 ls))
unfolding auto_make_data
auto_make_data_lem ls last e nested =
    let size = mapper_size (ls ++ last ∷ []) in
    let (b', c, root) =
      add_lines-Fits 0 size 0 ls last [] _ (root_only size (mapper_size-pos (ls ++ last ∷ []))) e
        nested (All-front _ ls (last ∷ []) (levels-mapper_size (ls ++ last ∷ []))) in
    (b'.heap, rw c refl, root)
