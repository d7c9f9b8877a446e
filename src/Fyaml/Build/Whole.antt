-- ===== src/Fyaml/Build/Whole.antt =====
-- A file of queues, each on a line of its own, is loaded and printed again.
use solutions.Base.{
  ◌≢◌, ◌==◌, fmap, ℕ, ◌-◌, ◌<◌, ◌≤◌, ◌≡◌, refl, ap, ◌∙◌, sym, true, Bool, some, none, Option, List,
  [], ◌∷◌, ◌++◌, append_assoc, length, replicate, map, length-replicate, Bytes, All, arith,
  bind_some, ◌>>=◌, if◌then◌else◌,
}
use mathlib.Core.Path.{subst}
use solutions.Fyaml.{Line, newline, raise, load_from_file, buffer_size, mapper_size}
use solutions.Fyaml.Lines.{IsLine, render, load_from_file-render}
use solutions.Fyaml.Load.{Node, Heap, new_node, find_node}
use solutions.Fyaml.Build.{Builder, auto_make_data, print_head, print_names, to_string}
use solutions.Fyaml.Lines.{AreText}
use solutions.Fyaml.Build.Nested.{levels-mapper_size}
use solutions.Fyaml.Build.Flat.{
  Queue, text_of, IsPlain, AreDistinct, line_at, file_of, HasLine, IsNew, add_lines-flat,
}

-- What is printed of the sons of the root.
print_names-flat :
    (root : Node) (tail : Heap) (nodes : List (Bytes × ℕ)) (qs : List Queue)
    → All (HasLine nodes tail) qs
    → print_names (to_string 1 (root ∷ tail)) nodes (map (λ (q : Queue). q.name) qs)
      ≡ some (file_of qs)
unfolding print_names to_string
print_names-flat root tail nodes [] h = refl
print_names-flat root tail nodes (q ∷ qs) ((p, d, found, at, printed), hs) =
    rw (found, at, printed, print_names-flat root tail nodes qs hs)
      (ap some (append_assoc (text_of q) (newline ∷ []) (file_of qs)))

if_true {ℓ} : {A : Type ℓ} {b : Bool} (x y : A) → b ≡ true → (if b then x else y) ≡ x
if_true x y e = ap (λ b. if b then x else y) e

print_head-root : (root : Node) → root.level ≡ 0 → print_head root ≡ some ([], true)
unfolding print_head
print_head-root root level = if_true _ _ (ap (λ l. l == 0) level)

to_string-flat :
    (root : Node) (tail : Heap) (qs : List Queue)
    → root.level ≡ 0
    → root.sons ≡ map (λ (q : Queue). q.name) qs
    → All (HasLine root.nodes tail) qs
    → to_string 2 (root ∷ tail) 0 ≡ some (file_of qs)
unfolding to_string
to_string-flat root tail qs level sons h =
    let printed =
      subst (λ ss. print_names (to_string 1 (root ∷ tail)) root.nodes ss ≡ some (file_of qs))
        (sym sons) (print_names-flat root tail root.nodes qs h) in
    rw (print_head-root root level) (ap (fmap (λ t. [] ++ t)) printed)

render-flat : (qs : List Queue) → render (map (line_at 0) qs) ≡ file_of qs
render-flat [] = refl
render-flat (q ∷ qs) = ap (λ s. text_of q ++ newline ∷ s) (render-flat qs)

raise-flat : (qs : List Queue) → map raise (map (line_at 0) qs) ≡ map (line_at 1) qs
raise-flat [] = refl
raise-flat (q ∷ qs) = ap (◌∷◌ (line_at 1 q)) (raise-flat qs)

filled : (s : Bytes) (c : ℕ) (t : Bytes) → s ++ c ∷ t ≢ []
filled [] c t = λ e. cc
filled (d ∷ s) c t = λ e. cc

lines_flat :
    (qs : List Queue)
    → All (λ (q : Queue). AreText (text_of q)) qs
    → All IsLine (map (line_at 0) qs)
lines_flat [] h = tt
lines_flat (q ∷ qs) h = ((filled q.name _ _, h.0), lines_flat qs h.1)

All-last {ℓ κ} : {A : Type ℓ} (P : A → Type κ) (xs : List A) (y : A) → All P (xs ++ y ∷ []) → P y
All-last P [] y h = h.0
All-last P (x ∷ xs) y h = All-last P xs y h.1

All-IsNew : (qs : List Queue) → All (IsNew []) qs
unfolding find_node
All-IsNew [] = tt
All-IsNew (q ∷ qs) = (refl, All-IsNew qs)

-- The tree of lines of queues, printed.
to_string-lines :
    (qs : List Queue) (z : Bytes)
    → All IsPlain qs
    → AreDistinct qs
    → (auto_make_data (map (line_at 1) qs ++ record { level = 1; conf = z } ∷ []) >>= λ h.
        to_string 2 h 0)
      ≡ some (file_of qs)
unfolding auto_make_data
to_string-lines qs z plain distinct =
    let last : Line = record { level = 1; conf = z } in
    let ls = map (line_at 1) qs ++ last ∷ [] in
    let size = mapper_size ls in
    let large : 1 < size =
      All-last (λ (l : Line). l.level < size) (map (line_at 1) qs) last (levels-mapper_size ls) in
    let cs : List (Option ℕ) = some 0 ∷ replicate (size - 1) none in
    let wide : 1 < length cs =
      omega (arith, large, length-replicate {A = Option ℕ} (size - 1) none) in
    let (b, root, tail, run, heap, level, sons, lines) =
      add_lines-flat qs [] z 0 cs new_node [] plain distinct (All-IsNew qs) refl wide refl refl
        tt in
    bind_some (λ h. to_string 2 h 0) (bind_some (λ (x : Builder). some x.heap) run refl)
      (ap (λ h. to_string 2 h 0) heap ∙ to_string-flat root tail qs level sons lines)

-- A file whose lines are queues of at least two values is loaded, its tree built, and the root's
-- `to_string` gives the file again. The names have no `:` and no `[` and are distinct, the values are
-- words, no line has a tab or a newline in it, and the file fits the buffer.
pub to_string-load_from_file :
    (qs : List Queue)
    → All IsPlain qs
    → All (λ (q : Queue). AreText (text_of q)) qs
    → AreDistinct qs
    → length (file_of qs) ≤ buffer_size
    → (load_from_file (file_of qs) >>= λ ls. auto_make_data ls >>= λ h. to_string 2 h 0)
      ≡ some (file_of qs)
to_string-load_from_file qs plain texts distinct fits =
    let same_file = render-flat qs in
    let loaded =
      load_from_file-render (map (line_at 0) qs) (lines_flat qs texts)
        (omega (arith, fits, ap length same_file)) in
    let file =
      ap load_from_file (sym same_file)
      ∙ loaded
      ∙ ap
          (λ ls. some (
            ls
            ++ record {
              level = 1;
              conf = replicate (buffer_size - length (render (map (line_at 0) qs))) 0;
            }
              ∷ []))
          (raise-flat qs) in
    bind_some (λ ls. auto_make_data ls >>= λ h. to_string 2 h 0) file
      (to_string-lines qs _ plain distinct)
