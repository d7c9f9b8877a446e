-- ===== src/Fyaml/Lines.antt =====
-- Lines that are written out, each behind as many tabs as its level, and read again.
use solutions.Base.{
  ℕ, zero, suc, ◌+◌, ◌-◌, ◌≤◌, ◌≡◌, ◌≢◌, refl, ap, ◌∙◌, false, some, List, [], ◌∷◌, ◌++◌,
  append_assoc, append-nil, ◌==◌, length, take, replicate, map, Bytes, All, arith,
}
use solutions.Fyaml.{
  tab, newline, Line, put_byte, ends_line, split_lines, raise, load_from_file, split_buffer,
  buffer_size,
}

-- The bytes of a line's text.
abbrev pub AreText : Bytes → Type 0
AreText s = All (λ (c : ℕ). (c ≢ tab) × (c ≢ newline)) s

abbrev pub IsLine : Line → Type 0
IsLine l = (l.conf ≢ []) × AreText l.conf

abbrev pub render : List Line → Bytes
render [] = []
render (l ∷ ls) = replicate l.level tab ++ (l.conf ++ newline ∷ render ls)

split_lines-tab :
    (p : ℕ) (u : Bytes) (l : Line)
    → split_lines p (tab ∷ u) l ≡ split_lines tab u (record l { level = l.level + 1 })
unfolding split_lines ends_line put_byte
split_lines-tab p u l = refl

split_lines-text :
    (p c : ℕ) (u : Bytes) (l : Line)
    → c ≢ tab
    → c ≢ newline
    → split_lines p (c ∷ u) l ≡ split_lines c u (record l { conf = l.conf ++ c ∷ [] })
unfolding split_lines ends_line put_byte
split_lines-text p c u l t n =
    let e : (c == tab) ≡ false = ground (arith, t) in
    let f : (c == newline) ≡ false = ground (arith, n) in rw (e, f) refl

split_lines-newline :
    (p : ℕ) (u : Bytes) (l : Line)
    → p ≢ newline
    → split_lines p (newline ∷ u) l ≡ l ∷ split_lines newline u (record { level = 0; conf = [] })
unfolding split_lines ends_line put_byte
split_lines-newline p u l n = let e : (p == newline) ≡ false = ground (arith, n) in rw e refl

tabs :
    (n p : ℕ) (u : Bytes) (l : Line)
    → (q : ℕ) × (split_lines p (replicate n tab ++ u) l
        ≡ split_lines q u (record l { level = l.level + n }))
tabs zero p u l = (p, let e : l.level + 0 ≡ l.level = omega arith in rw e refl)
tabs (suc n) p u l =
    let (q, e) = tabs n tab u (record l { level = l.level + 1 }) in
    let f : l.level + 1 + n ≡ l.level + suc n = omega arith in
    (q, split_lines-tab p (replicate n tab ++ u) l ∙ e ∙ rw f refl)

text :
    (s u : Bytes) (p : ℕ) (l : Line)
    → s ≢ []
    → AreText s
    → (q : ℕ) × (q ≢ newline)
      × (split_lines p (s ++ u) l ≡ split_lines q u (record l { conf = l.conf ++ s }))
text [] u p l n a = absurd (n refl)
text (c ∷ []) u p l n a = (c, a.0.1, split_lines-text p c u l a.0.0 a.0.1)
text (c ∷ d ∷ s) u p l n a =
    let (q, m, e) = text (d ∷ s) u c (record l { conf = l.conf ++ c ∷ [] }) (λ x. cc) a.1 in
    (
      q,
      m,
      split_lines-text p c (d ∷ (s ++ u)) l a.0.0 a.0.1
          ∙ e
          ∙ rw (append_assoc l.conf (c ∷ []) (d ∷ s)) refl,
    )

-- A rest without tabs and newlines makes the last line.
rest :
    (u : Bytes) (p : ℕ) (l : Line)
    → AreText u
    → split_lines p u l ≡ record l { conf = l.conf ++ u } ∷ []
unfolding split_lines
rest [] p l a = rw (append-nil l.conf) refl
rest (c ∷ u) p l a =
    split_lines-text p c u l a.0.0 a.0.1
    ∙ unfold split_lines in
      rest u c (record l { conf = l.conf ++ c ∷ [] }) a.1 ∙ rw (append_assoc l.conf (c ∷ []) u) refl

split_lines-render :
    (ls : List Line) (u : Bytes) (p : ℕ)
    → All IsLine ls
    → AreText u
    → split_lines p (render ls ++ u) (record { level = 0; conf = [] })
      ≡ ls ++ record { level = 0; conf = u } ∷ []
split_lines-render [] u p h a = rest u p (record { level = 0; conf = [] }) a
split_lines-render (l ∷ ls) u p h a =
    let v = render ls ++ u in
    let path : replicate l.level tab ++ (l.conf ++ newline ∷ render ls) ++ u
        ≡ replicate l.level tab ++ (l.conf ++ newline ∷ v) =
      simp append_assoc in
    let (q, e) = tabs l.level p (l.conf ++ newline ∷ v) (record { level = 0; conf = [] }) in
    let (r, m, f) =
      text l.conf (newline ∷ v) q (record { level = 0 + l.level; conf = [] }) h.0.0 h.0.1 in
    let z : 0 + l.level ≡ l.level = omega arith in
    ap (λ (x : Bytes). split_lines p x (record { level = 0; conf = [] })) path
    ∙ e
    ∙ f
    ∙ split_lines-newline r v (record { level = 0 + l.level; conf = l.conf }) m
    ∙ rw z (ap (◌∷◌ l) (split_lines-render ls u newline h.1 a))

-- A buffer that does not begin with a newline.
abbrev Begins : Bytes → Type 0
Begins [] = Unit
Begins (c ∷ s) = c ≢ newline

text-Begins : (s u : Bytes) → s ≢ [] → AreText s → Begins (s ++ u)
text-Begins [] u n a = absurd (n refl)
text-Begins (c ∷ s) u n a = a.0.1

level-Begins : (n : ℕ) (s : Bytes) → Begins s → Begins (replicate n tab ++ s)
level-Begins zero s h = h
level-Begins (suc n) s h = λ e. omega (arith, e)

render-Begins : (ls : List Line) (u : Bytes) → All IsLine ls → AreText u → Begins (render ls ++ u)
render-Begins [] [] h a = tt
render-Begins [] (c ∷ u) h a = a.0.1
render-Begins (l ∷ ls) u h a =
    rw (append_assoc (replicate l.level tab) (l.conf ++ newline ∷ render ls) u) (
      level-Begins l.level ((l.conf ++ newline ∷ render ls) ++ u) (
        rw (append_assoc l.conf (newline ∷ render ls) u)
          (text-Begins l.conf (newline ∷ (render ls ++ u)) h.0.0 h.0.1)))

split_buffer-Begins :
    (b : Bytes)
    → Begins b
    → split_buffer b ≡ some (map raise (split_lines 0 b (record { level = 0; conf = [] })))
unfolding split_buffer split_lines
split_buffer-Begins [] h = refl
split_buffer-Begins (c ∷ s) h = let e : (c == newline) ≡ false = ground (arith, h) in rw e refl

take_whole : (n : ℕ) (s : Bytes) → length s ≤ n → take n s ≡ s
take_whole zero [] h = refl
take_whole zero (c ∷ s) h = absurd (omega (arith, h))
take_whole (suc n) [] h = refl
take_whole (suc n) (c ∷ s) h = ap (◌∷◌ c) (take_whole n s (omega (arith, h)))

zeros-AreText : (n : ℕ) → AreText (replicate n 0)
zeros-AreText zero = tt
zeros-AreText (suc n) = (((λ e. omega (arith, e)), (λ e. omega (arith, e))), zeros-AreText n)

pub map-append : (f : Line → Line) (xs ys : List Line) → map f (xs ++ ys) ≡ map f xs ++ map f ys
map-append f [] ys = refl
map-append f (x ∷ xs) ys = ap (◌∷◌ (f x)) (map-append f xs ys)

-- A file of at most 2048 bytes, made of lines whose texts are not empty and have no tab and no newline,
-- each behind as many tabs as its level and before a newline, is read as these lines, their levels
-- raised by one. Behind them stands one more line, of level 1: the zeros of the rest of the buffer.
pub load_from_file-render :
    (ls : List Line)
    → All IsLine ls
    → length (render ls) ≤ buffer_size
    → load_from_file (render ls)
      ≡ some (
          map raise ls
          ++ record { level = 1; conf = replicate (buffer_size - length (render ls)) 0 } ∷ [])
unfolding load_from_file
load_from_file-render ls h n =
    let u = replicate (buffer_size - length (render ls)) 0 in
    let z = zeros-AreText (buffer_size - length (render ls)) in
    rw (take_whole buffer_size (render ls) n) (
      split_buffer-Begins (render ls ++ u) (render-Begins ls u h z)
      ∙ ap (λ (x : List Line). some (map raise x)) (split_lines-render ls u 0 h z)
      ∙ ap some (map-append raise ls (record { level = 0; conf = u } ∷ [])))
