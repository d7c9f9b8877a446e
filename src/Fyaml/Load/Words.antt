-- ===== src/Fyaml/Load/Words.antt =====
-- The loop of `load_line` over the values of a queue.
use solutions.Base.{
  ◌==◌, sym, if◌then◌else◌, ◌>>=◌, Option-cases, inr, inl, Bool-cases, ◌≤◌, ℕ, zero, suc, ◌+◌, ◌-◌,
  ◌<◌, ◌≡◌, refl, ◌∙◌, Bool, true, false, not, some, List, [], ◌∷◌, ◌++◌, append_assoc, length,
  length-append, take, drop, get_or, drop-length, take-length, Bytes, All, arith,
}
use mathlib.Core.Option.{none, Option, some-injective}
use solutions.Fyaml.Load.{piece, find_from, find_in, has_byte, follows, queue_names}

-- A name of `s_name_follows`' bytes.
abbrev pub IsWord : Bytes → Type 0
IsWord v = All (λ (c : ℕ). follows c ≡ true) v

-- The values with a comma and a blank between them.
abbrev pub join : Bytes → List Bytes → Bytes
join v [] = v
join v (w ∷ ws) = v ++ (b',' ∷ b' ' ∷ join w ws)

-- The first byte that satisfies a test stands behind those that do not.
pub find_in-skip :
    (p : ℕ → Bool) (i : ℕ) (v : Bytes) (x : ℕ) (t : Bytes)
    → All (λ (c : ℕ). p c ≡ false) v
    → p x ≡ true
    → find_in p i (v ++ x ∷ t) ≡ some (i + length v)
unfolding find_in
find_in-skip p i [] x t h e = let z : i + 0 ≡ i = omega arith in rw (e, z) refl
find_in-skip p i (c ∷ v) x t h e =
    let z : i + suc (length v) ≡ suc i + length v = omega arith in
    rw (h.0, z) (find_in-skip p (suc i) v x t h.1 e)

pub get_or-append : (u t : Bytes) (x : ℕ) → get_or (u ++ x ∷ t) (length u) 0 ≡ x
get_or-append [] t x = refl
get_or-append (c ∷ u) t x = get_or-append u t x

pub word_ends : (v : Bytes) → IsWord v → All (λ (c : ℕ). not (follows c) ≡ false) v
word_ends [] h = tt
word_ends (c ∷ v) h = (rw h.0 refl, word_ends v h.1)

-- One round of the loop, at a value `v` that a byte `x` ends.
round :
    (f : ℕ) (s u v : Bytes) (x : ℕ) (t : Bytes) (end : ℕ) (ns : List Bytes)
    → s ≡ u ++ (v ++ x ∷ t)
    → IsWord v
    → follows x ≡ false
    → get_or s end 0 ≡ b','
    → queue_names f s (length u + length v + 2) (some (length u + length v)) ≡ some ns
    → queue_names (suc f) s (length u) (some end) ≡ some (v ∷ ns)
unfolding queue_names
round f s u v x t end ns e w n c r =
    let at_u : drop (length u) s ≡ v ++ x ∷ t = rw e (drop-length u (v ++ x ∷ t)) in
    let word : take (length v) (v ++ x ∷ t) ≡ v = take-length v (x ∷ t) in
    let gap : length u + length v - length u ≡ length v = omega arith in
    let found = find_in-skip (λ c. not (follows c)) (length u) v x t (word_ends v w) (rw n refl) in
    rw (c, at_u, found, r, gap, word) refl

pub get_or-at :
    (s u v t : Bytes) (x : ℕ) → s ≡ u ++ (v ++ x ∷ t) → get_or s (length u + length v) 0 ≡ x
get_or-at s u v t x e =
    rw (e, ← length-append u v, ← append_assoc u v (x ∷ t)) (get_or-append (u ++ v) t x)

pub blank-ends : follows b' ' ≡ false
unfolding has_byte
blank-ends = refl

pub comma-ends : follows b',' ≡ false
unfolding has_byte
comma-ends = refl

-- Where the text is not a comma, the loop ends.
pub queue_names-end :
    (f : ℕ) (s : Bytes) (beg end : ℕ)
    → 0 < f
    → get_or s end 0 ≡ b' '
    → queue_names f s beg (some end) ≡ some []
unfolding queue_names
queue_names-end zero s beg end h e = absurd (omega arith)
queue_names-end (suc f) s beg end h e = rw e refl

pub queue_names-join :
    (v : Bytes) (ws : List Bytes) (f : ℕ) (s u t : Bytes) (end : ℕ)
    → s ≡ u ++ (join v ws ++ b' ' ∷ t)
    → IsWord v
    → All IsWord ws
    → get_or s end 0 ≡ b','
    → length ws + 1 < f
    → queue_names f s (length u) (some end) ≡ some (v ∷ ws)
queue_names-join v ws zero s u t end e a b c h = absurd (omega arith)
queue_names-join v [] (suc f) s u t end e a b c h =
    round f s u v b' ' t end [] e a blank-ends c
      (queue_names-end f s _ (length u + length v) (omega arith) (get_or-at s u v t b' ' e))
queue_names-join v (w ∷ ws) (suc f) s u t end e a b c h =
    let x = b' ' ∷ (join w ws ++ b' ' ∷ t) in
    let here : s ≡ u ++ (v ++ b',' ∷ x) = e ∙ simp append_assoc in
    let u' = u ++ (v ++ b',' ∷ b' ' ∷ []) in
    let n : length u' ≡ length u + length v + 2 =
      omega (arith, length-append u (v ++ b',' ∷ b' ' ∷ []), length-append v (b',' ∷ b' ' ∷ [])) in
    let rest =
      queue_names-join w ws f s u' t (length u + length v) (here ∙ simp append_assoc) b.0 b.1
        (get_or-at s u v x b',' here) (omega arith) in
    round f s u v b',' x end (w ∷ ws) here a comma-ends c (rw n at rest)

pub length-le-join : (w : Bytes) (ws : List Bytes) → length ws ≤ length (join w ws)
length-le-join w [] = omega arith
length-le-join w (x ∷ xs) =
    omega (arith, length-le-join x xs, length-append w (b',' ∷ b' ' ∷ join x xs))

find_in-le : (p : ℕ → Bool) (i j : ℕ) (s : Bytes) → find_in p i s ≡ some j → i ≤ j
unfolding find_in
find_in-le p i j [] e = absurd (cc e)
find_in-le p i j (c ∷ s) e = elim (Bool-cases (p c)) [
  | inl x ↦ let same = some-injective i j (rw x at e) in omega (arith, same)
  | inr x ↦ let later = find_in-le p (suc i) j s (rw x at e) in omega (arith, later)
]

drop-all : (n : ℕ) (s : Bytes) → length s ≤ n → drop n s ≡ []
drop-all zero [] h = refl
drop-all zero (c ∷ s) h = absurd (omega arith)
drop-all (suc n) [] h = refl
drop-all (suc n) (c ∷ s) h = drop-all n s (omega arith)

nothing_left : (p : ℕ → Bool) (s : Bytes) (n : ℕ) → length s ≤ n → find_from p s n ≡ none
unfolding find_in
nothing_left p s n h = rw (drop-all n s h) refl

-- A round of the loop, by what the other rounds give.
abbrev round_of : (ℕ → ℕ → Option (List Bytes)) → Bytes → ℕ → ℕ → Option (List Bytes)
round_of others s beg end =
    let rest = find_from (λ c. not (follows c)) s beg >>= λ end'.
    others (end' + 2) end' >>= λ names. some (piece s beg (some end') ∷ names) in
    if get_or s end 0 == b',' then rest else some []

queue_names-round_of :
    (f : ℕ) (s : Bytes) (beg end : ℕ)
    → queue_names (suc f) s beg (some end) ≡ round_of (λ b e. queue_names f s b (some e)) s beg end
unfolding queue_names
queue_names-round_of f s beg end = refl

rounds_agree :
    (o o' : ℕ → ℕ → Option (List Bytes)) (s : Bytes) (beg end : ℕ)
    → ((e : ℕ) → find_from (λ c. not (follows c)) s beg ≡ some e → o (e + 2) e ≡ o' (e + 2) e)
    → round_of o s beg end ≡ round_of o' s beg end
rounds_agree o o' s beg end h = elim (Option-cases (find_from (λ c. not (follows c)) s beg)) [
  | inl z ↦ rw z refl
  | inr (e, z) ↦ rw (z, h e z) refl
]

-- The rounds that `load_line` has are enough: with one more, the loop does the same.
queue_names_enough :
    (f : ℕ) (s : Bytes) (beg end : ℕ)
    → length s ≤ beg + f
    → queue_names (suc f) s beg (some end) ≡ queue_names (suc (suc f)) s beg (some end)
queue_names_enough zero s beg end h =
    queue_names-round_of 0 s beg end
    ∙ rounds_agree (λ b e. queue_names 0 s b (some e)) (λ b e. queue_names 1 s b (some e)) s beg end
        (λ e z. absurd (cc (z, nothing_left (λ c. not (follows c)) s beg (omega (arith, h)))))
    ∙ sym (queue_names-round_of 1 s beg end)
queue_names_enough (suc f) s beg end h =
    queue_names-round_of (suc f) s beg end
    ∙ rounds_agree (λ b e. queue_names (suc f) s b (some e))
        (λ b e. queue_names (suc (suc f)) s b (some e)) s beg end
        (λ e z.
          let later = find_in-le (λ c. not (follows c)) beg e (drop beg s) z in
          queue_names_enough f s (e + 2) e (omega (arith, later, h)))
    ∙ sym (queue_names-round_of (suc (suc f)) s beg end)
