-- ===== src/DynArray/Find.antt =====
-- The two overloads of `Array::find`, against a search of the list that the array holds.
use solutions.Base.{
  ℕ, suc, ◌+◌, ◌-◌, ◌%◌, ◌^◌, ◌≤◌, ◌<◌, ◌≡◌, refl, ap, sym, Bool, true, false, Option, none, some,
  List, [], ◌∷◌, ◌++◌, append_assoc, arith, length, length-append, ltb, fmap, if◌then◌else◌,
}
use solutions.DynArray.{Array, Block, size_t_mod, scan, find, find_len, int_rounds}
use solutions.DynArray.Contents.{Holds, filled, length-filled, filled-append}
use solutions.DynArray.Shift.{read_at}

module _ {ℓ} {A : Type ℓ} where
  -- The index of the first element that passes a test.
  abbrev pub first : (A → Bool) → List A → Option ℕ
  first p [] = none
  first p (x ∷ xs) = if p x then some 0 else fmap suc (first p xs)

  -- The same, counted from `k`.
  abbrev pub first_from : ℕ → (A → Bool) → List A → Option ℕ
  first_from k p xs = fmap (λ i. k + i) (first p xs)

  first_from-cons :
      (k : ℕ) (p : A → Bool) (x : A) (xs : List A)
      → first_from k p (x ∷ xs) ≡ (if p x then some k else first_from (suc k) p xs)
  first_from-cons k p x xs = ground arith

module _ {ℓ} {A : Type ℓ} (eq : A → A → Bool) where
  scan_next :
      (b : Block A) (x : A) (xs : List A) (r : Block A) (val : A)
      → scan eq (length xs) (suc (length b)) val (b ++ some x ∷ (filled xs ++ r))
        ≡ scan eq
            (length xs)
            (length (b ++ some x ∷ []))
            val
            ((b ++ some x ∷ []) ++ (filled xs ++ r))
  scan_next b x xs r val =
      rw (append_assoc b (some x ∷ []) (filled xs ++ r))
        (ap (λ k. scan eq (length xs) k val (b ++ some x ∷ (filled xs ++ r))) (next b x))
    where
      next : (b : Block A) (x : A) → suc (length b) ≡ length (b ++ some x ∷ [])
      next b x = omega (arith, length-append b (some x ∷ []))

  -- Inside the filled cells the loop returns the first match of the cells that it reads.
  scan_lem :
      (b : Block A) (xs : List A) (r : Block A) (val : A)
      → scan eq (length xs) (length b) val (b ++ (filled xs ++ r))
        ≡ some (first_from (length b) (λ x. eq x val) xs)
  unfolding scan
  scan_lem b [] r val = refl
  scan_lem b (x ∷ xs) r val = rw (read_at b (filled xs ++ r) (some x) (length b) refl) (
      ground (
        arith,
        scan_next b x xs r val,
        scan_lem (b ++ some x ∷ []) xs r val,
        first_from-cons (length b) (λ y. eq y val) x xs,
        length-append b (some x ∷ []),
      ))

  -- `find` from an index inside the array returns the first element there that equals the value, and
  -- the null pointer if there is none.
  pub find_lem :
      (a : Array A) (ls rs : List A) (val : A)
      → Holds a (ls ++ rs)
      → find eq a val (length ls) ≡ some (first_from (length ls) (λ x. eq x val) rs)
  unfolding find
  find_lem a ls rs val (rest, f) =
      let rounds : a.size - length ls ≡ length rs = omega (arith, f.counted, length-append ls rs) in
      rw (rounds, f.block, filled-append ls rs rest, sym (length-filled ls))
        (scan_lem (filled ls) rs rest val)

  -- `find` with a length below 2 ^ 31 looks at just so many elements behind the given index, if
  -- there are more of them behind, and returns the first that equals the value.
  pub find_len_lem :
      (a : Array A) (ls ms rs : List A) (val : A)
      → Holds a (ls ++ (ms ++ rs))
      → 0 < length rs
      → length ms < 2 ^ 31
      → find_len eq a val (length ls) (length ms) ≡ some (first_from (length ls) (λ x. eq x val) ms)
  unfolding find_len
  find_len_lem a ls ms rs val (rest, f) more small =
      let n = length-append ls (ms ++ rs) in
      let m = length-append ms rs in
      let inside : ltb (length ms) ((a.size + size_t_mod - length ls) % size_t_mod) ≡ true =
        ground (arith, f.counted, f.room, f.bounded, n, m) in
      let rounds : int_rounds (length ms) ≡ length ms = ground arith in
      rw
        (
          inside,
          rounds,
          f.block,
          filled-append ls (ms ++ rs) rest,
          filled-append ms rs rest,
          sym (length-filled ls),
        )
        (scan_lem (filled ls) ms (filled rs ++ rest) val)

  -- Asked to look through the whole array, of fewer than 2 ^ 31 elements, `find` with a length
  -- finds nothing: it goes on for `m_size - len` elements, which is none, whatever the array holds.
  pub find_len_whole :
      (a : Array A) (val : A) (ins : ℕ)
      → a.size < 2 ^ 31
      → ins ≤ a.size
      → find_len eq a val ins a.size ≡ some none
  unfolding find_len scan
  find_len_whole a val ins small h =
      let outside : ltb a.size ((a.size + size_t_mod - ins) % size_t_mod) ≡ false = ground arith in
      let nothing : (a.size + size_t_mod - a.size) % size_t_mod ≡ 0 = omega arith in
      rw (outside, nothing)
