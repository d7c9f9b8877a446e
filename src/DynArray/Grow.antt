-- ===== src/DynArray/Grow.antt =====
-- `Array::relloc` and `Array::add`: growing by 64 cells keeps the elements.
use solutions.Base.{
  ℕ, suc, ◌+◌, ◌-◌, ◌%◌, ◌^◌, leb, ◌≤◌, ◌<◌, ◌≡◌, refl, ap, ◌⊎◌, inl, inr, Bool, true, false,
  Option, none, some, List, [], ◌∷◌, ◌++◌, arith, length, length-append, if◌then◌else◌, ◌==◌,
  replicate, length-replicate,
}
use mathlib.Core.Path.{subst}
use solutions.DynArray.{
  insert_at, shift_right, Array, Block, npos, size_t_mod, get_new_size_add, copy, reset, relloc,
  add,
}
use solutions.DynArray.Contents.{Fills, Holds, filled, length-filled, replicate-append}
use solutions.DynArray.Shift.{copy_lem}
use solutions.DynArray.Update.{insert_at-Fills}

-- The capacity that a full array grows to.
abbrev pub grown : ℕ → ℕ
grown capacity = get_new_size_add (if capacity == 0 then 8 else capacity)

module _ {ℓ} {A : Type ℓ} where
  -- Copying the elements out of the front of one block into a fresh one.
  copied :
      (xs : List A) (rest : Block A) (n k : ℕ)
      → n ≡ length xs + k
      → copy (length xs) 0 (filled xs ++ rest) (replicate n none)
        ≡ some (filled xs ++ replicate k none)
  copied xs rest n k e =
      rw (e, replicate-append (length xs) k none)
        (copy_lem (length xs) [] (filled xs) rest [] (replicate (length xs) none) (replicate k none)
          refl (length-filled xs) (length-replicate (length xs) none))

module _ {ℓ} {A : Type ℓ} where
  -- Behind a block grown by 64 cells there is one to write.
  one_free :
      (b : Array A) (ls rs : List A) (n : ℕ)
      → Fills b (ls ++ rs) (replicate (n - length (ls ++ rs)) none)
      → length (ls ++ rs) < n
      → Fills b (ls ++ rs) (none ∷ replicate (n - length (ls ++ rs) - 1) none)
  one_free b ls rs n g h =
      let e : n - length (ls ++ rs) ≡ suc (n - length (ls ++ rs) - 1) = omega arith in
      subst (λ k. Fills b (ls ++ rs) (replicate k none)) e g

  -- The position that `add` works with.
  add_pos :
      (a : Array A) (ls rs : List A) (pos : ℕ)
      → a.size ≡ length (ls ++ rs)
      → length (ls ++ rs) < npos
      → (pos ≡ length ls) ⊎ ((pos ≡ npos) × (rs ≡ []))
      → (if pos == npos then a.size else pos) ≡ length ls
  add_pos a ls rs pos c small (inl e) = ground (arith, length-append ls rs)
  add_pos a ls rs pos c small (inr (e, n)) = ground (arith, length-append ls rs, ap length n)

module _ {ℓ} {A : Type ℓ} (malloc : ℕ → Bool) (granted : (n : ℕ) → malloc n ≡ true) where
  reset_lem :
      (n : ℕ) (a : Array A)
      → (n == 0) ≡ false
      → (reset malloc n a).0 ≡ record { head = some (replicate n none); size = 0; capacity = n }
  unfolding reset
  reset_lem n a h = rw (h, granted n)

  -- A full array moves to a larger block with the same elements and at least 64 free cells.
  pub relloc-Fills :
      (a : Array A) (xs : List A) (rest : Block A)
      → Fills a xs rest
      → a.capacity < 2 ^ 31
      → (a' : Array A) × (relloc malloc a ≡ some (a', true))
        × Fills a' xs (replicate (grown a.capacity - length xs) none)
        × (a'.capacity ≡ grown a.capacity)
  unfolding relloc
  relloc-Fills a xs rest f small =
      let n = grown a.capacity in
      let big : length xs + 64 ≤ grown a.capacity = ground (arith, f.room) in
      let pos : (grown a.capacity == 0) ≡ false = ground (arith, f.room) in
      let fits : grown a.capacity < size_t_mod = ground arith in
      let counts : leb (2 ^ 31) a.size ≡ false = ground (arith, f.room, f.counted) in
      (
        record {
          head = some (filled xs ++ replicate (n - length xs) none);
          size = length xs;
          capacity = n;
        },
        rw
            (
              granted a.size,
              counts,
              f.counted,
              f.block,
              copied xs rest (length xs) 0 (omega arith),
              reset_lem n
                  (record a {
                    size = length xs;
                    capacity = if a.capacity == 0 then 8 else a.capacity;
                  })
                  pos,
              copied xs [] n (n - length xs) (omega arith),
              pos,
            )
            (ap
              (λ k. some (
                record {
                  head = some (filled xs ++ replicate (n - length xs) none);
                  size = k;
                  capacity = n;
                },
                true,
              ))
              (omega arith)),
        record {
          block = refl;
          counted = refl;
          room = omega (arith, length-replicate {A = Option A} (n - length xs) none);
          bounded = fits;
        },
        refl,
      )

  -- When every request for memory is granted and the capacity is below 2 ^ 31, `add` at a
  -- position up to the end, or with no position at the end, puts the element there, keeps the order
  -- of the others and never shrinks the block.
  pub add-Holds :
      (a : Array A) (ls rs : List A) (v : A) (pos : ℕ)
      → Holds a (ls ++ rs)
      → a.capacity < 2 ^ 31
      → (pos ≡ length ls) ⊎ ((pos ≡ npos) × (rs ≡ []))
      → (a' : Array A) × (add malloc a v pos ≡ some (a', true))
        × Holds a' (ls ++ v ∷ rs)
        × (a.capacity ≤ a'.capacity)
  unfolding add
  add-Holds a ls rs v pos ([], f) small at_pos =
      let (b, ran, g, cap) = relloc-Fills a (ls ++ rs) [] f small in
      let (c, done, h, kept) =
        insert_at-Fills b ls rs v none _
          (one_free b ls rs (grown a.capacity) g (ground (arith, f.room))) in
      (
        c,
        rw (full, add_pos a ls rs pos f.counted (omega arith) at_pos, ran, done),
        (_, h),
        ground (arith, kept, cap),
      )
    where
      full : ((a.capacity + size_t_mod - a.size) % size_t_mod == 0) ≡ true
      full = ground (arith, f.room, f.counted)
  add-Holds a ls rs v pos (y ∷ rest, f) small at_pos =
      let (c, done, h, kept) = insert_at-Fills a ls rs v y rest f in
      (
        c,
        rw (roomy, add_pos a ls rs pos f.counted (omega arith) at_pos, done),
        (rest, h),
        omega (arith, kept),
      )
    where
      roomy : ((a.capacity + size_t_mod - a.size) % size_t_mod == 0) ≡ false
      roomy = ground (arith, f.room, f.counted)

-- An array with no block, and what a refused `add` makes of it.
abbrev pub empty {ℓ} : {A : Type ℓ} → Array A
empty = record { head = none; size = 0; capacity = 0 }

abbrev pub refused {ℓ} : {A : Type ℓ} → Array A
refused = record { head = none; size = 0; capacity = 8 }

-- If the request for the intermediate copy is refused while the array has no block, `add` returns
-- false but leaves a capacity of 8 behind, and the next `add` writes through the null pointer.
pub add_after_refusal {ℓ} :
    {A : Type ℓ} (malloc later : ℕ → Bool)
    → malloc 0 ≡ false
    → (v w : A)
    → (add malloc (empty {A = A}) v npos ≡ some (refused, false))
      × (add later (refused {A = A}) w npos ≡ none)
unfolding add relloc insert_at shift_right
add_after_refusal malloc later h v w = (rw h, refl)
