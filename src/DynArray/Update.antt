-- ===== src/DynArray/Update.antt =====
-- `Array::del`, `Array::alter` and the write of `Array::add`, against the list that the array holds.
use solutions.Base.{
  ◌%◌, ◌+◌, ◌-◌, ◌≡◌, refl, sym, true, false, Option, some, List, ◌∷◌, ◌++◌, arith, length,
  length-append, ltb, lt→ltb,
}
use solutions.DynArray.{Array, Block, at, size_t_mod, insert_at, shift_right, del, alter}
use solutions.DynArray.Contents.{Fills, Holds, filled, length-filled, filled-append}
use solutions.DynArray.Shift.{shift_right_lem, shift_left_lem, write_at}

module _ {ℓ} {A : Type ℓ} where
  shifted :
      (ls rs : List A) (y : Option A) (rest : Block A)
      → (h : Option A) × (shift_right (length rs) (length ls) (filled (ls ++ rs) ++ y ∷ rest)
          ≡ some (filled ls ++ h ∷ (filled rs ++ rest)))
  shifted ls rs y rest =
      let (h, done) =
        shift_right_lem (length rs) (filled ls) (filled rs) rest y (length-filled rs) in
      (h, rw (filled-append ls rs (y ∷ rest), sym (length-filled ls)) done)

  -- With room behind the elements, the write of `add` puts the element between the two parts.
  pub insert_at-Fills :
      (a : Array A) (ls rs : List A) (v : A) (y : Option A) (rest : Block A)
      → Fills a (ls ++ rs) (y ∷ rest)
      → (a' : Array A) × (insert_at a v (length ls) ≡ some (a', true))
        × Fills a' (ls ++ v ∷ rs) rest
        × (a'.capacity ≡ a.capacity)
  unfolding insert_at
  insert_at-Fills a ls rs v y rest f =
      let (h, moved) = shifted ls rs y rest in
      let rounds : a.size - length ls ≡ length rs = omega (arith, f.counted, length-append ls rs) in
      let n : (a.size + 1) % size_t_mod ≡ length (ls ++ v ∷ rs) =
        omega
          (arith, f.counted, f.room, f.bounded, length-append ls rs, length-append ls (v ∷ rs)) in
      (
        record a {
          head = some (filled ls ++ some v ∷ (filled rs ++ rest));
          size = (a.size + 1) % size_t_mod;
        },
        rw (
          rounds,
          f.block,
          moved,
          write_at (filled ls) (filled rs ++ rest) h (some v) (length ls) (sym (length-filled ls)),
        ),
        record {
          block = sym (filled-append ls (v ∷ rs) rest);
          counted = n;
          room = omega (arith, f.room, length-append ls rs, length-append ls (v ∷ rs));
          bounded = f.bounded;
        },
        refl,
      )

  -- `del` of a position inside the array removes that element, keeps the order of the others and
  -- leaves the capacity alone.
  pub del-Holds :
      (a : Array A) (ls rs : List A) (v : A)
      → Holds a (ls ++ v ∷ rs)
      → (a' : Array A) × (del a (at (length ls)) ≡ some (a', true))
        × Holds a' (ls ++ rs)
        × (a'.capacity ≡ a.capacity)
  unfolding del
  del-Holds a ls rs v (rest, f) =
      let (l, moved) =
        shift_left_lem (length rs) (filled ls) (filled rs) rest (some v) (length-filled rs) in
      let n = length-append ls (v ∷ rs) in
      let rounds : a.size - 1 - length ls ≡ length rs = omega (arith, f.counted, n) in
      let inside : ltb (length ls) a.size ≡ true = lt→ltb _ _ (omega (arith, f.counted, n)) in
      (
        record a { head = some (filled ls ++ (filled rs ++ l ∷ rest)); size = a.size - 1 },
        rw (inside, rounds, f.block, filled-append ls (v ∷ rs) rest, sym (length-filled ls), moved),
        (
          l ∷ rest,
          record {
            block = sym (filled-append ls rs (l ∷ rest));
            counted = omega (arith, f.counted, n, length-append ls rs);
            room = omega (arith, f.room, n, length-append ls rs);
            bounded = f.bounded;
          },
        ),
        refl,
      )

  -- `alter` of a position inside the array replaces that element and nothing else.
  pub alter-Holds :
      (a : Array A) (ls rs : List A) (v w : A)
      → Holds a (ls ++ v ∷ rs)
      → (a' : Array A) × (alter a (at (length ls)) w ≡ some (a', true)) × Holds a' (ls ++ w ∷ rs)
  unfolding alter
  alter-Holds a ls rs v w (rest, f) =
      let n = length-append ls (v ∷ rs) in
      let inside : ltb a.size (length ls) ≡ false = ground (arith, f.counted, n) in
      (
        record a { head = some (filled ls ++ some w ∷ (filled rs ++ rest)) },
        rw (
          inside,
          f.block,
          filled-append ls (v ∷ rs) rest,
          write_at (filled ls) (filled rs ++ rest) (some v) (some w) (length ls)
              (sym (length-filled ls)),
        ),
        (
          rest,
          record {
            block = sym (filled-append ls (w ∷ rs) rest);
            counted = omega (arith, f.counted, n, length-append ls (w ∷ rs));
            room = omega (arith, f.room, n, length-append ls (w ∷ rs));
            bounded = f.bounded;
          },
        ),
      )
