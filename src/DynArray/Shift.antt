-- ===== src/DynArray/Shift.antt =====
-- The three loops of `Array` over a block: what they leave where they stay inside it.
use solutions.Base.{
  ℕ, zero, suc, ◌+◌, ◌≡◌, refl, ap, ◌∙◌, sym, Option, some, [], ◌∷◌, ◌++◌, append_assoc, arith, set,
  length, length-append, lt→ltb,
}
use solutions.DynArray.{Block, read, write, shift_right, shift_left, copy}

module _ {ℓ} {A : Type ℓ} where
  read-append : (b r : Block A) (c : Option A) → read (b ++ c ∷ r) (length b) ≡ some c
  read-append [] r c = refl
  read-append (x ∷ b) r c = read-append b r c

  set-append : (b r : Block A) (c d : Option A) → set (b ++ c ∷ r) (length b) d ≡ b ++ d ∷ r
  set-append [] r c d = refl
  set-append (x ∷ b) r c d = ap (◌∷◌ x) (set-append b r c d)

  -- A write inside the block replaces one cell.
  pub write-append :
      (b r : Block A) (c d : Option A) → write (b ++ c ∷ r) (length b) d ≡ some (b ++ d ∷ r)
  write-append b r c d = rw (
    lt→ltb (length b) (length (b ++ c ∷ r)) (omega (arith, length-append b (c ∷ r))),
    set-append b r c d,
  )

  -- A read inside the block finds the cell that stands there.
  pub read_at : (b r : Block A) (c : Option A) (i : ℕ) → i ≡ length b → read (b ++ c ∷ r) i ≡ some c
  read_at b r c i e = rw e (read-append b r c)

  pub write_at :
      (b r : Block A) (c d : Option A) (i : ℕ)
      → i ≡ length b
      → write (b ++ c ∷ r) i d ≡ some (b ++ d ∷ r)
  write_at b r c d i e = rw e (write-append b r c d)

  unsnoc :
      (x : Option A) (xs : Block A)
      → (zs : Block A) × (z : Option A) × (x ∷ xs ≡ zs ++ z ∷ []) × (length zs ≡ length xs)
  unsnoc x [] = ([], x, refl, refl)
  unsnoc x (y ∷ xs) = let (zs, z, e, l) = unsnoc y xs in (x ∷ zs, z, ap (◌∷◌ x) e, ap suc l)

  -- One round: the last cell of the run is copied over the cell behind it.
  shift_right_step :
      (n : ℕ) (b zs r : Block A) (y z : Option A)
      → length zs ≡ n
      → shift_right (suc n) (length b) (b ++ ((zs ++ z ∷ []) ++ y ∷ r))
        ≡ shift_right n (length b) (b ++ (zs ++ z ∷ z ∷ r))
  unfolding shift_right
  shift_right_step n b zs r y z l =
      let front = λ (t : Block A). sym (append_assoc b zs t) in
      rw (
        append_assoc zs (z ∷ []) (y ∷ r),
        front (z ∷ y ∷ r),
        front (z ∷ z ∷ r),
        read_at (b ++ zs) (y ∷ r) z (length b + n) (omega (arith, length-append b zs)),
        sym (append_assoc (b ++ zs) (z ∷ []) (y ∷ r)),
        write_at ((b ++ zs) ++ z ∷ []) r y z (suc (length b + n))
            (omega (arith, length-append b zs, length-append (b ++ zs) (z ∷ []))),
        append_assoc (b ++ zs) (z ∷ []) (z ∷ r),
      )

  -- Moving `xs` one cell up, over the cell behind it, keeps what stands before and after.
  pub shift_right_lem :
      (n : ℕ) (b xs r : Block A) (y : Option A)
      → length xs ≡ n
      → (h : Option A) × (shift_right n (length b) (b ++ (xs ++ y ∷ r)) ≡ some (b ++ h ∷ (xs ++ r)))
  shift_right_lem zero b [] r y l = (y, unfold shift_right in refl)
  shift_right_lem zero b (x ∷ xs) r y l = absurd (omega arith)
  shift_right_lem (suc n) b [] r y l = absurd (omega arith)
  shift_right_lem (suc n) b (x ∷ xs) r y l =
      let (zs, z, e, lz) = unsnoc x xs in
      let (h, done) = shift_right_lem n b zs (z ∷ r) z (omega arith) in
      (
        h,
        ap (λ t. shift_right (suc n) (length b) (b ++ (t ++ y ∷ r))) e
            ∙ shift_right_step n b zs r y z (omega arith)
            ∙ done
            ∙ ap (λ t. some (b ++ h ∷ t)) (sym (append_assoc zs (z ∷ []) r))
            ∙ ap (λ t. some (b ++ h ∷ (t ++ r))) (sym e),
      )

  -- One round: the second cell is copied over the first, and the loop goes on behind it.
  shift_left_step :
      (n : ℕ) (b r : Block A) (x y : Option A)
      → shift_left (suc n) (length b) (b ++ x ∷ y ∷ r)
        ≡ shift_left n (length (b ++ y ∷ [])) ((b ++ y ∷ []) ++ y ∷ r)
  unfolding shift_left
  shift_left_step n b r x y =
      rw
        (
          sym (append_assoc b (x ∷ []) (y ∷ r)),
          read_at (b ++ x ∷ []) r y (suc (length b)) (omega (arith, length-append b (x ∷ []))),
          append_assoc b (x ∷ []) (y ∷ r),
          write-append b (y ∷ r) x y,
          append_assoc b (y ∷ []) (y ∷ r),
        )
        (ap (λ k. shift_left n k (b ++ y ∷ y ∷ r)) (omega (arith, length-append b (y ∷ []))))

  -- Moving `xs` one cell down, over the cell before it, keeps what stands before and after; the last
  -- cell moved stands there twice.
  pub shift_left_lem :
      (n : ℕ) (b xs r : Block A) (x : Option A)
      → length xs ≡ n
      → (l : Option A) × (shift_left n (length b) (b ++ x ∷ (xs ++ r)) ≡ some (b ++ (xs ++ l ∷ r)))
  shift_left_lem zero b [] r x l = (x, unfold shift_left in refl)
  shift_left_lem zero b (y ∷ xs) r x l = absurd (omega arith)
  shift_left_lem (suc n) b [] r x l = absurd (omega arith)
  shift_left_lem (suc n) b (y ∷ xs) r x l =
      let (z, done) = shift_left_lem n (b ++ y ∷ []) xs r y (omega arith) in
      (
        z,
        shift_left_step n b (xs ++ r) x y ∙ done ∙ ap some (append_assoc b (y ∷ []) (xs ++ z ∷ r)),
      )

  copy_step :
      (n : ℕ) (f fr t tr : Block A) (x y : Option A)
      → length f ≡ length t
      → copy (suc n) (length t) (f ++ x ∷ fr) (t ++ y ∷ tr)
        ≡ copy n (length (t ++ x ∷ [])) ((f ++ x ∷ []) ++ fr) ((t ++ x ∷ []) ++ tr)
  unfolding copy
  copy_step n f fr t tr x y e =
      rw
        (
          read_at f fr x (length t) (sym e),
          write-append t tr y x,
          append_assoc f (x ∷ []) fr,
          append_assoc t (x ∷ []) tr,
        )
        (ap (λ k. copy n k (f ++ x ∷ fr) (t ++ x ∷ tr)) (omega (arith, length-append t (x ∷ []))))

  -- Copying `xs` to as many cells of another block at the same place replaces these cells.
  pub copy_lem :
      (n : ℕ) (f xs fr t ys tr : Block A)
      → length f ≡ length t
      → length xs ≡ n
      → length ys ≡ n
      → copy n (length t) (f ++ (xs ++ fr)) (t ++ (ys ++ tr)) ≡ some (t ++ (xs ++ tr))
  copy_lem zero f [] fr t [] tr e p q = unfold copy in refl
  copy_lem zero f [] fr t (y ∷ ys) tr e p q = absurd (omega arith)
  copy_lem zero f (x ∷ xs) fr t ys tr e p q = absurd (omega arith)
  copy_lem (suc n) f [] fr t ys tr e p q = absurd (omega arith)
  copy_lem (suc n) f (x ∷ xs) fr t [] tr e p q = absurd (omega arith)
  copy_lem (suc n) f (x ∷ xs) fr t (y ∷ ys) tr e p q =
      copy_step n f (xs ++ fr) t (ys ++ tr) x y e
      ∙ copy_lem n (f ++ x ∷ []) xs fr (t ++ x ∷ []) ys tr
          (omega (arith, length-append f (x ∷ []), length-append t (x ∷ []))) (omega arith)
          (omega arith)
      ∙ ap some (append_assoc t (x ∷ []) (xs ++ tr))
