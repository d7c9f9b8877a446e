-- ===== src/DynArray/Contents.antt =====
-- What an `Array` holds: a list of elements at the front of its block, and room behind them.
use solutions.Base.{
  ℕ, zero, suc, ◌+◌, ◌<◌, ◌≡◌, ap, ◌∙◌, Option, some, List, ◌∷◌, ◌++◌, append_assoc, arith, length,
  length-map, map, replicate,
}
use mathlib.Core.List.{map-append}
use solutions.DynArray.{Array, Block, cells, size_t_mod}

module _ {ℓ} {A : Type ℓ} where
  -- The elements of `xs`, each in a cell that has been written.
  abbrev pub filled : List A → Block A
  filled xs = map some xs

  -- The array holds exactly `xs`, in order, and has the cells `rest` behind them.
  pub record Fills (a : Array A) (xs : List A) (rest : Block A) : Type ℓ where
    pub block : cells a.head ≡ filled xs ++ rest
    pub counted : a.size ≡ length xs
    pub room : a.capacity ≡ length xs + length rest
    pub bounded : a.capacity < size_t_mod

  -- The array holds exactly `xs`, in order.
  abbrev pub Holds : Array A → List A → Type ℓ
  Holds a xs = (rest : Block A) × Fills a xs rest

  pub length-filled : (xs : List A) → length (filled xs) ≡ length xs
  length-filled xs = length-map xs some

  -- The block behind a split of the elements.
  pub filled-append :
      (ls rs : List A) (rest : Block A)
      → filled (ls ++ rs) ++ rest ≡ filled ls ++ (filled rs ++ rest)
  filled-append ls rs rest =
      ap (λ (t : Block A). t ++ rest) (map-append some ls rs)
      ∙ append_assoc (filled ls) (filled rs) rest

  pub replicate-append :
      (m n : ℕ) (c : Option A) → replicate (m + n) c ≡ replicate m c ++ replicate n c
  replicate-append zero n c = let e : zero + n ≡ n = omega arith in rw e
  replicate-append (suc m) n c =
      let e : suc m + n ≡ suc (m + n) = omega arith in rw e (ap (◌∷◌ c) (replicate-append m n c))
