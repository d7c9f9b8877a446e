-- ===== src/DynArray/Tests.antt =====
-- Runs of `Array` on a small array, and the theorems about it at such inputs.
use solutions.Base.{ℕ, ◌≡◌, ◌≤◌, refl, Bool, true, none, some, [], ◌∷◌, arith, inl, replicate}
use solutions.DynArray.{
  Array, at, npos, add, del, alter, insert_at, relloc, reset, shift_right, copy,
}
use solutions.DynArray.Contents.{Holds}
use solutions.DynArray.Update.{del-Holds}
use solutions.DynArray.Grow.{add-Holds}

abbrev grants : ℕ → Bool
grants n = true

abbrev three : Array ℕ
three = record { head = some (some 5 ∷ some 6 ∷ some 7 ∷ none ∷ []); size = 3; capacity = 4 }

abbrev full : Array ℕ
full = record { head = some (some 5 ∷ some 6 ∷ []); size = 2; capacity = 2 }

three-Holds : Holds three (5 ∷ 6 ∷ 7 ∷ [])
three-Holds =
    (none ∷ [], record { block = refl; counted = refl; room = refl; bounded = omega arith })

full-Holds : Holds full (5 ∷ 6 ∷ [])
full-Holds = ([], record { block = refl; counted = refl; room = refl; bounded = omega arith })

-- Adding to a full array makes a new block of 66 cells.
add_grows :
    add grants full 9 npos
    ≡ some (
      record {
        head = some (some 5 ∷ some 6 ∷ some 9 ∷ replicate 63 none);
        size = 3;
        capacity = 66;
      },
      true,
    )
unfolding add relloc reset copy insert_at shift_right
add_grows = refl

-- One past the last element is accepted by `alter`.
alter_past_end : alter full (at 2) 9 ≡ none
unfolding alter
alter_past_end = refl

add-Holds_example :
    (a' : Array ℕ) × (add grants full 9 1 ≡ some (a', true))
    × Holds a' (5 ∷ 9 ∷ 6 ∷ [])
    × (2 ≤ a'.capacity)
add-Holds_example =
    add-Holds grants (λ n. refl) full (5 ∷ []) (6 ∷ []) 9 1 full-Holds (omega arith) (inl refl)

del-Holds_example :
    (a' : Array ℕ) × (del three (at 1) ≡ some (a', true))
    × Holds a' (5 ∷ 7 ∷ [])
    × (a'.capacity ≡ 4)
del-Holds_example = del-Holds three (5 ∷ []) (7 ∷ []) 6 three-Holds
