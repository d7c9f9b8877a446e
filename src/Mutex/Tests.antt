-- ===== src/Mutex/Tests.antt =====
-- Two threads with a guard each.
use solutions.Base.{false, ℕ, ◌≡◌, refl, true, none, Steps, here, next}
use solutions.Mutex.{
  Shared, locking, unlocking, outside, set_at, set_locked, take_mutex, new_guard, assign_true,
  unlock,
}
use solutions.Mutex.Exclusive.{Step, makes, locked, unlocks, no_guards, owns, Steps-locked}

abbrev first : Shared
first = set_at 1 outside (set_locked 1 true (set_at 1 locking (record no_guards { held = true })))

abbrev freed : Shared
freed = set_at 1 unlocking (record first { held = false })

-- The second guard is made while the first is behind the call of `unlock`: both have `m_locked`.
abbrev second : Shared
second = set_at 2 outside (set_locked 2 true (set_at 2 locking (record freed { held = true })))

path_to_second : Steps Step no_guards second
unfolding new_guard take_mutex assign_true unlock
path_to_second =
    next
      (next
        (next (next (next here (makes 1 _ refl refl)) (locked 1 first refl)) (unlocks 1 freed refl))
        (makes 2 _ refl refl))
      (locked 2 second refl)

both_locked : (second.locked 1 ≡ true) × (second.locked 2 ≡ true)
both_locked = (refl, refl)

Steps-locked_example : (◌≡◌ {A = ℕ} 2 2) × (second.held ≡ true)
unfolding owns
Steps-locked_example = Steps-locked second 2 2 path_to_second refl refl

-- The second waits while the first is locked.
waits : new_guard 2 first ≡ none
unfolding new_guard take_mutex
waits = refl
