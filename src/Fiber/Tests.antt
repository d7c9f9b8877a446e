-- ===== src/Fiber/Tests.antt =====
-- A thread with its own fiber 0 and two others.
use solutions.Base.{
  ◌+◌, ◌≡◌, refl, Option, some, none, true, false, [], ◌∷◌, ◌>>=◌, fmap, ℕ, Steps, here, next,
}
use solutions.Scheduler.{init, exec, term, hold}
use solutions.Fiber.{
  Fiber, Fibers, new_fibers, fiber_at, new_main, new_fiber, get_this, this_or_main, swapcontext,
  set_state, swapin, swapout, call, back, yeld, yeld_to_hold, main_func_ends, returned,
}
use solutions.Fiber.Objects.{own}
use solutions.Fiber.Current.{Step, gets, creates, swaps_in, Steps-get_this, swapin-yeld}

abbrev main_fiber : Fiber
main_fiber = record { id = 0; state = exec; has_cb = false; has_stack = false; ctx = 0 }

abbrev worker : ℕ → Fiber
worker n = record { id = n; state = init; has_cb = true; has_stack = true; ctx = n + 1 }

abbrev two_workers : Fibers
two_workers = record {
  t_fiber = some 0;
  t_thread_fiber = some 0;
  fibers = some main_fiber ∷ some (worker 1) ∷ some (worker 2) ∷ [];
  running = some 0;
  fiber_id = 2;
  fiber_count = 3;
}

path_to_workers : Steps Step new_fibers two_workers
unfolding get_this this_or_main new_main new_fiber
path_to_workers = next (next (next here (gets 0 0 _ refl refl)) creates) creates

-- The same behind `swapin` of fiber 1.
abbrev in_worker : Fibers
in_worker = record two_workers {
  t_fiber = some 1;
  fibers = some main_fiber ∷ some (record (worker 1) { state = exec }) ∷ some (worker 2) ∷ [];
  running = some 2;
}

path_to_worker : Steps Step new_fibers in_worker
unfolding swapin swapcontext set_state
path_to_worker =
    next path_to_workers (swaps_in 1 0 (worker 1) in_worker refl refl refl refl refl refl)

Steps-get_this_example :
    (p : ℕ) × (t : Fibers) × (f : Fiber) × (get_this in_worker ≡ some (p, t))
    × (fiber_at p t ≡ some f)
    × (own p f ≡ 2)
Steps-get_this_example = Steps-get_this in_worker 2 path_to_worker refl

swapin-yeld_example :
    (t₁ : Fibers) × (t₂ : Fibers) × (swapin 1 two_workers ≡ some t₁)
    × (t₁.running ≡ some 2)
    × (yeld hold t₁ ≡ some t₂)
    × (t₂.running ≡ some 0)
swapin-yeld_example =
    swapin-yeld two_workers 1 0 (worker 1) hold path_to_workers refl refl refl refl refl

-- The fiber that `GetThis` gives and the stack that runs.
abbrev this_and_stack : Fibers → Option ℕ × Option ℕ
this_and_stack t = (t.t_fiber, t.running)

-- A fiber that yields is finished.
yelds_to_term :
    (yeld_to_hold in_worker >>= λ t. fmap (λ (f : Fiber). f.state) (fiber_at 1 t)) ≡ some term
unfolding yeld swapout swapcontext set_state get_this this_or_main
yelds_to_term = refl

-- A fiber that was left by `back` still executes: `swapin` refuses it, and `GetThis` then gives it on the
-- thread's own stack.
refused :
    (call 1 two_workers >>= λ t. back 1 t >>= λ u. fmap this_and_stack (swapin 1 u))
    ≡ some (some 1, some 0)
unfolding swapin call back swapcontext set_state
refused = refl

-- A `swapin` in a fiber stores that fiber's stack in the thread's own fiber: where the second leaves,
-- `GetThis` gives the thread's own fiber on the stack of the first.
nested : (swapin 2 in_worker >>= λ t. fmap this_and_stack (swapout 2 t)) ≡ some (some 0, some 2)
unfolding swapin swapout swapcontext set_state
nested = refl

-- A fiber whose callback returns ends the thread.
exits : fmap (λ (t : Fibers). t.running) (main_func_ends 1 returned in_worker) ≡ some none
unfolding main_func_ends
exits = refl
