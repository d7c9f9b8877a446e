-- ===== src/Scheduler/Tests.antt =====
-- The scheduler's theorems on a queue of three tasks.
use solutions.Base.{Bool, ℕ, ◌≡◌, refl, true, false, some, none, List, [], ◌∷◌, arith}
use solutions.Scheduler.{
  FiberState, init, term, Task, Scheduler, Local, Picked, pick, run_round, set_state,
}
use solutions.Scheduler.Pick.{Chosen, pick-Chosen}
use solutions.Scheduler.Rounds.{run_round-active}

abbrev bound : Task
bound = record { fiber = some 5; cb = none; thread = some 9 }

abbrev callback : Task
callback = record { fiber = none; cb = some 1; thread = none }

abbrev loose : Task
loose = record { fiber = some 6; cb = none; thread = none }

abbrev all_init : ℕ → FiberState
all_init f = init

pick-Chosen_example :
    (p : Picked) × (pick 4 all_init (bound ∷ callback ∷ loose ∷ []) ≡ some p)
    × Chosen 4 all_init (bound ∷ callback ∷ loose ∷ []) p
pick-Chosen_example =
    pick-Chosen 4 all_init (bound ∷ callback ∷ loose ∷ []) (refl, (refl, (refl, tt)))

abbrev idle_local : Local
idle_local = record { idle_fiber = 1; cb_fiber = none }

abbrev waiting : List Task → Scheduler
waiting ts = record {
  fibers = ts;
  active_thread_count = 0;
  idle_thread_count = 0;
  auto_stop = false;
  is_stopping = false;
  states = all_init;
  cbs = λ f. none;
  fiber_id = 6;
}

abbrev finish : ℕ → Scheduler → Scheduler
finish f s = set_state f term s

run_round-active_example :
    (more : Bool) × (l' : Local) × (s' : Scheduler) × (run_round finish 4 idle_local
        (waiting (bound ∷ callback ∷ loose ∷ []))
      ≡ some (more, l', s'))
    × (s'.active_thread_count ≡ 0)
run_round-active_example =
    run_round-active finish (λ f s. refl) 4 idle_local (waiting (bound ∷ callback ∷ loose ∷ []))
      (refl, (refl, (refl, tt))) (omega arith)

-- Four threads with the caller's: three are made.
abbrev each_ends : ℕ → Bool
each_ends t = true
