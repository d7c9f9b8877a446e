-- ===== src/Scheduler/Rounds.antt =====
-- The loop of `scheduler::run`: the count of active threads, and what becomes of a fiber that yields.
use solutions.Base.{
  ℕ, ◌+◌, ◌-◌, ◌%◌, ◌<◌, ◌≡◌, refl, ap, ◌∙◌, inl, inr, Bool, true, false, not, ◌==◌, Option, none,
  some, List, ◌∷◌, arith, All, Bool-cases, if◌then◌else◌,
}
use solutions.Scheduler.{
  hold, exec, term, is_exec, is_ready, is_done, is_term, Task, Scheduler, Local, set_state, leave,
  schedule_no_lock, schedule_fiber, size_t_mod, pick, swapin, serve_fiber, serve_cb, serve_idle,
  serve, cb_fiber_for, run_round, swapout, yeld_to_ready,
}
use solutions.Scheduler.Pick.{HasWork, pick-Chosen, first, nothing}

-- Of two schedulers with the same count, either has it.
if_active :
    (b : Bool) (x y : Scheduler) (n : ℕ)
    → x.active_thread_count ≡ n
    → y.active_thread_count ≡ n
    → (if b then x else y).active_thread_count ≡ n
if_active true x y n p q = p
if_active false x y n p q = q

if_served :
    (b : Bool) (x y : Bool × Local × Scheduler) (n : ℕ)
    → x.2.active_thread_count ≡ n
    → y.2.active_thread_count ≡ n
    → (if b then x else y).2.active_thread_count ≡ n
if_served true x y n p q = p
if_served false x y n p q = q

leave-active :
    (x y : Scheduler)
    → x.active_thread_count ≡ y.active_thread_count
    → (leave x).active_thread_count ≡ (leave y).active_thread_count
leave-active x y e = ap (λ k. (k + (size_t_mod - 1)) % size_t_mod) e

module _ (run_fiber : ℕ → Scheduler → Scheduler) where
  module _
      (keeps : (f : ℕ) (s : Scheduler)
        → (run_fiber f s).active_thread_count ≡ s.active_thread_count) where
    swapin-active :
        (f : ℕ) (s : Scheduler) → (swapin run_fiber f s).active_thread_count ≡ s.active_thread_count
    unfolding swapin
    swapin-active f s = elim (Bool-cases (is_exec (s.states f))) [
      | inl e ↦ rw e refl
      | inr e ↦ rw e (keeps f (set_state f exec s))
    ]

    serve_fiber-active :
        (f : ℕ) (l : Local) (s : Scheduler)
        → (serve_fiber run_fiber f l s).2.active_thread_count ≡ (leave s).active_thread_count
    unfolding serve_fiber schedule_fiber schedule_no_lock
    serve_fiber-active f l s =
        let s' = leave (swapin run_fiber f s) in
        let e = leave-active (swapin run_fiber f s) s (swapin-active f s) in
        if_active (is_ready (s'.states f)) _ _ _ e
          (if_active (not (is_done (s'.states f))) (set_state f hold s') s' _ e e)

    cb_fiber_for-active :
        (o : Option ℕ) (c : ℕ) (s : Scheduler)
        → (cb_fiber_for run_fiber o c s).1.active_thread_count ≡ s.active_thread_count
    unfolding cb_fiber_for
    cb_fiber_for-active none c s = refl
    cb_fiber_for-active (some f) c s = refl

    serve_cb-active :
        (c : ℕ) (l : Local) (s : Scheduler)
        → (serve_cb run_fiber c l s).2.active_thread_count ≡ (leave s).active_thread_count
    unfolding serve_cb
    serve_cb-active c l s =
        let s₁ = (cb_fiber_for run_fiber l.cb_fiber c s).1 in
        let f = (cb_fiber_for run_fiber l.cb_fiber c s).0 in
        let e =
          leave-active (swapin run_fiber f s₁) s
            (swapin-active f s₁ ∙ cb_fiber_for-active l.cb_fiber c s) in
        if_served (is_done ((leave (swapin run_fiber f s₁)).states f)) _ _ _ e e

    serve_idle-active :
        (l : Local) (s : Scheduler)
        → (serve_idle run_fiber l s).2.active_thread_count ≡ s.active_thread_count
    unfolding serve_idle
    serve_idle-active l s =
        let s₁ = record s { idle_thread_count = (s.idle_thread_count + 1) % size_t_mod } in
        let s₂ = swapin run_fiber l.idle_fiber s₁ in
        let e = swapin-active l.idle_fiber s₁ in
        if_served (is_term (s.states l.idle_fiber)) (false, l, s) _ _ refl
          (if_active (not (is_done (s₂.states l.idle_fiber))) _ _ _ e e)

    serve-active :
        (f c : Option ℕ) (l : Local) (s : Scheduler)
        → (serve run_fiber f c l s).2.active_thread_count ≡ (leave s).active_thread_count
    unfolding serve
    serve-active none none l s = refl
    serve-active none (some c) l s = serve_cb-active c l s
    serve-active (some f) none l s =
        if_served (not (is_done (s.states f))) _ _ _ (serve_fiber-active f l s) refl
    serve-active (some f) (some c) l s =
        if_served (not (is_done (s.states f))) _ _ _ (serve_fiber-active f l s)
          (serve_cb-active c l s)

    -- If the code of a fiber leaves the count of active threads, which is below 2 ^ 64, as it finds
    -- it, so does every iteration of `run` over a queue of tasks with a fiber or a callback: it
    -- ends, passes its assertion, and counts down once for each time it has counted up, on every
    -- branch.
    pub run_round-active :
        (me : ℕ) (l : Local) (s : Scheduler)
        → All HasWork s.fibers
        → s.active_thread_count < size_t_mod
        → (more : Bool) × (l' : Local) × (s' : Scheduler) × (run_round run_fiber me l s
            ≡ some (more, l', s'))
          × (s'.active_thread_count ≡ s.active_thread_count)
    unfolding run_round
    run_round-active me l s h small =
        let (p, e, c) = pick-Chosen me s.states s.fibers h in
        elim c [
          | first before after t q taken r n y ↦
              let s₁ = record s {
                fibers = p.rest;
                active_thread_count = (s.active_thread_count + 1) % size_t_mod;
              } in
              let (more, l', s') = serve run_fiber t.fiber t.cb l s₁ in
              (more, l', s', rw (e, taken) refl, serve-active t.fiber t.cb l s₁ ∙ omega arith)
          | nothing idle r n ↦
              let s₁ = record s { fibers = p.rest } in
              let (more, l', s') = serve_idle run_fiber l s₁ in
              (more, l', s', rw (e, idle) refl, serve_idle-active l s₁)
        ]

  -- A fiber at the front of the queue that is bound to no thread, neither runs nor is done, and
  -- yields to `READY`, is never scheduled again: `swapout` makes the state `TERM` after
  -- `YeldToReady` has made it `READY`, so the iteration drops the task.
  pub run_round-yeld_to_ready :
      (me f : ℕ) (ts : List Task) (l : Local) (s : Scheduler)
      → s.fibers ≡ record { fiber = some f; cb = none; thread = none } ∷ ts
      → is_exec (s.states f) ≡ false
      → is_done (s.states f) ≡ false
      → ((s₁ : Scheduler) → run_fiber f s₁ ≡ yeld_to_ready f s₁)
      → (s' : Scheduler) × (run_round run_fiber me l s ≡ some (true, l, s'))
        × (s'.fibers ≡ ts)
        × (s'.states f ≡ term)
  unfolding run_round pick serve serve_fiber swapin yeld_to_ready swapout
  run_round-yeld_to_ready me f ts l s q runs done yields =
      let same : (f == f) ≡ true = ground arith in
      let s₁ = record s {
        fibers = ts;
        active_thread_count = (s.active_thread_count + 1) % size_t_mod;
      } in
      (
        leave (yeld_to_ready f (set_state f exec s₁)),
        rw (q, runs, done, runs, yields, same) refl,
        refl,
        rw same refl,
      )
