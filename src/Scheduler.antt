-- ===== src/Scheduler.antt =====
-- lsylar/src/scheduler.cc, lsylar/include/scheduler.h and the states of lsylar/src/Fiber.cc: the task
-- queue, and one iteration of the loop of `scheduler::run` on the thread `me`. What happens between the
-- switch into a fiber and the switch back, `swapcontext`, is the argument `run_fiber`. Fibers, tasks'
-- callbacks and threads are numbers; the null pointer and the thread -1 are `none`. The result `none`
-- is a failed assertion. Locks and the empty `tickle` are left out.
pub mod Pick
pub mod Rounds
pub mod Life
mod Tests
use solutions.Base.{
  ℕ, zero, suc, ◌+◌, ◌-◌, ◌%◌, ◌^◌, Bool, true, false, not, ◌&&◌, ◌||◌, Option, none, some, List,
  [], ◌∷◌, ◌++◌, ◌==◌, if◌then◌else◌, length, ◌>>=◌,
}

abbrev pub size_t_mod : ℕ
size_t_mod = 2 ^ 64

-- `Fiber::State`.
pub data FiberState : Type 0 where
  init hold exec term ready except : FiberState

abbrev pub is_exec : FiberState → Bool
is_exec init = false
is_exec hold = false
is_exec exec = true
is_exec term = false
is_exec ready = false
is_exec except = false

abbrev pub is_ready : FiberState → Bool
is_ready init = false
is_ready hold = false
is_ready exec = false
is_ready term = false
is_ready ready = true
is_ready except = false

abbrev pub is_term : FiberState → Bool
is_term init = false
is_term hold = false
is_term exec = false
is_term term = true
is_term ready = false
is_term except = false

-- `TERM` or `EXCEPT`.
abbrev pub is_done : FiberState → Bool
is_done init = false
is_done hold = false
is_done exec = false
is_done term = true
is_done ready = false
is_done except = true

-- `FiberAndThread`.
pub record Task : Type 0 where
  pub fiber : Option ℕ
  pub cb : Option ℕ
  pub thread : Option ℕ

-- The members of `scheduler` that `run` works with, the members `m_state` and `m_cb` of every fiber, and
-- `s_fiber_id`.
pub record Scheduler : Type 0 where
  pub fibers : List Task
  pub active_thread_count : ℕ
  pub idle_thread_count : ℕ
  pub auto_stop : Bool
  pub is_stopping : Bool
  pub states : ℕ → FiberState
  pub cbs : ℕ → Option ℕ
  pub fiber_id : ℕ

-- The local variables of `run` that outlive an iteration.
pub record Local : Type 0 where
  pub idle_fiber : ℕ
  pub cb_fiber : Option ℕ

abbrev pub set_state : ℕ → FiberState → Scheduler → Scheduler
set_state f st s = record s { states = λ g. if g == f then st else s.states g }

abbrev pub set_cb : ℕ → Option ℕ → Scheduler → Scheduler
set_cb f cb s = record s { cbs = λ g. if g == f then cb else s.cbs g }

-- `--m_active_thread_count`.
abbrev pub leave : Scheduler → Scheduler
leave s = record s { active_thread_count = (s.active_thread_count + (size_t_mod - 1)) % size_t_mod }

-- `scheduleNoLock`: whether the queue was empty, and the queue with the task.
pub schedule_no_lock : Task → Scheduler → Bool × Scheduler
schedule_no_lock t s = (
  length s.fibers == 0,
  (elim t.fiber [
    | some f ↦ record s { fibers = s.fibers ++ t ∷ [] }
    | none ↦ elim t.cb [ some c ↦ record s { fibers = s.fibers ++ t ∷ [] } | none ↦ s ]
  ]),
)

-- `schedule(fiber)`, with the default thread -1.
pub schedule_fiber : ℕ → Scheduler → Scheduler
schedule_fiber f s = (schedule_no_lock (record { fiber = some f; cb = none; thread = none }) s).1

-- `scheduler::stopping`.
pub stopping : Scheduler → Bool
stopping s = s.auto_stop && (s.is_stopping && (length s.fibers == 0 && s.active_thread_count == 0))

-- `it->thread != -1 && it->thread != GetThreadId()`.
abbrev pub elsewhere : ℕ → Option ℕ → Bool
elsewhere me none = false
elsewhere me (some k) = not (k == me)

-- `it->fiber || it->cb`.
abbrev pub has_work : Option ℕ → Option ℕ → Bool
has_work (some f) cb = true
has_work none (some c) = true
has_work none none = false

-- `it->fiber && it->fiber->get_state() == Fiber::EXEC`.
abbrev pub executing : (ℕ → FiberState) → Option ℕ → Bool
executing states none = false
executing states (some f) = is_exec (states f)

-- What the search of the queue leaves: the task that was taken out, the queue, and `tickle_me`.
pub record Picked : Type 0 where
  pub task : Option Task
  pub rest : List Task
  pub tickle_me : Bool

-- The search of the queue in `scheduler::run`.
pub pick : ℕ → (ℕ → FiberState) → List Task → Option Picked
pick me states [] = some (record { task = none; rest = []; tickle_me = false })
pick me states (t ∷ ts) =
    let others = pick me states ts in
    if elsewhere me t.thread
    then (others >>= λ p. some (record p { rest = t ∷ p.rest; tickle_me = true }))
    else if not (has_work t.fiber t.cb)
    then none
    else if executing states t.fiber
    then (others >>= λ p. some (record p { rest = t ∷ p.rest }))
    else some (record { task = some t; rest = ts; tickle_me = not (length ts == 0) })

-- `Fiber::swapout` of the running fiber, up to the switch.
pub swapout : ℕ → Scheduler → Scheduler
swapout cur s = set_state cur term s

-- `Fiber::YeldToReady` and `Fiber::YeldToHold` of the running fiber, up to the switch.
pub yeld_to_ready : ℕ → Scheduler → Scheduler
yeld_to_ready cur s = swapout cur (set_state cur ready s)

pub yeld_to_hold : ℕ → Scheduler → Scheduler
yeld_to_hold cur s = swapout cur (set_state cur hold s)

module _ (run_fiber : ℕ → Scheduler → Scheduler) where
  -- `Fiber::swapin`.
  pub swapin : ℕ → Scheduler → Scheduler
  swapin f s = if is_exec (s.states f) then s else run_fiber f (set_state f exec s)

  -- The branch of `run` for a task with a fiber that is not done.
  pub serve_fiber : ℕ → Local → Scheduler → Bool × Local × Scheduler
  serve_fiber f l s =
      let s' = leave (swapin f s) in
      (
        true,
        l,
        if is_ready (s'.states f)
            then schedule_fiber f s'
            else if not (is_done (s'.states f))
            then set_state f hold s'
            else s',
      )

  -- The fiber that a callback runs in: the one that is kept for it, or a new one.
  pub cb_fiber_for : Option ℕ → ℕ → Scheduler → ℕ × Scheduler
  cb_fiber_for (some f) cb s = (f, set_cb f (some cb) s)
  cb_fiber_for none cb s =
      let f = s.fiber_id + 1 in
      (f, set_cb f (some cb) (set_state f init (record s { fiber_id = f })))

  -- The branch of `run` for a task with a callback.
  pub serve_cb : ℕ → Local → Scheduler → Bool × Local × Scheduler
  serve_cb cb l s =
      let (f, s₁) = cb_fiber_for l.cb_fiber cb s in
      let s₂ = leave (swapin f s₁) in
      if is_done (s₂.states f)
      then (true, record l { cb_fiber = some f }, set_cb f none s₂)
      else (true, record l { cb_fiber = none }, set_state f hold s₂)

  -- The branch of `run` without a task.
  pub serve_idle : Local → Scheduler → Bool × Local × Scheduler
  serve_idle l s =
      let s₁ = record s { idle_thread_count = (s.idle_thread_count + 1) % size_t_mod } in
      let s₂ = swapin l.idle_fiber s₁ in
      let s₃ = record s₂ {
        idle_thread_count = (s₂.idle_thread_count + (size_t_mod - 1)) % size_t_mod;
      } in
      if is_term (s.states l.idle_fiber) then (false, l, s) else (
        true,
        l,
        if not (is_done (s₃.states l.idle_fiber)) then set_state l.idle_fiber hold s₃ else s₃,
      )

  -- The three branches of `run` after the search, with the fiber and the callback of the task.
  pub serve : Option ℕ → Option ℕ → Local → Scheduler → Bool × Local × Scheduler
  serve (some f) cb l s =
      if not (is_done (s.states f))
      then serve_fiber f l s
      else elim cb [ some c ↦ serve_cb c l s | none ↦ (true, l, leave s) ]
  serve none (some c) l s = serve_cb c l s
  serve none none l s = (true, l, leave s)

  -- An iteration of the loop of `scheduler::run`; the Boolean is false where it breaks.
  pub run_round : ℕ → Local → Scheduler → Option (Bool × Local × Scheduler)
  run_round me l s = do
    p ← pick me s.states s.fibers
    some (elim p.task [
      | none ↦ serve_idle l (record s { fibers = p.rest })
      | some t ↦ serve t.fiber t.cb l (record s {
        fibers = p.rest;
        active_thread_count = (s.active_thread_count + 1) % size_t_mod;
      })
    ])
