-- ===== src/Scheduler/Life.antt =====
-- lsylar/src/scheduler.cc: the constructor, `start`, `stop` and the destructor of `scheduler`, and the
-- `schedule` of several tasks. Threads are their ids. `none` is a failed assertion, or a `join` that never
-- returns, since the thread's `run` does not end; which threads end is an argument. What the fiber that
-- is bound to `run` does when `stop` calls it is the argument `run_fiber`; the main fiber of a thread,
-- which `Fiber::GetThis` makes, and names are left out.
pub mod Phases
use solutions.Base.{
  ℕ, zero, suc, ◌+◌, ◌-◌, Bool, true, false, not, ◌&&◌, ◌||◌, Option, none, some, List, [], ◌∷◌,
  ◌++◌, ◌==◌, if◌then◌else◌, length, ◌>>=◌,
}
use solutions.Scheduler.{
  FiberState, init, hold, exec, term, ready, except, Task, Scheduler, set_state, set_cb,
  schedule_no_lock, stopping,
}

-- `t_scheduler` of the calling thread: null, this scheduler, or another.
pub data Current : Type 0 where
  nobody this other : Current

abbrev pub is_this : Current → Bool
is_this nobody = false
is_this this = true
is_this other = false

abbrev pub is_nobody : Current → Bool
is_nobody nobody = true
is_nobody this = false
is_nobody other = false

-- The other members of `scheduler`, `m_thread_pool` to `m_root_thread`.
pub record Life : Type 0 where
  pub core : Scheduler
  pub thread_pool : List ℕ
  pub thread_ids : List ℕ
  pub thread_count : ℕ
  pub root_fiber : Option ℕ
  pub root_thread : Option ℕ

-- The members at their first values.
abbrev pub initial : Scheduler → Scheduler
initial g = record g {
  fibers = [];
  active_thread_count = 0;
  idle_thread_count = 0;
  auto_stop = false;
  is_stopping = true;
}

-- The fiber that is bound to `scheduler::run`.
abbrev pub with_root : ℕ → Scheduler → Scheduler
with_root run s =
    let f = s.fiber_id + 1 in set_cb f (some run) (set_state f init (record s { fiber_id = f }))

-- `scheduler::scheduler(nThreads, use_caller)` on the thread `me`.
pub new_scheduler : ℕ → ℕ → Scheduler → ℕ → Bool → Current → Option (Life × Current)
new_scheduler me run g n use_caller cur =
    if n == 0
    then none
    else if not use_caller
    then some (
      record {
        core = initial g;
        thread_pool = [];
        thread_ids = [];
        thread_count = n;
        root_fiber = none;
        root_thread = none;
      },
      cur,
    )
    else if not (is_nobody cur)
    then none
    else some (
      record {
        core = with_root run (initial g);
        thread_pool = [];
        thread_ids = me ∷ [];
        thread_count = n - 1;
        root_fiber = some (g.fiber_id + 1);
        root_thread = some me;
      },
      this,
    )

-- The ids of the threads that `start` makes, from the `i`th on.
unfoldable pub new_threads : (ℕ → ℕ) → ℕ → ℕ → List ℕ
new_threads ids i zero = []
new_threads ids i (suc n) = ids i ∷ new_threads ids (suc i) n

-- `scheduler::start`.
pub start : (ℕ → ℕ) → Life → Option Life
start ids l =
    let made = new_threads ids 0 l.thread_count in
    if not l.core.is_stopping
    then some l
    else if not (length l.thread_pool == 0)
    then none
    else some (record l {
      core = record l.core { is_stopping = false };
      thread_pool = made;
      thread_ids = l.thread_ids ++ made;
    })

-- `TERM` or `INIT`.
abbrev pub is_ended : FiberState → Bool
is_ended init = true
is_ended hold = false
is_ended exec = false
is_ended term = true
is_ended ready = false
is_ended except = false

-- The first test of `stop`.
abbrev pub root_ended : Life → Bool
root_ended l = elim l.root_fiber [
  | none ↦ false
  | some f ↦ l.thread_count == 0 && is_ended (l.core.states f)
]

-- The assertion of `stop`.
abbrev pub called_rightly : Current → Option ℕ → Bool
called_rightly cur none = not (is_this cur)
called_rightly cur (some t) = is_this cur

-- The threads of a list all end.
unfoldable pub all_end : (ℕ → Bool) → List ℕ → Bool
all_end ends [] = true
all_end ends (t ∷ ts) = ends t && all_end ends ts

module _ (run_fiber : ℕ → Scheduler → Scheduler) (ends : ℕ → Bool) where
  -- `m_root_fiber->call()` where there is something to do.
  pub call_root : Option ℕ → Scheduler → Scheduler
  call_root none s = s
  call_root (some f) s = if not (stopping s) then run_fiber f (set_state f exec s) else s

  -- `scheduler::stop`: the threads that it joins, and the scheduler.
  pub stop : Current → Life → Option (List ℕ × Life)
  stop cur l =
      let s = record l.core { auto_stop = true; is_stopping = true } in
      if root_ended l && stopping s
      then some ([], record l { core = s })
      else if not (called_rightly cur l.root_thread)
      then none
      else if not (all_end ends l.thread_pool)
      then none
      else some (l.thread_pool, record l { core = call_root l.root_fiber s; thread_pool = [] })

-- `scheduler::~scheduler`: `t_scheduler` afterwards.
pub destruct : Current → Life → Option Current
destruct cur l = if not l.core.is_stopping then none else some (if is_this cur then nobody else cur)

-- A task for any thread.
abbrev pub anywhere : Task → Task
anywhere t = record t { thread = none }

-- `schedule(begin, end)`: whether to tickle, and the scheduler.
pub schedule_all : List Task → Scheduler → Bool × Scheduler
schedule_all [] s = (false, s)
schedule_all (t ∷ ts) s =
    let (tickle, s') = schedule_no_lock (anywhere t) s in
    let (more, t') = schedule_all ts s' in (tickle || more, t')
