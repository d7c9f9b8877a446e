-- ===== src/Fiber.antt =====
-- lsylar/src/Fiber.cc and lsylar/include/Fiber.h: the fibers of one thread. A pointer is an index of the
-- list of objects, where `none` is one that was destroyed. A context is the stack that it resumes: 0 is
-- the thread's own, and `f + 1` that of the fiber `f`. `swapcontext(a, b)` stores the stack that runs in
-- `a` and goes on in that of `b`. `none` as a result is undefined behaviour: a null pointer, or one to
-- an object that was destroyed. The sizes of stacks, failures of `getcontext` and the log are
-- left out, and the counters do not wrap.
pub mod Objects
pub mod Enter
pub mod Switch
pub mod Current
mod Tests
use solutions.Base.{
  ℕ, zero, suc, ◌+◌, ◌-◌, Bool, true, false, Option, none, some, List, [], ◌∷◌, ◌++◌, ◌==◌,
  if◌then◌else◌, length, set, get_elem?, ◌>>=◌,
}
use solutions.Scheduler.{FiberState, init, exec, term, hold, ready, except, is_exec}

-- A `Fiber`: `m_id`, `m_state`, whether `m_cb` holds a callback, whether `m_stack` is not null, `m_ctx`.
pub record Fiber : Type 0 where
  pub id : ℕ
  pub state : FiberState
  pub has_cb : Bool
  pub has_stack : Bool
  pub ctx : ℕ

-- `t_fiber`, `t_thread_fiber`, the objects, the stack that runs, `s_fiber_id` and `s_fiber_count`. A
-- thread that has exited runs no stack.
pub record Fibers : Type 0 where
  pub t_fiber : Option ℕ
  pub t_thread_fiber : Option ℕ
  pub fibers : List (Option Fiber)
  pub running : Option ℕ
  pub fiber_id : ℕ
  pub fiber_count : ℕ

-- A thread at its start.
abbrev pub new_fibers : Fibers
new_fibers = record {
  t_fiber = none;
  t_thread_fiber = none;
  fibers = [];
  running = some 0;
  fiber_id = 0;
  fiber_count = 0;
}

-- The object behind a pointer, and a change of it.
abbrev pub fiber_at : ℕ → Fibers → Option Fiber
fiber_at p t = get_elem? t.fibers p >>= λ f. f

abbrev pub set_fiber : ℕ → Fiber → Fibers → Fibers
set_fiber p f t = record t { fibers = set t.fibers p (some f) }

-- A new object behind the others.
abbrev pub add_fiber : Fiber → Fibers → Fibers
add_fiber f t = record t { fibers = t.fibers ++ some f ∷ []; fiber_count = t.fiber_count + 1 }

-- `Fiber::SetThis`.
abbrev pub set_this : Option ℕ → Fibers → Fibers
set_this p t = record t { t_fiber = p }

-- `Fiber::Fiber()`, with the context of the stack that runs.
pub new_main : ℕ → Fibers → ℕ × Fibers
new_main stack t =
    let f : Fiber = record {
      id = 0;
      state = exec;
      has_cb = false;
      has_stack = false;
      ctx = stack;
    } in
    (length t.fibers, set_this (some (length t.fibers)) (add_fiber f t))

-- `Fiber::Fiber(cb, stack_size)`.
pub new_fiber : Fibers → ℕ × Fibers
new_fiber t =
    let f : Fiber = record {
      id = t.fiber_id + 1;
      state = init;
      has_cb = true;
      has_stack = true;
      ctx = suc (length t.fibers);
    } in
    (length t.fibers, record (add_fiber f t) { fiber_id = t.fiber_id + 1 })

-- `Fiber::~Fiber`.
pub delete_fiber : ℕ → Fibers → Option Fibers
delete_fiber p t = do
  f ← fiber_at p t
  let gone = record t { fibers = set t.fibers p none; fiber_count = t.fiber_count - 1 }
  let is_this : Bool = elim t.t_fiber [ none ↦ false | some q ↦ q == p ]
  some (if f.has_stack then gone else if is_this then set_this none gone else gone)

-- `Fiber::GetThis`, by `t_fiber`.
pub this_or_main : Option ℕ → Fibers → Option (ℕ × Fibers)
this_or_main (some p) t = some (p, t)
this_or_main none t = do
  stack ← t.running
  let (p, t') = new_main stack t
  some (p, record t' { t_thread_fiber = some p })

pub get_this : Fibers → Option (ℕ × Fibers)
get_this t = this_or_main t.t_fiber t

-- `swapcontext` of two objects.
pub swapcontext : ℕ → ℕ → Fibers → Option Fibers
swapcontext from to t = do
  stack ← t.running
  f ← fiber_at from t
  let t₁ = set_fiber from (record f { ctx = stack }) t
  g ← fiber_at to t₁
  some (record t₁ { running = some g.ctx })

-- `m_state = …`.
pub set_state : ℕ → FiberState → Fibers → Option Fibers
set_state p st t = fiber_at p t >>= λ f. some (set_fiber p (record f { state = st }) t)

-- `Fiber::swapin`. The fiber is `t_fiber` even where it is refused.
pub swapin : ℕ → Fibers → Option Fibers
swapin p t = do
  f ← fiber_at p t
  let switched : Option Fibers = do
    t₁ ← set_state p exec (set_this (some p) t)
    main ← t.t_thread_fiber
    swapcontext main p t₁
  if is_exec f.state then some (set_this (some p) t) else switched

-- `Fiber::swapout`.
pub swapout : ℕ → Fibers → Option Fibers
swapout p t = do
  t₁ ← set_state p term (set_this t.t_thread_fiber t)
  main ← t.t_thread_fiber
  swapcontext p main t₁

-- `Fiber::call` and `Fiber::back`.
pub call : ℕ → Fibers → Option Fibers
call p t = do
  t₁ ← set_state p exec (set_this (some p) t)
  main ← t.t_thread_fiber
  swapcontext main p t₁

pub back : ℕ → Fibers → Option Fibers
back p t = t.t_thread_fiber >>= λ main. swapcontext p main (set_this (some main) t)

-- `Fiber::reset` of a fiber with a stack: `makecontext` begins it anew.
pub reset : ℕ → Fibers → Option Fibers
reset p t = do
  f ← fiber_at p t
  (if f.has_stack then some (set_fiber p (record f { has_cb = true; ctx = suc p }) t) else none)

-- `Fiber::YeldToHold` and `Fiber::YeldToReady`.
pub yeld : FiberState → Fibers → Option Fibers
yeld st t = do (cur, t₁) ← get_this t; t₂ ← set_state cur st t₁; swapout cur t₂

abbrev pub yeld_to_hold : Fibers → Option Fibers
yeld_to_hold = yeld hold

abbrev pub yeld_to_ready : Fibers → Option Fibers
yeld_to_ready = yeld ready

-- How the callback of a fiber ends.
pub data Ending : Type 0 where
  returned threw threw_other : Ending

-- `Fiber::MainFunc` from the end of the callback on; `cur` is what `GetThis` gave at its start. Its
-- context has no `uc_link`: where it returns, the thread exits.
pub main_func_ends : ℕ → Ending → Fibers → Option Fibers
main_func_ends cur ending t = do
  f ← fiber_at cur t
  let f' : Fiber = elim ending [
    | returned ↦ record f { has_cb = false; state = term }
    | threw ↦ record f { state = except }
    | threw_other ↦ f
  ]
  some (record (set_fiber cur f' t) { running = none })

-- `Fiber::GetFiberId` and `Fiber::TotalFibers`.
pub get_fiber_id : Fibers → Option ℕ
get_fiber_id t = elim t.t_fiber [ none ↦ some 0 | some p ↦ fiber_at p t >>= λ f. some f.id ]

abbrev pub total_fibers : Fibers → ℕ
total_fibers t = t.fiber_count
