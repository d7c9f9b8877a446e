-- ===== src/Mutex.antt =====
-- lsylar/include/Mutex.h: `ScopedLockImpl` over a mutex that several threads share. A guard is a number,
-- and its operations are called by one thread. An operation that calls the mutex and assigns `m_locked` is
-- two steps, between which other threads run; `none` is a step that does not apply, or a thread that waits
-- in `lock` of the mutex. One that locks a mutex that it holds waits for ever.
pub mod Exclusive
mod Tests
use solutions.Base.{ℕ, ◌≡◌, Bool, true, false, Option, none, some, ◌==◌, if◌then◌else◌}

-- Where the thread of a guard is: in no operation, behind `m_mutex.lock()` and before the assignment of
-- `m_locked`, or behind `m_mutex.unlock()` and before it.
pub data At : Type 0 where
  outside locking unlocking : At

-- Whether the mutex is locked, and of each guard `m_locked` and where its thread is.
pub record Shared : Type 0 where
  pub held : Bool
  pub locked : ℕ → Bool
  pub at : ℕ → At

abbrev pub set_locked : ℕ → Bool → Shared → Shared
set_locked g b s = record s { locked = λ h. if h == g then b else s.locked h }

abbrev pub set_at : ℕ → At → Shared → Shared
set_at g a s = record s { at = λ h. if h == g then a else s.at h }

abbrev pub is_outside : At → Bool
is_outside outside = true
is_outside locking = false
is_outside unlocking = false

abbrev pub is_locking : At → Bool
is_locking outside = false
is_locking locking = true
is_locking unlocking = false

abbrev pub is_unlocking : At → Bool
is_unlocking outside = false
is_unlocking locking = false
is_unlocking unlocking = true

-- `m_mutex.lock()` of a guard, in the constructor and in `lock`.
pub take_mutex : ℕ → Shared → Option Shared
take_mutex g s = if s.held then none else some (set_at g locking (record s { held = true }))

-- The constructor of a guard up to the assignment.
pub new_guard : ℕ → Shared → Option Shared
unfolding take_mutex
new_guard g s = if is_outside (s.at g) then take_mutex g s else none

-- `ScopedLockImpl::lock` up to the assignment.
pub lock : ℕ → Shared → Option Shared
unfolding take_mutex
lock g s =
    let free = take_mutex g s in
    if is_outside (s.at g) then (if s.locked g then some s else free) else none

-- `m_locked = true`.
pub assign_true : ℕ → Shared → Option Shared
assign_true g s =
    if is_locking (s.at g) then some (set_at g outside (set_locked g true s)) else none

-- `ScopedLockImpl::unlock`, and the destructor, up to the assignment.
pub unlock : ℕ → Shared → Option Shared
unlock g s =
    if is_outside (s.at g)
    then (if s.locked g then some (set_at g unlocking (record s { held = false })) else some s)
    else none

-- `m_locked = false`.
pub assign_false : ℕ → Shared → Option Shared
assign_false g s =
    if is_unlocking (s.at g) then some (set_at g outside (set_locked g false s)) else none
