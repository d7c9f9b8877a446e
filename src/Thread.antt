-- ===== src/Thread.antt =====
-- lsylar/src/Thread.cc, lsylar/include/Thread.h and the class `Semaphore` of
-- lsylar/include/Semaphore.h: one `Thread` object, the thread that constructs, joins and destroys it,
-- and the thread that `pthread_create` starts, interleaved in any order. The body of the callback is
-- one step of any length. Names and output are left out.
pub mod Handshake
mod Tests
use solutions.Base.{Steps, ℕ, zero, suc, ◌+◌, ◌≡◌, Bool, true, false}

-- Where the owner of the object stands: before `pthread_create`, at the wait of the constructor, behind
-- the constructor, behind `join`, at the wait of the destructor, and behind the destructor.
pub data Owner : Type 0 where
  creating constructing built joined destroying gone : Owner

-- Where the new thread stands in `Thread::run`: not there, at its start, behind the assignment of
-- `m_id`, behind the swap of `m_cb`, in the callback, behind it, and behind the last `post`.
pub data Runner : Type 0 where
  absent started named taken calling called finished : Runner

-- `m_sem`, `m_thread` as whether it is not 0, whether `m_id` is set, and whether `m_cb` still holds the
-- callback.
pub record Thread : Type 0 where
  pub sem : ℕ
  pub has_thread : Bool
  pub has_id : Bool
  pub has_cb : Bool
  pub owner : Owner
  pub runner : Runner

-- The object when its constructor has set `m_cb`.
abbrev pub before_create : Thread
before_create = record {
  sem = 0;
  has_thread = false;
  has_id = false;
  has_cb = true;
  owner = creating;
  runner = absent;
}

-- `m_sem.post()`.
abbrev pub post : Thread → Thread
post s = record s { sem = s.sem + 1 }

-- One step of either thread. `m_sem.wait()` can only go on when the semaphore is above 0.
pub data Step (s : Thread) : Thread → Type 0 where
  create :
      s.owner ≡ creating
      → Step s (record s { owner = constructing; runner = started; has_thread = true })
  create_fails : s.owner ≡ creating → Step s (record s { owner = constructing })
  construct :
      (k : ℕ)
      → s.owner ≡ constructing
      → s.sem ≡ suc k
      → Step s (record s { owner = built; sem = k })
  join :
      s.owner ≡ built
      → s.has_thread ≡ true
      → s.runner ≡ finished
      → Step s (record s { owner = joined; has_thread = false })
  join_none : s.owner ≡ built → s.has_thread ≡ false → Step s (record s { owner = joined })
  drop : s.owner ≡ built → Step s (record s { owner = destroying })
  drop_joined : s.owner ≡ joined → Step s (record s { owner = destroying })
  destroy :
      (k : ℕ) → s.owner ≡ destroying → s.sem ≡ suc k → Step s (record s { owner = gone; sem = k })
  identify : s.runner ≡ started → Step s (record s { runner = named; has_id = true })
  take_cb : s.runner ≡ named → Step s (record s { runner = taken; has_cb = false })
  release : s.runner ≡ taken → Step s (record (post s) { runner = calling })
  return_cb : s.runner ≡ calling → Step s (record s { runner = called })
  finish : s.runner ≡ called → Step s (record (post s) { runner = finished })

-- The states that steps lead to.
abbrev pub Reach : Thread → Thread → Type 0
Reach = Steps Step
