-- ===== src/Scheduler/Pick.antt =====
-- The search of `scheduler::run`: which task it takes, and what stays in the queue.
use solutions.Base.{
  ◌==◌, length, length, ℕ, ◌≡◌, refl, ap, inl, inr, Bool, true, false, not, ◌&&◌, none, some, List,
  [], ◌∷◌, ◌++◌, All, Bool-cases,
}
use solutions.Scheduler.{FiberState, Task, elsewhere, has_work, executing, Picked, pick}

-- A task that this thread may run now.
abbrev pub runnable : ℕ → (ℕ → FiberState) → Task → Bool
runnable me states t = not (elsewhere me t.thread) && not (executing states t.fiber)

-- A task that can be in a queue: it has a fiber or a callback.
abbrev pub HasWork : Task → Type 0
HasWork t = has_work t.fiber t.cb ≡ true

-- The first runnable task is taken out of its place and the order of the others stays, or no task is
-- runnable and the queue stays.
pub data Chosen (me : ℕ) (states : ℕ → FiberState) (ts : List Task) (p : Picked) : Type 0 where
  first :
      (before after : List Task) (t : Task)
      → ts ≡ before ++ t ∷ after
      → p.task ≡ some t
      → p.rest ≡ before ++ after
      → All (λ u. runnable me states u ≡ false) before
      → runnable me states t ≡ true
      → Chosen me states ts p
  nothing :
      p.task ≡ none
      → p.rest ≡ ts
      → All (λ u. runnable me states u ≡ false) ts
      → Chosen me states ts p

-- A task that is not runnable in front changes neither which one is chosen nor the order.
Chosen-skip :
    (me : ℕ) (states : ℕ → FiberState) (u : Task) (ts : List Task) (p : Picked) (b : Bool)
    → runnable me states u ≡ false
    → Chosen me states ts p
    → Chosen me states (u ∷ ts) (record p { rest = u ∷ p.rest; tickle_me = b })
Chosen-skip me states u ts p b n (first before after t e c r h y) =
    first (u ∷ before) after t (ap (◌∷◌ u) e) c (ap (◌∷◌ u) r) (n, h) y
Chosen-skip me states u ts p b n (nothing c r h) = nothing c (ap (◌∷◌ u) r) (n, h)

-- The search of a queue whose tasks all have a fiber or a callback passes the assertion. It takes the
-- first task that is not bound to another thread and whose fiber does not run, or none if there is no
-- such task; the other tasks keep their order.
pub pick-Chosen :
    (me : ℕ) (states : ℕ → FiberState) (ts : List Task)
    → All HasWork ts
    → (p : Picked) × (pick me states ts ≡ some p) × Chosen me states ts p
unfolding pick
pick-Chosen me states [] h = (_, refl, nothing refl refl tt)
pick-Chosen me states (t ∷ ts) (w, h) =
    let (p, e, c) = pick-Chosen me states ts h in
    elim (Bool-cases (elsewhere me t.thread)) [
      | inl away ↦ (
        record p { rest = t ∷ p.rest; tickle_me = true },
        rw (away, e) refl,
        Chosen-skip me states t ts p true (rw away refl) c,
      )
      | inr here ↦ elim (Bool-cases (executing states t.fiber)) [
        | inl runs ↦ (
          record p { rest = t ∷ p.rest },
          rw (here, w, runs, e) refl,
          Chosen-skip me states t ts p p.tickle_me (rw (here, runs) refl) c,
        )
        | inr free ↦ (
          record { task = some t; rest = ts; tickle_me = not (length ts == 0) },
          rw (here, w, free) refl,
          first [] ts t refl refl refl tt (rw (here, free) refl),
        )
      ]
    ]
