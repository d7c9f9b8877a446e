-- ===== src/Scheduler/Life/Phases.antt =====
-- A scheduler from its construction to its end.
use solutions.Base.{
  map, Option-cases, All, ap, sym, length, inr, inl, Bool-cases, ℕ, ◌&&◌, ◌||◌, not, length, ◌++◌,
  append-nil, append_assoc, sym, ap, All, Bool-cases, inl, inr, ◌≡◌, refl, Bool, true, false,
  Option, none, some, List, [], ◌∷◌, ◌==◌, arith, ◌>>=◌,
}
use solutions.Scheduler.Pick.{HasWork}
use mathlib.Core.Option.{some-injective}
use solutions.Scheduler.{schedule_no_lock, Task, Task, schedule_no_lock, Scheduler}
use solutions.Scheduler.Life.{
  anywhere, schedule_all, schedule_all, Current, nobody, Life, new_scheduler, start, stop, destruct,
}

-- A scheduler that is made, started, stopped and destroyed: the threads that were joined, and
-- `t_scheduler` at the end.
abbrev pub life :
    (ℕ → Scheduler → Scheduler)
    → (ℕ → Bool)
    → (ℕ → ℕ)
    → ℕ
    → ℕ
    → Scheduler
    → ℕ
    → Bool
    → Option (List ℕ × Current)
life run_fiber ends ids me run g n use_caller = do
  (l, cur) ← new_scheduler me run g n use_caller nobody
  l₁ ← start ids l
  (joined, l₂) ← stop run_fiber ends cur l₁
  cur' ← destruct cur l₂
  some (joined, cur')

-- A scheduler that was started and not stopped fails the assertion of its destructor.
pub destruct-start :
    (ids : ℕ → ℕ) (l l' : Life) (cur : Current)
    → l.core.is_stopping ≡ true
    → start ids l ≡ some l'
    → destruct cur l' ≡ none
unfolding start destruct
destruct-start ids l l' cur h e = elim (Bool-cases (length l.thread_pool == 0)) [
  | inl z ↦
      rw (sym (ap (λ (x : Life). x.core.is_stopping) (some-injective _ _ (rw (h, z) at e)))) refl
  | inr z ↦ cc (rw (h, z) at e)
]

schedule_no_lock-appended :
    (t : Task) (s : Scheduler)
    → HasWork t
    → schedule_no_lock t s ≡ (length s.fibers == 0, record s { fibers = s.fibers ++ t ∷ [] })
unfolding schedule_no_lock
schedule_no_lock-appended t s h = elim (Option-cases t.fiber) [
  | inr (f, e) ↦ simp e
  | inl e ↦ elim (Option-cases t.cb) [ inr (c, g) ↦ simp (e, g) | inl g ↦ cc (rw (e, g) at h) ]
]

and_false : (b : Bool) → false ≡ (b && false)
and_false true = refl
and_false false = refl

or_false : (b : Bool) → (b || false) ≡ (b && true)
or_false true = refl
or_false false = refl

not-empty : (xs : List Task) (t : Task) → (length (xs ++ t ∷ []) == 0) ≡ false
not-empty [] t = ground arith
not-empty (x ∷ xs) t = ground arith

-- Tasks that all have a fiber or a callback are put behind the queue in their order, for any thread,
-- and the threads are tickled when the queue was empty and there is a task.
pub schedule_all-appended :
    (ts : List Task) (s : Scheduler)
    → All HasWork ts
    → schedule_all ts s ≡ (
      length s.fibers == 0 && not (length ts == 0),
      record s { fibers = s.fibers ++ map anywhere ts },
    )
unfolding schedule_all
schedule_all-appended [] s h =
    rw (append-nil s.fibers) (ap (λ b. (b, s)) (and_false (length s.fibers == 0)))
schedule_all-appended (t ∷ ts) s h =
    let some_left : (length (t ∷ ts) == 0) ≡ false = ground arith in
    let u = anywhere t in
    rw
      (
        schedule_no_lock-appended u s h.0,
        schedule_all-appended ts (record s { fibers = s.fibers ++ u ∷ [] }) h.1,
        not-empty s.fibers u,
        append_assoc s.fibers (u ∷ []) (map anywhere ts),
        some_left,
      )
      (ap (λ b. (b, record s { fibers = s.fibers ++ u ∷ map anywhere ts }))
        (or_false (length s.fibers == 0)))
