-- ===== src/Fiber/Current.antt =====
-- Which fiber `GetThis` gives while the thread switches between its own stack and those of its fibers.
use solutions.Base.{ℕ, suc, ◌≡◌, ◌≢◌, refl, ◌∙◌, sym, true, false, Option, some, Steps, here, next}
use mathlib.Core.Option.{some-injective}
use mathlib.Core.Path.{subst}
use solutions.Scheduler.{FiberState, is_exec}
use solutions.Fiber.{
  Fiber, Fibers, new_fibers, fiber_at, new_fiber, delete_fiber, get_this, swapin, call, back, yeld,
}
use solutions.Fiber.Objects.{own}
use solutions.Fiber.Enter.{IsSound}
use solutions.Fiber.Switch.{
  get_this-IsSound, call-IsSound, swapin-IsSound, back-IsSound, yeld-IsSound, new_fiber-IsSound,
  delete_fiber-IsSound,
}

-- The steps of a thread that calls `swapin` and `call` on its own stack alone, behind `GetThis`, for
-- fibers that have a stack, `swapin` for one that does not execute, that leaves a fiber only from its own stack, and that destroys
-- no fiber that runs.
pub data Step (t : Fibers) : Fibers → Type 0 where
  gets :
      (stack p : ℕ) (t' : Fibers) → t.running ≡ some stack → get_this t ≡ some (p, t') → Step t t'
  creates : Step t (new_fiber t).1
  swaps_in :
      (p m : ℕ) (f : Fiber) (t' : Fibers)
      → t.running ≡ some 0
      → t.t_thread_fiber ≡ some m
      → fiber_at p t ≡ some f
      → f.has_stack ≡ true
      → is_exec f.state ≡ false
      → swapin p t ≡ some t'
      → Step t t'
  calls :
      (p m : ℕ) (f : Fiber) (t' : Fibers)
      → t.running ≡ some 0
      → t.t_thread_fiber ≡ some m
      → fiber_at p t ≡ some f
      → f.has_stack ≡ true
      → call p t ≡ some t'
      → Step t t'
  backs : (p : ℕ) (t' : Fibers) → t.running ≡ some (suc p) → back p t ≡ some t' → Step t t'
  yelds :
      (p : ℕ) (st : FiberState) (t' : Fibers)
      → t.running ≡ some (suc p)
      → yeld st t ≡ some t'
      → Step t t'
  deletes :
      (p : ℕ) (f : Fiber) (t' : Fibers)
      → t.running ≢ some (suc p)
      → fiber_at p t ≡ some f
      → f.has_stack ≡ true
      → delete_fiber p t ≡ some t'
      → Step t t'

-- What a step leads to is what the operation gives.
given : (t u : Fibers) (o : Option Fibers) → IsSound t → o ≡ some t → o ≡ some u → IsSound u
given t u o s e a = subst IsSound (some-injective t u (sym e ∙ a)) s

Step-IsSound : {t u : Fibers} → Step t u → IsSound t → IsSound u
Step-IsSound {t} (gets stack p u r e) s =
    let (q, v, e', s', _, _, _, _) = get_this-IsSound t stack r s in
    subst (λ (x : ℕ × Fibers). IsSound x.1) (some-injective (q, v) (p, u) (sym e' ∙ e)) s'
Step-IsSound {t} creates s = new_fiber-IsSound t s
Step-IsSound {t} (swaps_in p m f u r thread a k i e) s =
    let (v, e', s', _) = swapin-IsSound p m f t s r a k i thread in given v u (swapin p t) s' e' e
Step-IsSound {t} (calls p m f u r thread a k e) s =
    let (v, e', s', _) = call-IsSound p m f t s r a k thread in given v u (call p t) s' e' e
Step-IsSound {t} (backs p u r e) s =
    let (v, e', s', _) = back-IsSound p t s r in given v u (back p t) s' e' e
Step-IsSound {t} (yelds p st u r e) s =
    let (v, e', s', _) = yeld-IsSound p st t s r in given v u (yeld st t) s' e' e
Step-IsSound {t} (deletes p f u n a k e) s =
    let (v, e', s') = delete_fiber-IsSound p f t s n a k in given v u (delete_fiber p t) s' e' e

new_fibers-IsSound : IsSound new_fibers
new_fibers-IsSound = record {
  objects = record { own_ctx = λ p f e. absurd (cc e); thread_fiber = λ m e. absurd (cc e) };
  runs = refl;
}

Steps-IsSound : {t : Fibers} → Steps Step new_fibers t → IsSound t
Steps-IsSound here = new_fibers-IsSound
Steps-IsSound (next r st) = Step-IsSound st (Steps-IsSound r)

-- In a thread that, from its start, calls `swapin` and `call` on its own stack alone, behind `GetThis`,
-- for fibers that have a stack, `swapin` for one that does not execute, that leaves a fiber only on
-- that fiber's stack, and that destroys no fiber that runs: `GetThis` gives the fiber whose stack runs.
pub Steps-get_this :
    (t : Fibers) (stack : ℕ)
    → Steps Step new_fibers t
    → t.running ≡ some stack
    → (p : ℕ) × (t' : Fibers) × (f : Fiber) × (get_this t ≡ some (p, t'))
      × (fiber_at p t' ≡ some f)
      × (own p f ≡ stack)
Steps-get_this t stack r e =
    let (p, t', g, _, _, f, a, o) = get_this-IsSound t stack e (Steps-IsSound r) in
    (p, t', f, g, a, o)

-- In a thread that keeps to these rules from its start, of `swapin`, `call`, leaving and destroying, and
-- that has called `GetThis`, its own stack can go by `swapin` into any fiber that has a stack and does
-- not execute: that fiber's stack then runs, a yield of the fiber goes back to the thread's own stack,
-- and no pointer on the way is null or destroyed. The rules are those of `Fiber.Current.Step`.
pub swapin-yeld :
    (t : Fibers) (p m : ℕ) (f : Fiber) (st : FiberState)
    → Steps Step new_fibers t
    → t.running ≡ some 0
    → t.t_thread_fiber ≡ some m
    → fiber_at p t ≡ some f
    → f.has_stack ≡ true
    → is_exec f.state ≡ false
    → (t₁ : Fibers) × (t₂ : Fibers) × (swapin p t ≡ some t₁)
      × (t₁.running ≡ some (suc p))
      × (yeld st t₁ ≡ some t₂)
      × (t₂.running ≡ some 0)
swapin-yeld t p m f st r e thread a k i =
    let (t₁, in_, s₁, c₁) = swapin-IsSound p m f t (Steps-IsSound r) e a k i thread in
    let (t₂, out, _, c₂) = yeld-IsSound p st t₁ s₁ c₁ in (t₁, t₂, in_, c₁, out, c₂)
