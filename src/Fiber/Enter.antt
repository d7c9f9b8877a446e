-- ===== src/Fiber/Enter.antt =====
-- The switch into a fiber, and back to the thread's own stack.
use solutions.Base.{ℕ, zero, suc, ◌≡◌, ◌≢◌, refl, ap, ◌∙◌, sym, true, Option, none, some}
use mathlib.Core.Path.{subst}
use solutions.Scheduler.{exec}
use solutions.Fiber.{Fiber, Fibers, fiber_at, set_fiber, set_this, swapcontext}
use solutions.Fiber.Objects.{
  Objects, fiber_at-set_self, fiber_at-set_other, fiber_at-set, set_fiber-Objects, stack_ne,
  this-Objects, running-Objects,
}

-- The code that goes on: `t_fiber` is the fiber whose stack runs, and where that is not the thread's own,
-- `t_thread_fiber` has it stored.
abbrev pub Runs : Option ℕ → Fibers → Type 0
Runs none t = Unit
Runs (some zero) t = t.t_fiber ≡ t.t_thread_fiber
Runs (some (suc p)) t =
    (t.t_fiber ≡ some p)
    × ((f : Fiber) × (fiber_at p t ≡ some f) × (f.has_stack ≡ true))
    × ((m : ℕ) × (t.t_thread_fiber ≡ some m))

pub record IsSound (t : Fibers) : Type 0 where
  pub objects : Objects t
  pub runs : Runs t.running t

-- The switch from one fiber to another.
pub swapcontext_lem :
    (from to stack : ℕ) (t : Fibers) (f g : Fiber)
    → from ≢ to
    → t.running ≡ some stack
    → fiber_at from t ≡ some f
    → fiber_at to t ≡ some g
    → swapcontext from to t
      ≡ some (record (set_fiber from (record f { ctx = stack }) t) { running = some g.ctx })
unfolding swapcontext
swapcontext_lem from to stack t f g n r a b =
    rw (r, a, fiber_at-set_other from to (record f { ctx = stack }) t n ∙ b) refl

-- A switch from the thread's own stack into a fiber, by `swapin` and by `call`.
pub enter_lem :
    (p m : ℕ) (f : Fiber) (t : Fibers)
    → Objects t
    → t.running ≡ some 0
    → fiber_at p t ≡ some f
    → f.has_stack ≡ true
    → t.t_thread_fiber ≡ some m
    → (t' : Fibers) × (swapcontext m p
          (set_fiber p (record f { state = exec }) (set_this (some p) t))
        ≡ some t')
      × IsSound t'
      × (t'.running ≡ some (suc p))
enter_lem p m f t o r a h thread =
    let f' : Fiber = record f { state = exec } in
    let this = set_this (some p) t in
    let t₁ = set_fiber p f' this in
    let (g, b, k) = o.thread_fiber m thread in
    let ne = stack_ne t p m f g a h b k in
    let own_main = o.own_ctx m g b in
    let o₁ : Objects t₁ =
      set_fiber-Objects p f' f this (this-Objects (some p) t o) a refl (o.own_ctx p f a) in
    let at_p = fiber_at-set_self p f' f this a in
    let at_m = fiber_at-set_other p m f' this (λ x. ne (sym x)) ∙ b in
    let g' : Fiber = record g { ctx = 0 } in
    let (f'', there, stack) = fiber_at-set m p g' g f' t₁ at_m refl at_p in
    let resumed : f.ctx ≡ suc p = rw h at (o.own_ctx p f a) in
    (
      record (set_fiber m g' t₁) { running = some f.ctx },
      swapcontext_lem m p 0 t₁ g f' ne r at_m at_p,
      record {
        objects =
            running-Objects (some f.ctx) (set_fiber m g' t₁)
              (set_fiber-Objects m g' g t₁ o₁ at_m refl (rw k refl));
        runs =
            subst (λ x. Runs (some x) (record (set_fiber m g' t₁) { running = some f.ctx }))
              (sym resumed) (refl, (f'', there, stack ∙ h), (m, thread));
      },
      ap some resumed,
    )

-- A switch from a fiber back to the thread's own stack, behind `SetThis`.
pub leave_lem :
    (p m : ℕ) (f : Fiber) (t : Fibers)
    → Objects t
    → t.running ≡ some (suc p)
    → fiber_at p t ≡ some f
    → f.has_stack ≡ true
    → t.t_thread_fiber ≡ some m
    → t.t_fiber ≡ some m
    → (t' : Fibers) × (swapcontext p m t ≡ some t') × IsSound t' × (t'.running ≡ some 0)
leave_lem p m f t o r a h thread this =
    let (g, b, k) = o.thread_fiber m thread in
    let ne = stack_ne t p m f g a h b k in
    let own_main : g.ctx ≡ 0 = rw k at (o.own_ctx m g b) in
    let f' : Fiber = record f { ctx = suc p } in
    let t₁ = set_fiber p f' t in
    (
      record t₁ { running = some g.ctx },
      swapcontext_lem p m (suc p) t f g (λ x. ne (sym x)) r a b,
      record {
        objects = running-Objects (some g.ctx) t₁ (set_fiber-Objects p f' f t o a refl (rw h refl));
        runs =
            subst (λ x. Runs (some x) (record t₁ { running = some g.ctx })) (sym own_main)
              (this ∙ sym thread);
      },
      ap some own_main,
    )
