-- ===== src/Fiber/Switch.antt =====
-- The operations of a thread's fibers, each where the thread may call it.
use native.Mathlib.Decide.{ℕ_discrete}
use solutions.Base.{
  bind_some, ℕ, zero, suc, ◌+◌, ◌≡◌, ◌≢◌, refl, ap, ◌∙◌, sym, inl, inr, true, false, Option, none,
  some, if◌then◌else◌, length, Option-cases,
}
use mathlib.Core.Option.{some-injective}
use mathlib.Core.Path.{subst}
use solutions.Scheduler.{FiberState, exec, term, is_exec}
use solutions.Fiber.{
  Fiber, Fibers, fiber_at, set_fiber, add_fiber, set_this, new_main, new_fiber, delete_fiber,
  get_this, this_or_main, swapcontext, swapin, swapout, call, back, yeld,
}
use solutions.Fiber.Objects.{
  own, Objects, fiber_at-set_self, set_fiber-Objects, stack_ne, this-Objects, set_state_lem,
  fiber_at-old, fiber_at-new, add_fiber-Objects, without, without_self, without_other,
}
use solutions.Fiber.Enter.{Runs, IsSound, enter_lem, leave_lem}

-- Each operation, where a thread that is sound may call it, succeeds and leaves it sound.
pub new_main-IsSound :
    (t : Fibers)
    → t.running ≡ some 0
    → Objects t
    → t.t_fiber ≡ none
    → (p : ℕ) × (t' : Fibers) × (get_this t ≡ some (p, t'))
      × IsSound t'
      × (t'.running ≡ t.running)
      × (f : Fiber) × (fiber_at p t' ≡ some f)
      × (own p f ≡ 0)
unfolding get_this new_main this_or_main
new_main-IsSound t r o e =
    let f : Fiber = record { id = 0; state = exec; has_cb = false; has_stack = false; ctx = 0 } in
    let p = length t.fibers in
    let o' = add_fiber-Objects f t o refl in
    let t' : Fibers = record (add_fiber f t) { t_fiber = some p; t_thread_fiber = some p } in
    (
      p,
      t',
      rw (e, r) refl,
      record {
        objects = record {
          own_ctx = o'.own_ctx;
          thread_fiber = λ m x.
              (f, ap (λ z. fiber_at z t') (sym (some-injective p m x)) ∙ fiber_at-new f t, refl);
        };
        runs = subst (λ x. Runs x t') (sym r) refl;
      },
      refl,
      f,
      fiber_at-new f t,
      refl,
    )

pub get_this-some : (p : ℕ) (t : Fibers) → t.t_fiber ≡ some p → get_this t ≡ some (p, t)
unfolding get_this this_or_main
get_this-some p t e = ap (λ o. this_or_main o t) e

pub get_this-IsSound :
    (t : Fibers) (stack : ℕ)
    → t.running ≡ some stack
    → IsSound t
    → (p : ℕ) × (t' : Fibers) × (get_this t ≡ some (p, t'))
      × IsSound t'
      × (t'.running ≡ t.running)
      × (f : Fiber) × (fiber_at p t' ≡ some f)
      × (own p f ≡ stack)
unfolding get_this
get_this-IsSound t zero r s = elim (Option-cases t.t_fiber) [
  | inl e ↦ new_main-IsSound t r s.objects e
  | inr (p, e) ↦
      let (f, a, k) = s.objects.thread_fiber p (sym (subst (λ x. Runs x t) r s.runs) ∙ e) in
      (p, t, get_this-some p t e, s, refl, f, a, rw k refl)
]
get_this-IsSound t (suc p) r s =
    let (e, (f, a, k), _) = subst (λ x. Runs x t) r s.runs in
    (p, t, get_this-some p t e, s, refl, f, a, rw k refl)

pub call-IsSound :
    (p m : ℕ) (f : Fiber) (t : Fibers)
    → IsSound t
    → t.running ≡ some 0
    → fiber_at p t ≡ some f
    → f.has_stack ≡ true
    → t.t_thread_fiber ≡ some m
    → (t' : Fibers) × (call p t ≡ some t') × IsSound t' × (t'.running ≡ some (suc p))
unfolding call
call-IsSound p m f t s r a h thread =
    let (t', e, s', c) = enter_lem p m f t s.objects r a h thread in
    (t', bind_some _ (set_state_lem p exec f (set_this (some p) t) a) (bind_some _ thread e), s', c)

pub swapin-call :
    (p : ℕ) (f : Fiber) (t : Fibers)
    → fiber_at p t ≡ some f
    → is_exec f.state ≡ false
    → swapin p t ≡ call p t
unfolding swapin call
swapin-call p f t a i =
    bind_some (λ f. if is_exec f.state then some (set_this (some p) t) else call p t) a (rw i refl)

pub swapin-IsSound :
    (p m : ℕ) (f : Fiber) (t : Fibers)
    → IsSound t
    → t.running ≡ some 0
    → fiber_at p t ≡ some f
    → f.has_stack ≡ true
    → is_exec f.state ≡ false
    → t.t_thread_fiber ≡ some m
    → (t' : Fibers) × (swapin p t ≡ some t') × IsSound t' × (t'.running ≡ some (suc p))
swapin-IsSound p m f t s r a h i thread =
    let (t', e, s', c) = call-IsSound p m f t s r a h thread in
    (t', swapin-call p f t a i ∙ e, s', c)

pub back-IsSound :
    (p : ℕ) (t : Fibers)
    → IsSound t
    → t.running ≡ some (suc p)
    → (t' : Fibers) × (back p t ≡ some t') × IsSound t' × (t'.running ≡ some 0)
unfolding back
back-IsSound p t s r =
    let (this, (f, a, k), (m, thread)) = subst (λ x. Runs x t) r s.runs in
    let (t', e, s', c) =
      leave_lem p m f (set_this (some m) t) (this-Objects (some m) t s.objects) r a k thread refl in
    (t', bind_some (λ main. swapcontext p main (set_this (some main) t)) thread e, s', c)

pub yeld-IsSound :
    (p : ℕ) (st : FiberState) (t : Fibers)
    → IsSound t
    → t.running ≡ some (suc p)
    → (t' : Fibers) × (yeld st t ≡ some t') × IsSound t' × (t'.running ≡ some 0)
unfolding yeld swapout
yeld-IsSound p st t s r =
    let (this, (f, a, k), (m, thread)) = subst (λ x. Runs x t) r s.runs in
    let f₁ : Fiber = record f { state = st } in
    let t₁ = set_this t.t_thread_fiber (set_fiber p f₁ t) in
    let f₂ : Fiber = record f { state = term } in
    let own = s.objects.own_ctx p f a in
    let a₁ = fiber_at-set_self p f₁ f t a in
    let o₁ =
      this-Objects t.t_thread_fiber (set_fiber p f₁ t)
        (set_fiber-Objects p f₁ f t s.objects a refl own) in
    let a₂ = fiber_at-set_self p f₂ f₁ t₁ a₁ in
    let o₂ = set_fiber-Objects p f₂ f₁ t₁ o₁ a₁ refl own in
    let (t', e, s', c) = leave_lem p m f₂ (set_fiber p f₂ t₁) o₂ r a₂ k thread thread in
    let out =
      bind_some _ (set_state_lem p term f₁ t₁ a₁)
        (bind_some (λ main. swapcontext p main (set_fiber p f₂ t₁)) thread e) in
    (t', bind_some _ (get_this-some p t this) (bind_some _ (set_state_lem p st f t a) out), s', c)

pub new_fiber-IsSound : (t : Fibers) → IsSound t → IsSound (new_fiber t).1
unfolding new_fiber
new_fiber-IsSound t s =
    let f : Fiber = record {
      id = t.fiber_id + 1;
      state = FiberState.init;
      has_cb = true;
      has_stack = true;
      ctx = suc (length t.fibers);
    } in
    let o = add_fiber-Objects f t s.objects refl in
    record {
      objects = record { own_ctx = o.own_ctx; thread_fiber = o.thread_fiber };
      runs = still t.running s.runs;
    }
  where
    still : (r : Option ℕ) → Runs r t → Runs r (new_fiber t).1
    still none h = tt
    still (some zero) h = h
    still (some (suc p)) (this, (f, a, k), main) = (this, (f, fiber_at-old p _ f t a, k), main)

pub without-Runs :
    (p : ℕ) (t : Fibers) (r : Option ℕ) → r ≢ some (suc p) → Runs r t → Runs r (without p t)
without-Runs p t none n h = tt
without-Runs p t (some zero) n h = h
without-Runs p t (some (suc q)) n (this, (g, b, k), main) =
    (this, (g, without_other p q t (λ x. n (ap (λ z. some (suc z)) (sym x))) ∙ b, k), main)

pub delete_fiber-IsSound :
    (p : ℕ) (f : Fiber) (t : Fibers)
    → IsSound t
    → t.running ≢ some (suc p)
    → fiber_at p t ≡ some f
    → f.has_stack ≡ true
    → (t' : Fibers) × (delete_fiber p t ≡ some t') × IsSound t'
unfolding delete_fiber
delete_fiber-IsSound p f t s r a k = (
  without p t,
  rw (a, k) refl,
  record {
    objects = record {
      own_ctx = λ q h e. elim (ℕ_discrete p q) [
        | yes x ↦ absurd (cc (ap (λ z. fiber_at z (without p t)) x, without_self p f t a, e))
        | no x ↦ s.objects.own_ctx q h (sym (without_other p q t x) ∙ e)
      ];
      thread_fiber = λ m e.
          let (g, b, n) = s.objects.thread_fiber m e in
          (g, without_other p m t (λ x. stack_ne t p m f g a k b n (sym x)) ∙ b, n);
    };
    runs = without-Runs p t t.running r s.runs;
  },
)
