-- ===== src/Fiber/Objects.antt =====
-- The objects of a thread's fibers, and what a change of one leaves.
use native.Mathlib.Decide.{ℕ_discrete}
use solutions.Base.{
  ◌⊎◌, ℕ, zero, suc, ◌-◌, ◌<◌, ◌≡◌, ◌≢◌, refl, ap, ◌∙◌, sym, inl, inr, true, false, Option, none,
  some, List, [], ◌∷◌, ◌++◌, if◌then◌else◌, length, set, get_elem?, get_elem?-end,
  get_elem?-set_self, get_elem?-set_ne, arith, ◌>>=◌,
}
use mathlib.Core.Option.{some-injective}
use solutions.Scheduler.{FiberState}
use solutions.Fiber.{Fiber, Fibers, fiber_at, set_fiber, add_fiber, set_this, set_state}

-- The stack of a fiber.
abbrev pub own : ℕ → Fiber → ℕ
own p f = if f.has_stack then suc p else 0

-- Every context is that of the fiber's own stack, and `t_thread_fiber` has none.
pub record Objects (t : Fibers) : Type 0 where
  pub own_ctx : (p : ℕ) (f : Fiber) → fiber_at p t ≡ some f → f.ctx ≡ own p f
  pub thread_fiber :
      (m : ℕ)
      → t.t_thread_fiber ≡ some m
      → (f : Fiber) × (fiber_at m t ≡ some f) × (f.has_stack ≡ false)

-- A change of one object, or one more, leaves the others.
pub fiber_at-lt : (p : ℕ) (g : Fiber) (t : Fibers) → fiber_at p t ≡ some g → p < length t.fibers
fiber_at-lt p g t e = inside p t.fibers e
  where
    inside :
        (p : ℕ) (fs : List (Option Fiber)) → (get_elem? fs p >>= λ f. f) ≡ some g → p < length fs
    inside p [] e = absurd (cc e)
    inside zero (f ∷ fs) e = omega arith
    inside (suc p) (f ∷ fs) e = omega (arith, inside p fs e)

pub fiber_at-set_self :
    (p : ℕ) (f g : Fiber) (t : Fibers)
    → fiber_at p t ≡ some g
    → fiber_at p (set_fiber p f t) ≡ some f
fiber_at-set_self p f g t e =
    ap (λ (o : Option (Option Fiber)). o >>= λ f. f)
      (get_elem?-set_self t.fibers p (some f) (fiber_at-lt p g t e))

pub fiber_at-set_other :
    (p q : ℕ) (f : Fiber) (t : Fibers) → p ≢ q → fiber_at q (set_fiber p f t) ≡ fiber_at q t
fiber_at-set_other p q f t n =
    ap (λ (o : Option (Option Fiber)). o >>= λ f. f) (get_elem?-set_ne t.fibers (some f) n)

-- What an object becomes when another, or it itself, is changed and keeps its stack.
pub fiber_at-set :
    (p q : ℕ) (f g h : Fiber) (t : Fibers)
    → fiber_at p t ≡ some g
    → f.has_stack ≡ g.has_stack
    → fiber_at q t ≡ some h
    → (h' : Fiber) × (fiber_at q (set_fiber p f t) ≡ some h') × (h'.has_stack ≡ h.has_stack)
fiber_at-set p q f g h t e k a = elim (ℕ_discrete p q) [
  | yes x ↦ (
    f,
    rw (← x) (fiber_at-set_self p f g t e),
    k ∙ ap (λ (y : Fiber). y.has_stack) (some-injective g h (sym e ∙ rw (← x) at a)),
  )
  | no x ↦ (h, fiber_at-set_other p q f t x ∙ a, refl)
]

pub set_fiber-Objects :
    (p : ℕ) (f g : Fiber) (t : Fibers)
    → Objects t
    → fiber_at p t ≡ some g
    → f.has_stack ≡ g.has_stack
    → f.ctx ≡ own p f
    → Objects (set_fiber p f t)
set_fiber-Objects p f g t o e k c = record {
  own_ctx = λ q h a. elim (ℕ_discrete p q) [
    | yes x ↦
        let same : f ≡ h =
          some-injective f h
            (sym (fiber_at-set_self p f g t e) ∙ ap (λ z. fiber_at z (set_fiber p f t)) x ∙ a) in
        rw (← same, ← x) c
    | no x ↦ o.own_ctx q h (sym (fiber_at-set_other p q f t x) ∙ a)
  ];
  thread_fiber = λ m a.
      let (h, b, n) = o.thread_fiber m a in
      let (h', b', n') = fiber_at-set p m f g h t e k b in (h', b', n' ∙ n);
}

-- A fiber with a stack is not the thread's.
pub stack_ne :
    (t : Fibers) (p m : ℕ) (f g : Fiber)
    → fiber_at p t ≡ some f
    → f.has_stack ≡ true
    → fiber_at m t ≡ some g
    → g.has_stack ≡ false
    → m ≢ p
stack_ne t p m f g a h b k e =
    let same : f ≡ g = some-injective f g (sym a ∙ ap (λ z. fiber_at z t) (sym e) ∙ b) in
    cc (ap (λ (x : Fiber). x.has_stack) same, h, k)

-- The objects alone matter.
pub this-Objects : (p : Option ℕ) (t : Fibers) → Objects t → Objects (set_this p t)
this-Objects p t o = record { own_ctx = o.own_ctx; thread_fiber = o.thread_fiber }

pub running-Objects : (r : Option ℕ) (t : Fibers) → Objects t → Objects (record t { running = r })
running-Objects r t o = record { own_ctx = o.own_ctx; thread_fiber = o.thread_fiber }

pub set_state_lem :
    (p : ℕ) (st : FiberState) (f : Fiber) (t : Fibers)
    → fiber_at p t ≡ some f
    → set_state p st t ≡ some (set_fiber p (record f { state = st }) t)
unfolding set_state
set_state_lem p st f t a = rw a refl

-- The objects where one more stands behind them.
pub fiber_at-old :
    (q : ℕ) (f h : Fiber) (t : Fibers) → fiber_at q t ≡ some h → fiber_at q (add_fiber f t) ≡ some h
fiber_at-old q f h t e = old q t.fibers e
  where
    old :
        (q : ℕ) (fs : List (Option Fiber))
        → (get_elem? fs q >>= λ f. f) ≡ some h
        → (get_elem? (fs ++ some f ∷ []) q >>= λ f. f) ≡ some h
    old q [] e = absurd (cc e)
    old zero (g ∷ fs) e = e
    old (suc q) (g ∷ fs) e = old q fs e

pub fiber_at-new : (f : Fiber) (t : Fibers) → fiber_at (length t.fibers) (add_fiber f t) ≡ some f
fiber_at-new f t =
    ap (λ (o : Option (Option Fiber)). o >>= λ f. f) (get_elem?-end t.fibers (some f) [])

pub fiber_at-add :
    (q : ℕ) (f h : Fiber) (t : Fibers)
    → fiber_at q (add_fiber f t) ≡ some h
    → (fiber_at q t ≡ some h) ⊎ ((q ≡ length t.fibers) × (f ≡ h))
fiber_at-add q f h t e = split q t.fibers e
  where
    split :
        (q : ℕ) (fs : List (Option Fiber))
        → (get_elem? (fs ++ some f ∷ []) q >>= λ f. f) ≡ some h
        → ((get_elem? fs q >>= λ f. f) ≡ some h) ⊎ ((q ≡ length fs) × (f ≡ h))
    split zero [] e = inr (refl, some-injective f h e)
    split (suc q) [] e = absurd (cc e)
    split zero (g ∷ fs) e = inl e
    split (suc q) (g ∷ fs) e = elim (split q fs e) [
      | inl a ↦ inl a
      | inr (a, b) ↦ inr (ap suc a, b)
    ]

pub add_fiber-Objects :
    (f : Fiber) (t : Fibers) → Objects t → f.ctx ≡ own (length t.fibers) f → Objects (add_fiber f t)
add_fiber-Objects f t o c = record {
  own_ctx = λ q h e. elim (fiber_at-add q f h t e) [
    | inl a ↦ o.own_ctx q h a
    | inr (a, b) ↦ rw (a, ← b) c
  ];
  thread_fiber = λ m e. let (h, a, k) = o.thread_fiber m e in (h, fiber_at-old m f h t a, k);
}

-- A thread without one of its objects.
abbrev pub without : ℕ → Fibers → Fibers
without p t = record t { fibers = set t.fibers p none; fiber_count = t.fiber_count - 1 }

pub without_self :
    (p : ℕ) (f : Fiber) (t : Fibers) → fiber_at p t ≡ some f → fiber_at p (without p t) ≡ none
without_self p f t a =
    ap (λ (o : Option (Option Fiber)). o >>= λ f. f)
      (get_elem?-set_self t.fibers p none (fiber_at-lt p f t a))

pub without_other : (p q : ℕ) (t : Fibers) → p ≢ q → fiber_at q (without p t) ≡ fiber_at q t
without_other p q t n =
    ap (λ (o : Option (Option Fiber)). o >>= λ f. f) (get_elem?-set_ne t.fibers none n)
