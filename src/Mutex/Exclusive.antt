-- ===== src/Mutex/Exclusive.antt =====
-- Guards in several threads, interleaved in any order.
use solutions.Base.{
  ℕ, ◌≡◌, refl, sym, ◌∙◌, inl, inr, Bool, true, false, none, some, ◌==◌, if◌then◌else◌, arith,
  Bool-cases, Steps, here, next, ◌&&◌, ◌||◌,
}
use mathlib.Core.Option.{some-injective}
use mathlib.Core.Path.{subst}
use solutions.Mutex.{
  outside, locking, unlocking, is_outside, is_locking, is_unlocking, set_at, take_mutex, Shared,
  set_locked, new_guard, lock, assign_true, unlock, assign_false,
}

-- A guard that is made was not there before.
pub data Step (s : Shared) : Shared → Type 0 where
  makes : (g : ℕ) (t : Shared) → s.locked g ≡ false → new_guard g s ≡ some t → Step s t
  locks : (g : ℕ) (t : Shared) → lock g s ≡ some t → Step s t
  locked : (g : ℕ) (t : Shared) → assign_true g s ≡ some t → Step s t
  unlocks : (g : ℕ) (t : Shared) → unlock g s ≡ some t → Step s t
  unlocked : (g : ℕ) (t : Shared) → assign_false g s ≡ some t → Step s t

abbrev pub no_guards : Shared
no_guards = record { held = false; locked = λ g. false; at = λ g. outside }

-- A guard that has the mutex: behind `m_mutex.lock()`, and not behind `m_mutex.unlock()`.
unfoldable pub owns : Shared → ℕ → Bool
owns s g = is_locking (s.at g) || (is_outside (s.at g) && s.locked g)

record IsExclusive (s : Shared) : Type 0 where
  holds : (g : ℕ) → owns s g ≡ true → s.held ≡ true
  one : (g h : ℕ) → owns s g ≡ true → owns s h ≡ true → g ≡ h

-- A step after which a guard owns the mutex only if it did.
kept :
    (s t : Shared)
    → IsExclusive s
    → t.held ≡ s.held
    → ((a : ℕ) → owns t a ≡ true → owns s a ≡ true)
    → IsExclusive t
kept s t x e f = record {
  holds = λ g y. e ∙ x.holds g (f g y);
  one = λ g h y z. x.one g h (f g y) (f h z);
}

abbrev taken : ℕ → Shared → Shared
taken g s = set_at g locking (record s { held = true })

-- The mutex is taken where no guard owns it.
taken_one :
    (g a : ℕ) (s : Shared) → IsExclusive s → s.held ≡ false → owns (taken g s) a ≡ true → a ≡ g
unfolding owns
taken_one g a s x h e = elim (Bool-cases (a == g)) [
  | inl z ↦ ground (arith, z)
  | inr z ↦ let there = x.holds a (rw z at e) in absurd (cc (h, there))
]

take_mutex-IsExclusive :
    (g : ℕ) (s t : Shared) → IsExclusive s → take_mutex g s ≡ some t → IsExclusive t
unfolding take_mutex
take_mutex-IsExclusive g s t x e = split s.held refl e
  where
    split :
        (b : Bool) → s.held ≡ b → (if b then none else some (taken g s)) ≡ some t → IsExclusive t
    split true h y = absurd (cc y)
    split false h y = subst IsExclusive (some-injective (taken g s) t y) (record {
      holds = λ a z. refl;
      one = λ a b z w. taken_one g a s x h z ∙ sym (taken_one g b s x h w);
    })

new_guard-IsExclusive :
    (g : ℕ) (s t : Shared) → IsExclusive s → new_guard g s ≡ some t → IsExclusive t
unfolding new_guard
new_guard-IsExclusive g s t x e = split (is_outside (s.at g)) e
  where
    split : (b : Bool) → (if b then take_mutex g s else none) ≡ some t → IsExclusive t
    split true y = take_mutex-IsExclusive g s t x y
    split false y = absurd (cc y)

lock-IsExclusive : (g : ℕ) (s t : Shared) → IsExclusive s → lock g s ≡ some t → IsExclusive t
unfolding lock
lock-IsExclusive g s t x e = split (is_outside (s.at g)) (s.locked g) e
  where
    split :
        (b c : Bool)
        → (if b then (if c then some s else take_mutex g s) else none) ≡ some t
        → IsExclusive t
    split true true y = subst IsExclusive (some-injective s t y) x
    split true false y = take_mutex-IsExclusive g s t x y
    split false c y = absurd (cc y)

abbrev assigned : ℕ → Bool → Shared → Shared
assigned g b s = set_at g outside (set_locked g b s)

-- The guard that goes on to assign `m_locked` owned the mutex already.
assigned-true :
    (g : ℕ) (s : Shared)
    → is_locking (s.at g) ≡ true
    → (a : ℕ) → owns (assigned g true s) a ≡ true
    → owns s a ≡ true
unfolding owns
assigned-true g s l a y = elim (Bool-cases (a == g)) [
  | inl z ↦ let same : a ≡ g = ground (arith, z) in rw (same, l) refl
  | inr z ↦ rw z at y
]

assigned-false : (g : ℕ) (s : Shared) (a : ℕ) → owns (assigned g false s) a ≡ true → owns s a ≡ true
unfolding owns
assigned-false g s a y = elim (Bool-cases (a == g)) [
  | inl z ↦ absurd (cc (rw z at y))
  | inr z ↦ rw z at y
]

assign_true-IsExclusive :
    (g : ℕ) (s t : Shared) → IsExclusive s → assign_true g s ≡ some t → IsExclusive t
unfolding assign_true
assign_true-IsExclusive g s t x e = split (is_locking (s.at g)) refl e
  where
    split :
        (b : Bool)
        → is_locking (s.at g) ≡ b
        → (if b then some (assigned g true s) else none) ≡ some t
        → IsExclusive t
    split true l y =
        subst IsExclusive (some-injective (assigned g true s) t y)
          (kept s (assigned g true s) x refl (assigned-true g s l))
    split false l y = absurd (cc y)

-- Where the guard that owns the mutex frees it, none does.
freed_none :
    (g a : ℕ) (s : Shared)
    → IsExclusive s
    → owns s g ≡ true
    → owns (set_at g unlocking (record s { held = false })) a ≡ false
unfolding owns
freed_none g a s x h = elim (Bool-cases (a == g)) [
  | inl z ↦ rw z refl
  | inr z ↦ elim (Bool-cases (owns s a)) [
    | inl y ↦ let same = x.one a g y h in absurd (ground (arith, z, same))
    | inr y ↦ rw z y
  ]
]

abbrev freed : ℕ → Shared → Shared
freed g s = set_at g unlocking (record s { held = false })

unlock-IsExclusive : (g : ℕ) (s t : Shared) → IsExclusive s → unlock g s ≡ some t → IsExclusive t
unfolding unlock owns
unlock-IsExclusive g s t x e = split (is_outside (s.at g)) (s.locked g) refl refl e
  where
    split :
        (b c : Bool)
        → is_outside (s.at g) ≡ b
        → s.locked g ≡ c
        → (if b then (if c then some (freed g s) else some s) else none) ≡ some t
        → IsExclusive t
    split true true o l y =
        let mine : owns s g ≡ true = ground (arith, o, l) in
        subst IsExclusive (some-injective (freed g s) t y) (record {
          holds = λ a z. absurd (cc (freed_none g a s x mine, z));
          one = λ a b z w. absurd (cc (freed_none g a s x mine, z));
        })
    split true false o l y = subst IsExclusive (some-injective s t y) x
    split false c o l y = absurd (cc y)

assign_false-IsExclusive :
    (g : ℕ) (s t : Shared) → IsExclusive s → assign_false g s ≡ some t → IsExclusive t
unfolding assign_false
assign_false-IsExclusive g s t x e = split (is_unlocking (s.at g)) e
  where
    split : (b : Bool) → (if b then some (assigned g false s) else none) ≡ some t → IsExclusive t
    split true y =
        subst IsExclusive (some-injective (assigned g false s) t y)
          (kept s (assigned g false s) x refl (assigned-false g s))
    split false y = absurd (cc y)

Step-IsExclusive : {s t : Shared} → Step s t → IsExclusive s → IsExclusive t
Step-IsExclusive {s} (makes g t n e) x = new_guard-IsExclusive g s t x e
Step-IsExclusive {s} (locks g t e) x = lock-IsExclusive g s t x e
Step-IsExclusive {s} (locked g t e) x = assign_true-IsExclusive g s t x e
Step-IsExclusive {s} (unlocks g t e) x = unlock-IsExclusive g s t x e
Step-IsExclusive {s} (unlocked g t e) x = assign_false-IsExclusive g s t x e

Steps-IsExclusive : {s : Shared} → Steps Step no_guards s → IsExclusive s
unfolding owns
Steps-IsExclusive here = record { holds = λ g e. absurd (cc e); one = λ g h e. absurd (cc e) }
Steps-IsExclusive (next r st) = Step-IsExclusive st (Steps-IsExclusive r)

-- However the operations of the guards are interleaved, also between their calls of the mutex and their
-- assignments of `m_locked`: two guards that have the mutex, from behind `m_mutex.lock()` up to
-- `m_mutex.unlock()`, are the same, and the mutex is then locked. A guard that is behind the latter and
-- still has `m_locked` does not count.
pub Steps-locked :
    (s : Shared) (g h : ℕ)
    → Steps Step no_guards s
    → owns s g ≡ true
    → owns s h ≡ true
    → (g ≡ h) × (s.held ≡ true)
Steps-locked s g h r a b = let x = Steps-IsExclusive r in (x.one g h a b, x.holds g a)
