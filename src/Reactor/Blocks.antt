-- ===== src/Reactor/Blocks.antt =====
-- The vector of blocks behind the table: what growing it and writing one item leave behind.
use solutions.Base.{
  get_elem?-lt, get_elem?-append, ℕ, zero, suc, ◌+◌, ◌<◌, ◌≡◌, ◌≢◌, refl, ap, sym, ◌∙◌, ◌⊎◌, inl,
  inr, true, Option, some, List, [], ◌∷◌, ◌++◌, length, length-append, length-set, length-replicate,
  get_elem?, Option-cases, get_elem?-set_self, get_elem?-set_ne, set, fmap, arith,
}
use native.Mathlib.Decide.{ℕ_discrete}
use solutions.Reactor.{
  Item, Block, item_at, update_item, grow, fd_item_block_size, alloc_fd_item_block, init_fd_item,
}

-- A block that has all its items and knows its place.
abbrev pub IsBlock : ℕ → Option Block → Type 0
IsBlock i o = (b : Block) × (o ≡ some b) × (length b.items ≡ fd_item_block_size) × (b.index ≡ i)

-- Every entry of the vector from index `k` on is such a block.
abbrev pub IsTable : ℕ → List (Option Block) → Type 0
IsTable k [] = Unit {0}
IsTable k (o ∷ os) = IsBlock k o × IsTable (suc k) os

-- An allocator that never runs out of memory.
abbrev pub IsAllocator : (ℕ → Option Block) → Type 0
IsAllocator alloc = (i : ℕ) → IsBlock i (alloc i)

-- The allocator of the echo server is one, as long as `malloc` succeeds.
pub alloc_fd_item_block-IsAllocator : IsAllocator (alloc_fd_item_block true true)
unfolding alloc_fd_item_block
alloc_fd_item_block-IsAllocator i =
    (_, refl, length-replicate fd_item_block_size init_fd_item, refl)

pub IsTable-get :
    (k : ℕ) (os : List (Option Block)) (i : ℕ)
    → IsTable k os
    → i < length os
    → (b : Block) × (get_elem? os i ≡ some (some b))
      × (length b.items ≡ fd_item_block_size)
      × (b.index ≡ k + i)
IsTable-get k [] i t h = absurd (omega arith)
IsTable-get k (o ∷ os) zero (u, t) h = (u.0, ap some u.1, u.2, omega (arith, u.3))
IsTable-get k (o ∷ os) (suc i) (u, t) h =
    let (b, e, l, x) = IsTable-get (suc k) os i t (omega arith) in (b, e, l, omega (arith, x))

IsTable-set :
    (k : ℕ) (os : List (Option Block)) (i : ℕ) (o : Option Block)
    → IsTable k os
    → IsBlock (k + i) o
    → IsTable k (set os i o)
IsTable-set k [] i o t u = tt
IsTable-set k (p ∷ os) zero o (v, t) u = let e : k + 0 ≡ k = omega arith in (rw e at u, t)
IsTable-set k (p ∷ os) (suc i) o (v, t) u =
    let e : k + suc i ≡ suc k + i = omega arith in (v, IsTable-set (suc k) os i o t (rw e at u))

IsTable-append :
    (k : ℕ) (os : List (Option Block)) (o : Option Block)
    → IsTable k os
    → IsBlock (k + length os) o
    → IsTable k (os ++ o ∷ [])
IsTable-append k [] o t u = let e : k + 0 ≡ k = omega arith in (rw e at u, tt)
IsTable-append k (p ∷ os) o (v, t) u =
    let e : k + suc (length os) ≡ suc k + length os = omega arith in
    (v, IsTable-append (suc k) os o t (rw e at u))

-- What an update of one item leaves behind.
pub record Updated (f : Item → Item) (os : List (Option Block)) (i j : ℕ)
    (os' : List (Option Block)) : Type 0 where
  pub table : IsTable 0 os'
  pub same_length : length os' ≡ length os
  pub here : item_at os' i j ≡ fmap f (item_at os i j)
  pub there : (k l : ℕ) → (k ≢ i) ⊎ (l ≢ j) → item_at os' k l ≡ item_at os k l

-- A block that differs in one item leaves every other item as it was.
item_at-set :
    (os : List (Option Block)) (i j k l : ℕ) (b : Block) (v : Item)
    → get_elem? os i ≡ some (some b)
    → i < length os
    → (k ≢ i) ⊎ (l ≢ j)
    → item_at (set os i (some (record b { items = set b.items j v }))) k l ≡ item_at os k l
unfolding item_at
item_at-set os i j k l b v e hi (inl n) = rw (get_elem?-set_ne os _ (λ q. n (sym q)))
item_at-set os i j k l b v e hi (inr n) = elim (ℕ_discrete k i) [
  | yes q ↦
      rw (q, get_elem?-set_self os i (some (record b { items = set b.items j v })) hi, e)
        (get_elem?-set_ne b.items v (λ q. n (sym q)))
  | no n' ↦ rw (get_elem?-set_ne os _ (λ q. n' (sym q)))
]

pub update_item-Updated :
    (f : Item → Item) (os : List (Option Block)) (i j : ℕ)
    → IsTable 0 os
    → i < length os
    → j < fd_item_block_size
    → (os' : List (Option Block)) × (update_item f os i j ≡ some os') × Updated f os i j os'
unfolding update_item item_at
update_item-Updated f os i j t hi hj =
    let (b, e, l, x) = IsTable-get 0 os i t hi in
    let (it, g) = get_elem?-lt b.items j (omega (arith, l)) in
    let b' : Block = record b { items = set b.items j (f it) } in
    (
      set os i (some b'),
      rw (e, g),
      record {
        table = IsTable-set 0 os i (some b') t (b', refl, length-set b.items j (f it) ∙ l, x);
        same_length = length-set os i (some b');
        here = rw (
          e,
          g,
          get_elem?-set_self os i (some b') hi,
          get_elem?-set_self b.items j (f it) (omega (arith, l)),
        );
        there = λ k l n. item_at-set os i j k l b (f it) e hi n;
      },
    )

-- Growing the vector by `m` blocks keeps its items.
pub record Grown (os os' : List (Option Block)) (m : ℕ) : Type 0 where
  pub table : IsTable 0 os'
  pub longer : length os' ≡ length os + m
  pub kept : (k l : ℕ) (it : Item) → item_at os k l ≡ some it → item_at os' k l ≡ some it

item_at-append :
    (os ps : List (Option Block)) (k l : ℕ) (it : Item)
    → item_at os k l ≡ some it
    → item_at (os ++ ps) k l ≡ some it
unfolding item_at
item_at-append os ps k l it h = elim (Option-cases (get_elem? os k)) [
  | inl e ↦ cc (rw e at h)
  | inr (o, e) ↦ rw (get_elem?-append os ps k e) (rw e at h)
]

module _ (alloc : ℕ → Option Block) (good : IsAllocator alloc) where
  pub grow-Grown :
      (m i : ℕ) (os : List (Option Block))
      → i ≡ length os
      → IsTable 0 os
      → Grown os (grow alloc m i os) m
  unfolding grow
  grow-Grown zero i os e t = record { table = t; longer = omega arith; kept = λ k l it h. h }
  grow-Grown (suc m) i os e t =
      let (b, made, full, place) = good i in
      let n = length-append os (alloc i ∷ []) in
      let g =
        grow-Grown m (suc i) (os ++ alloc i ∷ []) (omega (arith, n))
          (IsTable-append 0 os (alloc i) t (b, made, full, omega (arith, place))) in
      record {
        table = g.table;
        longer = omega (arith, g.longer, n);
        kept = λ k l it h. g.kept k l it (item_at-append os (alloc i ∷ []) k l it h);
      }
