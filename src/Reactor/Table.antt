-- ===== src/Reactor/Table.antt =====
-- The table of descriptors: `add_fd`, `del_fd` and `get_fd_item` as a map from descriptors to items.
use solutions.Base.{
  get_elem?-lt, get_elem?-none, ℕ, ◌+◌, ◌-◌, ◌/◌, ◌%◌, ◌≤◌, ◌<◌, ◌≡◌, ◌≢◌, refl, ap, ◌∙◌, ◌⊎◌, inl,
  inr, true, false, Option, none, some, List, leb, length, pos, negsuc, fmap, arith,
}
use solutions.Reactor.Blocks.{
  IsTable, IsAllocator, IsTable-get, update_item-Updated, Grown, grow-Grown,
}
use native.Mathlib.Decide.{ℕ_discrete, dec_lt}
use solutions.Reactor.{
  fd, Item, Block, Reactor, item_at, get_fd_item, set_fd_item, grow, add_fd, del_fd, with_fd,
  fd_item_block_size, size_t_mod,
}

-- The invariant of a reactor in service: every block is there, whole and in its place.
abbrev pub IsReactor : Reactor → Type 0
IsReactor r = IsTable 0 r.fd_item_blocks

-- What changes when the item of one descriptor is written, and what stays.
pub record Wrote (f : Item → Item) (r : Reactor) (n : ℕ) (r' : Reactor) : Type 0 where
  pub reactor : IsReactor r'
  pub blocks : length r'.fd_item_blocks ≡ length r.fd_item_blocks
  pub here : get_fd_item r' n ≡ fmap f (get_fd_item r n)
  pub there : (m : ℕ) → m ≢ n → get_fd_item r' m ≡ get_fd_item r m
  pub same_nfd : r'.nfd ≡ r.nfd
  pub same_work : r'.work_epfd ≡ r.work_epfd

same_place :
    (m n : ℕ)
    → m ≢ n
    → (m / fd_item_block_size ≢ n / fd_item_block_size)
      ⊎ (m % fd_item_block_size ≢ n % fd_item_block_size)
same_place m n h = elim (ℕ_discrete (m / fd_item_block_size) (n / fd_item_block_size)) [
  | yes p ↦ inr (λ q. h (omega arith))
  | no p ↦ inl p
]

-- A descriptor whose block exists has an item, and only that item is written.
pub set_fd_item-Wrote :
    (f : Item → Item) (r : Reactor) (n : ℕ)
    → IsReactor r
    → n / fd_item_block_size < length r.fd_item_blocks
    → (r' : Reactor) × (set_fd_item f r n ≡ some r') × Wrote f r n r'
unfolding set_fd_item get_fd_item
set_fd_item-Wrote f r n t h =
    let (os', e, u) =
      update_item-Updated f r.fd_item_blocks (n / fd_item_block_size) (n % fd_item_block_size) t h
        (omega arith) in
    (
      record r { fd_item_blocks = os' },
      rw e,
      record {
        reactor = u.table;
        blocks = u.same_length;
        here = u.here;
        there = λ m d. u.there _ _ (same_place m n d);
        same_nfd = refl;
        same_work = refl;
      },
    )

-- A descriptor whose block exists has an item.
pub get_fd_item-some :
    (r : Reactor) (n : ℕ)
    → IsReactor r
    → n / fd_item_block_size < length r.fd_item_blocks
    → (it : Item) × (get_fd_item r n ≡ some it)
unfolding get_fd_item item_at
get_fd_item-some r n t h =
    let (b, e, l, x) = IsTable-get 0 r.fd_item_blocks (n / fd_item_block_size) t h in
    let (it, g) = get_elem?-lt b.items (n % fd_item_block_size) (omega (arith, l)) in
    (it, rw (e, g))

-- A descriptor without a block has none: reading it indexes the vector out of range.
pub get_fd_item-none :
    (r : Reactor) (n : ℕ)
    → length r.fd_item_blocks ≤ n / fd_item_block_size
    → get_fd_item r n ≡ none
unfolding get_fd_item item_at
get_fd_item-none r n h = rw (get_elem?-none r.fd_item_blocks (n / fd_item_block_size) h)

get_fd_item-nfd : (r : Reactor) (n k : ℕ) → get_fd_item (record r { nfd = k }) n ≡ get_fd_item r n
unfolding get_fd_item
get_fd_item-nfd r n k = refl

get_fd_item-Grown :
    (r : Reactor) (os : List (Option Block)) (k : ℕ)
    → Grown r.fd_item_blocks os k
    → (m : ℕ) (it : Item) → get_fd_item r m ≡ some it
    → get_fd_item (record r { fd_item_blocks = os }) m ≡ some it
unfolding get_fd_item
get_fd_item-Grown r os k g m it h = g.kept _ _ it h

-- What `add_fd` does to a reactor in service.
pub record Added (r : Reactor) (n : ℕ) (r' : Reactor) : Type 0 where
  pub reactor : IsReactor r'
  pub item : (it : Item) × (get_fd_item r' n ≡ some it) × (it.fd ≡ n)
  pub kept : (m : ℕ) (it : Item) → m ≢ n → get_fd_item r m ≡ some it → get_fd_item r' m ≡ some it
  pub counted : r'.nfd ≡ (r.nfd + 1) % size_t_mod
  pub same_work : r'.work_epfd ≡ r.work_epfd

-- On a reactor in service, with an allocator that provides every block, `add_fd` of any descriptor
-- succeeds: it makes the blocks that are missing, the descriptor then has its item, the item of
-- every other descriptor stays as it was, and the count goes up by one modulo 2 ^ 64.
pub add_fd-Added :
    (alloc : ℕ → Option Block)
    → IsAllocator alloc
    → (r : Reactor) (n : ℕ) → IsReactor r
    → (r' : Reactor) × (add_fd alloc r (fd n) ≡ some (pos 0, r')) × Added r n r'
unfolding add_fd
add_fd-Added alloc good r n t =
    let size = length r.fd_item_blocks in
    let rounds = n / fd_item_block_size + 1 - size in
    let g = grow-Grown alloc good rounds size r.fd_item_blocks refl t in
    let r₁ : Reactor = record r { fd_item_blocks = grow alloc rounds size r.fd_item_blocks } in
    let room : n / fd_item_block_size < length r₁.fd_item_blocks = omega (arith, g.longer) in
    let (r₂, e, w) = set_fd_item-Wrote (with_fd n) r₁ n g.table room in
    let (it, found) = get_fd_item-some r₁ n g.table room in
    (
      record r₂ { nfd = (r₂.nfd + 1) % size_t_mod },
      rw e,
      record {
        reactor = w.reactor;
        item = (
          record it { fd = n },
          get_fd_item-nfd r₂ n _ ∙ w.here ∙ ap (fmap (with_fd n)) found,
          refl,
        );
        kept =
            λ m x d h. get_fd_item-nfd r₂ m _ ∙ w.there m d ∙ get_fd_item-Grown r _ rounds g m x h;
        counted = omega (arith, w.same_nfd);
        same_work = w.same_work;
      },
    )

-- What `del_fd` does to a reactor in service that has a block for the descriptor.
pub record Deleted (r : Reactor) (n : ℕ) (r' : Reactor) : Type 0 where
  pub reactor : IsReactor r'
  pub here : get_fd_item r' n ≡ fmap (with_fd 0) (get_fd_item r n)
  pub there : (m : ℕ) → m ≢ n → get_fd_item r' m ≡ get_fd_item r m
  pub counted : r'.nfd ≡ (r.nfd + (size_t_mod - 1)) % size_t_mod
  pub same_work : r'.work_epfd ≡ r.work_epfd

-- On a reactor in service, `del_fd` of a descriptor that has a block succeeds, clears that item's
-- descriptor and no other item, and counts down by one modulo 2 ^ 64.
pub del_fd-Deleted :
    (r : Reactor) (n : ℕ)
    → IsReactor r
    → n / fd_item_block_size < length r.fd_item_blocks
    → (r' : Reactor) × (del_fd r n ≡ some (pos 0, r')) × Deleted r n r'
unfolding del_fd
del_fd-Deleted r n t h =
    let (r', e, w) = set_fd_item-Wrote (with_fd 0) r n t h in
    let inside : leb (length r.fd_item_blocks) (n / fd_item_block_size) ≡ false = ground arith in
    (
      record r' { nfd = (r'.nfd + (size_t_mod - 1)) % size_t_mod },
      rw (inside, e),
      record {
        reactor = w.reactor;
        here = get_fd_item-nfd r' n _ ∙ w.here;
        there = λ m d. get_fd_item-nfd r' m _ ∙ w.there m d;
        counted = omega (arith, w.same_nfd);
        same_work = w.same_work;
      },
    )

-- `del_fd` of a descriptor without a block returns -1 and changes nothing.
pub del_fd-outside :
    (r : Reactor) (n : ℕ)
    → length r.fd_item_blocks ≤ n / fd_item_block_size
    → del_fd r n ≡ some (negsuc 0, r)
unfolding del_fd
del_fd-outside r n h =
    let outside : leb (length r.fd_item_blocks) (n / fd_item_block_size) ≡ true = ground arith in
    rw outside

-- A descriptor that is in the table has a block.
pub block_of_some :
    (r : Reactor) (n : ℕ) (it : Item)
    → get_fd_item r n ≡ some it
    → n / fd_item_block_size < length r.fd_item_blocks
block_of_some r n it h = elim (dec_lt (n / fd_item_block_size) (length r.fd_item_blocks)) [
  | yes p ↦ p
  | no p ↦ cc (h, get_fd_item-none r n (omega arith))
]
