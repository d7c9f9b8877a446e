-- ===== src/DynArray.antt =====
-- DataStruct/src/structrue/structrue.h: the growing array `Array<NodeType>` and the growth rule of
-- `ContainerStrategies`. The block behind `m_head` is a list of cells, one for each element that
-- `malloc` made room for; a cell that nothing has written holds `none`. An operation returns `none`
-- where the C++ reads or writes outside the block, or an `int` overflows. `malloc n` says whether a
-- request for `n` elements is granted; an element has fewer than 2 ^ 32 bytes.
pub mod Shift
pub mod Contents
pub mod Update
pub mod Grow
pub mod Find
mod Tests
use solutions.Base.{
  ℕ, zero, suc, ◌+◌, ◌-◌, ◌%◌, ◌^◌, Bool, true, false, not, ◌&&◌, ◌||◌, Option, none, some, List,
  [], ltb, leb, ◌==◌, if◌then◌else◌, get_elem?, set, length, replicate, ◌>>=◌,
}

abbrev pub size_t_mod : ℕ
size_t_mod = 2 ^ 64

-- The default argument `size_t pos = -1`.
abbrev pub npos : ℕ
npos = size_t_mod - 1

abbrev pub Block {ℓ} : Type ℓ → Type ℓ
Block A = List (Option A)

-- `m_head`, `m_size` and `m_capacity`; the null pointer is `none`.
pub record Array {ℓ} (A : Type ℓ) : Type ℓ where
  pub head : Option (Block A)
  pub size : ℕ
  pub capacity : ℕ

-- A `node_p`: a pointer below `m_head`, or so many elements above it.
pub data Pos : Type 0 where
  before : Pos
  at : ℕ → Pos

-- `ContainerStrategies::get_new_size_add` with the default `m_add_base`.
abbrev pub get_new_size_add : ℕ → ℕ
get_new_size_add size = (size + 64) % size_t_mod

-- The rounds that `for (int i = 0; i < len; i++)` makes once a `size_t` is stored in `int len`.
abbrev pub int_rounds : ℕ → ℕ
int_rounds n = if ltb (n % 2 ^ 32) (2 ^ 31) then n % 2 ^ 32 else 0

module _ {ℓ} {A : Type ℓ} where
  -- The cells that a pointer reaches: none through a null pointer.
  abbrev pub cells : Option (Block A) → Block A
  cells none = []
  cells (some b) = b

  -- `*(m_head + i)`, as a read.
  abbrev pub read : Block A → ℕ → Option (Option A)
  read b i = get_elem? b i

  -- `*(m_head + i) = c`.
  abbrev pub write : Block A → ℕ → Option A → Option (Block A)
  write b i c = if ltb i (length b) then some (set b i c) else none

  -- `for (i = pos + n; i > pos; i--) m_head[i] = m_head[i - 1];`
  pub shift_right : ℕ → ℕ → Block A → Option (Block A)
  shift_right zero pos b = some b
  shift_right (suc n) pos b = do
    c ← read b (pos + n)
    b' ← write b (suc (pos + n)) c
    shift_right n pos b'

  -- `for (; pos < end; pos++) *pos = *(pos + 1);` with `n` the rounds left.
  pub shift_left : ℕ → ℕ → Block A → Option (Block A)
  shift_left zero pos b = some b
  shift_left (suc n) pos b = do c ← read b (suc pos); b' ← write b pos c; shift_left n (suc pos) b'

  -- `for (i = k; i < k + n; i++) to[i] = from[i];`
  pub copy : ℕ → ℕ → Block A → Block A → Option (Block A)
  copy zero k from to = some to
  copy (suc n) k from to = do c ← read from k; to' ← write to k c; copy n (suc k) from to'

  -- `Array::clean`.
  pub clean : Array A → Array A
  clean a = record { head = none; size = 0; capacity = 0 }

  -- The part of `Array::add` after the check for room.
  pub insert_at : Array A → A → ℕ → Option (Array A × Bool)
  unfolding shift_right
  insert_at a val pos = do
    b ← shift_right (a.size - pos) pos (cells a.head)
    b' ← write b pos (some val)
    some (record a { head = some b'; size = (a.size + 1) % size_t_mod }, true)

  module _ (malloc : ℕ → Bool) where
    -- `Array::reset`. It returns `m_size`, which `clean` has just set to 0, also when it succeeds.
    pub reset : ℕ → Array A → Array A × Bool
    unfolding clean
    reset n a =
        let c = clean a in
        if not (n == 0) && not (malloc n) then (c, false) else (
          record {
            head = if n == 0 then none else some (replicate n none);
            size = c.size;
            capacity = n;
          },
          not (c.size == 0),
        )

    -- `Array::relloc`. Its loops count in an `int`, which overflows from 2 ^ 31 elements on.
    pub relloc : Array A → Option (Array A × Bool)
    relloc a =
        let capacity = if a.capacity == 0 then 8 else a.capacity in
        if not (malloc a.size)
        then some (record a { capacity = capacity }, false)
        else if leb (2 ^ 31) a.size
        then none
        else (do
          mid ← copy a.size 0 (cells a.head) (replicate a.size none)
          let fresh = (reset (get_new_size_add capacity) (record a { capacity = capacity })).0
          b ← copy a.size 0 mid (cells fresh.head)
          some (
            record fresh {
              head = if fresh.capacity == 0 then fresh.head else some b;
              size = fresh.size + a.size;
            },
            true,
          ))

    -- `Array::Array(size_t size = 8)`.
    pub construct : ℕ → Array A
    unfolding reset
    construct n = (reset n (record { head = none; size = 0; capacity = 0 })).0

    -- `Array::add`. `m_capacity - m_size <= 0` is a comparison of unsigned numbers.
    pub add : Array A → A → ℕ → Option (Array A × Bool)
    unfolding insert_at relloc
    add a val pos =
        let pos' = if pos == npos then a.size else pos in
        if (a.capacity + size_t_mod - a.size) % size_t_mod == 0
        then (do (a', done) ← relloc a; if done then insert_at a' val pos' else some (a', false))
        else insert_at a val pos'

  -- `Array::del` of the element that `pos` points to. Its guard fails on every pointer outside.
  pub del : Array A → Pos → Option (Array A × Bool)
  unfolding shift_left
  del a before = some (a, false)
  del a (at i) =
      if ltb i a.size
      then (do
        b ← shift_left (a.size - 1 - i) i (cells a.head)
        some (record a { head = some b; size = a.size - 1 }, true))
      else some (a, false)

  -- `Array::alter`. Its guard lets the pointer one past the last element through.
  pub alter : Array A → Pos → A → Option (Array A × Bool)
  alter a before val = some (a, false)
  alter a (at i) val =
      if ltb a.size i
      then some (a, false)
      else do b ← write (cells a.head) i (some val); some (record a { head = some b }, true)

  -- `Array::operator[]`, as a read of the element.
  pub at_index : Array A → ℕ → Option A
  at_index a i = do c ← read (cells a.head) i; c

  module _ (eq : A → A → Bool) where
    -- `for (i = k; i < k + n; i++) if (m_head[i] == val) return m_head + i; return nullptr;`
    -- The outer `none` is a fault, the inner one the null pointer.
    pub scan : ℕ → ℕ → A → Block A → Option (Option ℕ)
    scan zero k val b = some none
    scan (suc n) k val b =
        let rest = scan n (suc k) val b in
        (read b k >>= λ c. c >>= λ x. if eq x val then some (some k) else rest)

    -- `Array::find(val, ins)`.
    pub find : Array A → A → ℕ → Option (Option ℕ)
    unfolding scan
    find a val ins = scan (a.size - ins) ins val (cells a.head)

    -- `Array::find(val, ins, len)`; `len` is given as the `size_t` that it is converted to.
    pub find_len : Array A → A → ℕ → ℕ → Option (Option ℕ)
    unfolding scan
    find_len a val ins len =
        let room = (a.size + size_t_mod - ins) % size_t_mod in
        let len' = if ltb len room then len else (a.size + size_t_mod - len) % size_t_mod in
        scan (int_rounds len') ins val (cells a.head)
