-- ===== src/Reactor.antt =====
-- lsylar/include/servers.h and lsylar/src/servers.cc: the reactor, its table of descriptors in blocks
-- of 1024 items, and the callbacks of the echo server (child `Echo`) and of its listening side (child
-- `Listen`). `none` is undefined behaviour: an
-- index outside a vector or a block, or a block that the allocator could not provide.
pub mod Blocks
pub mod Table
pub mod Echo
pub mod Listen
mod Tests
use solutions.Base.{
  ℕ, zero, suc, ◌+◌, ◌-◌, ◌/◌, ◌%◌, ◌^◌, Bool, true, false, not, ◌&&◌, Option, none, some, List, [],
  ◌∷◌, ◌++◌, ◌==◌, if◌then◌else◌, leb, length, get_elem?, set, replicate, Bytes, ℤ, pos, negsuc,
  ◌>>=◌, fmap,
}

-- `SR_BUFFER_LEN` and `FD_ITEM_BLOCK_SIZE`.
abbrev pub sr_buffer_len : ℕ
sr_buffer_len = 512

abbrev pub fd_item_block_size : ℕ
fd_item_block_size = 1024

abbrev pub size_t_mod : ℕ
size_t_mod = 2 ^ 64

-- A descriptor as the system calls return it: `err` is -1.
pub data Fd : Type 0 where
  err : Fd
  fd : ℕ → Fd

-- The functions that a `NET_EVENT_CB` of the table points to.
pub data Callback : Type 0 where
  recv_callback send_callback accept_callback rpcapi_recv_callback udp_recv_cb udp_send_cb :
      Callback

pub record Item : Type 0 where
  pub fd : ℕ
  pub sock_type : ℕ
  pub recv_cb : Callback
  pub send_cb : Callback
  pub accept_cb : Callback
  pub sbuffer : Bytes
  pub slen : ℕ
  pub rbuffer : Bytes
  pub rlen : ℕ

pub record Block : Type 0 where
  pub items : List Item
  pub index : ℕ

-- `item.fd = n`.
abbrev pub with_fd : ℕ → Item → Item
with_fd n it = record it { fd = n }

-- `SOCK_STREAM`.
abbrev pub sock_stream : ℕ
sock_stream = 1

-- `init_fd_item`.
pub init_fd_item : Item
init_fd_item = record {
  fd = 0;
  sock_type = sock_stream;
  recv_cb = recv_callback;
  send_cb = send_callback;
  accept_cb = accept_callback;
  sbuffer = replicate sr_buffer_len 0;
  slen = 0;
  rbuffer = replicate sr_buffer_len 0;
  rlen = 0;
}

-- `alloc_fd_item_block`; the two flags say whether its two calls of `malloc` succeed.
pub alloc_fd_item_block : Bool → Bool → ℕ → Option Block
alloc_fd_item_block block_ok items_ok index =
    if block_ok && items_ok
    then some (record { items = replicate fd_item_block_size init_fd_item; index = index })
    else none

-- `reactor_t`, without its allocator, which the operations take as an argument, and the deallocator.
pub record Reactor : Type 0 where
  pub listen_epfd : Fd
  pub work_epfd : Fd
  pub fd_item_blocks : List (Option Block)
  pub nfd : ℕ

-- `fd_item_blocks[i]->items[j]`, as a read.
unfoldable pub item_at : List (Option Block) → ℕ → ℕ → Option Item
item_at blocks i j = do entry ← get_elem? blocks i; block ← entry; get_elem? block.items j

-- The same, as an update of the item in place.
pub update_item : (Item → Item) → List (Option Block) → ℕ → ℕ → Option (List (Option Block))
update_item f blocks i j = do
  entry ← get_elem? blocks i
  block ← entry
  item ← get_elem? block.items j
  some (set blocks i (some (record block { items = set block.items j (f item) })))

-- `get_fd_item`. The check of the block index only logs; the vector is then indexed all the same.
unfoldable pub get_fd_item : Reactor → ℕ → Option Item
unfolding item_at
get_fd_item r n = item_at r.fd_item_blocks (n / fd_item_block_size) (n % fd_item_block_size)

-- An assignment through the pointer that `get_fd_item` returns.
pub set_fd_item : (Item → Item) → Reactor → ℕ → Option Reactor
unfolding update_item
set_fd_item f r n = do
  blocks ← update_item f r.fd_item_blocks (n / fd_item_block_size) (n % fd_item_block_size)
  some (record r { fd_item_blocks = blocks })

module _ (block_allocator : ℕ → Option Block) where
  -- `for (i = fd_item_blocks.size(); i < block_num; i++)`, with the rounds left and `i`.
  pub grow : ℕ → ℕ → List (Option Block) → List (Option Block)
  grow zero i blocks = blocks
  grow (suc k) i blocks = grow k (suc i) (blocks ++ block_allocator i ∷ [])

  -- `add_fd`. For -1 the block index is 0 and the offset is -1.
  pub add_fd : Reactor → Fd → Option (ℤ × Reactor)
  unfolding grow set_fd_item
  add_fd r err = none
  add_fd r (fd n) = do
    let size = length r.fd_item_blocks
    let blocks = grow (n / fd_item_block_size + 1 - size) size r.fd_item_blocks
    r' ← set_fd_item (with_fd n) (record r { fd_item_blocks = blocks }) n
    some (pos 0, record r' { nfd = (r'.nfd + 1) % size_t_mod })

  -- `init_reactor` on a reactor whose vector is empty; the arguments are the two results of
  -- `epoll_create`. It is left half made where the second fails.
  pub init_reactor : Fd → Fd → Reactor → ℤ × Reactor
  init_reactor err work r = (negsuc 0, record r { listen_epfd = err })
  init_reactor (fd l) err r = (negsuc 0, record r { listen_epfd = fd l; work_epfd = err })
  init_reactor (fd l) (fd w) r = (
    pos 0,
    record {
      listen_epfd = fd l;
      work_epfd = fd w;
      fd_item_blocks = r.fd_item_blocks ++ block_allocator 0 ∷ [];
      nfd = 0;
    },
  )

-- `del_fd`.
pub del_fd : Reactor → ℕ → Option (ℤ × Reactor)
unfolding set_fd_item
del_fd r n =
    if leb (length r.fd_item_blocks) (n / fd_item_block_size) then some (negsuc 0, r) else (do
      r' ← set_fd_item (with_fd 0) r n
      some (pos 0, record r' { nfd = (r'.nfd + (size_t_mod - 1)) % size_t_mod }))

-- `destory_reactor`, without the calls of `close` and `free`.
pub destory_reactor : Reactor → ℤ × Reactor
destory_reactor r =
    (pos 0, record { listen_epfd = fd 0; work_epfd = fd 0; fd_item_blocks = []; nfd = 0 })
