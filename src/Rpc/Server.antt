-- ===== src/Rpc/Server.antt =====
-- lsylar/src/sv_rpcapi.cc: the items of the server, its callbacks, and its start. `none` is undefined
-- behaviour.
pub mod Replies
mod Tests
use solutions.Base.{
  refl, length-replicate, ℕ, zero, suc, ◌+◌, Bool, true, false, ◌&&◌, Option, none, some, List, [],
  ◌∷◌, ◌++◌, ◌==◌, if◌then◌else◌, length, take, replicate, Bytes, ℤ, pos, negsuc, ◌>>=◌,
}
use solutions.Reactor.{
  Fd, err, fd, Item, Block, Reactor, get_fd_item, set_fd_item, fd_item_block_size, sr_buffer_len,
  rpcapi_recv_callback, send_callback, accept_callback, init_reactor,
}
use solutions.Reactor.Echo.{
  Call, Received, recv_error, got, Sent, receive, drop_fd, on_send, Outcome,
}
use solutions.Reactor.Blocks.{IsAllocator}
use solutions.Socket.{Address, Count, failed, count, new_socket, transfer}
use solutions.Rpc.Pool.{Pool, Env, Request, commit_udp}

-- `sv_rpcapi_init_fd_item`.
abbrev pub rpc_item : Item
rpc_item = record {
  fd = 0;
  sock_type = 0;
  recv_cb = rpcapi_recv_callback;
  send_cb = send_callback;
  accept_cb = accept_callback;
  sbuffer = replicate sr_buffer_len 0;
  slen = 0;
  rbuffer = replicate sr_buffer_len 0;
  rlen = 0;
}

-- `sv_rpcapi_alloc_fd_item_block`; the two flags say whether its two calls of `malloc` succeed.
pub rpc_alloc_block : Bool → Bool → ℕ → Option Block
rpc_alloc_block block_ok items_ok index =
    if block_ok && items_ok
    then some (record { items = replicate fd_item_block_size rpc_item; index = index })
    else none

-- A callback of the server: its code, the reactor, the pool, and what it did.
abbrev pub RpcOutcome : Type 0
RpcOutcome = ℤ × Reactor × Pool × List Call × List Request

abbrev pub count_of : Received → Count
count_of recv_error = failed
count_of (got msg) = count (length (take sr_buffer_len msg))

abbrev pub message : Received → Bytes
message recv_error = []
message (got msg) = msg

-- The body that `rpcapi_recv_callback` and `udp_recv_cb` share, on a TCP or a UDP `Socket`.
pub recv_request : Bool → Env → ℕ → Received → Reactor → Pool → Option RpcOutcome
recv_request is_tcp env n result r p = do
  (_, rlen, _) ← transfer (count_of result) none (new_socket env.sockname n is_tcp)
  r₁ ← set_fd_item (receive (message result)) r n
  it ← get_fd_item r₁ n
  if rlen == 0
      then (do (code, r₂, calls) ← drop_fd r₁ n (pos rlen); some (code, r₂, p, calls, []))
      else (do
        (_, p', requests) ← commit_udp env n (take it.rlen it.rbuffer) p
        some (pos 0, r₁, p', [], requests))

-- `rpcapi_recv_callback`.
pub on_rpc_recv : Env → ℕ → Received → Reactor → Pool → Option RpcOutcome
on_rpc_recv env n result r p = recv_request true env n result r p

-- `udp_recv_cb`.
pub on_udp_recv : Env → ℕ → Received → Reactor → Pool → Option RpcOutcome
on_udp_recv env n result r p = recv_request false env n result r p

-- `udp_send_cb`: the body of `send_callback`, on a UDP `Socket`.
pub on_udp_send : ℕ → Sent → Reactor → Option Outcome
on_udp_send n result r = on_send n result r

-- `ServerRpcApi::init` with a reactor that `malloc` has given, and the results of `epoll_create`. The
-- result of `init_reactor` is not used.
pub server_init : (ℕ → Option Block) → Fd → Fd → Reactor → Bool × Reactor
server_init alloc listen work r = (true, (init_reactor alloc listen work r).1)

-- As long as `malloc` succeeds, the allocator provides every block.
pub rpc_alloc_block-IsAllocator : IsAllocator (rpc_alloc_block true true)
unfolding rpc_alloc_block
rpc_alloc_block-IsAllocator i = (_, refl, length-replicate fd_item_block_size rpc_item, refl)
