-- ===== src/Rpc/Pool.antt =====
-- lsylar/src/reqpool.cc and lsylar/include/reqpool.h: the pool of requests. `none` is undefined
-- behaviour. The results of the system calls are arguments.
pub mod Answers
pub mod Requests
use solutions.Base.{
  ℕ, zero, suc, ◌+◌, ◌-◌, ◌%◌, ◌^◌, Bool, true, false, not, ◌&&◌, Option, none, some, List, [], ◌∷◌,
  ◌++◌, ◌==◌, if◌then◌else◌, leb, ltb, length, take, drop, replicate, Bytes, codes, ℤ, pos, negsuc,
  ◌>>=◌, fmap,
}
use solutions.Reactor.{Fd, err, fd, Item, Reactor, get_fd_item, set_fd_item, sr_buffer_len}
use solutions.Reactor.Echo.{Call, ctl_mod, edge_out}
use solutions.Socket.{
  Inet, Address, Socket, Count, failed, count, new_socket, new_address, transfer, init_tcp,
  init_udp, connect_ip,
}

-- `asynreq_context`; `server_ip` is the array of 16 bytes.
pub record Context : Type 0 where
  pub epfd : Fd
  pub server_ip : Bytes
  pub server_port : ℕ

-- `eparg_t` in the epoll set: the socket of the request; `result_buffer` and `result_buffer_len` are the
-- send buffer and its length in the item of the descriptor `target`; `cb_context` names `ctx_fd`.
pub record Eparg : Type 0 where
  pub sock : Fd
  pub target : ℕ
  pub ctx_fd : ℕ

pub record Pool : Type 0 where
  pub context : Context
  pub pending : List Eparg

-- A request that was handed to `::send` or `::sendto`.
pub record Request : Type 0 where
  pub from : Fd
  pub to : Address
  pub bytes : Bytes

-- The text of an array up to its first zero byte. Without one the C functions read behind the array.
unfoldable pub c_string : Bytes → Option Bytes
c_string [] = none
c_string (c ∷ s) = let rest = c_string s in if c == 0 then some [] else fmap (◌∷◌ c) rest

-- `asynreq_context_init` with the results of `epoll_create` and of `pthread_create`. The copy of the
-- IP has no zero byte behind it.
pub context_init : Fd → Bool → Bytes → ℕ → Context → Option (Bool × Context)
context_init epfd started sv_ip sv_port ctx =
    if ltb (length ctx.server_ip) (length sv_ip)
    then none
    else let ctx₁ = record ctx {
      server_ip = sv_ip ++ drop (length sv_ip) ctx.server_ip;
      server_port = sv_port;
    } in
      some (elim epfd [ err ↦ (false, ctx₁) | fd e ↦ (started, record ctx₁ { epfd = fd e }) ])

-- What the operating system answers to a request: its addresses, and the results of `::socket`,
-- `::connect`, `::send` and `epoll_ctl`.
pub record Env : Type 0 where
  pub inet : Inet
  pub sockname : Address
  pub opened : Fd
  pub connected : Bool
  pub sent : Count
  pub added : Bool

abbrev pub waiting : Fd → ℕ → Eparg
waiting sock n = record { sock = sock; target = n; ctx_fd = n }

-- The end of both `commit` functions: the argument is put into the epoll set.
abbrev pub enlist : Env → ℕ → Pool → Pool
enlist env n p = record p {
  pending = if env.added then p.pending ++ waiting env.opened n ∷ [] else p.pending;
}

-- `asynreq_commit_udp` for the item of the descriptor `n`.
pub commit_udp : Env → ℕ → Bytes → Pool → Option (Bool × Pool × List Request)
commit_udp env n send_buffer p = do
  let blank = new_address env.inet [] 0
  ip ← c_string p.context.server_ip
  let remote = new_address env.inet ip p.context.server_port
  (_, s₁) ←
      init_udp env.inet env.sockname env.opened true (codes "0.0.0.0") 0 (new_socket blank 0 true)
  (rt, _, _) ← transfer env.sent none (record s₁ { remote_addr = some remote })
  some (
    rt && env.added,
    enlist env n p,
    record { from = env.opened; to = remote; bytes = send_buffer } ∷ [],
  )

-- `asynreq_commit`.
pub commit : Env → ℕ → Bytes → Pool → Option (Bool × Pool × List Request)
commit env n send_buffer p = do
  let blank = new_address env.inet [] 0
  ip ← c_string p.context.server_ip
  let remote = new_address env.inet ip p.context.server_port
  (_, s₁) ←
      init_tcp env.inet env.sockname env.opened true (codes "0.0.0.0") 0 (new_socket blank 0 true)
  (there, s₂) ← connect_ip env.inet env.connected ip p.context.server_port s₁
  if there
      then (do
        (rt, _, _) ← transfer env.sent none s₂
        some (
          rt && env.added,
          enlist env n p,
          record { from = env.opened; to = remote; bytes = send_buffer } ∷ [],
        ))
      else some (false, p, [])

-- What `recv` of the request's socket gives: an error, or a message.
pub data Answer : Type 0 where
  recv_failed : Answer
  answered : Bytes → Answer

-- `memset(result_buffer, 0, result_buffer_len)` and a `recv` of at most as many bytes; the length is
-- the `size_t` that `recv` returned.
abbrev pub take_answer : Answer → Item → Item
take_answer recv_failed it = record it {
  sbuffer = replicate it.slen 0 ++ drop it.slen it.sbuffer;
  slen = 2 ^ 64 - 1;
}
take_answer (answered msg) it =
    let bytes = take it.slen msg in
    record it {
      sbuffer = (bytes ++ replicate (it.slen - length bytes) 0) ++ drop it.slen it.sbuffer;
      slen = length bytes;
    }

-- The words that `reqpool_parser_cb` of sv_rpcapi.cc adds.
abbrev pub cp_words : Bytes
cp_words = codes " >>> after compute in pw server and parser in cb"

-- `memcpy(content + len, cp_words, size); len += size;`
abbrev pub add_words : Item → Item
add_words it = record it {
  sbuffer = take it.slen it.sbuffer ++ (cp_words ++ drop (it.slen + length cp_words) it.sbuffer);
  slen = it.slen + length cp_words;
}

-- `reqpool_parser_cb` on the buffers of `target`: a copy behind the send buffer is undefined.
pub parser_cb : Eparg → Reactor → Option (Reactor × List Call)
parser_cb e r = do
  it ← get_fd_item r e.target
  if ltb sr_buffer_len (it.slen + length cp_words) then none else (do
    r' ← set_fd_item add_words r e.target
    some (r', ctl_mod r.work_epfd (fd e.ctx_fd) edge_out ∷ []))

-- A round of the inner loop of `asynreq_callback`: the reactor, whether the argument leaves the epoll
-- set, and the calls on the server's epoll set. The reconnection after an error touches neither.
pub on_answer : Eparg → Answer → Reactor → Option (Reactor × Bool × List Call)
on_answer e answer r = do
  it ← get_fd_item r e.target
  if ltb sr_buffer_len it.slen then none else (do
    r₁ ← set_fd_item (take_answer answer) r e.target
    (elim answer [
      | recv_failed ↦ some (r₁, false, [])
      | answered msg ↦ (do (r₂, calls) ← parser_cb e r₁; some (r₂, true, calls))
    ]))

-- A round of the outer loop of `asynreq_callback`: the arguments of the events that one `epoll_wait`
-- returned, each with what its socket receives.
pub answer_round : List (Eparg × Answer) → Reactor → Option (Reactor × List Call)
answer_round [] r = some (r, [])
answer_round ((e, answer) ∷ es) r = do
  (r₁, _, first) ← on_answer e answer r
  (r₂, calls) ← answer_round es r₁
  some (r₂, first ++ calls)
