-- ===== src/Reactor/Echo.antt =====
-- The callbacks of the echo server in lsylar/src/servers.cc and the rounds of its work loop. A callback
-- takes what the system call that it waits for returned, and yields its return code, the new reactor
-- and the system calls that it made, in order. `none` is undefined behaviour. A `Socket` made from a
-- descriptor has no error handler, so a failed `recv` or `send` calls a member of a null pointer.
pub mod Callbacks
pub mod Rounds
mod Tests
use solutions.Base.{
  ℕ, zero, suc, ◌-◌, Bool, true, false, Option, none, some, List, [], ◌∷◌, ◌++◌, ◌==◌,
  if◌then◌else◌, ltb, length, take, drop, replicate, Bytes, ℤ, pos, negsuc, ◌>>=◌,
}
use solutions.Reactor.{
  Fd, err, fd, Item, Block, Reactor, Callback, recv_callback, send_callback, accept_callback,
  get_fd_item, set_fd_item, add_fd, del_fd, sr_buffer_len,
}

-- `EPOLLIN`, `EPOLLIN | EPOLLET` and `EPOLLOUT | EPOLLET`.
pub data Interest : Type 0 where
  level_in edge_in edge_out : Interest

-- The system calls that the callbacks make, without `recv` and `accept`.
pub data Call : Type 0 where
  ctl_add ctl_mod : Fd → Fd → Interest → Call
  ctl_del : Fd → ℕ → Call
  close : ℕ → Call
  send : ℕ → Bytes → Call

-- The result of `::recv`: an error, or the bytes that have come, none if the peer has closed.
pub data Received : Type 0 where
  recv_error : Received
  got : Bytes → Received

-- The result of `::send`: an error, or how many bytes were taken.
pub data Sent : Type 0 where
  send_error : Sent
  took : ℕ → Sent

abbrev pub Outcome : Type 0
Outcome = ℤ × Reactor × List Call

-- `memcpy(to, from, n)` with `n` inside both buffers.
abbrev pub memcpy : Bytes → Bytes → ℕ → Bytes
memcpy to from n = take n from ++ drop n to

-- `memset(rbuffer, 0, SR_BUFFER_LEN)` and a `recv` of at most as many bytes into it.
abbrev pub receive : Bytes → Item → Item
receive msg it =
    let bytes = take sr_buffer_len msg in
    record it { rbuffer = bytes ++ replicate (sr_buffer_len - length bytes) 0; rlen = length bytes }

-- `memcpy(sbuffer, rbuffer, rlen); slen = rlen;`
abbrev pub echo : Item → Item
echo it = record it { sbuffer = memcpy it.sbuffer it.rbuffer it.rlen; slen = it.rlen }

abbrev pub with_slen : ℕ → Item → Item
with_slen k it = record it { slen = k }

-- The branch of a callback that drops the descriptor.
pub drop_fd : Reactor → ℕ → ℤ → Option Outcome
drop_fd r n code = do (_, r') ← del_fd r n; some (code, r', ctl_del r.work_epfd n ∷ close n ∷ [])

-- `recv_callback`. `rlen` is unsigned, so `rlen <= 0` is `rlen == 0`.
pub on_recv : ℕ → Received → Reactor → Option Outcome
unfolding drop_fd
on_recv n recv_error r = none
on_recv n (got msg) r = do
  r₁ ← set_fd_item (receive msg) r n
  item ← get_fd_item r₁ n
  if item.rlen == 0 then drop_fd r₁ n (pos item.rlen) else (do
    r₂ ← set_fd_item echo r₁ n
    some (pos 0, r₂, ctl_mod r.work_epfd (fd n) edge_out ∷ []))

-- `send_callback`.
pub on_send : ℕ → Sent → Reactor → Option Outcome
unfolding drop_fd
on_send n result r = do
  item ← get_fd_item r n
  if item.slen == 0
      then some (negsuc 1, r, [])
      else if ltb sr_buffer_len item.slen
      then none
      else elim result [
        | send_error ↦ none
        | took k ↦ (do
          r₁ ← set_fd_item (with_slen k) r n
          (code, r₂, calls) ←
              (if k == 0 then drop_fd r₁ n (negsuc 0) else (do
                r₂ ← set_fd_item (with_slen 0) r₁ n
                some (pos 0, r₂, ctl_mod r.work_epfd (fd n) edge_in ∷ [])))
          some (code, r₂, send n (take item.slen item.sbuffer) ∷ calls))
      ]

-- `accept_callback`; `client` is the result of `::accept`. The test of its result is `client == 0`.
unfoldable pub on_accept : (ℕ → Option Block) → ℕ → Fd → Reactor → Option Outcome
on_accept alloc n (fd zero) r = do
  (_, r') ← del_fd r n
  some (negsuc 0, r', ctl_del r.work_epfd n ∷ close n ∷ [])
on_accept alloc n client r = do
  (_, r') ← add_fd alloc r client
  some (pos 0, r', ctl_add r.work_epfd client edge_in ∷ [])

-- One entry of `events` in `work_loop`: the descriptor, and what `recv` and `send` return if the
-- event has `EPOLLIN` and `EPOLLOUT`.
pub record Event : Type 0 where
  pub event_fd : ℕ
  pub input : Option Received
  pub output : Option Sent

-- A callback of the table that is none of `recv_callback` and `send_callback`.
abbrev pub Others : Type 0
Others = Callback → ℕ → Reactor → Option Outcome

module _ (others : Others) where
  pub run_recv : Callback → ℕ → Received → Reactor → Option Outcome
  run_recv recv_callback n result r = on_recv n result r
  run_recv cb n result r = others cb n r

  pub run_send : Callback → ℕ → Sent → Reactor → Option Outcome
  run_send send_callback n result r = on_send n result r
  run_send cb n result r = others cb n r

  -- The `EPOLLIN` part of a round of the inner loop of `work_loop`.
  pub event_in : Event → Reactor → Option (Reactor × List Call)
  unfolding run_recv
  event_in e r = elim e.input [
    | none ↦ some (r, [])
    | some result ↦ (do
      item ← get_fd_item r e.event_fd
      (_, r', calls) ← run_recv item.recv_cb e.event_fd result r
      some (r', calls))
  ]

  -- Its `EPOLLOUT` part.
  pub event_out : Event → Reactor → Option (Reactor × List Call)
  unfolding run_send
  event_out e r = elim e.output [
    | none ↦ some (r, [])
    | some result ↦ (do
      item ← get_fd_item r e.event_fd
      (_, r', calls) ← run_send item.send_cb e.event_fd result r
      some (r', calls))
  ]

  -- A round of the outer loop of `work_loop`: the events that one `epoll_wait` returned.
  pub work_round : List Event → Reactor → Option (Reactor × List Call)
  work_round [] r = some (r, [])
  work_round (e ∷ es) r = do
    _ ← get_fd_item r e.event_fd
    (r₁, in_calls) ← event_in e r
    (r₂, out_calls) ← event_out e r₁
    (r₃, calls) ← work_round es r₂
    some (r₃, in_calls ++ (out_calls ++ calls))
