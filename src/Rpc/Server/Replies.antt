-- ===== src/Rpc/Server/Replies.antt =====
-- What a client of the server gets: from its message to the bytes that are sent back.
use solutions.Base.{
  ℕ, suc, ◌+◌, ◌-◌, ◌≤◌, ◌≡◌, ◌≢◌, refl, ap, ◌∙◌, Bool, true, false, some, [], ◌∷◌, ◌++◌, ◌==◌,
  arith, length, length-take, take, replicate, take-length, Bytes, pos, fmap,
}
use solutions.Reactor.{fd, Item, Reactor, get_fd_item, with_fd, sr_buffer_len}
use solutions.Reactor.Table.{IsReactor, set_fd_item-Wrote, block_of_some}
use solutions.Reactor.Echo.{
  ctl_mod, ctl_del, close, send, edge_in, edge_out, got, took, receive, on_send,
}
use solutions.Reactor.Echo.Callbacks.{drop_fd-Dropped, fits, on_send-took}
use solutions.Socket.{count, new_address}
use solutions.Socket.Failure.{transfer-new_socket}
use solutions.Rpc.Pool.{
  c_string, answered, waiting, enlist, cp_words, on_answer, Pool, Env, Request,
}
use solutions.Rpc.Pool.Answers.{replied, words, take-replied, on_answer-replied}
use solutions.Rpc.Pool.Requests.{commit_udp-Request, server_of}
use solutions.Rpc.Server.{recv_request, on_rpc_recv, on_udp_recv}

module _ (env : Env) (n : ℕ) (r : Reactor) (p : Pool) (it : Item) (t : IsReactor r)
    (here : get_fd_item r n ≡ some it) (ip : Bytes)
    (text_ip : c_string p.context.server_ip ≡ some ip) where
  abbrev passed_on : Bytes → Request
  passed_on bytes = record { from = env.opened; to = server_of env ip p; bytes = bytes }

  -- A message that is not empty goes to the pool as a request with the same bytes, as far as they fit
  -- the buffer. The item keeps its send buffer, and its descriptor goes on waiting for input.
  recv_request-got :
      (is_tcp : Bool) (msg : Bytes)
      → length (fits msg) ≢ 0
      → (r' : Reactor) × (recv_request is_tcp env n (got msg) r p
          ≡ some (pos 0, r', enlist env n p, [], passed_on (fits msg) ∷ []))
        × IsReactor r'
        × (get_fd_item r' n ≡ some (receive msg it))
        × (r'.work_epfd ≡ r.work_epfd)
  unfolding recv_request
  recv_request-got is_tcp msg ne =
      let (r₁, e₁, w₁) = set_fd_item-Wrote (receive msg) r n t (block_of_some r n it here) in
      let here₁ : get_fd_item r₁ n ≡ some (receive msg it) =
        w₁.here ∙ ap (fmap (receive msg)) here in
      let text = take-length (fits msg) (replicate (sr_buffer_len - length (fits msg)) 0) in
      let full : (length (fits msg) == 0) ≡ false = ground arith in
      (
        r₁,
        rw
            (
              transfer-new_socket (count (length (fits msg))) env.sockname n is_tcp,
              e₁,
              here₁,
              full,
              text,
              commit_udp-Request env n (fits msg) ip p text_ip,
            )
            refl,
        w₁.reactor,
        here₁,
        w₁.same_work,
      )

  -- On a reactor in service, a message that is not empty, from a client whose item has a `slen` of at
  -- most 464, is passed on as
  -- far as it fits the buffer: one request from the new UDP socket to the IP, the text of `server_ip` up
  -- to a zero byte that is there, and the port of the pool, and an argument for the client that waits if
  -- `epoll_ctl` succeeds. Of the answer, whatever it is, the client gets only the
  -- first `slen` bytes, the length of what was left to send before, with the words of
  -- `reqpool_parser_cb` behind them; for an idle client, whose `slen` is 0, these words alone.
  pub reply_sent :
      (msg answer : Bytes) (k : ℕ)
      → length (fits msg) ≢ 0
      → it.slen + words ≤ sr_buffer_len
      → (r₁ r₂ r₃ : Reactor) × (on_rpc_recv env n (got msg) r p
          ≡ some (
            pos 0,
            r₁,
            enlist env n p,
            [],
            record {
              from = env.opened;
              to = new_address env.inet ip p.context.server_port;
              bytes = take sr_buffer_len msg;
            }
                ∷ [],
          ))
        × (on_answer (waiting env.opened n) (answered answer) r₁
            ≡ some (r₂, true, ctl_mod r₁.work_epfd (fd n) edge_out ∷ []))
        × (on_send n (took (suc k)) r₂
            ≡ some (
              pos 0,
              r₃,
              send n (take it.slen answer ++ cp_words) ∷ ctl_mod r₂.work_epfd (fd n) edge_in ∷ [],
            ))
        × IsReactor r₃
  unfolding on_rpc_recv
  reply_sent msg answer k ne small =
      let (r₁, e₁, t₁, here₁, _) = recv_request-got true msg ne in
      let it₁ = receive msg it in
      let len = length-take it.slen answer in
      let (r₂, e₂, t₂, here₂, _, _) =
        on_answer-replied r₁ (waiting env.opened n) it₁ answer t₁ here₁ (omega arith)
          (omega (arith, len)) in
      let (r₃, e₃, t₃, _, _) =
        on_send-took r₂ n (replied answer it₁) t₂ here₂ k (λ e. absurd (omega arith))
          (omega (arith, len)) in
      (r₁, r₂, r₃, e₁, e₂, rw (take-replied answer it₁) at e₃, t₃)

module _ (env : Env) (n : ℕ) (r : Reactor) (p : Pool) (it : Item) (t : IsReactor r)
    (here : get_fd_item r n ≡ some it) where
  -- On a reactor in service, an empty datagram takes the server's own UDP socket, which has an item, out
  -- of the poll set and of the table and closes it, as if a peer had closed a connection: the `fd` of its
  -- item is 0, no other item changes, and the reactor is in service.
  pub on_udp_recv-empty :
      (r' : Reactor) × (on_udp_recv env n (got []) r p
        ≡ some (pos 0, r', p, ctl_del r.work_epfd n ∷ close n ∷ [], []))
      × IsReactor r'
      × (get_fd_item r' n ≡ some (with_fd 0 (receive [] it)))
      × ((m : ℕ) → m ≢ n → get_fd_item r' m ≡ get_fd_item r m)
  unfolding on_udp_recv recv_request
  on_udp_recv-empty =
      let (r₁, e₁, w₁) = set_fd_item-Wrote (receive []) r n t (block_of_some r n it here) in
      let here₁ : get_fd_item r₁ n ≡ some (receive [] it) = w₁.here ∙ ap (fmap (receive [])) here in
      let (r₂, e₂, t₂, here₂, there₂) =
        drop_fd-Dropped r₁ n (receive [] it) w₁.reactor here₁ (pos 0) in
      (
        r₂,
        rw (transfer-new_socket (count 0) env.sockname n false, e₁, here₁, e₂, w₁.same_work) refl,
        t₂,
        here₂,
        λ m d. there₂ m d ∙ w₁.there m d,
      )
