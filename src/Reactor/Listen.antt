-- ===== src/Reactor/Listen.antt =====
-- The listening side of lsylar/src/servers.cc: `listen_loop`, `reactor_add_listener` and
-- `reactor_add_udp_server`. The socket that `init_tcp` or `init_udp` opens is an argument; a failed
-- `::accept` or `::socket` is the descriptor -1.
use native.Mathlib.Decide.{ℕ_discrete}
use solutions.Base.{
  map, ℕ, suc, ◌+◌, ◌%◌, ◌≡◌, ◌≢◌, refl, ap, ◌∙◌, Option, none, some, List, [], ◌∷◌, ◌++◌, pos,
  ◌>>=◌, fmap, All,
}
use solutions.Reactor.{
  Fd, err, fd, Item, Block, Reactor, Callback, accept_callback, get_fd_item, set_fd_item, add_fd,
  size_t_mod,
}
use solutions.Reactor.Blocks.{IsAllocator}
use solutions.Reactor.Table.{IsReactor, set_fd_item-Wrote, Added, add_fd-Added, block_of_some}
use solutions.Reactor.Echo.{Call, ctl_add, level_in, edge_in, Outcome, on_accept, Others}

-- Adding a descriptor keeps every item that was there, its own included.
Added-keeps :
    (r : Reactor) (n : ℕ) (r' : Reactor)
    → Added r n r'
    → (m : ℕ) → ((it : Item) × (get_fd_item r m ≡ some it))
    → (it : Item) × (get_fd_item r' m ≡ some it)
Added-keeps r n r' a m (it, h) = elim (ℕ_discrete m n) [
  | yes e ↦ let (new, found, _) = a.item in (new, rw e found)
  | no ne ↦ (it, a.kept m it ne h)
]

-- A descriptor whose item listens, other than the clients.
abbrev pub Listens : Reactor → List ℕ → ℕ → Type 0
Listens r clients n =
    All (λ m. n ≢ suc m) clients
    × ((it : Item) × (get_fd_item r n ≡ some it) × (it.accept_cb ≡ accept_callback))

keep_listening :
    (r r' : Reactor) (m : ℕ) (ms : List ℕ) (es : List (ℕ × ℕ))
    → Added r (suc m) r'
    → All (λ e. Listens r (m ∷ ms) e.0) es
    → All (λ e. Listens r' ms e.0) es
keep_listening r r' m ms [] a h = tt
keep_listening r r' m ms (e ∷ es) a (((ne, others), (it, found, cb)), hs) =
    ((others, (it, a.kept e.0 it ne found, cb)), keep_listening r r' m ms es a hs)

module _ (alloc : ℕ → Option Block) where
  -- The call of `accept_cb` of an item: `accept_callback` with the client that its `::accept` returns, or
  -- another callback.
  pub run_accept : Others → Callback → ℕ → Fd → Reactor → Option Outcome
  run_accept others accept_callback n client r = on_accept alloc n client r
  run_accept others cb n client r = others cb n r

  -- A round of the inner loop of `listen_loop` for each descriptor that is ready.
  pub listen_round : Others → List (ℕ × Fd) → Reactor → Option (Reactor × List Call)
  unfolding run_accept
  listen_round others [] r = some (r, [])
  listen_round others ((n, client) ∷ es) r = do
    it ← get_fd_item r n
    (_, r₁, first) ← run_accept others it.accept_cb n client r
    (r₂, calls) ← listen_round others es r₁
    some (r₂, first ++ calls)

  -- `reactor_add_listener` with the socket that was opened.
  pub reactor_add_listener : Fd → Reactor → Option Outcome
  reactor_add_listener sock r = do
    (_, r') ← add_fd alloc r sock
    some (pos 0, r', ctl_add r.listen_epfd sock level_in ∷ [])

  -- The assignments of `reactor_add_udp_server` to the item of its socket.
  abbrev pub udp_item : ℕ → Callback → Callback → Item → Item
  udp_item n recv_cb send_cb it = record it { fd = n; recv_cb = recv_cb; send_cb = send_cb }

  -- `reactor_add_udp_server` with the socket that was opened.
  pub reactor_add_udp_server : Fd → Callback → Callback → Reactor → Option Outcome
  reactor_add_udp_server err recv_cb send_cb r = none
  reactor_add_udp_server (fd n) recv_cb send_cb r = do
    (_, r₁) ← add_fd alloc r (fd n)
    r₂ ← set_fd_item (udp_item n recv_cb send_cb) r₁ n
    some (pos 0, r₂, ctl_add r.work_epfd (fd n) edge_in ∷ [])

  -- A failed `::accept` is not recognised: -1 passes the test `client == 0`, is added to the poll set
  -- and then written to the item before the first of block 0, outside the block.
  pub on_accept-failed : (n : ℕ) (r : Reactor) → on_accept alloc n err r ≡ none
  unfolding on_accept add_fd
  on_accept-failed n r = refl

  module _ (good : IsAllocator alloc) where
    -- A client with a descriptor above 0 is polled for input and gets its item.
    pub on_accept-Added :
        (n m : ℕ) (r : Reactor)
        → IsReactor r
        → (r' : Reactor) × (on_accept alloc n (fd (suc m)) r
            ≡ some (pos 0, r', ctl_add r.work_epfd (fd (suc m)) edge_in ∷ []))
          × Added r (suc m) r'
    unfolding on_accept
    on_accept-Added n m r t = let (r', e, a) = add_fd-Added alloc good r (suc m) t in (r', rw e, a)

    -- On a reactor in service, with an allocator that provides every block, a round over ready
    -- descriptors, none of them a client of the round, that all have items with `accept_callback`, each
    -- with a client above 0, is served to its end, whatever the other callbacks do; every client
    -- then has an item, every descriptor that had one keeps one, and the reactor is in service.
    pub listen_round-IsReactor :
        (others : Others) (es : List (ℕ × ℕ)) (r : Reactor)
        → IsReactor r
        → All (λ e. Listens r (map (λ (c : ℕ × ℕ). c.1) es) e.0) es
        → (r' : Reactor) × (calls : List Call) × (listen_round others
              (map (λ e. (e.0, fd (suc e.1))) es)
              r
            ≡ some (r', calls))
          × IsReactor r'
          × All (λ e. (it : Item) × (get_fd_item r' (suc e.1) ≡ some it)) es
          × ((m : ℕ)
              → ((it : Item) × (get_fd_item r m ≡ some it))
              → (it : Item) × (get_fd_item r' m ≡ some it))
    unfolding listen_round run_accept
    listen_round-IsReactor others [] r t h = (r, [], refl, t, tt, λ m x. x)
    listen_round-IsReactor others ((n, m) ∷ es) r t ((ne, (it, found, cb)), hs) =
        let (r₁, e₁, a) = on_accept-Added n m r t in
        let (r₂, calls, e₂, t₂, all, keep) =
          listen_round-IsReactor others es r₁ a.reactor
            (keep_listening r r₁ m (map (λ (c : ℕ × ℕ). c.1) es) es a hs) in
        let (new, got, _) = a.item in
        (
          r₂,
          ctl_add r.work_epfd (fd (suc m)) edge_in ∷ calls,
          rw (found, cb, e₁, e₂),
          t₂,
          (keep (suc m) (new, got), all),
          λ k x. keep k (Added-keeps r (suc m) r₁ a k x),
        )

    -- On a reactor in service, with an allocator that provides every block, the socket of a UDP
    -- server gets an item with its own callbacks and is polled for input, the count goes up by one
    -- modulo 2 ^ 64, and the reactor is in service.
    pub reactor_add_udp_server-Added :
        (n : ℕ) (recv_cb send_cb : Callback) (r : Reactor)
        → IsReactor r
        → (r' : Reactor) × (it : Item) × (reactor_add_udp_server (fd n) recv_cb send_cb r
            ≡ some (pos 0, r', ctl_add r.work_epfd (fd n) edge_in ∷ []))
          × (get_fd_item r' n ≡ some (udp_item n recv_cb send_cb it))
          × IsReactor r'
          × (r'.nfd ≡ (r.nfd + 1) % size_t_mod)
    unfolding reactor_add_udp_server
    reactor_add_udp_server-Added n recv_cb send_cb r t =
        let (r₁, e₁, a) = add_fd-Added alloc good r n t in
        let (it, found, _) = a.item in
        let f = udp_item n recv_cb send_cb in
        let (r₂, e₂, w) = set_fd_item-Wrote f r₁ n a.reactor (block_of_some r₁ n it found) in
        (r₂, it, rw (e₁, e₂), w.here ∙ ap (fmap f) found, w.reactor, w.same_nfd ∙ a.counted)
