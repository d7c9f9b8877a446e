-- ===== src/Reactor/Echo/Callbacks.antt =====
-- What the callbacks of the echo server do on each branch.
use solutions.Base.{
  true, none, ℤ, ◌<◌, take-length, length-take, refl, drop, ◌-◌, zero, ltb, negsuc, suc, replicate,
  ◌≤◌, List, ℕ, ◌≡◌, ◌≢◌, ap, ◌∙◌, false, some, [], ◌∷◌, ◌==◌, length, take, Bytes, pos, fmap,
  arith,
}
use solutions.Reactor.{with_fd, fd, Item, Reactor, get_fd_item, sr_buffer_len}
use solutions.Reactor.Table.{del_fd-Deleted, IsReactor, set_fd_item-Wrote, block_of_some}
use solutions.Reactor.Echo.{
  drop_fd, edge_in, with_slen, send, Sent, close, took, on_send, ctl_del, edge_out, ctl_mod, got,
  receive, echo, on_recv,
}

-- The bytes of a message that one `recv` takes.
abbrev pub fits : Bytes → Bytes
fits msg = take sr_buffer_len msg

-- The branch that drops a descriptor with an item.
pub drop_fd-Dropped :
    (r : Reactor) (n : ℕ) (it : Item)
    → IsReactor r
    → get_fd_item r n ≡ some it
    → (code : ℤ)
    → (r' : Reactor) × (drop_fd r n code ≡ some (code, r', ctl_del r.work_epfd n ∷ close n ∷ []))
      × IsReactor r'
      × (get_fd_item r' n ≡ some (with_fd 0 it))
      × ((m : ℕ) → m ≢ n → get_fd_item r' m ≡ get_fd_item r m)
unfolding drop_fd
drop_fd-Dropped r n it t here code =
    let (r', e, d) = del_fd-Deleted r n t (block_of_some r n it here) in
    (r', rw e refl, d.reactor, d.here ∙ ap (fmap (with_fd 0)) here, d.there)

module _ (r : Reactor) (n : ℕ) (it : Item) (t : IsReactor r)
    (here : get_fd_item r n ≡ some it) where
  -- A message that is not empty is copied to the send buffer and the descriptor waits for output.
  -- No other item changes, and neither does the count.
  pub on_recv-got :
      (msg : Bytes)
      → length (fits msg) ≢ 0
      → (r' : Reactor) × (on_recv n (got msg) r
          ≡ some (pos 0, r', ctl_mod r.work_epfd (fd n) edge_out ∷ []))
        × IsReactor r'
        × (get_fd_item r' n ≡ some (echo (receive msg it)))
        × ((m : ℕ) → m ≢ n → get_fd_item r' m ≡ get_fd_item r m)
        × (r'.nfd ≡ r.nfd)
  unfolding on_recv
  on_recv-got msg ne =
      let (r₁, e₁, w₁) = set_fd_item-Wrote (receive msg) r n t (block_of_some r n it here) in
      let here₁ : get_fd_item r₁ n ≡ some (receive msg it) =
        w₁.here ∙ ap (fmap (receive msg)) here in
      let (r₂, e₂, w₂) = set_fd_item-Wrote echo r₁ n w₁.reactor (block_of_some r₁ n _ here₁) in
      let full : (length (fits msg) == 0) ≡ false = ground arith in
      (
        r₂,
        rw (e₁, here₁, full, e₂),
        w₂.reactor,
        w₂.here ∙ ap (fmap echo) here₁,
        λ m d. w₂.there m d ∙ w₁.there m d,
        w₂.same_nfd ∙ w₁.same_nfd,
      )

  -- On a reactor in service, a peer that has closed and whose descriptor has an item is taken out
  -- of the poll set and of the table, and its descriptor is closed; the code is 0, and no other
  -- item changes.
  pub on_recv-closed :
      (r' : Reactor) × (on_recv n (got []) r
        ≡ some (pos 0, r', ctl_del r.work_epfd n ∷ close n ∷ []))
      × IsReactor r'
      × (get_fd_item r' n ≡ some (with_fd 0 (receive [] it)))
      × ((m : ℕ) → m ≢ n → get_fd_item r' m ≡ get_fd_item r m)
  unfolding on_recv
  on_recv-closed =
      let (r₁, e₁, w₁) = set_fd_item-Wrote (receive []) r n t (block_of_some r n it here) in
      let here₁ : get_fd_item r₁ n ≡ some (receive [] it) = w₁.here ∙ ap (fmap (receive [])) here in
      let (r₂, e₂, d₂) = del_fd-Deleted r₁ n w₁.reactor (block_of_some r₁ n _ here₁) in
      (
        r₂,
        rw (e₁, here₁, e₂, w₁.same_work),
        d₂.reactor,
        d₂.here ∙ ap (fmap (with_fd 0)) here₁,
        λ m d. d₂.there m d ∙ w₁.there m d,
      )

  -- With bytes to send, `send_callback` offers exactly the first `slen` bytes of the send buffer. When
  -- some are taken it clears `slen` and waits for input again.
  pub on_send-took :
      (k : ℕ)
      → it.slen ≢ 0
      → it.slen ≤ sr_buffer_len
      → (r' : Reactor) × (on_send n (took (suc k)) r
          ≡ some (
            pos 0,
            r',
            send n (take it.slen it.sbuffer) ∷ ctl_mod r.work_epfd (fd n) edge_in ∷ [],
          ))
        × IsReactor r'
        × (get_fd_item r' n ≡ some (with_slen 0 it))
        × ((m : ℕ) → m ≢ n → get_fd_item r' m ≡ get_fd_item r m)
  unfolding on_send
  on_send-took k ne le =
      let (r₁, e₁, w₁) = set_fd_item-Wrote (with_slen (suc k)) r n t (block_of_some r n it here) in
      let here₁ : get_fd_item r₁ n ≡ some (with_slen (suc k) it) =
        w₁.here ∙ ap (fmap (with_slen (suc k))) here in
      let (r₂, e₂, w₂) =
        set_fd_item-Wrote (with_slen 0) r₁ n w₁.reactor (block_of_some r₁ n _ here₁) in
      let full : (it.slen == 0) ≡ false = ground arith in
      let inside : ltb sr_buffer_len it.slen ≡ false = ground arith in
      let some_taken : (suc k == 0) ≡ false = ground arith in
      (
        r₂,
        rw (here, full, inside, e₁, some_taken, e₂),
        w₂.reactor,
        w₂.here ∙ ap (fmap (with_slen 0)) here₁,
        λ m d. w₂.there m d ∙ w₁.there m d,
      )

  -- When none is taken the descriptor is taken out of the poll set and of the table and is closed; the
  -- code is -1.
  pub on_send-closed :
      it.slen ≢ 0
      → it.slen ≤ sr_buffer_len
      → (r' : Reactor) × (on_send n (took 0) r
          ≡ some (
            negsuc 0,
            r',
            send n (take it.slen it.sbuffer) ∷ ctl_del r.work_epfd n ∷ close n ∷ [],
          ))
        × IsReactor r'
        × (get_fd_item r' n ≡ some (with_fd 0 (with_slen 0 it)))
        × ((m : ℕ) → m ≢ n → get_fd_item r' m ≡ get_fd_item r m)
  unfolding on_send
  on_send-closed ne le =
      let (r₁, e₁, w₁) = set_fd_item-Wrote (with_slen 0) r n t (block_of_some r n it here) in
      let here₁ : get_fd_item r₁ n ≡ some (with_slen 0 it) =
        w₁.here ∙ ap (fmap (with_slen 0)) here in
      let (r₂, e₂, d₂) = del_fd-Deleted r₁ n w₁.reactor (block_of_some r₁ n _ here₁) in
      let full : (it.slen == 0) ≡ false = ground arith in
      let inside : ltb sr_buffer_len it.slen ≡ false = ground arith in
      (
        r₂,
        rw (here, full, inside, e₁, e₂, w₁.same_work),
        d₂.reactor,
        d₂.here ∙ ap (fmap (with_fd 0)) here₁,
        λ m d. d₂.there m d ∙ w₁.there m d,
      )

  -- A length beyond the buffer makes the send read behind it.
  pub on_send-beyond : (result : Sent) → sr_buffer_len < it.slen → on_send n result r ≡ none
  unfolding on_send
  on_send-beyond result over =
      let full : (it.slen == 0) ≡ false = ground arith in
      let outside : ltb sr_buffer_len it.slen ≡ true = ground arith in rw (here, full, outside) refl

  -- With nothing to send, `send_callback` returns -2 and does nothing.
  pub on_send-idle : (result : Sent) → it.slen ≡ 0 → on_send n result r ≡ some (negsuc 1, r, [])
  unfolding on_send
  on_send-idle result e = rw (here, e)

take-short {ℓ} : {A : Type ℓ} (k : ℕ) (xs : List A) → length xs ≤ k → take k xs ≡ xs
take-short zero [] h = refl
take-short zero (x ∷ xs) h = absurd (omega arith)
take-short (suc k) [] h = refl
take-short (suc k) (x ∷ xs) h = ap (◌∷◌ x) (take-short k xs (omega arith))

length-ne-zero {ℓ} : {A : Type ℓ} (xs : List A) → xs ≢ [] → length xs ≢ 0
length-ne-zero [] n = absurd (n refl)
length-ne-zero (x ∷ xs) n = λ e. absurd (omega arith)

-- What the send buffer holds after a message has come and been copied.
pub echo-receive :
    (msg : Bytes) (it : Item)
    → length msg ≤ sr_buffer_len
    → take (echo (receive msg it)).slen (echo (receive msg it)).sbuffer ≡ msg
echo-receive msg it h =
    rw (take-short sr_buffer_len msg h, take-length msg (replicate (sr_buffer_len - length msg) 0))
      (take-length msg (drop (length msg) it.sbuffer))

-- The echo, on a reactor in service: a message that comes in on a descriptor with an item, is not
-- empty and fits the buffer, is offered back to the same peer, byte for byte, by the next
-- `send_callback`; when at least one byte of it is taken, the descriptor waits for input again and
-- the reactor is in service.
pub echo_back :
    (r : Reactor) (n : ℕ) (it : Item) (msg : Bytes) (k : ℕ)
    → IsReactor r
    → get_fd_item r n ≡ some it
    → msg ≢ []
    → length msg ≤ sr_buffer_len
    → (r₁ r₂ : Reactor) × (on_recv n (got msg) r
        ≡ some (pos 0, r₁, ctl_mod r.work_epfd (fd n) edge_out ∷ []))
      × (on_send n (took (suc k)) r₁
          ≡ some (pos 0, r₂, send n msg ∷ ctl_mod r₁.work_epfd (fd n) edge_in ∷ []))
      × IsReactor r₂
echo_back r n it msg k t here ne le =
    let whole = take-short sr_buffer_len msg le in
    let some_bytes : length (fits msg) ≢ 0 = rw whole (length-ne-zero msg ne) in
    let (r₁, e₁, t₁, here₁, _, _) = on_recv-got r n it t here msg some_bytes in
    let (r₂, e₂, t₂, _, _) =
      on_send-took r₁ n (echo (receive msg it)) t₁ here₁ k some_bytes
        (omega (arith, length-take sr_buffer_len msg)) in
    (r₁, r₂, e₁, rw (echo-receive msg it le) at e₂, t₂)
