-- ===== src/Socket/Reconnect.antt =====
-- The loop of `Socket::reconnect`: it ends when its time is over or a connection succeeds.
use solutions.Base.{
  ap, ◌∙◌, ℕ, suc, ◌≡◌, refl, Bool, true, false, not, ◌||◌, ◌&&◌, Option, some, List, [], ◌∷◌, ◌++◌,
  ◌==◌, if◌then◌else◌, length, All, Bool-cases, inl, inr, arith, fmap,
}
use solutions.Socket.{Inet, Address, Socket, connect, Turn, in_time, retry, reconnect, update_addr}
use solutions.Socket.Failure.{check-handled}

-- A turn within the time whose connection fails.
abbrev pub IsFailure : ℕ → ℕ → Turn → Type 0
IsFailure start n_ms t = (in_time start n_ms t.0 ≡ true) × (t.1 ≡ false)

-- A turn that ends the loop: the time is over, or the connection succeeds.
abbrev pub ends : ℕ → ℕ → Turn → Bool
ends start n_ms t = not (in_time start n_ms t.0) || t.1

-- The two outcomes of a connection, where there is a remote address and a handler.
connected :
    (inet : Inet) (o : Option Address) (a : Address) (s : Socket)
    → o ≡ some a
    → connect inet true o s ≡ some (true, record s { remote_addr = some a })
unfolding connect
connected inet o a s e = rw e refl

not_connected :
    (inet : Inet) (o : Option Address) (a : Address) (s : Socket)
    → o ≡ some a
    → s.has_handler ≡ true
    → connect inet false o s
      ≡ some (false, record s { remote_addr = fmap (update_addr inet) s.remote_addr })
unfolding connect
not_connected inet o a s e h = rw e (check-handled false _ h)

later_test :
    (b : Bool) (n : ℕ) (rt : Bool)
    → (if b then true else n == 0 && false) ≡ (if b then true else suc n == 0 && rt)
later_test b n rt = ground arith

retry_lem :
    (inet : Inet) (start n_ms : ℕ) (rt : Bool) (before after : List Turn) (t : Turn) (s : Socket)
    (a : Address)
    → s.has_handler ≡ true
    → s.remote_addr ≡ some a
    → All (IsFailure start n_ms) before
    → ends start n_ms t ≡ true
    → (s' : Socket) × (retry inet start n_ms rt (before ++ t ∷ after) s
        ≡ some (some ((if in_time start n_ms t.0 then true else length before == 0 && rt), s')))
unfolding retry
retry_lem inet start n_ms rt [] after (now, true) s a h r f e =
    elim (Bool-cases (in_time start n_ms now)) [
      | inl i ↦ (record s { remote_addr = some a }, rw (i, connected inet s.remote_addr a s r) refl)
      | inr i ↦ (s, rw i refl)
    ]
retry_lem inet start n_ms rt [] after (now, false) s a h r f e =
    elim (Bool-cases (in_time start n_ms now)) [ inl i ↦ cc (rw i at e) | inr i ↦ (s, rw i refl) ]
retry_lem inet start n_ms rt ((now, ok) ∷ before) after t s a h r f e =
    let next = record s { remote_addr = fmap (update_addr inet) s.remote_addr } in
    let (s', ran) =
      retry_lem inet start n_ms false before after t next (update_addr inet a) h
        (ap (fmap (update_addr inet)) r) f.1 e in
    (
      s',
      rw (f.0.0, f.0.1, not_connected inet s.remote_addr a s r h)
          (ran
            ∙ ap (λ b. some (some (b, s')))
                (later_test (in_time start n_ms t.0) (length before) rt)),
    )

same_test : (b c : Bool) → (if b then true else c && true) ≡ (b || c)
same_test true c = refl
same_test false true = refl
same_test false false = refl

-- `reconnect` of a socket with a handler and a remote address, where the connections of some turns fail
-- within the time and the next turn is too late or connects, ends there. It returns true if that turn
-- connects, false if it is too late; but true if already the first turn is too late.
pub reconnect_lem :
    (inet : Inet) (start n_ms : ℕ) (before after : List Turn) (t : Turn) (s : Socket) (a : Address)
    → s.has_handler ≡ true
    → s.remote_addr ≡ some a
    → All (IsFailure start n_ms) before
    → ends start n_ms t ≡ true
    → (s' : Socket) × (reconnect inet start n_ms (before ++ t ∷ after) s
        ≡ some (some (in_time start n_ms t.0 || length before == 0, s')))
unfolding reconnect
reconnect_lem inet start n_ms before after t s a h r f e =
    let (s', ran) = retry_lem inet start n_ms true before after t s a h r f e in
    (
      s',
      ran ∙ ap (λ b. some (some (b, s'))) (same_test (in_time start n_ms t.0) (length before == 0)),
    )
