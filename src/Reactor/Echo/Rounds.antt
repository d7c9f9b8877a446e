-- ===== src/Reactor/Echo/Rounds.antt =====
-- The work loop of an echo server never leaves its table: as long as no `recv` or `send` fails, every
-- round of events is served.
use mathlib.Core.Path.{subst}
use mathlib.Core.Option.{some-injective}
use native.Mathlib.Decide.{ℕ_discrete}
use solutions.Base.{
  ℤ, ℕ, zero, suc, ◌≤◌, ◌≡◌, ◌≢◌, refl, sym, ◌∙◌, Option, none, some, List, [], ◌∷◌, ◌++◌,
  length-take, Bytes, pos, negsuc, All, arith,
}
use solutions.Reactor.{Item, Reactor, recv_callback, send_callback, get_fd_item, sr_buffer_len}
use solutions.Reactor.Table.{IsReactor}
use solutions.Reactor.Echo.{
  Call, Received, recv_error, got, Sent, send_error, took, Outcome, on_recv, on_send, Event, Others,
  event_in, event_out, work_round,
}
use solutions.Reactor.Echo.Callbacks.{
  on_recv-got, on_recv-closed, on_send-took, on_send-closed, on_send-idle,
}

-- An item with the echo callbacks, whose pending output fits its buffer.
pub record IsEcho (it : Item) : Type 0 where
  pub receives : it.recv_cb ≡ recv_callback
  pub sends : it.send_cb ≡ send_callback
  pub pending : it.slen ≤ sr_buffer_len

abbrev pub HasItem : Reactor → ℕ → Type 0
HasItem r n = (it : Item) × (get_fd_item r n ≡ some it)

-- A reactor in service all of whose items are the echo server's.
pub record IsServing (r : Reactor) : Type 0 where
  pub reactor : IsReactor r
  pub items : (n : ℕ) (it : Item) → get_fd_item r n ≡ some it → IsEcho it

-- What a callback may do to the items: write the one of its descriptor.
record Kept (r : Reactor) (n : ℕ) (r' : Reactor) : Type 0 where
  reactor : IsReactor r'
  here : (it : Item) × (get_fd_item r' n ≡ some it) × IsEcho it
  there : (m : ℕ) → m ≢ n → get_fd_item r' m ≡ get_fd_item r m

Kept-IsServing : (r r' : Reactor) (n : ℕ) → Kept r n r' → IsServing r → IsServing r'
Kept-IsServing r r' n k s = record {
  reactor = k.reactor;
  items = λ m it h. elim (ℕ_discrete m n) [
    | yes e ↦
        let (it', found, echo) = k.here in
        subst IsEcho (some-injective _ _ (sym found ∙ (rw e at h))) echo
    | no ne ↦ s.items m it (sym (k.there m ne) ∙ h)
  ];
}

Kept-HasItem : (r r' : Reactor) (n m : ℕ) → Kept r n r' → HasItem r m → HasItem r' m
Kept-HasItem r r' n m k (it, h) = elim (ℕ_discrete m n) [
  | yes e ↦ let (it', found, _) = k.here in (it', rw e found)
  | no ne ↦ (it, k.there m ne ∙ h)
]

-- A callback that ends keeps the items.
abbrev Served : Reactor → ℕ → Option Outcome → Type 0
Served r n o =
    (code : ℤ) × (r' : Reactor) × (calls : List Call) × (o ≡ some (code, r', calls)) × Kept r n r'

module _ (r : Reactor) (n : ℕ) (it : Item) (s : IsServing r)
    (here : get_fd_item r n ≡ some it) where
  on_recv-Served : (msg : Bytes) → Served r n (on_recv n (got msg) r)
  on_recv-Served [] =
      let (r', e, t, h, o) = on_recv-closed r n it s.reactor here in
      let i = s.items n it here in
      (
        pos 0,
        r',
        _,
        e,
        record {
          reactor = t;
          here = (_, h, record { receives = i.receives; sends = i.sends; pending = i.pending });
          there = o;
        },
      )
  on_recv-Served (c ∷ msg) =
      let (r', e, t, h, o, _) =
        on_recv-got r n it s.reactor here (c ∷ msg) (λ e. absurd (omega arith)) in
      let i = s.items n it here in
      (
        pos 0,
        r',
        _,
        e,
        record {
          reactor = t;
          here = (
            _,
            h,
            record {
              receives = i.receives;
              sends = i.sends;
              pending = omega (arith, length-take sr_buffer_len (c ∷ msg));
            },
          );
          there = o;
        },
      )

  on_send-Served : (k : ℕ) → Served r n (on_send n (took k) r)
  on_send-Served k = elim (ℕ_discrete it.slen 0) [
    | yes e ↦ (
      negsuc 1,
      r,
      [],
      on_send-idle r n it s.reactor here (took k) e,
      record { reactor = s.reactor; here = (it, here, s.items n it here); there = λ m d. refl },
    )
    | no ne ↦ sending k ne
  ]
    where
      sending : (k : ℕ) → it.slen ≢ 0 → Served r n (on_send n (took k) r)
      sending zero ne =
          let i = s.items n it here in
          let (r', e, t, h, o) = on_send-closed r n it s.reactor here ne i.pending in
          (
            negsuc 0,
            r',
            _,
            e,
            record {
              reactor = t;
              here =
                  (_, h, record { receives = i.receives; sends = i.sends; pending = omega arith });
              there = o;
            },
          )
      sending (suc k) ne =
          let i = s.items n it here in
          let (r', e, t, h, o) = on_send-took r n it s.reactor here k ne i.pending in
          (
            pos 0,
            r',
            _,
            e,
            record {
              reactor = t;
              here =
                  (_, h, record { receives = i.receives; sends = i.sends; pending = omega arith });
              there = o;
            },
          )

-- No system call of the event fails.
abbrev pub NoError : Event → Type 0
NoError e = (e.input ≢ some recv_error) × (e.output ≢ some send_error)

-- A part of a round that ends, keeps the reactor in service and keeps every descriptor's item.
abbrev Passed : Reactor → Option (Reactor × List Call) → Type 0
Passed r o =
    (r' : Reactor) × (calls : List Call) × (o ≡ some (r', calls))
    × IsServing r'
    × ((m : ℕ) → HasItem r m → HasItem r' m)

module _ (others : Others) where
  event_in-Passed :
      (e : Event) (input : Option Received) (r : Reactor)
      → e.input ≡ input
      → input ≢ some recv_error
      → IsServing r
      → HasItem r e.event_fd
      → Passed r (event_in others e r)
  unfolding event_in
  event_in-Passed e none r q ne s h = (r, [], rw q, s, λ m x. x)
  event_in-Passed e (some recv_error) r q ne s h = absurd (ne refl)
  event_in-Passed e (some (got msg)) r q ne s (it, h) =
      let (code, r', calls, ran, k) = on_recv-Served r e.event_fd it s h msg in
      let i = s.items e.event_fd it h in
      (
        r',
        calls,
        rw (q, h, i.receives, ran),
        Kept-IsServing r r' e.event_fd k s,
        λ m x. Kept-HasItem r r' e.event_fd m k x,
      )

  event_out-Passed :
      (e : Event) (output : Option Sent) (r : Reactor)
      → e.output ≡ output
      → output ≢ some send_error
      → IsServing r
      → HasItem r e.event_fd
      → Passed r (event_out others e r)
  unfolding event_out
  event_out-Passed e none r q ne s h = (r, [], rw q, s, λ m x. x)
  event_out-Passed e (some send_error) r q ne s h = absurd (ne refl)
  event_out-Passed e (some (took n)) r q ne s (it, h) =
      let (code, r', calls, ran, k) = on_send-Served r e.event_fd it s h n in
      let i = s.items e.event_fd it h in
      (
        r',
        calls,
        rw (q, h, i.sends, ran),
        Kept-IsServing r r' e.event_fd k s,
        λ m x. Kept-HasItem r r' e.event_fd m k x,
      )

  All-HasItem :
      (r r' : Reactor) (es : List Event)
      → ((m : ℕ) → HasItem r m → HasItem r' m)
      → All (λ e. HasItem r e.event_fd × NoError e) es
      → All (λ e. HasItem r' e.event_fd × NoError e) es
  All-HasItem r r' [] f h = tt
  All-HasItem r r' (e ∷ es) f ((h, ok), hs) = ((f e.event_fd h, ok), All-HasItem r r' es f hs)

  -- On a reactor in service, all of whose items are the echo server's, a round over events of
  -- descriptors that have items, none of whose calls of `recv` and `send` fails, is served to its
  -- end, whatever the other callbacks do: no access leaves the table, and the reactor stays in
  -- service.
  pub work_round-IsServing :
      (es : List Event) (r : Reactor)
      → IsServing r
      → All (λ e. HasItem r e.event_fd × NoError e) es
      → (r' : Reactor) × (calls : List Call) × (work_round others es r ≡ some (r', calls))
        × IsServing r'
  unfolding work_round
  work_round-IsServing [] r s h = (r, [], refl, s)
  work_round-IsServing (e ∷ es) r s (((it, found), ok), hs) =
      let (r₁, c₁, e₁, s₁, f₁) = event_in-Passed e e.input r refl ok.0 s (it, found) in
      let (r₂, c₂, e₂, s₂, f₂) =
        event_out-Passed e e.output r₁ refl ok.1 s₁ (f₁ e.event_fd (it, found)) in
      let (r₃, c₃, e₃, s₃) =
        work_round-IsServing es r₂ s₂ (All-HasItem r r₂ es (λ m x. f₂ m (f₁ m x)) hs) in
      (r₃, c₁ ++ (c₂ ++ c₃), rw (found, e₁, e₂, e₃), s₃)
