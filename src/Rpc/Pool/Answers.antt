-- ===== src/Rpc/Pool/Answers.antt =====
-- The pool's thread: what an answer leaves in the item of its client, and how many answers fit.
use solutions.Base.{
  take-length, ℕ, ◌+◌, ◌-◌, ◌*◌, ◌≤◌, ◌<◌, ◌≡◌, ◌≢◌, refl, ap, sym, ◌∙◌, true, false, none, some,
  List, [], ◌∷◌, ◌++◌, append_assoc, arith, length, length-append, length-take, take, drop,
  replicate, ltb, Bytes, fmap, All, map,
}
use native.Mathlib.Decide.{dec_lt}
use solutions.Reactor.{fd, Item, Reactor, get_fd_item, sr_buffer_len}
use solutions.Reactor.Table.{IsReactor, set_fd_item-Wrote, block_of_some}
use solutions.Reactor.Echo.{Call, ctl_mod, edge_out}
use solutions.Rpc.Pool.{
  Eparg, Answer, recv_failed, answered, take_answer, cp_words, add_words, parser_cb, on_answer,
  answer_round,
}

-- An item after an answer.
abbrev pub replied : Bytes → Item → Item
replied msg it = add_words (take_answer (answered msg) it)

abbrev pub words : ℕ
words = 48

length-cp_words : length cp_words ≡ words
length-cp_words = refl

-- The text of a buffer that begins with `b` once `cp` is written behind it.
sent_text :
    (b z d rest cp : Bytes)
    → take (length b + length cp) (take (length b) ((b ++ z) ++ d) ++ (cp ++ rest)) ≡ b ++ cp
sent_text b z d rest cp =
    let whole : length b + length cp ≡ length (b ++ cp) = omega (arith, length-append b cp) in
    rw (append_assoc b z d, take-length b (z ++ d), whole, sym (append_assoc b cp rest))
      (take-length (b ++ cp) rest)

-- What stands in the send buffer then: as much of the answer as `slen` let in, and the words.
pub take-replied :
    (msg : Bytes) (it : Item)
    → take (replied msg it).slen (replied msg it).sbuffer ≡ take it.slen msg ++ cp_words
take-replied msg it =
    sent_text (take it.slen msg) (replicate (it.slen - length (take it.slen msg)) 0)
      (drop it.slen it.sbuffer) _ cp_words

module _ (r : Reactor) (e : Eparg) (it : Item) (msg : Bytes) (t : IsReactor r)
    (here : get_fd_item r e.target ≡ some it) (small : it.slen ≤ sr_buffer_len) where
  -- An answer of which as much as `slen` lets in fits with the words is put into the send buffer of the
  -- client, whose descriptor then waits for output; no other item changes.
  pub on_answer-replied :
      length (take it.slen msg) + words ≤ sr_buffer_len
      → (r' : Reactor) × (on_answer e (answered msg) r
          ≡ some (r', true, ctl_mod r.work_epfd (fd e.ctx_fd) edge_out ∷ []))
        × IsReactor r'
        × (get_fd_item r' e.target ≡ some (replied msg it))
        × ((m : ℕ) → m ≢ e.target → get_fd_item r' m ≡ get_fd_item r m)
        × (r'.work_epfd ≡ r.work_epfd)
  unfolding on_answer parser_cb
  on_answer-replied fits =
      let f = take_answer (answered msg) in
      let (r₁, e₁, w₁) = set_fd_item-Wrote f r e.target t (block_of_some r e.target it here) in
      let here₁ : get_fd_item r₁ e.target ≡ some (f it) = w₁.here ∙ ap (fmap f) here in
      let (r₂, e₂, w₂) =
        set_fd_item-Wrote add_words r₁ e.target w₁.reactor
          (block_of_some r₁ e.target (f it) here₁) in
      let inside : ltb sr_buffer_len it.slen ≡ false = ground arith in
      let room : ltb sr_buffer_len (length (take it.slen msg) + words) ≡ false = ground arith in
      (
        r₂,
        rw (here, inside, e₁, here₁, room, e₂, w₁.same_work) refl,
        w₂.reactor,
        w₂.here ∙ ap (fmap add_words) here₁,
        λ m d. w₂.there m d ∙ w₁.there m d,
        w₂.same_work ∙ w₁.same_work,
      )

  -- If it does not fit, the copy of the words goes behind the send buffer.
  pub on_answer-overflow :
      sr_buffer_len < length (take it.slen msg) + words → on_answer e (answered msg) r ≡ none
  unfolding on_answer parser_cb
  on_answer-overflow over =
      let f = take_answer (answered msg) in
      let (r₁, e₁, w₁) = set_fd_item-Wrote f r e.target t (block_of_some r e.target it here) in
      let here₁ : get_fd_item r₁ e.target ≡ some (f it) = w₁.here ∙ ap (fmap f) here in
      let inside : ltb sr_buffer_len it.slen ≡ false = ground arith in
      let full : ltb sr_buffer_len (length (take it.slen msg) + words) ≡ true = ground arith in
      rw (here, inside, e₁, here₁, full) refl

-- After a failed `recv` the item's length is that of an error in a `size_t`.
pub on_answer-recv_failed :
    (r : Reactor) (e : Eparg) (it : Item)
    → IsReactor r
    → get_fd_item r e.target ≡ some it
    → it.slen ≤ sr_buffer_len
    → (r' : Reactor) × (on_answer e recv_failed r ≡ some (r', false, []))
      × IsReactor r'
      × (get_fd_item r' e.target ≡ some (take_answer recv_failed it))
unfolding on_answer
on_answer-recv_failed r e it t here small =
    let f = take_answer recv_failed in
    let (r₁, e₁, w₁) = set_fd_item-Wrote f r e.target t (block_of_some r e.target it here) in
    let inside : ltb sr_buffer_len it.slen ≡ false = ground arith in
    (r₁, rw (here, inside, e₁) refl, w₁.reactor, w₁.here ∙ ap (fmap f) here)

-- The events of sockets that have received a message each.
abbrev pub events : List (Eparg × Bytes) → List (Eparg × Answer)
events es = map (λ x. (x.0, answered x.1)) es

module _ (n : ℕ) where
  -- Answers for one client, none sent on between them, are all taken if `slen` and 48 bytes for each
  -- are at most 512; the client's item is still there then, with a `slen` of at most as much.
  pub answer_round-fits :
      (es : List (Eparg × Bytes)) (r : Reactor) (it : Item)
      → IsReactor r
      → get_fd_item r n ≡ some it
      → All (λ x. x.0.target ≡ n) es
      → it.slen + words * length es ≤ sr_buffer_len
      → (r' : Reactor) × (calls : List Call) × (it' : Item) × (answer_round (events es) r
          ≡ some (r', calls))
        × IsReactor r'
        × (get_fd_item r' n ≡ some it')
        × (it'.slen ≤ it.slen + words * length es)
  unfolding answer_round
  answer_round-fits [] r it t here h small = (r, [], it, refl, t, here, omega arith)
  answer_round-fits ((e, msg) ∷ es) r it t here (q, h) small =
      let at_e : get_fd_item r e.target ≡ some it = rw q here in
      let len = length-take it.slen msg in
      let (r₁, e₁, t₁, here₁, _, _) =
        on_answer-replied r e it msg t at_e (omega arith) (omega (arith, len)) in
      let (r₂, calls, it₂, e₂, t₂, here₂, le) =
        answer_round-fits es r₁ (replied msg it) t₁ (rw⁻¹ q here₁) h (omega (arith, len)) in
      (
        r₂,
        ctl_mod r.work_epfd (fd e.ctx_fd) edge_out ∷ calls,
        it₂,
        rw (e₁, e₂) refl,
        t₂,
        here₂,
        omega (arith, len),
      )

  -- Answers of at least 512 bytes for one client, none sent on between them, of which `slen` and 48
  -- bytes for each are more than 512, make the pool's thread write behind the send buffer.
  pub answer_round-overflow :
      (es : List (Eparg × Bytes)) (r : Reactor) (it : Item)
      → IsReactor r
      → get_fd_item r n ≡ some it
      → All (λ x. (x.0.target ≡ n) × (sr_buffer_len ≤ length x.1)) es
      → it.slen ≤ sr_buffer_len
      → sr_buffer_len < it.slen + words * length es
      → answer_round (events es) r ≡ none
  unfolding answer_round
  answer_round-overflow [] r it t here h small over = absurd (omega arith)
  answer_round-overflow ((e, msg) ∷ es) r it t here ((q, long), h) small over =
      let at_e : get_fd_item r e.target ≡ some it = rw q here in
      let len = length-take it.slen msg in
      elim (dec_lt sr_buffer_len (it.slen + words)) [
        | yes full ↦ rw (on_answer-overflow r e it msg t at_e small (omega (arith, len))) refl
        | no room ↦
            let (r₁, e₁, t₁, here₁, _, _) =
              on_answer-replied r e it msg t at_e small (omega (arith, len)) in
            let rest =
              answer_round-overflow es r₁ (replied msg it) t₁ (rw⁻¹ q here₁) h (omega (arith, len))
                (omega (arith, len)) in
            rw (e₁, rest) refl
      ]
