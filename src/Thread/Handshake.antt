-- ===== src/Thread/Handshake.antt =====
-- What the two waits of the owner promise, and what a failed `pthread_create` does.
use solutions.Base.{here, next, ◌≤◌, ap, ℕ, ◌+◌, ◌≡◌, refl, ◌∙◌, Bool, true, false, arith}
use solutions.Thread.{
  Owner, creating, constructing, built, joined, destroying, gone, Runner, absent, started, named,
  taken, calling, called, finished, Thread, before_create, Step, create, create_fails, construct,
  join, join_none, drop, drop_joined, destroy, identify, take_cb, release, return_cb, finish, Reach,
}

-- How often the owner has come through a wait, and the new thread through a post.
abbrev waits : Owner → ℕ
waits creating = 0
waits constructing = 0
waits built = 1
waits joined = 1
waits destroying = 1
waits gone = 2

abbrev posts : Runner → ℕ
posts absent = 0
posts started = 0
posts named = 0
posts taken = 0
posts calling = 1
posts called = 1
posts finished = 2

abbrev identified : Runner → Bool
identified absent = false
identified started = false
identified named = true
identified taken = true
identified calling = true
identified called = true
identified finished = true

abbrev holds_cb : Runner → Bool
holds_cb absent = true
holds_cb started = true
holds_cb named = true
holds_cb taken = false
holds_cb calling = false
holds_cb called = false
holds_cb finished = false

-- Each wait uses up a post, and the members follow the new thread.
pub record IsPaired (s : Thread) : Type 0 where
  pub paired : s.sem + waits s.owner ≡ posts s.runner
  pub has_id : s.has_id ≡ identified s.runner
  pub has_cb : s.has_cb ≡ holds_cb s.runner
  pub begun : s.owner ≡ creating → s.runner ≡ absent

Step-IsPaired : {s t : Thread} → Step s t → IsPaired s → IsPaired t
Step-IsPaired {s} (create o) p = record {
  paired = ground (arith, rw (o, p.begun o) at p.paired);
  has_id = rw (p.begun o) at p.has_id;
  has_cb = rw (p.begun o) at p.has_cb;
  begun = λ e. cc;
}
Step-IsPaired {s} (create_fails o) p = record {
  paired = rw o at p.paired;
  has_id = p.has_id;
  has_cb = p.has_cb;
  begun = λ e. cc;
}
Step-IsPaired {s} (construct k o e) p = record {
  paired = omega (arith, rw (o, e) at p.paired);
  has_id = p.has_id;
  has_cb = p.has_cb;
  begun = λ e. cc;
}
Step-IsPaired {s} (join o h r) p = record {
  paired = rw o at p.paired;
  has_id = p.has_id;
  has_cb = p.has_cb;
  begun = λ e. cc;
}
Step-IsPaired {s} (join_none o h) p = record {
  paired = rw o at p.paired;
  has_id = p.has_id;
  has_cb = p.has_cb;
  begun = λ e. cc;
}
Step-IsPaired {s} (drop o) p = record {
  paired = rw o at p.paired;
  has_id = p.has_id;
  has_cb = p.has_cb;
  begun = λ e. cc;
}
Step-IsPaired {s} (drop_joined o) p = record {
  paired = rw o at p.paired;
  has_id = p.has_id;
  has_cb = p.has_cb;
  begun = λ e. cc;
}
Step-IsPaired {s} (destroy k o e) p = record {
  paired = omega (arith, rw (o, e) at p.paired);
  has_id = p.has_id;
  has_cb = p.has_cb;
  begun = λ e. cc;
}
Step-IsPaired {s} (identify r) p = record {
  paired = rw r at p.paired;
  has_id = refl;
  has_cb = rw r at p.has_cb;
  begun = λ e. cc (r, p.begun e);
}
Step-IsPaired {s} (take_cb r) p = record {
  paired = rw r at p.paired;
  has_id = rw r at p.has_id;
  has_cb = refl;
  begun = λ e. cc (r, p.begun e);
}
Step-IsPaired {s} (release r) p = record {
  paired = omega (arith, rw r at p.paired);
  has_id = rw r at p.has_id;
  has_cb = rw r at p.has_cb;
  begun = λ e. cc (r, p.begun e);
}
Step-IsPaired {s} (return_cb r) p = record {
  paired = rw r at p.paired;
  has_id = rw r at p.has_id;
  has_cb = rw r at p.has_cb;
  begun = λ e. cc (r, p.begun e);
}
Step-IsPaired {s} (finish r) p = record {
  paired = omega (arith, rw r at p.paired);
  has_id = rw r at p.has_id;
  has_cb = rw r at p.has_cb;
  begun = λ e. cc (r, p.begun e);
}

Reach-IsPaired : {s t : Thread} → IsPaired s → Reach s t → IsPaired t
Reach-IsPaired h here = h
Reach-IsPaired h (next r st) = Step-IsPaired st (Reach-IsPaired h r)

start-IsPaired : IsPaired before_create
start-IsPaired = record { paired = refl; has_id = refl; has_cb = refl; begun = λ e. refl }

-- The owner is behind the constructor, and not yet behind the destructor.
abbrev pub is_alive : Owner → Bool
is_alive creating = false
is_alive constructing = false
is_alive built = true
is_alive joined = true
is_alive destroying = true
is_alive gone = false

built_posted :
    (o : Owner) (n : ℕ) (r : Runner) → n + waits o ≡ posts r → is_alive o ≡ true → 1 ≤ posts r
built_posted creating n r e a = cc
built_posted constructing n r e a = cc
built_posted built n r e a = omega arith
built_posted joined n r e a = omega arith
built_posted destroying n r e a = omega arith
built_posted gone n r e a = cc

posted_taken : (r : Runner) → 1 ≤ posts r → (identified r ≡ true) × (holds_cb r ≡ false)
posted_taken absent h = absurd (omega arith)
posted_taken started h = absurd (omega arith)
posted_taken named h = absurd (omega arith)
posted_taken taken h = absurd (omega arith)
posted_taken calling h = (refl, refl)
posted_taken called h = (refl, refl)
posted_taken finished h = (refl, refl)

twice_finished : (r : Runner) → 2 ≤ posts r → r ≡ finished
twice_finished absent h = absurd (omega arith)
twice_finished started h = absurd (omega arith)
twice_finished named h = absurd (omega arith)
twice_finished taken h = absurd (omega arith)
twice_finished calling h = absurd (omega arith)
twice_finished called h = absurd (omega arith)
twice_finished finished h = refl

-- In every state that is reached from the start of the constructor, in any interleaving, where the owner
-- is behind the constructor and not behind the destructor, the new thread has set `m_id` and has taken
-- the callback out of the object.
pub Reach-built :
    (t : Thread)
    → Reach before_create t
    → is_alive t.owner ≡ true
    → (t.has_id ≡ true) × (t.has_cb ≡ false)
Reach-built t r a =
    let p = Reach-IsPaired start-IsPaired r in
    let (i, c) = posted_taken t.runner (built_posted t.owner t.sem t.runner p.paired a) in
    (p.has_id ∙ i, p.has_cb ∙ c)

-- In every state that is reached from the start of the constructor, in any interleaving, where the owner
-- is behind the destructor, the callback has returned and the new thread is behind its last use of the
-- object.
pub Reach-gone : (t : Thread) → Reach before_create t → t.owner ≡ gone → t.runner ≡ finished
Reach-gone t r g =
    twice_finished t.runner (omega (arith, rw g at (Reach-IsPaired start-IsPaired r).paired))

-- The constructor waits without a thread that could post.
abbrev IsStuck : Thread → Type 0
IsStuck s = (s.sem ≡ 0) × (s.owner ≡ constructing) × (s.runner ≡ absent)

Step-IsStuck : {s t : Thread} → Step s t → ¬ IsStuck s
Step-IsStuck (create o) h = cc (o, h.1)
Step-IsStuck (create_fails o) h = cc (o, h.1)
Step-IsStuck (construct k o e) h = absurd (omega (arith, h.0))
Step-IsStuck (join o a r) h = cc (o, h.1)
Step-IsStuck (join_none o a) h = cc (o, h.1)
Step-IsStuck (drop o) h = cc (o, h.1)
Step-IsStuck (drop_joined o) h = cc (o, h.1)
Step-IsStuck (destroy k o e) h = cc (o, h.1)
Step-IsStuck (identify r) h = cc (r, h.2)
Step-IsStuck (take_cb r) h = cc (r, h.2)
Step-IsStuck (release r) h = cc (r, h.2)
Step-IsStuck (return_cb r) h = cc (r, h.2)
Step-IsStuck (finish r) h = cc (r, h.2)

Reach-IsStuck : {s t : Thread} → IsStuck s → Reach s t → t ≡ s
Reach-IsStuck h here = refl
Reach-IsStuck h (next r st) = absurd (Step-IsStuck st (rw (Reach-IsStuck h r) h))

-- When `pthread_create` fails, the constructor never returns: it waits for a thread that is not there,
-- before it looks at the result.
pub Reach-create_fails :
    (t : Thread) → Reach (record before_create { owner = constructing }) t → t.owner ≡ constructing
Reach-create_fails t r = ap owner_of (Reach-IsStuck (refl, refl, refl) r)
  where
    owner_of : Thread → Owner
    owner_of s = s.owner
