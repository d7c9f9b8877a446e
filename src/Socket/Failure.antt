-- ===== src/Socket/Failure.antt =====
-- Failed system calls: which of them a caller learns of, and which are undefined.
use solutions.Base.{
  ℕ, ◌≡◌, refl, Bool, true, false, ◌||◌, none, some, Bytes, ◌==◌, if◌then◌else◌, Bool-cases, inl,
  inr,
}
use solutions.Reactor.{Fd}
use solutions.Socket.{
  Inet, Address, Socket, Api, tcp, udp, Count, failed, count, size_of, is_count, is_fd, check,
  new_socket, new_address, socket, posix_bind, bind, bind_ip, init_tcp, init_udp, posix_ready,
  transfer,
}

-- With a handler, a failed call is a value.
pub check-handled : (rt : Bool) (s : Socket) → s.has_handler ≡ true → check rt s ≡ some (rt, s)
unfolding check
check-handled true s h = refl
check-handled false s h = rw h refl

bind_ip-handled :
    (inet : Inet) (sockname : Address) (bound : Bool) (ip : Bytes) (port : ℕ) (s : Socket)
    → s.has_handler ≡ true
    → bind_ip inet sockname bound ip port s
      ≡ some (bound, record s { local_addr = some (new_address inet ip port) })
unfolding bind_ip bind posix_bind
bind_ip-handled inet sockname true ip port s h = refl
bind_ip-handled inet sockname false ip port s h =
    check-handled false (record s { local_addr = some (new_address inet ip port) }) h

-- What `init_tcp` and `init_udp` leave behind.
abbrev pub opened_socket : Inet → Api → Fd → Bytes → ℕ → Socket → Socket
opened_socket inet api opened ip port s = record s {
  api = api;
  sock = opened;
  has_handler = true;
  local_addr = some (new_address inet ip port);
}

module _ (inet : Inet) (sockname : Address) (opened : Fd) (bound : Bool) (ip : Bytes) (port : ℕ)
    (s : Socket) where
  -- `init_tcp` reports success and keeps what `::socket` returned, whether `::socket` and `::bind`
  -- succeeded or not. The socket has its error handler then.
  pub init_tcp-true :
      init_tcp inet sockname opened bound ip port s
      ≡ some (true, opened_socket inet tcp opened ip port s)
  unfolding init_tcp socket
  init_tcp-true = elim (Bool-cases (port == 0)) [
    | inl z ↦
        rw (check-handled (is_fd opened) (opened_socket inet tcp opened ip port s) refl, z) refl
    | inr z ↦
        rw
          (
            check-handled (is_fd opened) (opened_socket inet tcp opened ip port s) refl,
            z,
            bind_ip-handled inet sockname bound ip port (opened_socket inet tcp opened ip port s)
                refl,
          )
          refl
  ]

  -- `init_udp` reports whether `::bind` succeeded, where it is called, but not whether `::socket` did.
  pub init_udp-bound :
      init_udp inet sockname opened bound ip port s
      ≡ some (port == 0 || bound, opened_socket inet udp opened ip port s)
  unfolding init_udp socket
  init_udp-bound = elim (Bool-cases (port == 0)) [
    | inl z ↦
        rw (check-handled (is_fd opened) (opened_socket inet udp opened ip port s) refl, z) refl
    | inr z ↦
        rw
          (
            check-handled (is_fd opened) (opened_socket inet udp opened ip port s) refl,
            z,
            bind_ip-handled inet sockname bound ip port (opened_socket inet udp opened ip port s)
                refl,
          )
          refl
  ]

posix_ready-some : (api : Api) (a : Address) → posix_ready api (some a) ≡ true
unfolding posix_ready
posix_ready-some tcp a = refl
posix_ready-some udp a = refl

-- On a socket with a handler and a remote address, every result of `::send` or `::recv` is a value:
-- whether it was a count, and the count, or 2 ^ 64 - 1 for a failure.
pub transfer-handled :
    (result : Count) (s : Socket) (a : Address)
    → s.has_handler ≡ true
    → s.remote_addr ≡ some a
    → transfer result none s ≡ some (is_count result, size_of result, s)
unfolding transfer
transfer-handled result s a h r =
    rw (r, posix_ready-some s.api a, ← r, check-handled (is_count result) s h) refl

-- On a `Socket` made from a descriptor, which has no error handler, a transfer that succeeds gives its
-- count, and one that fails calls a member of a null pointer.
pub transfer-new_socket :
    (result : Count) (blank : Address) (n : ℕ) (is_tcp : Bool)
    → transfer result none (new_socket blank n is_tcp)
      ≡ (if is_count result then some (true, size_of result, new_socket blank n is_tcp) else none)
unfolding transfer new_socket posix_ready check
transfer-new_socket failed blank n true = refl
transfer-new_socket failed blank n false = refl
transfer-new_socket (count k) blank n true = refl
transfer-new_socket (count k) blank n false = refl
