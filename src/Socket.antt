-- ===== src/Socket.antt =====
-- lsylar/src/Socket.cc, lsylar/include/Socket.h and ErrHandler.h: addresses, the sockets of the operating
-- system behind `PosixSocketApi`, and the class `Socket`. The results of the system calls are arguments.
-- `none` is undefined behaviour: a member of a null `m_error_handler` or of a null address. The file
-- descriptor -1 is `err`. Output, the modes and options of a descriptor, and the leak of the descriptor
-- of a `TcpSocketApi` that is replaced are left out.
pub mod Addresses
pub mod Failure
pub mod Reconnect
mod Tests
use solutions.Base.{
  ℕ, zero, suc, ◌+◌, ◌-◌, ◌%◌, ◌^◌, Bool, true, false, not, ◌&&◌, Option, none, some, List, [], ◌∷◌,
  ◌==◌, if◌then◌else◌, leb, ltb, Bytes, ◌>>=◌, fmap,
}
use solutions.Reactor.{Fd, err, fd}

-- `sockaddr_in`: the address and the port in network order.
pub record SockaddrIn : Type 0 where
  pub s_addr : ℕ
  pub sin_port : ℕ

-- `IPv4Address`, with the members of `IPAddress`.
pub record Address : Type 0 where
  pub ip : Bytes
  pub port : ℕ
  pub addr : SockaddrIn

-- `inet_addr`, `inet_ntoa` and `htons` of the operating system.
pub record Inet : Type 0 where
  pub inet_addr : Bytes → ℕ
  pub inet_ntoa : ℕ → Bytes
  pub htons : ℕ → ℕ

module _ (inet : Inet) where
  -- `IPv4Address::set_port`. The parameter of `htons` has 16 bits.
  pub set_port : ℕ → Address → Address
  set_port port a = record a {
    port = port;
    addr = record a.addr { sin_port = inet.htons (port % 2 ^ 16) };
  }

  -- `IPv4Address::set_ip`.
  pub set_ip : Bytes → Address → Address
  set_ip ip a = record a { ip = ip; addr = record a.addr { s_addr = inet.inet_addr ip } }

  -- `IPv4Address::update_addr`.
  pub update_addr : Address → Address
  update_addr a = record a { ip = inet.inet_ntoa a.addr.s_addr; port = inet.htons a.addr.sin_port }

  -- `IPv4Address::set_addr`.
  pub set_addr : SockaddrIn → Address → Address
  set_addr addr a = update_addr (record a { addr = addr })

  -- A new `IPv4Address` with an address and a port.
  abbrev pub new_address : Bytes → ℕ → Address
  new_address ip port =
      set_port port
        (set_ip ip (record { ip = []; port = 0; addr = record { s_addr = 0; sin_port = 0 } }))

-- The class behind a `PosixSocketApi`.
pub data Api : Type 0 where
  tcp udp : Api

-- `Socket`: the class and the `m_sock` of its `m_posix_api`, whether `m_error_handler` is set, and the
-- two addresses.
pub record Socket : Type 0 where
  pub api : Api
  pub sock : Fd
  pub has_handler : Bool
  pub remote_addr : Option Address
  pub local_addr : Option Address

-- What `::send`, `::sendto`, `::recv` and `::recvfrom` return: -1, or a number of bytes.
pub data Count : Type 0 where
  failed : Count
  count : ℕ → Count

-- The result in a `size_t`.
abbrev pub size_of : Count → ℕ
size_of failed = 2 ^ 64 - 1
size_of (count n) = n

abbrev pub is_count : Count → Bool
is_count failed = false
is_count (count n) = true

abbrev pub is_fd : Fd → Bool
is_fd err = false
is_fd (fd n) = true

-- `m_error_handler->handle_error` where the result `rt` is false.
pub check : Bool → Socket → Option (Bool × Socket)
check rt s = if not rt && not s.has_handler then none else some (rt, s)

-- `Socket::Socket(fd, is_tcp)`.
pub new_socket : Address → ℕ → Bool → Socket
new_socket blank n is_tcp = record {
  api = if is_tcp then tcp else udp;
  sock = fd n;
  has_handler = false;
  remote_addr = if is_tcp then none else some blank;
  local_addr = none;
}

-- `Socket::socket` with the result of `::socket`.
pub socket : Fd → Socket → Option (Bool × Socket)
socket opened s = check (is_fd opened) (record s { sock = opened })

-- `PosixSocketApi::bind` with whether `::bind` returned 0. For a null address the test is `rt = ::bind()`.
pub posix_bind : Bool → Option Address → Bool
posix_bind bound none = not bound
posix_bind bound (some a) = bound

-- `Socket::bind(Address::ptr)`; `sockname` is what `getsockname` gives.
pub bind : Address → Bool → Option Address → Socket → Option (Bool × Socket)
bind sockname bound local s =
    if posix_bind bound local
    then some
        (true, record s { local_addr = (elim local [ none ↦ some sockname | some a ↦ some a ]) })
    else check false s

-- `Socket::listen`.
pub listen : Bool → Socket → Option (Bool × Socket)
listen listening s = check listening s

-- `Socket::accept` with the result of `::accept`: the result, and what the socket `ans` becomes.
pub accept : Fd → Socket → Socket → Option (Bool × Socket)
accept client s ans = do
  (rt, _) ← check (is_fd client) s
  some (rt, record ans { api = tcp; sock = client; has_handler = true })

-- Whether `PosixSocketApi::send` and `recv` can make their call: `sendto` and `recvfrom` take the address
-- of `m_remote_addr`.
pub posix_ready : Api → Option Address → Bool
posix_ready tcp addr = true
posix_ready udp none = false
posix_ready udp (some a) = true

-- `Socket::send` and the part of `Socket::recv` before the reconnection: whether it succeeded, and the
-- value of `size` then. An address argument replaces the remote address.
pub transfer : Count → Option Address → Socket → Option (Bool × ℕ × Socket)
transfer result addr s =
    let s' = record s { remote_addr = (elim addr [ none ↦ s.remote_addr | some a ↦ some a ]) } in
    if posix_ready s'.api s'.remote_addr
    then (do (rt, s₂) ← check (is_count result) s'; some (rt, size_of result, s₂))
    else none

-- `Socket::close` with whether `::close` returned 0.
pub close : Bool → Socket → Option (Bool × Socket)
close closed s = elim s.sock [
  | err ↦ check closed (record s { sock = fd 0 })
  | fd n ↦ if n == 0 then some (true, s) else check closed (record s { sock = fd 0 })
]

module _ (inet : Inet) where
  -- `Socket::connect(Address::ptr)`. `PosixSocketApi::connect` takes the address of its argument. A
  -- failure dumps the remote address, which brings it up to date.
  pub connect : Bool → Option Address → Socket → Option (Bool × Socket)
  connect connected none s = none
  connect connected (some a) s =
      if connected
      then some (true, record s { remote_addr = some a })
      else check false (record s { remote_addr = fmap (update_addr inet) s.remote_addr })

  -- `Socket::bind(ip, port)`.
  pub bind_ip : Address → Bool → Bytes → ℕ → Socket → Option (Bool × Socket)
  bind_ip sockname bound ip port s =
      let local = some (new_address inet ip port) in
      bind sockname bound local (record s { local_addr = local })

  -- `Socket::connect(ip, port)`.
  pub connect_ip : Bool → Bytes → ℕ → Socket → Option (Bool × Socket)
  connect_ip connected ip port s =
      let remote = some (new_address inet ip port) in
      connect connected remote (record s { remote_addr = remote })

  -- `Socket::init_tcp`. The results of `socket` and of `bind` are not used.
  pub init_tcp : Address → Fd → Bool → Bytes → ℕ → Socket → Option (Bool × Socket)
  init_tcp sockname opened bound ip port s = do
    let s₁ = record s {
      api = tcp;
      sock = fd 0;
      has_handler = true;
      local_addr = some (new_address inet ip port);
    }
    (_, s₂) ← socket opened s₁
    if port == 0
        then some (true, s₂)
        else (do (_, s₃) ← bind_ip sockname bound ip port s₂; some (true, s₃))

  -- `Socket::init_udp`. The result of `socket` is not used.
  pub init_udp : Address → Fd → Bool → Bytes → ℕ → Socket → Option (Bool × Socket)
  init_udp sockname opened bound ip port s = do
    let s₁ = record s {
      api = udp;
      sock = fd 0;
      has_handler = true;
      local_addr = some (new_address inet ip port);
    }
    (_, s₂) ← socket opened s₁
    if port == 0 then some (true, s₂) else bind_ip sockname bound ip port s₂

-- One turn of the loop of `Socket::reconnect`: what `clock` returned, and whether `::connect` succeeded.
abbrev pub Turn : Type 0
Turn = ℕ × Bool

-- `clock() - start < nMs`, which compares unsigned numbers of 64 bits.
pub in_time : ℕ → ℕ → ℕ → Bool
in_time start n_ms now = ltb ((now + 2 ^ 64 - start) % 2 ^ 64) n_ms

-- A run of a loop over the turns so far: undefined, still running, or done.
abbrev pub Loop : Type 0 → Type 0
Loop A = Option (Option A)

module _ (inet : Inet) where
  -- The loop of `Socket::reconnect` from the clock `start`, with `rt` as it stands.
  pub retry : ℕ → ℕ → Bool → List Turn → Socket → Loop (Bool × Socket)
  retry start n_ms rt [] s = some none
  retry start n_ms rt ((now, connected) ∷ turns) s =
      if in_time start n_ms now
      then (do
        (ok, s') ← connect inet connected s.remote_addr s
        if ok then some (some (true, s')) else retry start n_ms false turns s')
      else some (some (rt, s))

  -- `Socket::reconnect`.
  pub reconnect : ℕ → ℕ → List Turn → Socket → Loop (Bool × Socket)
  reconnect start n_ms turns s = retry start n_ms true turns s

  -- `Socket::recv`: a failure is followed by a reconnection, whose result is not used.
  pub recv : Count → Option Address → ℕ → List Turn → Socket → Loop (Bool × ℕ × Socket)
  recv result addr start turns s = do
    (rt, size, s₁) ← transfer result addr s
    if rt
        then some (some (true, size, s₁))
        else (do done ← reconnect start 6000 turns s₁; some (fmap (λ r. (false, size, r.1)) done))
