-- ===== src/Socket/Tests.antt =====
-- Sockets of a system whose addresses are all one number.
use solutions.Base.{ℕ, ◌+◌, ◌*◌, ◌/◌, ◌%◌, ◌^◌, ◌≡◌, refl, true, false, some, [], ◌∷◌, arith, codes}
use solutions.Reactor.{fd}
use solutions.Socket.{
  Inet, Address, Socket, tcp, new_socket, new_address, set_addr, reconnect, in_time,
}
use solutions.Socket.Addresses.{IsSwap, set_addr-new_address}
use solutions.Socket.Failure.{opened_socket}
use solutions.Socket.Reconnect.{reconnect_lem}

abbrev swap : ℕ → ℕ
swap p = p % 256 * 256 + p / 256 % 256

swap-IsSwap : IsSwap swap
swap-IsSwap p h = omega arith

abbrev inet : Inet
inet = record { inet_addr = λ ip. 1; inet_ntoa = λ n. codes "127.0.0.1"; htons = swap }

abbrev local : Address
local = new_address inet (codes "127.0.0.1") 70000

read_back : set_addr inet local.addr local ≡ record local { port = 70000 % 2 ^ 16 }
read_back = set_addr-new_address inet (codes "127.0.0.1") 70000 local swap-IsSwap refl

abbrev blank : Socket
blank = new_socket local 0 true

-- Two connections fail, the third succeeds.
abbrev lost : Socket
lost = record (opened_socket inet tcp (fd 5) (codes "127.0.0.1") 80 blank) {
  remote_addr = some local;
}

reconnect_lem_example :
    (s' : Socket) × (reconnect inet 100 6000 ((100, false) ∷ (900, false) ∷ (2000, true) ∷ []) lost
      ≡ some (some (true, s')))
unfolding in_time
reconnect_lem_example =
    reconnect_lem inet 100 6000 ((100, false) ∷ (900, false) ∷ []) [] (2000, true) lost local refl
      refl ((refl, refl), ((refl, refl), tt)) refl
