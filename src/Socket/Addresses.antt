-- ===== src/Socket/Addresses.antt =====
-- Addresses: what is written to a `sockaddr_in` and read back.
use solutions.Base.{ℕ, ◌%◌, ◌^◌, ◌<◌, ◌≡◌, refl, arith, Bytes}
use solutions.Socket.{Inet, Address, set_port, set_ip, update_addr, set_addr, new_address}

-- What `htons` promises: on 16 bits it is its own inverse.
abbrev pub IsSwap : (ℕ → ℕ) → Type 0
IsSwap htons = (p : ℕ) → p < 2 ^ 16 → htons (htons p) ≡ p

-- The address that an IP and a port make is read back from its `sockaddr_in`, if `inet_ntoa` prints the
-- number of that IP as the same IP: the IP is the same, and the port is the port modulo 2 ^ 16, also
-- where the member `m_port` held more.
pub set_addr-new_address :
    (inet : Inet) (ip : Bytes) (port : ℕ) (old : Address)
    → IsSwap inet.htons
    → inet.inet_ntoa (inet.inet_addr ip) ≡ ip
    → set_addr inet (new_address inet ip port).addr old
      ≡ record (new_address inet ip port) { port = port % 2 ^ 16 }
unfolding set_addr update_addr set_port set_ip
set_addr-new_address inet ip port old swap same = rw (swap (port % 2 ^ 16) (omega arith), same) refl
