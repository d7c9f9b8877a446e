-- ===== src/Base/Int.antt =====
-- The return codes of the C functions: integers over the native numbers. `negsuc n` is -(n + 1).
use Prim.Native.Nat.{ℕ, ◌-◌, ◌%◌, ◌^◌}
use solutions.Base.Tests.{leb, if◌then◌else◌}

pub data ℤ : Type 0 where
  pos : ℕ → ℤ
  negsuc : ℕ → ℤ

-- An `int` that a `size_t` is converted to.
abbrev pub int_of : ℕ → ℤ
int_of n = if leb (2 ^ 31) (n % 2 ^ 32) then negsuc (2 ^ 32 - 1 - n % 2 ^ 32) else pos (n % 2 ^ 32)
