-- ===== src/Prelude/Signed.antt =====
-- Go's signed integers, for values that no operation brings near the ends of their range.
use Prim.Native.Nat.{ℕ}
use mathlib.Core.Bool.{Bool, true, false}
use docker_net_dhcp_lab.Prelude.Tests.{nat_eq, ltb}

-- `negsuc n` is -(n + 1).
pub data ℤ : Type 0 where
  pos : ℕ → ℤ
  negsuc : ℕ → ℤ

-- `int64(n) == z`
abbrev pub is_pos : ℕ → ℤ → Bool
is_pos n (pos m) = nat_eq n m
is_pos n (negsuc m) = false

-- `int64(n) > z`
abbrev pub exceeds : ℕ → ℤ → Bool
exceeds n (pos m) = ltb m n
exceeds n (negsuc m) = true
