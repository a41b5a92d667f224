-- ===== src/Prelude/Int.antt =====
-- Signed 64-bit quantities: integers over the native numbers, and their two's complement words.
use Prim.Native.Nat.{ℕ, ◌-◌, ◌<◌, ◌^◌}
use mathlib.Core.Path.{◌≡◌}
use native.Mathlib.Omega.{arith}
use debswarm.Prelude.Tests.{ltb, if◌then◌else◌}

-- `negsuc n` is -(n + 1).
pub data ℤ : Type 0 where
  pos : ℕ → ℤ
  negsuc : ℕ → ℤ

-- The values of an int64.
abbrev pub IsInt64 : ℤ → Type 0
IsInt64 (pos n) = n < 2 ^ 63
IsInt64 (negsuc n) = n < 2 ^ 63

-- uint64(x)
unfoldable pub to_u64 : ℤ → ℕ
to_u64 (pos n) = n
to_u64 (negsuc n) = 2 ^ 64 - 1 - n

-- int64(x)
unfoldable pub to_i64 : ℕ → ℤ
to_i64 w = if ltb w (2 ^ 63) then pos w else negsuc (2 ^ 64 - 1 - w)

pub to_i64-to_u64 : (x : ℤ) → IsInt64 x → to_i64 (to_u64 x) ≡ x
unfolding to_i64 to_u64
to_i64-to_u64 (pos n) h = ground arith
to_i64-to_u64 (negsuc n) h = ground arith

pub to_u64-lt : (x : ℤ) → IsInt64 x → to_u64 x < 2 ^ 64
unfolding to_u64
to_u64-lt (pos n) h = omega arith
to_u64-lt (negsuc n) h = omega arith
