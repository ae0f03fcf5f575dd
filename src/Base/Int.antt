-- ===== src/Base/Int.antt =====
-- C's `int`, over the native numbers.
use Prim.Native.Nat.{ℕ, zero, suc, ◌-◌, ◌^◌}
use mathlib.Core.Bool.{Bool, true, false}
use feng.Base.Tests.{leb, ◌==◌, if◌then◌else◌}

pub data ℤ : Type 0 where
  pos negsuc : ℕ → ℤ

-- `INT32_MAX`.
abbrev pub int32_max : ℕ
int32_max = 2 ^ 31 - 1

-- `n + 1`, which wraps.
abbrev pub add_one : ℤ → ℤ
add_one (pos n) = if n == int32_max then negsuc int32_max else pos (suc n)
add_one (negsuc zero) = pos 0
add_one (negsuc (suc n)) = negsuc n

-- `m <= n`.
abbrev pub leb_int : ℤ → ℤ → Bool
leb_int (pos m) (pos n) = leb m n
leb_int (pos m) (negsuc n) = false
leb_int (negsuc m) (pos n) = true
leb_int (negsuc m) (negsuc n) = leb n m
