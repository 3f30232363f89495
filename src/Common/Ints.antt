-- ===== src/Common/Ints.antt =====
-- The type `int` of the C++ code.
use Prim.Native.Nat.{ℕ, ◌-◌, ◌%◌, ◌^◌}
use mathlib.Core.Bool.{Bool, true, false}
use rocsift_glog_fork.Common.Tests.{if◌then◌else◌, ltb, leb}

pub data ℤ : Type 0 where
  pos negsuc : ℕ → ℤ

-- `int(n)` of a `size_t`, and the `uint64_t` of an `int`.
unfoldable pub int_of : ℕ → ℤ
int_of n = let m = n % 2 ^ 32 in if ltb m (2 ^ 31) then pos m else negsuc (2 ^ 32 - 1 - m)

abbrev pub uint64_of : ℤ → ℕ
uint64_of (pos n) = n
uint64_of (negsuc n) = 2 ^ 64 - 1 - n

-- `n >= m`
abbrev pub geq : ℤ → ℤ → Bool
geq (pos n) (pos m) = leb m n
geq (pos n) (negsuc m) = true
geq (negsuc n) (pos m) = false
geq (negsuc n) (negsuc m) = leb n m
