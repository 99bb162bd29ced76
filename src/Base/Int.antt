-- ===== src/Base/Int.antt =====
-- Signed integers over the native numbers, as far as the source keeps them.
use Prim.Native.Nat.{ℕ, ◌-◌, ◌^◌}
use medik8s_system_tests.Base.Tests.{ltb, if◌then◌else◌}

-- `negsuc n` is -(n + 1).
pub data ℤ : Type 0 where
  pos : ℕ → ℤ
  negsuc : ℕ → ℤ

-- `int64(n)` of a `uint64`: the same bits, read in two's complement.
unfoldable pub to_int64 : ℕ → ℤ
to_int64 n = if ltb n (2 ^ 63) then pos n else negsuc (2 ^ 64 - n - 1)

-- The bits of an `int64`.
unfoldable pub of_int64 : ℤ → ℕ
of_int64 (pos n) = n
of_int64 (negsuc n) = 2 ^ 64 - n - 1
