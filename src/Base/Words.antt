-- ===== src/Base/Words.antt =====
-- Machine words: the bounds of Go's fixed-width integers, and the reading of a 64-bit pattern as a
-- signed number.
use Prim.Native.Nat.{ℕ, ◌-◌, ◌^◌}
use azeroth_core_web.Base.Tests.{ltb, if◌then◌else◌}
use azeroth_core_web.Base.Int.{ℤ, pos, negsuc}

abbrev pub u32_mod : ℕ
u32_mod = 2 ^ 32

abbrev pub u64_mod : ℕ
u64_mod = 2 ^ 64

abbrev pub i64_limit : ℕ
i64_limit = 2 ^ 63

-- `int64(x)` of a `uint64` x: the same bit pattern in two's complement.
unfoldable pub to_int64 : ℕ → ℤ
to_int64 x = if ltb x i64_limit then pos x else negsuc (u64_mod - 1 - x)
