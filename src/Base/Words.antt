-- ===== src/Base/Words.antt =====
-- Go's `int64` and `int` as bit patterns below 2 ^ 64, with the wrap-around written out.
use fast_kv_a_lightweight_ke.Base.Tests.{ltb}
use Prim.Native.Nat.{ℕ, ◌+◌, ◌^◌, ◌%◌, ◌<◌}
use mathlib.Core.Bool.{Bool}

abbrev pub Int64 : Type 0
Int64 = ℕ

abbrev pub IsInt64 : Int64 → Type 0
IsInt64 n = n < 2 ^ 64

-- `a + b` on `int64` and `uint64`
unfoldable pub add64 : Int64 → Int64 → Int64
add64 a b = (a + b) % 2 ^ 64

-- `a < b` on `int64`: the sign bit counts negatively.
unfoldable pub less64 : Int64 → Int64 → Bool
less64 a b = ltb ((a + 2 ^ 63) % 2 ^ 64) ((b + 2 ^ 63) % 2 ^ 64)

-- `n > 0` on `int64`
unfoldable pub positive64 : Int64 → Bool
unfolding less64
positive64 n = less64 0 n
