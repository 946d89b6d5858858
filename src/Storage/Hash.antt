-- ===== src/Storage/Hash.antt =====
-- `getShardIndex` of storage.go over `hash/fnv`.
use fast_kv_a_lightweight_ke.Base.{ℕ, ◌*◌, ◌%◌, ◌^◌, ◌<◌, foldl, arith}
use fast_kv_a_lightweight_ke.Base.Bytes.{Bytes}
use Prim.Native.Nat.{bit_xor}

abbrev pub shard_count : ℕ
shard_count = 256

-- One byte of FNV-1a over 32 bits: xor, then multiply by the prime.
fnv_step : ℕ → ℕ → ℕ
fnv_step h byte = bit_xor h byte * 16777619 % 2 ^ 32

fnv32a : Bytes → ℕ
unfolding fnv_step
fnv32a = foldl fnv_step 2166136261

unfoldable pub shard_index : Bytes → ℕ
unfolding fnv32a
shard_index key = fnv32a key % shard_count

-- Every key has a shard: the index is in the array's range.
pub shard_index-lt-shard_count : (key : Bytes) → shard_index key < shard_count
unfolding shard_index
shard_index-lt-shard_count key = omega arith
