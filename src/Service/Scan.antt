-- ===== src/Service/Scan.antt =====
-- `ScanKeys` of kv-distributed/internal/service/kv_service.go: pages of keys, shard by shard.
pub mod Rounds
pub mod Pages
pub mod Complete
use fast_kv_a_lightweight_ke.Base.{
  ℕ, zero, suc, ◌+◌, ◌-◌, ◌^◌, ◌%◌, Bool, true, false, not, ◌&&◌, List, [], ◌++◌, length,
  if◌then◌else◌,
}
use fast_kv_a_lightweight_ke.Base.Bytes.{Bytes, bytes_key}
use fast_kv_a_lightweight_ke.Base.Dict.{RangeOrder}
use fast_kv_a_lightweight_ke.Base.Words.{Int64, add64, less64, positive64}
use fast_kv_a_lightweight_ke.Storage.Hash.{shard_count}
use fast_kv_a_lightweight_ke.Storage.Memory.{Shards, scan_shard}

-- The cursor that the next call takes, and the keys.
abbrev pub Page : Type 0
Page = List Bytes × Int64

module _ (order : RangeOrder Bytes Bytes) (now : Int64) (shards : Shards) (bucket : Bytes) where
  -- `currentShard < 256 && len(keys) < count`
  unfoldable pub goes_on : Int64 → Page → Bool
  goes_on count page = less64 page.1 shard_count && less64 (length page.0) count

  unfoldable pub scan_loop : ℕ → Int64 → Page → Page
  unfolding goes_on scan_shard
  scan_loop zero count page = page
  scan_loop (suc fuel) count page = elim (goes_on count page) [
    | true ↦
        scan_loop fuel count (page.0 ++ scan_shard order now shards bucket page.1, add64 page.1 1)
    | false ↦ page
  ]

  -- The rounds up to the last shard, from a negative cursor too.
  abbrev pub rounds : Int64 → ℕ
  rounds cursor = (shard_count + 2 ^ 63) - (cursor + 2 ^ 63) % 2 ^ 64

  unfoldable pub scan_keys : Int64 → Int64 → Page
  unfolding scan_loop
  scan_keys cursor count =
      let page : Page =
        scan_loop (rounds cursor) (if positive64 count then count else 10) ([], cursor) in
      if not (less64 page.1 shard_count) then (page.0, 0) else page
