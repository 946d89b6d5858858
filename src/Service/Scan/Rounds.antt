-- ===== src/Service/Scan/Rounds.antt =====
-- The loop of a scan ends.
use fast_kv_a_lightweight_ke.Base.{
  ℕ, zero, suc, ◌≡◌, refl, true, false, ◌++◌, arith, Bool-cases, inl, inr,
}
use fast_kv_a_lightweight_ke.Base.Bytes.{Bytes, bytes_key}
use fast_kv_a_lightweight_ke.Base.Dict.{RangeOrder}
use fast_kv_a_lightweight_ke.Base.Words.{Int64, IsInt64, add64, less64}
use fast_kv_a_lightweight_ke.Storage.Hash.{shard_count}
use fast_kv_a_lightweight_ke.Storage.Memory.{Shards, scan_shard}
use fast_kv_a_lightweight_ke.Service.Scan.{Page, goes_on, scan_loop, rounds}

module _ (order : RangeOrder Bytes Bytes) (now : Int64) (shards : Shards) (bucket : Bytes) where
  -- A round brings the cursor one nearer to the end.
  rounds-add64 :
      (cursor : Int64) (fuel : ℕ)
      → IsInt64 cursor
      → less64 cursor shard_count ≡ true
      → rounds order now shards bucket cursor ≡ suc fuel
      → (rounds order now shards bucket (add64 cursor 1) ≡ fuel) × IsInt64 (add64 cursor 1)
  unfolding add64 less64
  rounds-add64 cursor fuel wide below left = (ground arith, ground arith)

  rounds_left :
      (cursor : Int64)
      → rounds order now shards bucket cursor ≡ 0
      → less64 cursor shard_count ≡ false
  unfolding less64
  rounds_left cursor none_left = ground arith

  -- The page after one more shard.
  abbrev next_page : Page → Page
  next_page page = (page.0 ++ scan_shard order now shards bucket page.1, add64 page.1 1)

  pub scan_loop-on :
      (fuel : ℕ) (count : Int64) (page : Page)
      → goes_on order now shards bucket count page ≡ true
      → scan_loop order now shards bucket (suc fuel) count page
        ≡ scan_loop order now shards bucket fuel count (next_page page)
  unfolding scan_loop goes_on
  scan_loop-on fuel count page on = ground (arith, on)

  pub scan_loop-off :
      (fuel : ℕ) (count : Int64) (page : Page)
      → goes_on order now shards bucket count page ≡ false
      → scan_loop order now shards bucket fuel count page ≡ page
  unfolding scan_loop goes_on
  scan_loop-off zero count page off = refl
  scan_loop-off (suc fuel) count page off = ground (arith, off)

  below_end :
      (count : Int64) (page : Page)
      → goes_on order now shards bucket count page ≡ true
      → less64 page.1 shard_count ≡ true
  unfolding goes_on
  below_end count page on = ground (arith, on)

  -- The rounds given are enough, from any cursor at all: the loop's test fails where it ends.
  pub scan_loop-ends :
      (fuel : ℕ) (count : Int64) (page : Page)
      → IsInt64 page.1
      → rounds order now shards bucket page.1 ≡ fuel
      → goes_on order now shards bucket count (scan_loop order now shards bucket fuel count page)
        ≡ false
  scan_loop-ends zero count page wide left =
      unfold scan_loop goes_on in ground (arith, rounds_left page.1 left)
  scan_loop-ends (suc fuel) count page wide left =
      elim (Bool-cases (goes_on order now shards bucket count page)) [
        | inl on ↦
            let (fewer, narrow) = rounds-add64 page.1 fuel wide (below_end count page on) left in
            rw (scan_loop-on fuel count page on)
              (scan_loop-ends fuel count (next_page page) narrow fewer)
        | inr off ↦ rw (scan_loop-off (suc fuel) count page off) off
      ]
