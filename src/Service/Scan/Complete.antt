-- ===== src/Service/Scan/Complete.antt =====
-- A whole scan against the reads of single keys.
use fast_kv_a_lightweight_ke.Base.{
  ℕ, zero, suc, ◌+◌, ◌<◌, ◌≤◌, ◌≡◌, ap, Bool, ◌&&◌, is_some, List, [], ◌∷◌, ◌++◌, if◌then◌else◌,
  arith, false, Bool-cases, Option-cases, inl, inr, leb, ltb, ◌==◌, ==_iff, value?,
}
use fast_kv_a_lightweight_ke.Base.Bytes.{Bytes, bytes_key, bytes_eq_iff}
use fast_kv_a_lightweight_ke.Base.Dict.{lookup, NodupKeys, RangeOrder}
use fast_kv_a_lightweight_ke.Base.Nested.{lookup_in}
use fast_kv_a_lightweight_ke.Base.Words.{Int64, less64}
use fast_kv_a_lightweight_ke.DataStructures.Sorting.{occurrences}
use fast_kv_a_lightweight_ke.Storage.Hash.{shard_index, shard_index-lt-shard_count}
use fast_kv_a_lightweight_ke.Storage.Memory.{
  Shard, Shards, get_shard, check_ttl, get, live_keys, scan_shard,
}
use fast_kv_a_lightweight_ke.Storage.Memory.Invariant.{IsWellFormed}
use fast_kv_a_lightweight_ke.Service.Scan.Pages.{scan_range, scan_keys_lem, scan_pages}

occurrences-append :
    (v : Bytes) (xs ys : List Bytes)
    → occurrences v (xs ++ ys) ≡ occurrences v xs + occurrences v ys
occurrences-append v [] ys = omega arith
occurrences-append v (x ∷ xs) ys = omega (arith, occurrences-append v xs ys)

module _ (order : RangeOrder Bytes Bytes) (now : Int64) where
  occurrences-live_keys :
      (shard : Shard) (bucket key : Bytes) (entries : List (Bytes × Bytes))
      → NodupKeys entries
      → occurrences key (live_keys order now shard bucket entries)
        ≡ (if check_ttl now shard bucket key && is_some (lookup key entries) then 1 else 0)
  unfolding live_keys lookup
  occurrences-live_keys shard bucket key [] nodup = ground arith
  occurrences-live_keys shard bucket key ((k, v) ∷ rest) nodup =
      ground
        (arith, occurrences-live_keys shard bucket key rest nodup.1, nodup.0, bytes_eq_iff k key)

  module _ (shards : Shards) (wf : IsWellFormed shards) (bucket key : Bytes) where
    -- Whether the key can be read.
    abbrev readable : Bool
    readable = is_some (value? (get now shards bucket key))

    readable-own : readable ≡ (
        check_ttl now (shards (shard_index key)) bucket key
        && is_some (lookup_in bucket key (shards (shard_index key)).buckets))
    unfolding get get_shard
    readable-own = ground arith

    occurrences-scan_shard_any :
        (i : ℕ)
        → i < 256
        → occurrences key (scan_shard order now shards bucket i) ≡ (
            if check_ttl now (shards i) bucket key
              && is_some (lookup_in bucket key (shards i).buckets)
            then 1
            else 0)
    unfolding scan_shard less64 lookup_in
    occurrences-scan_shard_any i h = elim (Option-cases (lookup bucket (shards i).buckets)) [
      | inl missing ↦ ground (arith, missing)
      | inr (b, found) ↦
          let nodup : NodupKeys b = (wf i).nodup_buckets.inner bucket b found in
          ground (
            arith,
            found,
            occurrences-live_keys (shards i) bucket key (order.visit b)
                (order.visit-NodupKeys b nodup),
            order.lookup-visit b nodup key,
          )
    ]

    occurrences-scan_shard :
        (i : ℕ)
        → i < 256
        → occurrences key (scan_shard order now shards bucket i)
          ≡ (if (i == shard_index key) && readable then 1 else 0)
    occurrences-scan_shard i h = elim (Bool-cases (i == shard_index key)) [
      | inl own ↦ ground (
        arith,
        own,
        occurrences-scan_shard_any i h,
        readable-own,
        ap shards ((==_iff i (shard_index key)).0 own),
      )
      | inr other ↦ ground (
        arith,
        other,
        occurrences-scan_shard_any i h,
        (wf i).placed bucket key,
        ==_iff i (shard_index key),
      )
    ]

    occurrences-scan_range :
        (n i : ℕ)
        → i + n ≤ 256
        → occurrences key (scan_range order now shards bucket n i)
          ≡ (if leb i (shard_index key) && ltb (shard_index key) (i + n) && readable then 1 else 0)
    unfolding scan_range
    occurrences-scan_range zero i h = ground arith
    occurrences-scan_range (suc n) i h = ground (
      arith,
      occurrences-append key (scan_shard order now shards bucket i)
          (scan_range order now shards bucket n (i + 1)),
      occurrences-scan_shard i (omega arith),
      occurrences-scan_range n (i + 1) (omega arith),
    )

module _ (order : RangeOrder Bytes Bytes) (clock : Int64 → Int64) (shards : Shards)
    (bucket key : Bytes) (wf : IsWellFormed shards) (is_readable : Bool)
    (at_every_page : (cursor : Int64)
      → cursor < 256
      → is_some (value? (get (clock cursor) shards bucket key)) ≡ is_readable)
    (count : Int64 → Int64) where
  -- The pages from a cursor on have the key if its shard is one of theirs.
  occurrences-scan_pages :
      (fuel : ℕ) (cursor : Int64)
      → cursor < 256
      → 256 ≤ fuel + cursor
      → occurrences key (scan_pages order clock shards bucket fuel count cursor)
        ≡ (if leb cursor (shard_index key) && is_readable then 1 else 0)
  unfolding scan_pages
  occurrences-scan_pages zero cursor h enough = absurd (omega arith)
  occurrences-scan_pages (suc fuel) cursor h enough =
      let now : Int64 = clock cursor in
      let (n, some_shard, inside, page) =
        scan_keys_lem order now shards bucket cursor (count cursor) h in
      let here = occurrences-scan_range order now shards wf bucket key n cursor inside in
      let last = shard_index-lt-shard_count key in
      elim (Bool-cases (cursor + n == 256)) [
        | inl at_end ↦
            rw (page, at_end)
              (ground
                (arith, here, at_every_page cursor h, last, (==_iff (cursor + n) 256).0 at_end))
        | inr before_end ↦
            let on : (cursor + n == 0) ≡ false = ground arith in
            let later =
              occurrences-scan_pages fuel (cursor + n) (ground (arith, before_end)) (omega arith) in
            rw (page, before_end, on)
              (ground (
                arith,
                occurrences-append key (scan_range order now shards bucket n cursor)
                    (scan_pages order clock shards bucket fuel count (cursor + n)),
                here,
                later,
                at_every_page cursor h,
              ))
      ]

  -- A client that scans a bucket from cursor 0 until the cursor is 0 again, page by page, each with
  -- its own clock and count, over a well-formed store to which nothing is written meanwhile: a key
  -- that can be read at the clocks of all shards that a page may begin with is seen once, and one that
  -- can be read at none of them is not seen. It needs 256 pages at most.
  pub scan_pages_complete :
      occurrences key (scan_pages order clock shards bucket 256 count 0)
      ≡ (if is_readable then 1 else 0)
  scan_pages_complete = ground (arith, occurrences-scan_pages 256 0 (omega arith) (omega arith))
