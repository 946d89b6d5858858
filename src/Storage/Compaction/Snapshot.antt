-- ===== src/Storage/Compaction/Snapshot.antt =====
-- The snapshot is a log, and its records rebuild exactly the live entries.
use fast_kv_a_lightweight_ke.Base.{
  ℕ, zero, suc, ◌+◌, ◌≡◌, sym, none, List, [], ◌∷◌, ◌++◌, append_assoc, append-nil, if◌then◌else◌,
  arith,
}
use fast_kv_a_lightweight_ke.Base.Bytes.{Bytes, bytes_key}
use fast_kv_a_lightweight_ke.Base.Dict.{Dict, RangeOrder}
use fast_kv_a_lightweight_ke.Base.Words.{Int64}
use fast_kv_a_lightweight_ke.Storage.Hash.{shard_count}
use fast_kv_a_lightweight_ke.Storage.Memory.{Shard, Shards, check_ttl}
use fast_kv_a_lightweight_ke.Storage.Wal.{LogRecord}
use fast_kv_a_lightweight_ke.Storage.Wal.Encode.{encode, fill_buffer-encode}
use fast_kv_a_lightweight_ke.Storage.Wal.RoundTrip.{encode_all, encode_all-append}
use fast_kv_a_lightweight_ke.Storage.Engine.{put_record}
use fast_kv_a_lightweight_ke.Storage.Compaction.{
  CompactIo, write_op_to_temp, ttl_of, snapshot_bucket, snapshot_buckets, snapshot_from, snapshot,
}

module _ (buckets_order : RangeOrder Bytes (Dict Bytes Bytes)) (keys_order : RangeOrder Bytes Bytes)
    (now : Int64) where
  -- The records of a snapshot whose writes all go well.
  unfoldable pub bucket_records : Shard → Bytes → List (Bytes × Bytes) → List LogRecord
  bucket_records shard bucket [] = []
  bucket_records shard bucket ((key, val) ∷ rest) =
      let records : List LogRecord = bucket_records shard bucket rest in
      if check_ttl now shard bucket key
      then put_record bucket key val (ttl_of shard bucket key) ∷ records
      else records

  unfoldable pub buckets_records : Shard → List (Bytes × Dict Bytes Bytes) → List LogRecord
  buckets_records shard [] = []
  buckets_records shard ((bucket, b) ∷ rest) =
      bucket_records shard bucket (keys_order.visit b) ++ buckets_records shard rest

  unfoldable pub shards_records : ℕ → ℕ → Shards → List LogRecord
  shards_records zero i shards = []
  shards_records (suc rounds) i shards =
      buckets_records (shards i) (buckets_order.visit (shards i).buckets)
      ++ shards_records rounds (i + 1) shards

  module _ (io : CompactIo) (whole : (bucket key : Bytes) → io.fault bucket key ≡ none) where
    write_op_to_temp_lem :
        (r : LogRecord) (tmp : Bytes) → write_op_to_temp io r tmp ≡ tmp ++ encode r
    unfolding write_op_to_temp
    write_op_to_temp_lem r tmp = ground (arith, whole r.bucket r.key, fill_buffer-encode r)

    snapshot_bucket_lem :
        (shard : Shard) (bucket : Bytes) (entries : List (Bytes × Bytes)) (tmp : Bytes)
        → snapshot_bucket buckets_order keys_order now io shard bucket entries tmp
          ≡ tmp ++ encode_all (bucket_records shard bucket entries)
    unfolding snapshot_bucket bucket_records encode_all
    snapshot_bucket_lem shard bucket [] tmp = sym (append-nil tmp)
    snapshot_bucket_lem shard bucket ((key, val) ∷ rest) tmp =
        let r : LogRecord = put_record bucket key val (ttl_of shard bucket key) in
        ground (
          arith,
          snapshot_bucket_lem shard bucket rest
              (if check_ttl now shard bucket key then write_op_to_temp io r tmp else tmp),
          write_op_to_temp_lem r tmp,
          append_assoc tmp (encode r) (encode_all (bucket_records shard bucket rest)),
        )

    snapshot_buckets_lem :
        (shard : Shard) (entries : List (Bytes × Dict Bytes Bytes)) (tmp : Bytes)
        → snapshot_buckets buckets_order keys_order now io shard entries tmp
          ≡ tmp ++ encode_all (buckets_records shard entries)
    unfolding snapshot_buckets buckets_records encode_all
    snapshot_buckets_lem shard [] tmp = sym (append-nil tmp)
    snapshot_buckets_lem shard ((bucket, b) ∷ rest) tmp = ground (
      arith,
      snapshot_buckets_lem shard rest
          (snapshot_bucket buckets_order keys_order now io shard bucket (keys_order.visit b) tmp),
      snapshot_bucket_lem shard bucket (keys_order.visit b) tmp,
      append_assoc tmp (encode_all (bucket_records shard bucket (keys_order.visit b)))
          (encode_all (buckets_records shard rest)),
      encode_all-append (bucket_records shard bucket (keys_order.visit b))
          (buckets_records shard rest),
    )

    snapshot_from_lem :
        (rounds i : ℕ) (shards : Shards) (tmp : Bytes)
        → snapshot_from buckets_order keys_order now io rounds i shards tmp
          ≡ tmp ++ encode_all (shards_records rounds i shards)
    unfolding snapshot_from shards_records encode_all
    snapshot_from_lem zero i shards tmp = sym (append-nil tmp)
    snapshot_from_lem (suc rounds) i shards tmp =
        let here : List (Bytes × Dict Bytes Bytes) = buckets_order.visit (shards i).buckets in
        ground (
          arith,
          snapshot_from_lem rounds (i + 1) shards
              (snapshot_buckets buckets_order keys_order now io (shards i) here tmp),
          snapshot_buckets_lem (shards i) here tmp,
          append_assoc tmp (encode_all (buckets_records (shards i) here))
              (encode_all (shards_records rounds (i + 1) shards)),
          encode_all-append (buckets_records (shards i) here)
              (shards_records rounds (i + 1) shards),
        )

    -- A snapshot whose writes go well is the log of its records.
    pub snapshot_lem :
        (shards : Shards)
        → snapshot buckets_order keys_order now io shards
          ≡ encode_all (shards_records shard_count 0 shards)
    unfolding snapshot
    snapshot_lem shards = snapshot_from_lem shard_count 0 shards []
