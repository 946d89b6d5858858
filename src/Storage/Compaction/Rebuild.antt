-- ===== src/Storage/Compaction/Rebuild.antt =====
-- Replaying the records of a snapshot over a store: the live entries, with their expiries.
use fast_kv_a_lightweight_ke.Base.{
  ◌≡◌, refl, true, false, ◌&&◌, Option, none, some, is_some, List, [], ◌∷◌, foldl, if◌then◌else◌,
  arith, Option-cases, inl, inr,
}
use fast_kv_a_lightweight_ke.Base.Bytes.{Bytes, bytes_key, bytes_eq, bytes_eq_iff}
use fast_kv_a_lightweight_ke.Base.Dict.{Dict, lookup, NodupKeys, RangeOrder}
use fast_kv_a_lightweight_ke.Base.Nested.{lookup_in, NodupNested, NodupNested-cons}
use fast_kv_a_lightweight_ke.Base.Words.{Int64, positive64}
use fast_kv_a_lightweight_ke.Storage.Memory.{TtlInfo, Shard, Shards, check_ttl, put_internal}
use fast_kv_a_lightweight_ke.Storage.Memory.View.{
  value_at, expiry_at, value_at-put, expiry_at-put, same_entry,
}
use fast_kv_a_lightweight_ke.Storage.Wal.{LogRecord}
use fast_kv_a_lightweight_ke.Storage.Engine.{apply_record, put_record}
use fast_kv_a_lightweight_ke.Storage.Compaction.{ttl_of}
use fast_kv_a_lightweight_ke.Storage.Compaction.Snapshot.{bucket_records, buckets_records}
use mathlib.Core.List.{foldl-append}

unfoldable pub or_else {ℓ} : {A : Type ℓ} → Option A → Option A → Option A
or_else (some v) o = some v
or_else none o = o

apply-put_record :
    (store : Shards) (bucket key value : Bytes) (ttl : Int64)
    → apply_record store (put_record bucket key value ttl) ≡ put_internal store bucket key value ttl
unfolding apply_record
apply-put_record store bucket key value ttl = refl

zero_is_no_expiry : positive64 0 ≡ false
unfolding positive64
zero_is_no_expiry = refl

-- Every expiry that a shard holds is a time after 0.
abbrev pub HasPositiveExpiries : Shard → Type 0
HasPositiveExpiries shard =
    (bucket key : Bytes) (t : TtlInfo)
    → lookup_in bucket key shard.ttl ≡ some t
    → positive64 t.expiry ≡ true

-- The expiry that is written with an entry is the one that is read back, or none for none.
expiry_at-put_ttl_of :
    (shard : Shard) (bucket key c j value : Bytes) (store : Shards)
    → HasPositiveExpiries shard
    → expiry_at (put_internal store bucket key value (ttl_of shard bucket key)) c j ≡ (
        if same_entry bucket key c j
        then or_else (lookup_in bucket j shard.ttl) (expiry_at store c j)
        else expiry_at store c j)
unfolding or_else ttl_of
expiry_at-put_ttl_of shard bucket key c j value store pos =
    elim (Option-cases (lookup_in bucket key shard.ttl)) [
      | inl free ↦ ground (
        arith,
        free,
        expiry_at-put store bucket key c j value (ttl_of shard bucket key),
        zero_is_no_expiry,
        bytes_eq_iff key j,
      )
      | inr (t, found) ↦ ground (
        arith,
        found,
        expiry_at-put store bucket key c j value (ttl_of shard bucket key),
        pos bucket key t found,
        bytes_eq_iff key j,
      )
    ]

module _ (buckets_order : RangeOrder Bytes (Dict Bytes Bytes)) (keys_order : RangeOrder Bytes Bytes)
    (now : Int64) where
  -- One bucket's entries over a store.
  value_at-bucket_records :
      (shard : Shard) (bucket c j : Bytes) (entries : List (Bytes × Bytes)) (store : Shards)
      → NodupKeys entries
      → value_at
          (foldl apply_record store
            (bucket_records buckets_order keys_order now shard bucket entries))
          c
          j
        ≡ (if bytes_eq bucket c && check_ttl now shard bucket j
            then or_else (lookup j entries) (value_at store c j)
            else value_at store c j)
  unfolding bucket_records lookup or_else
  value_at-bucket_records shard bucket c j [] store h = ground arith
  value_at-bucket_records shard bucket c j ((key, val) ∷ rest) store h =
      let ttl : Int64 = ttl_of shard bucket key in
      ground (
        arith,
        value_at-bucket_records shard bucket c j rest
            (if check_ttl now shard bucket key
              then put_internal store bucket key val ttl
              else store)
            h.1,
        value_at-put store bucket key c j val ttl,
        apply-put_record store bucket key val ttl,
        bytes_eq_iff key j,
      )

  expiry_at-bucket_records :
      (shard : Shard) (bucket c j : Bytes) (entries : List (Bytes × Bytes)) (store : Shards)
      → HasPositiveExpiries shard
      → NodupKeys entries
      → expiry_at
          (foldl apply_record store
            (bucket_records buckets_order keys_order now shard bucket entries))
          c
          j
        ≡ (if bytes_eq bucket c && (check_ttl now shard bucket j && is_some (lookup j entries))
            then or_else (lookup_in bucket j shard.ttl) (expiry_at store c j)
            else expiry_at store c j)
  unfolding bucket_records lookup or_else
  expiry_at-bucket_records shard bucket c j [] store pos h = ground arith
  expiry_at-bucket_records shard bucket c j ((key, val) ∷ rest) store pos h =
      let ttl : Int64 = ttl_of shard bucket key in
      ground (
        arith,
        expiry_at-bucket_records shard bucket c j rest
            (if check_ttl now shard bucket key
              then put_internal store bucket key val ttl
              else store)
            pos h.1,
        expiry_at-put_ttl_of shard bucket key c j val store pos,
        apply-put_record store bucket key val ttl,
        bytes_eq_iff key j,
        h.0,
      )

  -- All buckets of one shard over a store.
  pub value_at-buckets_records :
      (shard : Shard) (c j : Bytes) (entries : List (Bytes × Dict Bytes Bytes)) (store : Shards)
      → NodupNested entries
      → value_at
          (foldl apply_record store (buckets_records buckets_order keys_order now shard entries))
          c
          j
        ≡ (if check_ttl now shard c j
            then or_else (lookup_in c j entries) (value_at store c j)
            else value_at store c j)
  unfolding buckets_records lookup lookup_in or_else
  value_at-buckets_records shard c j [] store h = ground arith
  value_at-buckets_records shard c j ((bucket, b) ∷ rest) store h =
      let (here, later) = NodupNested-cons bucket b rest h in
      let records : List LogRecord =
        bucket_records buckets_order keys_order now shard bucket (keys_order.visit b) in
      ground (
        arith,
        foldl-append apply_record store records
            (buckets_records buckets_order keys_order now shard rest),
        value_at-buckets_records shard c j rest (foldl apply_record store records) later,
        value_at-bucket_records shard bucket c j (keys_order.visit b) store
            (keys_order.visit-NodupKeys b here),
        keys_order.lookup-visit b here j,
        bytes_eq_iff bucket c,
        h.outer.0,
      )

  pub expiry_at-buckets_records :
      (shard : Shard) (c j : Bytes) (entries : List (Bytes × Dict Bytes Bytes)) (store : Shards)
      → HasPositiveExpiries shard
      → NodupNested entries
      → expiry_at
          (foldl apply_record store (buckets_records buckets_order keys_order now shard entries))
          c
          j
        ≡ (if check_ttl now shard c j && is_some (lookup_in c j entries)
            then or_else (lookup_in c j shard.ttl) (expiry_at store c j)
            else expiry_at store c j)
  unfolding buckets_records lookup lookup_in or_else
  expiry_at-buckets_records shard c j [] store pos h = ground arith
  expiry_at-buckets_records shard c j ((bucket, b) ∷ rest) store pos h =
      let (here, later) = NodupNested-cons bucket b rest h in
      let records : List LogRecord =
        bucket_records buckets_order keys_order now shard bucket (keys_order.visit b) in
      ground (
        arith,
        foldl-append apply_record store records
            (buckets_records buckets_order keys_order now shard rest),
        expiry_at-buckets_records shard c j rest (foldl apply_record store records) pos later,
        expiry_at-bucket_records shard bucket c j (keys_order.visit b) store pos
            (keys_order.visit-NodupKeys b here),
        keys_order.lookup-visit b here j,
        bytes_eq_iff bucket c,
        h.outer.0,
      )
