-- ===== src/Storage/Compaction/Fits.antt =====
-- What a log of records that fit has put into memory fits a record again.
use fast_kv_a_lightweight_ke.Base.{
  ℕ, zero, suc, ◌+◌, ◌^◌, ◌<◌, ◌≡◌, some, List, [], ◌∷◌, foldl, length, All, All-append, arith,
  Bool-cases, inl, inr, ◌==◌, Option-cases, sym, ◌∙◌, ap,
}
use fast_kv_a_lightweight_ke.Base.Bytes.{Bytes, bytes_key, bytes_eq_iff, bytes_eq_refl}
use fast_kv_a_lightweight_ke.Base.Dict.{Dict, lookup, NodupKeys, RangeOrder}
use fast_kv_a_lightweight_ke.Base.Nested.{Nested, lookup_in, NodupNested, NodupNested-cons}
use fast_kv_a_lightweight_ke.Base.Words.{Int64, IsInt64}
use fast_kv_a_lightweight_ke.Storage.Hash.{shard_index}
use fast_kv_a_lightweight_ke.Storage.Memory.{
  TtlInfo, Shard, Shards, new_shards, check_ttl, put_internal, delete_internal,
}
use fast_kv_a_lightweight_ke.Storage.Memory.Invariant.{IsWellFormed, new_shards-IsWellFormed}
use fast_kv_a_lightweight_ke.Storage.Memory.View.{
  value_at, expiry_at, value_at-put, expiry_at-put, value_at-delete, expiry_at-delete,
}
use fast_kv_a_lightweight_ke.Storage.Wal.{LogRecord}
use fast_kv_a_lightweight_ke.Storage.Wal.RoundTrip.{IsEncodable}
use fast_kv_a_lightweight_ke.Storage.Engine.{apply_record, put_record}
use fast_kv_a_lightweight_ke.Storage.Engine.Entries.{apply_record-IsWellFormed, foldl-IsWellFormed}
use fast_kv_a_lightweight_ke.Storage.Compaction.{ttl_of}
use fast_kv_a_lightweight_ke.Storage.Compaction.Snapshot.{
  bucket_records, buckets_records, shards_records,
}
use fast_kv_a_lightweight_ke.Storage.Compaction.Live.{lookup_in-visit, NodupNested-visit}

-- The entries of the memory fit the fields of the log.
pub record StoreFits (shards : Shards) : Type 0 where
  pub value_fits :
      (bucket key value : Bytes)
      → value_at shards bucket key ≡ some value
      → (length bucket < 2 ^ 16) × (length key < 2 ^ 16) × (length value < 2 ^ 32)
  pub expiry_fits :
      (bucket key : Bytes) (t : TtlInfo) → expiry_at shards bucket key ≡ some t → IsInt64 t.expiry

put_internal-StoreFits :
    (shards : Shards) (bucket key value : Bytes) (ttl : Int64)
    → StoreFits shards
    → IsEncodable (put_record bucket key value ttl)
    → StoreFits (put_internal shards bucket key value ttl)
put_internal-StoreFits shards bucket key value ttl fits new = record {
  value_fits = λ c j v. ground (
    arith,
    fits.value_fits c j v,
    value_at-put shards bucket key c j value ttl,
    bytes_eq_iff bucket c,
    bytes_eq_iff key j,
  );
  expiry_fits = λ c j t.
      ground (arith, fits.expiry_fits c j t, expiry_at-put shards bucket key c j value ttl);
}

delete_internal-StoreFits :
    (shards : Shards) (bucket key : Bytes)
    → IsWellFormed shards
    → StoreFits shards
    → StoreFits (delete_internal shards bucket key).0
delete_internal-StoreFits shards bucket key wf fits = record {
  value_fits =
      λ c j v. ground (arith, fits.value_fits c j v, value_at-delete shards bucket key c j);
  expiry_fits =
      λ c j t. ground (arith, fits.expiry_fits c j t, expiry_at-delete shards bucket key c j wf);
}

pub apply_record-StoreFits :
    (shards : Shards) (r : LogRecord)
    → IsWellFormed shards
    → IsEncodable r
    → StoreFits shards
    → StoreFits (apply_record shards r)
unfolding apply_record
apply_record-StoreFits shards r wf new fits = elim (Bool-cases (r.op == 1)) [
  | inl is_put ↦ rw is_put (
      put_internal-StoreFits shards r.bucket r.key r.value r.ttl fits (record {
        bucket_fits = new.bucket_fits;
        key_fits = new.key_fits;
        value_fits = new.value_fits;
        ttl_fits = new.ttl_fits;
      }))
  | inr not_put ↦ elim (Bool-cases (r.op == 2)) [
    | inl is_del ↦ rw (not_put, is_del) (delete_internal-StoreFits shards r.bucket r.key wf fits)
    | inr other ↦ rw (not_put, other) fits
  ]
]

new_shards-StoreFits : StoreFits new_shards
unfolding value_at expiry_at lookup_in lookup
new_shards-StoreFits = record {
  value_fits = λ c j v found. absurd (ground arith);
  expiry_fits = λ c j t found. absurd (ground arith);
}

replayed-StoreFits_from :
    (rs : List LogRecord) (shards : Shards)
    → All IsEncodable rs
    → IsWellFormed shards
    → StoreFits shards
    → StoreFits (foldl apply_record shards rs)
replayed-StoreFits_from [] shards new wf fits = fits
replayed-StoreFits_from (r ∷ rs) shards new wf fits =
    replayed-StoreFits_from rs (apply_record shards r) new.1 (apply_record-IsWellFormed shards r wf)
      (apply_record-StoreFits shards r wf new.0 fits)

-- The memory that a log of records that fit rebuilds is well formed and fits the log again.
pub replayed-StoreFits :
    (rs : List LogRecord)
    → All IsEncodable rs
    → IsWellFormed (foldl apply_record new_shards rs) × StoreFits (foldl apply_record new_shards rs)
replayed-StoreFits rs new = (
  foldl-IsWellFormed new_shards rs new_shards-IsWellFormed,
  replayed-StoreFits_from rs new_shards new new_shards-IsWellFormed new_shards-StoreFits,
)

-- An entry of a shard that fits is written as a record that fits.
entry-IsEncodable :
    (shards : Shards) (i : ℕ) (bucket key value : Bytes)
    → IsWellFormed shards
    → StoreFits shards
    → lookup_in bucket key (shards i).buckets ≡ some value
    → IsEncodable (put_record bucket key value (ttl_of (shards i) bucket key))
unfolding ttl_of value_at expiry_at
entry-IsEncodable shards i bucket key value wf fits found =
    let own : i ≡ shard_index key = (wf i).placed bucket key (ground (arith, found)) in
    let same : shards (shard_index key) ≡ shards i = ap shards (sym own) in
    let sizes =
      fits.value_fits bucket key value
        (ap (λ (shard : Shard). lookup_in bucket key shard.buckets) same ∙ found) in
    record {
      bucket_fits = sizes.0;
      key_fits = sizes.1;
      value_fits = sizes.2;
      ttl_fits = elim (Option-cases (lookup_in bucket key (shards i).ttl)) [
        | inl free ↦ ground (arith, free)
        | inr (t, expires) ↦ ground (
          arith,
          expires,
          fits.expiry_fits bucket key t
              (ap (λ (shard : Shard). lookup_in bucket key shard.ttl) same ∙ expires),
        )
      ];
    }

-- Every entry of these fits the log.
abbrev BucketFits : Shard → Bytes → List (Bytes × Bytes) → Type 0
BucketFits shard bucket entries =
    (key value : Bytes)
    → lookup key entries ≡ some value
    → IsEncodable (put_record bucket key value (ttl_of shard bucket key))

abbrev BucketsFit : Shard → Nested Bytes → Type 0
BucketsFit shard entries =
    (bucket key value : Bytes)
    → lookup_in bucket key entries ≡ some value
    → IsEncodable (put_record bucket key value (ttl_of shard bucket key))

module _ (buckets_order : RangeOrder Bytes (Dict Bytes Bytes)) (keys_order : RangeOrder Bytes Bytes)
    (now : Int64) where
  bucket_records-IsEncodable :
      (shard : Shard) (bucket : Bytes) (entries : List (Bytes × Bytes))
      → NodupKeys entries
      → BucketFits shard bucket entries
      → All IsEncodable (bucket_records buckets_order keys_order now shard bucket entries)
  unfolding bucket_records lookup
  bucket_records-IsEncodable shard bucket [] nodup fits = tt
  bucket_records-IsEncodable shard bucket ((key, val) ∷ rest) nodup fits =
      let later : BucketFits shard bucket rest =
        λ k v found. fits k v (ground (arith, found, nodup.0, bytes_eq_iff key k)) in
      let records = bucket_records-IsEncodable shard bucket rest nodup.1 later in
      let first = fits key val (ground (arith, bytes_eq_refl key)) in
      elim (Bool-cases (check_ttl now shard bucket key)) [
        | inl live ↦ rw live (first, records)
        | inr expired ↦ rw expired records
      ]

  buckets_records-IsEncodable :
      (shard : Shard) (entries : Nested Bytes)
      → NodupNested entries
      → BucketsFit shard entries
      → All IsEncodable (buckets_records buckets_order keys_order now shard entries)
  unfolding buckets_records lookup_in lookup
  buckets_records-IsEncodable shard [] nodup fits = tt
  buckets_records-IsEncodable shard ((bucket, b) ∷ rest) nodup fits =
      let (here, after) = NodupNested-cons bucket b rest nodup in
      All-append IsEncodable
        (bucket_records buckets_order keys_order now shard bucket (keys_order.visit b)) _
        (bucket_records-IsEncodable shard bucket (keys_order.visit b)
          (keys_order.visit-NodupKeys b here)
          (λ k v found.
            fits bucket k v
              (ground (arith, found, keys_order.lookup-visit b here k, bytes_eq_refl bucket))))
        (buckets_records-IsEncodable shard rest after
          (λ c k v found. fits c k v (ground (arith, found, nodup.outer.0, bytes_eq_iff bucket c))))

  -- Every record of a snapshot fits.
  pub shards_records-IsEncodable :
      (rounds i : ℕ) (shards : Shards)
      → IsWellFormed shards
      → StoreFits shards
      → All IsEncodable (shards_records buckets_order keys_order now rounds i shards)
  unfolding shards_records
  shards_records-IsEncodable zero i shards wf fits = tt
  shards_records-IsEncodable (suc rounds) i shards wf fits =
      All-append IsEncodable
        (buckets_records buckets_order keys_order now (shards i)
          (buckets_order.visit (shards i).buckets))
        _
        (buckets_records-IsEncodable (shards i) (buckets_order.visit (shards i).buckets)
          (NodupNested-visit buckets_order (shards i).buckets (wf i).nodup_buckets)
          (λ c k v found. entry-IsEncodable shards i c k v wf fits (
            rw (lookup_in-visit buckets_order (shards i).buckets (wf i).nodup_buckets c k) at
              found)))
        (shards_records-IsEncodable rounds (i + 1) shards wf fits)
