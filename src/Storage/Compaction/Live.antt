-- ===== src/Storage/Compaction/Live.antt =====
-- The whole snapshot: replayed into an empty store, it holds the live entries of every shard.
use fast_kv_a_lightweight_ke.Base.{
  ℕ, zero, suc, ◌+◌, ◌≡◌, refl, not, ap, ◌∙◌, Bool, ◌&&◌, Option, none, is_some, foldl,
  if◌then◌else◌, arith, Bool-cases, inl, inr, leb, ltb, ◌==◌, ==_iff,
}
use fast_kv_a_lightweight_ke.Base.Bytes.{Bytes, bytes_key}
use fast_kv_a_lightweight_ke.Base.Dict.{Dict, lookup-nil, RangeOrder}
use fast_kv_a_lightweight_ke.Base.Nested.{Nested, lookup_in, NodupNested}
use fast_kv_a_lightweight_ke.Base.Words.{Int64}
use fast_kv_a_lightweight_ke.Storage.Hash.{shard_count, shard_index, shard_index-lt-shard_count}
use fast_kv_a_lightweight_ke.Storage.Memory.{TtlInfo, Shard, Shards, new_shards, check_ttl}
use fast_kv_a_lightweight_ke.Storage.Memory.Invariant.{IsWellFormed, ShardIsWellFormed}
use fast_kv_a_lightweight_ke.Storage.Memory.View.{
  value_at, expiry_at, is_expired, expiry_needs_value,
}
use fast_kv_a_lightweight_ke.Storage.Engine.{apply_record}
use fast_kv_a_lightweight_ke.Storage.Compaction.Snapshot.{buckets_records, shards_records}
use fast_kv_a_lightweight_ke.Storage.Compaction.Rebuild.{
  or_else, value_at-buckets_records, expiry_at-buckets_records,
}
use mathlib.Core.List.{foldl-append}

pub lookup_in-visit {κ} :
    {V : Type κ} (order : RangeOrder Bytes (Dict Bytes V)) (m : Nested V) (nodup : NodupNested m)
    (c j : Bytes)
    → lookup_in c j (order.visit m) ≡ lookup_in c j m
unfolding lookup_in
lookup_in-visit order m nodup c j = ground (arith, order.lookup-visit m nodup.outer c)

pub NodupNested-visit {κ} :
    {V : Type κ} (order : RangeOrder Bytes (Dict Bytes V)) (m : Nested V)
    → NodupNested m
    → NodupNested (order.visit m)
NodupNested-visit order m nodup = record {
  outer = order.visit-NodupKeys m nodup.outer;
  inner = λ c d found. nodup.inner c d (rw (order.lookup-visit m nodup.outer c) at found);
}

module _ (buckets_order : RangeOrder Bytes (Dict Bytes Bytes)) (keys_order : RangeOrder Bytes Bytes)
    (now : Int64) where
  module _ (i : ℕ) (shard : Shard) (wf : ShardIsWellFormed i shard) (c j : Bytes)
      (store : Shards) where
    abbrev shard_replayed : Shards
    shard_replayed =
        foldl apply_record store
          (buckets_records buckets_order keys_order now shard (buckets_order.visit shard.buckets))

    value_at-shard : value_at shard_replayed c j ≡ (
        if check_ttl now shard c j
        then or_else (lookup_in c j shard.buckets) (value_at store c j)
        else value_at store c j)
    value_at-shard = ground (
      arith,
      lookup_in-visit buckets_order shard.buckets wf.nodup_buckets c j,
      value_at-buckets_records buckets_order keys_order now shard c j
          (buckets_order.visit shard.buckets) store
          (NodupNested-visit buckets_order shard.buckets wf.nodup_buckets),
    )

    expiry_at-shard : expiry_at shard_replayed c j ≡ (
        if check_ttl now shard c j && is_some (lookup_in c j shard.buckets)
        then or_else (lookup_in c j shard.ttl) (expiry_at store c j)
        else expiry_at store c j)
    expiry_at-shard = ground (
      arith,
      lookup_in-visit buckets_order shard.buckets wf.nodup_buckets c j,
      expiry_at-buckets_records buckets_order keys_order now shard c j
          (buckets_order.visit shard.buckets) store
          (λ bucket key t found. (wf.expiry_present bucket key t found).1)
          (NodupNested-visit buckets_order shard.buckets wf.nodup_buckets),
    )

  -- What the shards from `i` on leave of an older value and an older expiry.
  module _ (rounds i : ℕ) (shards : Shards) (c j : Bytes) where
    abbrev reached : Bool
    reached = leb i (shard_index j) && ltb (shard_index j) (i + rounds)

    abbrev value_after : Option Bytes → Option Bytes
    value_after old =
        let own : Shard = shards (shard_index j) in
        if reached && check_ttl now own c j then or_else (lookup_in c j own.buckets) old else old

    abbrev expiry_after : Option TtlInfo → Option TtlInfo
    expiry_after old =
        let own : Shard = shards (shard_index j) in
        if reached && (check_ttl now own c j && is_some (lookup_in c j own.buckets))
        then or_else (lookup_in c j own.ttl) old
        else old

  module _ (rounds i : ℕ) (shards : Shards) (c j : Bytes) (store : Shards)
      (wf : IsWellFormed shards) where
    abbrev after_shard : Shards
    after_shard = shard_replayed i (shards i) (wf i) c j store

    value_step :
        value_after rounds (i + 1) shards c j (value_at after_shard c j)
        ≡ value_after (suc rounds) i shards c j (value_at store c j)
    unfolding or_else
    value_step = elim (Bool-cases (i == shard_index j)) [
      | inl own ↦ ground (
        arith,
        own,
        ap shards ((==_iff i (shard_index j)).0 own),
        value_at-shard i (shards i) (wf i) c j store,
      )
      | inr other ↦
          ground (arith, other, (wf i).placed c j, value_at-shard i (shards i) (wf i) c j store)
    ]

    expiry_step :
        expiry_after rounds (i + 1) shards c j (expiry_at after_shard c j)
        ≡ expiry_after (suc rounds) i shards c j (expiry_at store c j)
    unfolding or_else
    expiry_step = elim (Bool-cases (i == shard_index j)) [
      | inl own ↦ ground (
        arith,
        own,
        ap shards ((==_iff i (shard_index j)).0 own),
        expiry_at-shard i (shards i) (wf i) c j store,
      )
      | inr other ↦
          ground (arith, other, (wf i).placed c j, expiry_at-shard i (shards i) (wf i) c j store)
    ]

  value_at-shards_records :
      (rounds i : ℕ) (shards : Shards) (c j : Bytes) (store : Shards)
      → IsWellFormed shards
      → value_at
          (foldl apply_record store (shards_records buckets_order keys_order now rounds i shards))
          c
          j
        ≡ value_after rounds i shards c j (value_at store c j)
  unfolding shards_records
  value_at-shards_records zero i shards c j store wf = ground arith
  value_at-shards_records (suc rounds) i shards c j store wf = rw foldl-append (
      value_at-shards_records rounds (i + 1) shards c j _ wf
      ∙ value_step rounds i shards c j store wf)

  expiry_at-shards_records :
      (rounds i : ℕ) (shards : Shards) (c j : Bytes) (store : Shards)
      → IsWellFormed shards
      → expiry_at
          (foldl apply_record store (shards_records buckets_order keys_order now rounds i shards))
          c
          j
        ≡ expiry_after rounds i shards c j (expiry_at store c j)
  unfolding shards_records
  expiry_at-shards_records zero i shards c j store wf = ground arith
  expiry_at-shards_records (suc rounds) i shards c j store wf = rw foldl-append (
      expiry_at-shards_records rounds (i + 1) shards c j _ wf
      ∙ expiry_step rounds i shards c j store wf)

  own_shard :
      (shards : Shards) (c j : Bytes)
      → (lookup_in c j (shards (shard_index j)).buckets ≡ value_at shards c j)
        × (lookup_in c j (shards (shard_index j)).ttl ≡ expiry_at shards c j)
        × (check_ttl now (shards (shard_index j)) c j ≡ not (is_expired now (expiry_at shards c j)))
  unfolding value_at expiry_at check_ttl
  own_shard shards c j = (refl, refl, ground arith)

  nothing_new : (c j : Bytes) → (value_at new_shards c j ≡ none) × (expiry_at new_shards c j ≡ none)
  unfolding value_at expiry_at lookup_in
  nothing_new c j = (
    ground (arith, lookup-nil {V = Dict Bytes Bytes} c),
    ground (arith, lookup-nil {V = Dict Bytes TtlInfo} c),
  )

  -- What the records of a snapshot rebuild: a key is there with its value and its expiry if it had
  -- not expired when the snapshot was taken, and not at all if it had.
  pub rebuilt_lem :
      (shards : Shards) (c j : Bytes)
      → IsWellFormed shards
      → let rebuilt : Shards =
          foldl apply_record new_shards
            (shards_records buckets_order keys_order now shard_count 0 shards) in
        (value_at rebuilt c j
          ≡ (if is_expired now (expiry_at shards c j) then none else value_at shards c j))
        × (expiry_at rebuilt c j
            ≡ (if is_expired now (expiry_at shards c j) then none else expiry_at shards c j))
  unfolding or_else
  rebuilt_lem shards c j wf = (
    ground (
      arith,
      value_at-shards_records shard_count 0 shards c j new_shards wf,
      own_shard shards c j,
      nothing_new c j,
      shard_index-lt-shard_count j,
    ),
    ground (
      arith,
      expiry_at-shards_records shard_count 0 shards c j new_shards wf,
      own_shard shards c j,
      nothing_new c j,
      shard_index-lt-shard_count j,
      expiry_needs_value shards c j wf,
    ),
  )
