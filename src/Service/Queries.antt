-- ===== src/Service/Queries.antt =====
-- The queries of kv_service.go, whose listing of the bucket passes expired keys over.
use fast_kv_a_lightweight_ke.Base.{
  ◌≡◌, refl, ◌&&◌, is_some, List, if◌then◌else◌, arith, inl, inr, ◌⊎◌, Result, ok, err, value?,
  Error, subst,
}
use fast_kv_a_lightweight_ke.Base.Bytes.{Bytes, bytes_key, bytes_le, has_prefix}
use fast_kv_a_lightweight_ke.Base.Dict.{Dict, lookup, NodupKeys, RangeOrder}
use fast_kv_a_lightweight_ke.Base.Words.{Int64}
use fast_kv_a_lightweight_ke.DataStructures.Sorting.{IsSorted, occurrences}
use fast_kv_a_lightweight_ke.Indexing
use fast_kv_a_lightweight_ke.Indexing.Queries.{list_keys_by_prefix_lem, list_keys_in_range_lem}
use fast_kv_a_lightweight_ke.Storage.Memory.Invariant.{IsWellFormed}
use fast_kv_a_lightweight_ke.Storage.Memory.Listing.{list-agrees-get}
use fast_kv_a_lightweight_ke.Service.KvService.{
  KvService, get, list, list_keys_by_prefix, list_keys_in_range,
}

module _ (order : RangeOrder Bytes Bytes) (now : Int64) (s : KvService) (bucket : Bytes) where
  listed :
      IsWellFormed s.storage.shards
      → (m : Dict Bytes Bytes) → list order now bucket s ≡ ok m
      → NodupKeys m × ((key : Bytes) → lookup key m ≡ value? (get now bucket key s))
  unfolding list get
  listed wf m h = list-agrees-get order now s.storage.shards bucket m wf h

  list_cases :
      ((m : Dict Bytes Bytes) × (list order now bucket s ≡ ok m))
      ⊎ ((e : Error) × (list order now bucket s ≡ err e))
  list_cases = go (list order now bucket s) refl
    where
      go :
          (x : Result (Dict Bytes Bytes))
          → list order now bucket s ≡ x
          → ((m : Dict Bytes Bytes) × (list order now bucket s ≡ ok m))
            ⊎ ((e : Error) × (list order now bucket s ≡ err e))
      go (ok m) h = inl (m, h)
      go (err e) h = inr (e, h)

  -- A prefix query that succeeds answers the keys of the bucket that can be read and start with the
  -- prefix, each once, and no other.
  pub prefix_query :
      (prefix : Bytes) (keys : List Bytes)
      → IsWellFormed s.storage.shards
      → list_keys_by_prefix order now bucket prefix s ≡ ok keys
      → (key : Bytes)
      → occurrences key keys
        ≡ (if has_prefix key prefix && is_some (value? (get now bucket key s)) then 1 else 0)
  unfolding list_keys_by_prefix
  prefix_query prefix keys wf answered key = elim list_cases [
    | inl (m, found) ↦ ground (
      arith,
      found,
      (listed wf m found).1 key,
      list_keys_by_prefix_lem order m (listed wf m found).0 prefix key,
    )
    | inr (e, failed) ↦ absurd (ground (arith, failed))
  ]

  -- A range query that succeeds answers the keys of the bucket that can be read and lie from
  -- `start` to `end`, both included, each once and in ascending order, and no other.
  pub range_query :
      (start end : Bytes) (keys : List Bytes)
      → IsWellFormed s.storage.shards
      → list_keys_in_range order now bucket start end s ≡ ok keys
      → IsSorted keys
        × ((key : Bytes)
            → occurrences key keys ≡ (
                if bytes_le start key && bytes_le key end && is_some (value? (get now bucket key s))
                then 1
                else 0))
  unfolding list_keys_in_range
  range_query start end keys wf answered = elim list_cases [
    | inl (m, found) ↦
        let query = list_keys_in_range_lem order m (listed wf m found).0 start end in
        let same : Indexing.list_keys_in_range order m start end ≡ keys = ground (arith, found) in
        (
          subst IsSorted same query.0,
          λ key. ground (arith, found, (listed wf m found).1 key, query.1 key, same),
        )
    | inr (e, failed) ↦ absurd (ground (arith, failed))
  ]
