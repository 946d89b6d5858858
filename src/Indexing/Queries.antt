-- ===== src/Indexing/Queries.antt =====
-- The keys that the two queries return.
use fast_kv_a_lightweight_ke.Base.{◌≡◌, Bool, ◌&&◌, is_some, [], ◌∷◌, if◌then◌else◌, arith}
use fast_kv_a_lightweight_ke.Base.Bytes.{Bytes, bytes_key, bytes_eq_iff, bytes_le, has_prefix}
use fast_kv_a_lightweight_ke.Base.Dict.{Dict, lookup, NodupKeys, RangeOrder}
use fast_kv_a_lightweight_ke.DataStructures.Sorting.{
  IsSorted, sort_strings-IsSorted, occurrences, occurrences-sort_strings,
}
use fast_kv_a_lightweight_ke.Indexing.{keys_where, list_keys_by_prefix, list_keys_in_range}

occurrences-keys_where :
    (test : Bytes → Bool) (key : Bytes) (entries : Dict Bytes Bytes)
    → NodupKeys entries
    → occurrences key (keys_where test entries)
      ≡ (if test key && is_some (lookup key entries) then 1 else 0)
unfolding keys_where lookup
occurrences-keys_where test key [] h = ground arith
occurrences-keys_where test key ((k, v) ∷ rest) h =
    ground (arith, occurrences-keys_where test key rest h.1, h.0, bytes_eq_iff k key)

module _ (order : RangeOrder Bytes Bytes) (entries : Dict Bytes Bytes)
    (nodup : NodupKeys entries) where
  -- The prefix query returns each key of the map that starts with the prefix, once, and no other.
  pub list_keys_by_prefix_lem :
      (prefix key : Bytes)
      → occurrences key (list_keys_by_prefix order entries prefix)
        ≡ (if has_prefix key prefix && is_some (lookup key entries) then 1 else 0)
  unfolding list_keys_by_prefix
  list_keys_by_prefix_lem prefix key = ground (
    arith,
    occurrences-keys_where (λ k. has_prefix k prefix) key (order.visit entries)
        (order.visit-NodupKeys entries nodup),
    order.lookup-visit entries nodup key,
  )

  -- The range query returns each key of the map from `start` to `end`, both included, once, and no
  -- other, in ascending order.
  pub list_keys_in_range_lem :
      (start end : Bytes)
      → IsSorted (list_keys_in_range order entries start end)
        × ((key : Bytes)
            → occurrences key (list_keys_in_range order entries start end) ≡ (
                if bytes_le start key && bytes_le key end && is_some (lookup key entries)
                then 1
                else 0))
  unfolding list_keys_in_range
  list_keys_in_range_lem start end = (
    sort_strings-IsSorted
        (keys_where (λ k. bytes_le start k && bytes_le k end) (order.visit entries)),
    λ key. ground (
      arith,
      occurrences-sort_strings key
          (keys_where (λ k. bytes_le start k && bytes_le k end) (order.visit entries)),
      occurrences-keys_where (λ k. bytes_le start k && bytes_le k end) key (order.visit entries)
          (order.visit-NodupKeys entries nodup),
      order.lookup-visit entries nodup key,
    ),
  )
