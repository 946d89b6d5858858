-- ===== src/Indexing.antt =====
-- kv-distributed/internal/indexing/indexer.go
pub mod Queries
use fast_kv_a_lightweight_ke.Base.{Bool, true, false, ◌&&◌, List, [], ◌∷◌, if◌then◌else◌}
use fast_kv_a_lightweight_ke.Base.Bytes.{Bytes, bytes_key, bytes_le, has_prefix}
use fast_kv_a_lightweight_ke.Base.Dict.{Dict, RangeOrder}
use fast_kv_a_lightweight_ke.DataStructures.{sort_strings}

-- `for k := range data { if … { keys = append(keys, k) } }`
unfoldable pub keys_where : (Bytes → Bool) → List (Bytes × Bytes) → List Bytes
keys_where test [] = []
keys_where test ((k, v) ∷ rest) =
    let keys = keys_where test rest in if test k then k ∷ keys else keys

module _ (order : RangeOrder Bytes Bytes) where
  unfoldable pub list_keys_by_prefix : Dict Bytes Bytes → Bytes → List Bytes
  unfolding keys_where
  list_keys_by_prefix data_map prefix = keys_where (λ k. has_prefix k prefix) (order.visit data_map)

  unfoldable pub list_keys_in_range : Dict Bytes Bytes → Bytes → Bytes → List Bytes
  unfolding keys_where sort_strings
  list_keys_in_range data_map start end =
      sort_strings (keys_where (λ k. bytes_le start k && bytes_le k end) (order.visit data_map))
