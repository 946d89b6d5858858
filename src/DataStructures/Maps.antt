-- ===== src/DataStructures/Maps.antt =====
-- `MapPut` and `MapGet`.
use fast_kv_a_lightweight_ke.Base.{◌≡◌, ◌&&◌, some, if◌then◌else◌, value?, arith}
use fast_kv_a_lightweight_ke.Base.Bytes.{Bytes, bytes_key, bytes_eq}
use fast_kv_a_lightweight_ke.Base.Nested.{lookup_in, ensure, lookup_in-ensure, lookup_in-insert_in}
use fast_kv_a_lightweight_ke.DataStructures.{DataStructures, map_put, map_get}

map_get-lookup_in :
    (c j : Bytes) (ds : DataStructures) → value? (map_get c j ds) ≡ lookup_in c j ds.maps
unfolding map_get lookup_in
map_get-lookup_in c j ds = ground arith

-- A key of a map reads as the value that was last put there, and a put changes no other key of any
-- map.
pub map_get-map_put :
    (map_name key value c j : Bytes) (ds : DataStructures)
    → value? (map_get c j (map_put map_name key value ds))
      ≡ (if bytes_eq map_name c && bytes_eq key j then some value else value? (map_get c j ds))
unfolding map_put
map_get-map_put map_name key value c j ds = ground (
  arith,
  map_get-lookup_in c j ds,
  map_get-lookup_in c j (map_put map_name key value ds),
  lookup_in-insert_in map_name key c j value (ensure map_name ds.maps),
  lookup_in-ensure map_name c j ds.maps,
)
