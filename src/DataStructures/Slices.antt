-- ===== src/DataStructures/Slices.antt =====
-- The named slices of the service, after a write at a name.
use fast_kv_a_lightweight_ke.Base.{◌≡◌, List, arith, if◌then◌else◌}
use fast_kv_a_lightweight_ke.Base.Bytes.{Bytes, bytes_key, bytes_eq}
use fast_kv_a_lightweight_ke.Base.Dict.{Dict, insert, lookup-insert}
use fast_kv_a_lightweight_ke.DataStructures.{slice_at}

pub slice_at-insert :
    (name other : Bytes) (values : List Bytes) (m : Dict Bytes (List Bytes))
    → slice_at other (insert name values m)
      ≡ (if bytes_eq name other then values else slice_at other m)
unfolding slice_at
slice_at-insert name other values m = ground (arith, lookup-insert name other values m)
