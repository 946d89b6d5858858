-- ===== src/Service/KvService.antt =====
-- kv-distributed/internal/service/kv_service.go: the service's calls of the store, of the indexer
-- and of the data structures. The ticker of `autoCleanupTTL` touches no state and is left out.
use fast_kv_a_lightweight_ke.Base.{ℕ, nat_eq, Bool, List, Failure, Result, ok, err}
use fast_kv_a_lightweight_ke.Base.Bytes.{Bytes, bytes_key}
use fast_kv_a_lightweight_ke.Base.Dict.{Dict, RangeOrder}
use fast_kv_a_lightweight_ke.Base.Words.{Int64}
use fast_kv_a_lightweight_ke.DataStructures
use fast_kv_a_lightweight_ke.DataStructures.{DataStructures, new_data_structures}
use fast_kv_a_lightweight_ke.Indexing
use fast_kv_a_lightweight_ke.Service.PubSub
use fast_kv_a_lightweight_ke.Service.PubSub.{PubSub, new_pub_sub}
use fast_kv_a_lightweight_ke.Storage.Memory
use fast_kv_a_lightweight_ke.Storage.Engine
use fast_kv_a_lightweight_ke.Storage.Engine.{
  Storage, Io, set_persistence_file, load_from_file, save_to_file,
}

pub record KvService : Type 0 where
  pub storage : Storage
  pub data_structs : DataStructures
  pub pub_sub : PubSub

-- `NewKVService` over a store and new data structures
unfoldable pub new_kv_service : Storage → KvService
new_kv_service storage = record {
  storage = storage;
  data_structs = new_data_structures;
  pub_sub = new_pub_sub;
}

-- The error of the store is not looked at.
unfoldable pub put : Bytes → Bytes → Bytes → Io → KvService → KvService
put bucket key value io s = record s { storage = (Engine.put s.storage bucket key value io).0 }

-- The error of the store is not looked at.
unfoldable pub put_with_ttl : Int64 → Bytes → Bytes → Bytes → Int64 → Io → KvService → KvService
put_with_ttl now bucket key value ttl_seconds io s = record s {
  storage = (Engine.put_with_ttl now s.storage bucket key value ttl_seconds io).0;
}

unfoldable pub get : Int64 → Bytes → Bytes → KvService → Result Bytes
get now bucket key s = Memory.get now s.storage.shards bucket key

unfoldable pub delete : Bytes → Bytes → Io → KvService → KvService × Failure
delete bucket key io s =
    let (storage, failure) = Engine.delete s.storage bucket key io in
    (record s { storage = storage }, failure)

unfoldable pub update : Int64 → Bytes → Bytes → Bytes → Io → KvService → KvService × Failure
update now bucket key value io s =
    let (storage, failure) = Engine.update now s.storage bucket key value io in
    (record s { storage = storage }, failure)

module _ (order : RangeOrder Bytes Bytes) (now : Int64) where
  unfoldable pub list : Bytes → KvService → Result (Dict Bytes Bytes)
  list bucket s = Memory.list order now s.storage.shards bucket

  unfoldable pub list_keys_by_prefix : Bytes → Bytes → KvService → Result (List Bytes)
  unfolding list
  list_keys_by_prefix bucket prefix s = elim (list bucket s) [
    | err e ↦ err e
    | ok entries ↦ ok (Indexing.list_keys_by_prefix order entries prefix)
  ]

  unfoldable pub list_keys_in_range : Bytes → Bytes → Bytes → KvService → Result (List Bytes)
  unfolding list
  list_keys_in_range bucket start end s = elim (list bucket s) [
    | err e ↦ err e
    | ok entries ↦ ok (Indexing.list_keys_in_range order entries start end)
  ]

-- `SaveToFile` and `LoadFromFile` go on whether or not the file was opened.
unfoldable pub save_to : Bytes → Bool → KvService → KvService × Failure
save_to filename opens s =
    let (storage, failure) = save_to_file (set_persistence_file s.storage filename opens).0 in
    (record s { storage = storage }, failure)

unfoldable pub load_from : Bytes → Bool → KvService → KvService × Failure
load_from filename opens s =
    let (storage, failure) = load_from_file (set_persistence_file s.storage filename opens).0 in
    (record s { storage = storage }, failure)

-- The calls that go to the data structures

unfoldable pub set_add : Bytes → Bytes → KvService → KvService
set_add set_name value s = record s {
  data_structs = DataStructures.set_add set_name value s.data_structs;
}

unfoldable pub set_remove : Bytes → Bytes → KvService → KvService × Failure
set_remove set_name value s =
    let (data_structs, failure) = DataStructures.set_remove set_name value s.data_structs in
    (record s { data_structs = data_structs }, failure)

unfoldable pub set_list : RangeOrder Bytes (Unit {0}) → Bytes → KvService → Result (List Bytes)
set_list order set_name s = DataStructures.set_list order set_name s.data_structs

unfoldable pub sorted_list_add : Bytes → Bytes → KvService → KvService
sorted_list_add list_name value s = record s {
  data_structs = DataStructures.sorted_list_add list_name value s.data_structs;
}

unfoldable pub sorted_list_get : Bytes → KvService → Result (List Bytes)
sorted_list_get list_name s = DataStructures.sorted_list_get list_name s.data_structs

unfoldable pub map_put : Bytes → Bytes → Bytes → KvService → KvService
map_put map_name key value s = record s {
  data_structs = DataStructures.map_put map_name key value s.data_structs;
}

unfoldable pub map_get : Bytes → Bytes → KvService → Result Bytes
map_get map_name key s = DataStructures.map_get map_name key s.data_structs

unfoldable pub queue_push : Bytes → Bytes → KvService → KvService
queue_push name value s = record s {
  data_structs = DataStructures.queue_push name value s.data_structs;
}

unfoldable pub queue_pop : Bytes → KvService → KvService × Result Bytes
queue_pop name s =
    let (data_structs, answer) = DataStructures.queue_pop name s.data_structs in
    (record s { data_structs = data_structs }, answer)

unfoldable pub queue_peek : Bytes → KvService → Result Bytes
queue_peek name s = DataStructures.queue_peek name s.data_structs

unfoldable pub stack_push : Bytes → Bytes → KvService → KvService
stack_push name value s = record s {
  data_structs = DataStructures.stack_push name value s.data_structs;
}

unfoldable pub stack_pop : Bytes → KvService → KvService × Result Bytes
stack_pop name s =
    let (data_structs, answer) = DataStructures.stack_pop name s.data_structs in
    (record s { data_structs = data_structs }, answer)

unfoldable pub stack_peek : Bytes → KvService → Result Bytes
stack_peek name s = DataStructures.stack_peek name s.data_structs

-- The calls that go to the channels
unfoldable pub subscribe : Bytes → KvService → KvService × ℕ
subscribe channel s =
    let (pub_sub, ch) = PubSub.subscribe channel s.pub_sub in (record s { pub_sub = pub_sub }, ch)

unfoldable pub unsubscribe : Bytes → ℕ → KvService → KvService
unsubscribe channel ch s = record s { pub_sub = PubSub.unsubscribe channel ch s.pub_sub }

unfoldable pub publish : RangeOrder ℕ Bool → Bytes → Bytes → KvService → KvService
publish order channel message s = record s {
  pub_sub = PubSub.publish order channel message s.pub_sub;
}
