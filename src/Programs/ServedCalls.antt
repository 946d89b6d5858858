-- ===== src/Programs/ServedCalls.antt =====
-- The calls of the demonstration that read the store, or leave it alone.
use fast_kv_a_lightweight_ke.Base.{◌≡◌, refl, ap, ◌∙◌, true, Option, none, some, ok, arith}
use fast_kv_a_lightweight_ke.Base.Bytes.{Bytes, bytes_key, bytes_eq_refl}
use fast_kv_a_lightweight_ke.Base.Dict.{Dict, lookup, insert, lookup-insert}
use fast_kv_a_lightweight_ke.Base.Nested.{insert_in, ensure, bucket_or_nil}
use fast_kv_a_lightweight_ke.DataStructures
use fast_kv_a_lightweight_ke.DataStructures.{DataStructures, keys_of}
use fast_kv_a_lightweight_ke.Indexing
use fast_kv_a_lightweight_ke.Service.KvService.{KvService}
use fast_kv_a_lightweight_ke.Storage.Memory.Listing.{list-readable}
use fast_kv_a_lightweight_ke.Storage.Memory.View.{get-answer}
use fast_kv_a_lightweight_ke.Service.KvService
use fast_kv_a_lightweight_ke.Api.Effects.{shards_of}
use fast_kv_a_lightweight_ke.Api.Dispatch.{Environment}
use fast_kv_a_lightweight_ke.Client
use fast_kv_a_lightweight_ke.Client.{Link, Rpc, empty_request}
use fast_kv_a_lightweight_ke.Client.Calls.{
  Call, get_call, queue_push_call, local, remote, bytes_answer, keys_answer, entries_answer, Answer,
  stack_push_call, set_add_call, set_list_call, list_call, list_keys_by_prefix_call,
}
use fast_kv_a_lightweight_ke.Client.Session.{remote_as, is_sent}
use fast_kv_a_lightweight_ke.Programs.ClientMain.{users, user1}
use fast_kv_a_lightweight_ke.Programs.Serves.{Serves, Serves-same}

set_add-has :
    (name value : Bytes) (ds : DataStructures)
    → (members : Dict Bytes (Unit {0})) × (lookup name (DataStructures.set_add name value ds).sets
        ≡ some members)
unfolding DataStructures.set_add insert_in
set_add-has name value ds = (
  insert value tt (bucket_or_nil name (ensure name ds.sets)),
  lookup-insert name name (insert value tt (bucket_or_nil name (ensure name ds.sets)))
        (ensure name ds.sets)
      ∙ rw (bytes_eq_refl name) refl,
)

-- A set that has been added to can be listed.
abbrev pub HasSet : Bytes → Link → Type 0
HasSet name l =
    (members : Dict Bytes (Unit {0})) × (lookup name l.server.service.data_structs.sets
      ≡ some members)

module _ (rpc : Rpc) (w : Environment) where
  -- The user's value is read as it is stored.
  pub Serves-get :
      (v : Bytes) (l : Link)
      → Serves (some v) l
      → ((Client.get rpc w users user1 l).2 ≡ none)
        × (Serves (some v) (Client.get rpc w users user1 l).0
            × ((Client.get rpc w users user1 l).1 ≡ v))
  unfolding remote local KvService.get
  Serves-get v l serves =
      let found : KvService.get w.now users user1 l.server.service ≡ ok v =
        ground (
          arith,
          get-answer w.now (shards_of l.server) users user1,
          serves.lasting,
          serves.stored,
        ) in
      let done =
        remote_as rpc w l serves.opened (get_call users user1) l.server.service (bytes_answer v)
          none (rw found refl) refl in
      (done.3, (Serves-same (some v) l _ serves done.0 (ap (λ s. s.storage) done.1), cc))

  -- A call that does not touch the store, and is answered without an error, leaves what is served.
  untouched :
      (v : Option Bytes) (l : Link) (c : Call) (s : KvService) (answer : Answer)
      → Serves v l
      → local w c l.server.service ≡ (s, answer, none)
      → is_sent answer ≡ true
      → s.storage ≡ l.server.service.storage
      → ((remote rpc w c l).2 ≡ none)
        × Serves v (remote rpc w c l).0
        × ((remote rpc w c l).0.server.service ≡ s)
  untouched v l c s answer serves known sent same =
      let done = remote_as rpc w l serves.opened c s answer none known sent in
      (done.3, Serves-same v l _ serves done.0 (ap (λ x. x.storage) done.1 ∙ same), done.1)

  pub Serves-queue_push :
      (v : Option Bytes) (name value : Bytes) (l : Link)
      → Serves v l
      → ((Client.queue_push rpc w name value l).1 ≡ none)
        × Serves v (Client.queue_push rpc w name value l).0
  unfolding remote local KvService.queue_push
  Serves-queue_push v name value l serves =
      let done = untouched v l (queue_push_call name value) _ _ serves refl refl refl in
      (done.0, done.1)

  pub Serves-stack_push :
      (v : Option Bytes) (name value : Bytes) (l : Link)
      → Serves v l
      → ((Client.stack_push rpc w name value l).1 ≡ none)
        × Serves v (Client.stack_push rpc w name value l).0
  unfolding remote local KvService.stack_push
  Serves-stack_push v name value l serves =
      let done = untouched v l (stack_push_call name value) _ _ serves refl refl refl in
      (done.0, done.1)

  pub Serves-set_add :
      (v : Option Bytes) (name value : Bytes) (l : Link)
      → Serves v l
      → ((Client.set_add rpc w name value l).1 ≡ none)
        × (Serves v (Client.set_add rpc w name value l).0
            × HasSet name (Client.set_add rpc w name value l).0)
  unfolding remote local KvService.set_add
  Serves-set_add v name value l serves =
      let done = untouched v l (set_add_call name value) _ _ serves refl refl refl in
      (done.0, (done.1, rw done.2 (set_add-has name value l.server.service.data_structs)))

  pub Serves-set_list :
      (v : Option Bytes) (name : Bytes) (l : Link)
      → Serves v l × HasSet name l
      → ((Client.set_list rpc w name l).2 ≡ none) × Serves v (Client.set_list rpc w name l).0
  unfolding remote local KvService.set_list DataStructures.set_list
  Serves-set_list v name l (serves, (members, has)) =
      let done =
        untouched v l (set_list_call name) l.server.service
          (keys_answer (keys_of (w.set_order.visit members))) serves
          (rw (has, local, KvService.set_list, DataStructures.set_list) refl) refl refl in
      (done.0, done.1)

  readable :
      (v : Bytes) (l : Link)
      → Serves (some v) l
      → (m : Dict Bytes Bytes) × (KvService.list w.order w.now users l.server.service ≡ ok m)
  unfolding KvService.list
  readable v l serves =
      list-readable w.order w.now (shards_of l.server) users user1 v serves.formed (
        ground
          (arith, get-answer w.now (shards_of l.server) users user1, serves.lasting, serves.stored))

  pub Serves-list :
      (v : Bytes) (l : Link)
      → Serves (some v) l
      → ((Client.list rpc w users l).2 ≡ none) × Serves (some v) (Client.list rpc w users l).0
  unfolding remote local
  Serves-list v l serves =
      let (m, found) = readable v l serves in
      let done =
        untouched (some v) l (list_call users) l.server.service (entries_answer m) serves
          (rw found refl) refl refl in
      (done.0, done.1)

  pub Serves-list_keys_by_prefix :
      (v prefix : Bytes) (l : Link)
      → Serves (some v) l
      → ((Client.list_keys_by_prefix rpc w users prefix l).2 ≡ none)
        × Serves (some v) (Client.list_keys_by_prefix rpc w users prefix l).0
  unfolding remote local KvService.list_keys_by_prefix
  Serves-list_keys_by_prefix v prefix l serves =
      let (m, found) = readable v l serves in
      let done =
        untouched (some v) l (list_keys_by_prefix_call users prefix) l.server.service
          (keys_answer (Indexing.list_keys_by_prefix w.order m prefix)) serves
          (rw (found, local, KvService.list_keys_by_prefix) refl) refl refl in
      (done.0, done.1)
