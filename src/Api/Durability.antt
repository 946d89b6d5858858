-- ===== src/Api/Durability.antt =====
-- Calls of the RPC server whose writes go well, against a restart.
use fast_kv_a_lightweight_ke.Base.{
  [], ◌≡◌, refl, if◌then◌else◌, Option-cases, inl, inr, none, some, All, arith,
}
use fast_kv_a_lightweight_ke.Base.Bytes.{Bytes, bytes_key}
use fast_kv_a_lightweight_ke.Base.Dict.{lookup}
use fast_kv_a_lightweight_ke.Base.Words.{positive64}
use fast_kv_a_lightweight_ke.Storage.Engine.Recovery.{IsDurable}
use fast_kv_a_lightweight_ke.Storage.Engine.Sessions.{
  Request, put_req, put_with_ttl_req, delete_req, update_req, execute, GoesWell, execute-IsDurable,
}
use fast_kv_a_lightweight_ke.Service.KvService
use fast_kv_a_lightweight_ke.Service.KvService.{KvService, new_kv_service, load_from, save_to}
use fast_kv_a_lightweight_ke.Service.Transactions.{OpGoesWell, execute_transaction-IsDurable}
use fast_kv_a_lightweight_ke.Api
use fast_kv_a_lightweight_ke.Api.{KvServer, new_kv_server, with_turns}
use fast_kv_a_lightweight_ke.Api.Structures
use fast_kv_a_lightweight_ke.Api.JsonBridge.{
  wrapped_server, http_put, http_get, http_delete, http_update, http_list,
}
use fast_kv_a_lightweight_ke.Api.Dispatch.{
  Environment, RpcMethod, rpc_put, rpc_get, rpc_delete, rpc_update, rpc_list, rpc_scan_keys,
  rpc_list_keys_by_prefix, rpc_list_keys_in_range, rpc_execute_transaction, rpc_set_add,
  rpc_set_remove, rpc_set_list, rpc_sorted_list_add, rpc_sorted_list_get, rpc_map_put, rpc_map_get,
  rpc_queue_push, rpc_queue_pop, rpc_queue_peek, rpc_stack_push, rpc_stack_pop, rpc_stack_peek,
  rpc_http_put, rpc_http_get, rpc_http_delete, rpc_http_update, rpc_http_list, registered, dispatch,
  dispatch_method,
}

-- The request that a call makes of the store.
abbrev pub put_of : Environment → Api.Request → Request
put_of w req =
    if positive64 req.ttl_seconds
    then put_with_ttl_req w.now req.bucket req.key req.value req.ttl_seconds
    else put_req req.bucket req.key req.value

-- The names and the values of a call fit the log, and its writes go well.
abbrev pub MethodGoesWell : Environment → RpcMethod → Api.Request → Type 0
MethodGoesWell w rpc_put req = GoesWell (put_of w req, w.io)
MethodGoesWell w rpc_delete req = GoesWell (delete_req req.bucket req.key, w.io)
MethodGoesWell w rpc_update req = GoesWell (update_req w.now req.bucket req.key req.value, w.io)
MethodGoesWell w rpc_http_put req = GoesWell (put_of w req, w.io)
MethodGoesWell w rpc_http_delete req = GoesWell (delete_req req.bucket req.key, w.io)
MethodGoesWell w rpc_http_update req =
    GoesWell (update_req w.now req.bucket req.key req.value, w.io)
MethodGoesWell w rpc_execute_transaction req = All OpGoesWell (with_turns w.turns 0 req.transaction)
MethodGoesWell w method req = Unit

abbrev pub CallGoesWell : Environment → Bytes → Api.Request → Type 0
CallGoesWell w name req = elim (lookup name registered) [
  | none ↦ Unit
  | some method ↦ MethodGoesWell w method req
]

-- What the three handlers that write single keys do to the store.
module _ (w : Environment) (req : Api.Request) (s : KvServer) where
  storage-put :
      (Api.put w.now w.io req s).0.service.storage
      ≡ (execute s.service.storage (put_of w req) w.io).0
  unfolding Api.put Api.replicate_to_slaves KvService.put KvService.put_with_ttl execute
  storage-put = ground arith

  storage-delete :
      (Api.delete w.io req s).0.service.storage
      ≡ (execute s.service.storage (delete_req req.bucket req.key) w.io).0
  unfolding Api.delete Api.replicate_to_slaves KvService.delete execute
  storage-delete = ground arith

  storage-update :
      (Api.update w.now w.io req s).0.service.storage
      ≡ (execute s.service.storage (update_req w.now req.bucket req.key req.value) w.io).0
  unfolding Api.update Api.replicate_to_slaves KvService.update execute
  storage-update = ground arith

-- The handlers of the data structures leave the store alone.
module _ (req : Api.Request) (s : KvServer) where
  storage-set_add : (Structures.set_add req s).0.service.storage ≡ s.service.storage
  unfolding Structures.set_add KvService.set_add
  storage-set_add = refl

  storage-set_remove : (Structures.set_remove req s).0.service.storage ≡ s.service.storage
  unfolding Structures.set_remove KvService.set_remove
  storage-set_remove = ground arith

  storage-sorted_list_add : (Structures.sorted_list_add req s).0.service.storage ≡ s.service.storage
  unfolding Structures.sorted_list_add KvService.sorted_list_add
  storage-sorted_list_add = refl

  storage-map_put : (Structures.map_put req s).0.service.storage ≡ s.service.storage
  unfolding Structures.map_put KvService.map_put
  storage-map_put = refl

  storage-queue_push : (Structures.queue_push req s).0.service.storage ≡ s.service.storage
  unfolding Structures.queue_push KvService.queue_push
  storage-queue_push = refl

  storage-queue_pop : (Structures.queue_pop req s).0.service.storage ≡ s.service.storage
  unfolding Structures.queue_pop KvService.queue_pop
  storage-queue_pop = refl

  storage-stack_push : (Structures.stack_push req s).0.service.storage ≡ s.service.storage
  unfolding Structures.stack_push KvService.stack_push
  storage-stack_push = refl

  storage-stack_pop : (Structures.stack_pop req s).0.service.storage ≡ s.service.storage
  unfolding Structures.stack_pop KvService.stack_pop
  storage-stack_pop = refl

method-IsDurable :
    (filename : Bytes) (w : Environment) (method : RpcMethod) (req : Api.Request) (s : KvServer)
    → IsDurable filename s.service.storage
    → MethodGoesWell w method req
    → IsDurable filename (dispatch_method w method req s).0.service.storage
unfolding dispatch_method http_put http_get http_delete http_update http_list
method-IsDurable filename w rpc_put req s d well =
    rw (storage-put w req s) (execute-IsDurable filename s.service.storage _ w.io d well.0 well.1)
method-IsDurable filename w rpc_delete req s d well =
    rw (storage-delete w req s)
      (execute-IsDurable filename s.service.storage _ w.io d well.0 well.1)
method-IsDurable filename w rpc_update req s d well =
    rw (storage-update w req s)
      (execute-IsDurable filename s.service.storage _ w.io d well.0 well.1)
method-IsDurable filename w rpc_http_put req s d well =
    rw (wrapped_server w.nils [] (Api.put w.now w.io req s), storage-put w req s)
      (execute-IsDurable filename s.service.storage _ w.io d well.0 well.1)
method-IsDurable filename w rpc_http_delete req s d well =
    rw (wrapped_server w.nils [] (Api.delete w.io req s), storage-delete w req s)
      (execute-IsDurable filename s.service.storage _ w.io d well.0 well.1)
method-IsDurable filename w rpc_http_update req s d well =
    rw (wrapped_server w.nils [] (Api.update w.now w.io req s), storage-update w req s)
      (execute-IsDurable filename s.service.storage _ w.io d well.0 well.1)
method-IsDurable filename w rpc_http_get req s d well =
    rw (wrapped_server w.nils [] (s, Api.get w.now req s)) d
method-IsDurable filename w rpc_http_list req s d well =
    rw (wrapped_server w.nils [] (s, Api.list w.order w.now req s)) d
method-IsDurable filename w rpc_get req s d well = d
method-IsDurable filename w rpc_list req s d well = d
method-IsDurable filename w rpc_list_keys_by_prefix req s d well = d
method-IsDurable filename w rpc_list_keys_in_range req s d well = d
method-IsDurable filename w rpc_scan_keys req s d well = d
method-IsDurable filename w rpc_set_list req s d well = d
method-IsDurable filename w rpc_sorted_list_get req s d well = d
method-IsDurable filename w rpc_map_get req s d well = d
method-IsDurable filename w rpc_queue_peek req s d well = d
method-IsDurable filename w rpc_stack_peek req s d well = d
method-IsDurable filename w rpc_sorted_list_add req s d well = rw (storage-sorted_list_add req s) d
method-IsDurable filename w rpc_set_add req s d well = rw (storage-set_add req s) d
method-IsDurable filename w rpc_map_put req s d well = rw (storage-map_put req s) d
method-IsDurable filename w rpc_queue_push req s d well = rw (storage-queue_push req s) d
method-IsDurable filename w rpc_stack_push req s d well = rw (storage-stack_push req s) d
method-IsDurable filename w rpc_set_remove req s d well = rw (storage-set_remove req s) d
method-IsDurable filename w rpc_queue_pop req s d well = rw (storage-queue_pop req s) d
method-IsDurable filename w rpc_stack_pop req s d well = rw (storage-stack_pop req s) d
method-IsDurable filename w rpc_execute_transaction req s d well =
    unfold Api.execute_transaction in
    execute_transaction-IsDurable filename (with_turns w.turns 0 req.transaction) s.service d well

pub dispatch-IsDurable :
    (filename : Bytes) (w : Environment) (name : Bytes) (req : Api.Request) (s : KvServer)
    → IsDurable filename s.service.storage
    → CallGoesWell w name req
    → IsDurable filename (dispatch w name req s).0.service.storage
unfolding dispatch
dispatch-IsDurable filename w name req s d well = elim (Option-cases (lookup name registered)) [
  | inl unknown ↦ rw (unknown, dispatch) d
  | inr (method, known) ↦
      rw (known, dispatch)
        (method-IsDurable filename w method req s d (rw (known, CallGoesWell) at well))
]
