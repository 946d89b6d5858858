-- ===== src/Api/Dispatch.antt =====
-- `rpc.Register` in `Start` of kv-distributed/internal/api/server.go: the handlers, and the wrappers
-- for JSON, by the names that they are called by.
use fast_kv_a_lightweight_ke.Base.{
  List, Failure, ok, ℕ, nat_eq, none, some, [], ◌∷◌, Result, err, method_not_found,
}
use fast_kv_a_lightweight_ke.Base.Bytes.{Bytes, bytes_key, text}
use fast_kv_a_lightweight_ke.Base.Dict.{Dict, RangeOrder, lookup}
use fast_kv_a_lightweight_ke.Base.Words.{Int64}
use fast_kv_a_lightweight_ke.Storage.Engine.{Io}
use fast_kv_a_lightweight_ke.Api
use fast_kv_a_lightweight_ke.Api.{Request, Response, KvServer}
use fast_kv_a_lightweight_ke.Api.Structures
use fast_kv_a_lightweight_ke.Api.JsonBridge.{
  Json, Nils, http_put, http_get, http_delete, http_update, http_list,
}

-- What the server's machine decides for one call: the clock, a write, the orders of the maps, and a
-- clock and a write for each operation of a transaction. A wrapper's answer also depends on which
-- empty slices and maps of the response are `nil`.
pub record Environment : Type 0 where
  pub now : Int64
  pub io : Io
  pub order : RangeOrder Bytes Bytes
  pub set_order : RangeOrder Bytes (Unit {0})
  pub turns : ℕ → Int64 × Io
  pub nils : Nils

pub data RpcMethod : Type 0 where
  rpc_put rpc_get rpc_delete rpc_update rpc_list rpc_scan_keys : RpcMethod
  rpc_list_keys_by_prefix rpc_list_keys_in_range rpc_execute_transaction : RpcMethod
  rpc_set_add rpc_set_remove rpc_set_list rpc_sorted_list_add rpc_sorted_list_get : RpcMethod
  rpc_map_put rpc_map_get rpc_queue_push rpc_queue_pop rpc_queue_peek : RpcMethod
  rpc_stack_push rpc_stack_pop rpc_stack_peek : RpcMethod
  rpc_http_put rpc_http_get rpc_http_delete rpc_http_update rpc_http_list : RpcMethod

abbrev pub registered : Dict Bytes RpcMethod
registered =
    (text "KVServer.Put", rpc_put)
    ∷ (text "KVServer.Get", rpc_get)
    ∷ (text "KVServer.Delete", rpc_delete)
    ∷ (text "KVServer.Update", rpc_update)
    ∷ (text "KVServer.List", rpc_list)
    ∷ (text "KVServer.ListKeysByPrefix", rpc_list_keys_by_prefix)
    ∷ (text "KVServer.ListKeysInRange", rpc_list_keys_in_range)
    ∷ (text "KVServer.ScanKeys", rpc_scan_keys)
    ∷ (text "KVServer.SetAdd", rpc_set_add)
    ∷ (text "KVServer.SetRemove", rpc_set_remove)
    ∷ (text "KVServer.SetList", rpc_set_list)
    ∷ (text "KVServer.SortedListAdd", rpc_sorted_list_add)
    ∷ (text "KVServer.SortedListGet", rpc_sorted_list_get)
    ∷ (text "KVServer.MapPut", rpc_map_put)
    ∷ (text "KVServer.MapGet", rpc_map_get)
    ∷ (text "KVServer.QueuePush", rpc_queue_push)
    ∷ (text "KVServer.QueuePop", rpc_queue_pop)
    ∷ (text "KVServer.QueuePeek", rpc_queue_peek)
    ∷ (text "KVServer.StackPush", rpc_stack_push)
    ∷ (text "KVServer.StackPop", rpc_stack_pop)
    ∷ (text "KVServer.StackPeek", rpc_stack_peek)
    ∷ (text "KVServer.ExecuteTransaction", rpc_execute_transaction)
    ∷ (text "KVServer.HTTPPut", rpc_http_put)
    ∷ (text "KVServer.HTTPGet", rpc_http_get)
    ∷ (text "KVServer.HTTPDelete", rpc_http_delete)
    ∷ (text "KVServer.HTTPUpdate", rpc_http_update)
    ∷ (text "KVServer.HTTPList", rpc_http_list)
    ∷ []

-- What a method answers: a response, or the map of a wrapper.
pub data Reply : Type 0 where
  response : Response → Reply
  json_map : Dict Bytes Json → Reply

abbrev pub responds : Result Response → Result Reply
responds (ok resp) = ok (response resp)
responds (err e) = err e

abbrev pub maps : Dict Bytes Json × Failure → Result Reply
maps (result, none) = ok (json_map result)
maps (result, some e) = err e

abbrev pub replies : KvServer × Result Response → KvServer × Result Reply
replies done = (done.0, responds done.1)

abbrev pub maps_back : KvServer × Dict Bytes Json × Failure → KvServer × Result Reply
maps_back done = (done.0, maps (done.1, done.2))

-- The map that a wrapper is given to answer with is new and empty.
unfoldable pub dispatch_method :
    Environment → RpcMethod → Request → KvServer → KvServer × Result Reply
dispatch_method w rpc_put req s = replies (Api.put w.now w.io req s)
dispatch_method w rpc_get req s = (s, responds (Api.get w.now req s))
dispatch_method w rpc_delete req s = replies (Api.delete w.io req s)
dispatch_method w rpc_update req s = replies (Api.update w.now w.io req s)
dispatch_method w rpc_list req s = (s, responds (Api.list w.order w.now req s))
dispatch_method w rpc_list_keys_by_prefix req s =
    (s, responds (Api.list_keys_by_prefix w.order w.now req s))
dispatch_method w rpc_list_keys_in_range req s =
    (s, responds (Api.list_keys_in_range w.order w.now req s))
dispatch_method w rpc_scan_keys req s = (s, responds (Api.scan_keys w.order w.now req s))
dispatch_method w rpc_execute_transaction req s = replies (Api.execute_transaction w.turns req s)
dispatch_method w rpc_set_add req s = replies (Structures.set_add req s)
dispatch_method w rpc_set_remove req s = replies (Structures.set_remove req s)
dispatch_method w rpc_set_list req s = (s, responds (Structures.set_list w.set_order req s))
dispatch_method w rpc_sorted_list_add req s = replies (Structures.sorted_list_add req s)
dispatch_method w rpc_sorted_list_get req s = (s, responds (Structures.sorted_list_get req s))
dispatch_method w rpc_map_put req s = replies (Structures.map_put req s)
dispatch_method w rpc_map_get req s = (s, responds (Structures.map_get req s))
dispatch_method w rpc_queue_push req s = replies (Structures.queue_push req s)
dispatch_method w rpc_queue_pop req s = replies (Structures.queue_pop req s)
dispatch_method w rpc_queue_peek req s = (s, responds (Structures.queue_peek req s))
dispatch_method w rpc_stack_push req s = replies (Structures.stack_push req s)
dispatch_method w rpc_stack_pop req s = replies (Structures.stack_pop req s)
dispatch_method w rpc_stack_peek req s = (s, responds (Structures.stack_peek req s))
dispatch_method w rpc_http_put req s = maps_back (http_put w.nils req [] s w.now w.io)
dispatch_method w rpc_http_get req s = maps_back (http_get w.nils req [] s w.now)
dispatch_method w rpc_http_delete req s = maps_back (http_delete w.nils req [] s w.io)
dispatch_method w rpc_http_update req s = maps_back (http_update w.nils req [] s w.now w.io)
dispatch_method w rpc_http_list req s = maps_back (http_list w.nils req [] s w.order w.now)

-- One call by its name.
unfoldable pub dispatch : Environment → Bytes → Request → KvServer → KvServer × Result Reply
unfolding dispatch_method
dispatch w name req s = elim (lookup name registered) [
  | none ↦ (s, err method_not_found)
  | some method ↦ dispatch_method w method req s
]

-- The loop of `Start`: an accept that fails is passed over, and each other connection is served in a
-- goroutine of its own.
unfoldable pub accept_connections : List (Result ℕ) → List ℕ
accept_connections [] = []
accept_connections (err e ∷ accepts) = accept_connections accepts
accept_connections (ok conn ∷ accepts) = conn ∷ accept_connections accepts

-- `Start`, with what the listening comes to and what is accepted meanwhile
unfoldable pub listen_and_serve : Failure → List (Result ℕ) → List ℕ × Failure
unfolding accept_connections
listen_and_serve (some e) accepts = ([], some e)
listen_and_serve none accepts = (accept_connections accepts, none)
