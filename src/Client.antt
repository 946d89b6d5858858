-- ===== src/Client.antt =====
-- kv-distributed/client/client.go: each method of the client is one call of package rpc, whose
-- request has the fields that the method names and whose answer is one field of the response.
-- Package rpc is a parameter: a record of its two calls and of what it documents of them.
pub mod Calls
pub mod Session
use fast_kv_a_lightweight_ke.Base.{
  ℕ, ◌≡◌, Bool, true, false, Option, none, some, List, [], ◌∷◌, if◌then◌else◌, Result, ok, err,
  Failure, reading_body, shut_down,
}
use fast_kv_a_lightweight_ke.Base.Bytes.{Bytes, text}
use fast_kv_a_lightweight_ke.Base.Dict.{Dict}
use fast_kv_a_lightweight_ke.Base.Words.{Int64}
use fast_kv_a_lightweight_ke.Service.Transactions.{TransactionOp}
use fast_kv_a_lightweight_ke.Api.{Request, Response, KvServer, empty_response}
use fast_kv_a_lightweight_ke.Api.Dispatch.{Environment, Reply, response, json_map, dispatch}

-- A client's connection, with the server behind it.
pub record Link : Type 0 where
  pub server : KvServer
  pub is_open : Bool

-- `err == nil` of every operation
abbrev pub all_nil : List Failure → Bool
all_nil [] = true
all_nil (none ∷ errors) = all_nil errors
all_nil (some e ∷ errors) = false

-- What reaches the client of a handler's answer. The codec of package rpc encodes no error values
-- inside of a response, as no type of them is registered with it: the server then closes the
-- connection behind the header of its answer. The map of a wrapper is no response to the
-- client's codec, which gives up the connection.
abbrev pub delivered : KvServer × Result Reply → Link × Response × Failure
delivered (s, err e) = (record { server = s; is_open = true }, empty_response, some e)
delivered (s, ok (json_map result)) =
    (record { server = s; is_open = false }, empty_response, some reading_body)
delivered (s, ok (response resp)) =
    if all_nil resp.errors
    then (record { server = s; is_open = true }, resp, none)
    else (record { server = s; is_open = false }, empty_response, some reading_body)

-- `Call` and `Close` of package rpc, over a network that loses nothing.
pub record Rpc : Type 0 where
  pub call : Environment → Bytes → Request → Link → Link × Response × Failure
  pub close : Link → Link × Failure
  pub call-open :
      (w : Environment) (name : Bytes) (req : Request) (l : Link)
      → l.is_open ≡ true
      → call w name req l ≡ delivered (dispatch w name req l.server)
  pub call-shut :
      (w : Environment) (name : Bytes) (req : Request) (l : Link)
      → l.is_open ≡ false
      → call w name req l ≡ (l, empty_response, some shut_down)
  pub close-open : (l : Link) → l.is_open ≡ true → close l ≡ (record l { is_open = false }, none)

-- `NewKVClient`, with what the dial comes to
unfoldable pub new_kv_client : Result Link → Result Link
new_kv_client (err e) = err e
new_kv_client (ok client) = ok client

-- The request that a method's literal starts from.
abbrev pub empty_request : Request
empty_request = record {
  bucket = [];
  key = [];
  value = [];
  ttl_seconds = 0;
  set_name = [];
  list_name = [];
  map_name = [];
  queue_name = [];
  stack_name = [];
  prefix = [];
  start = [];
  end = [];
  value_str = [];
  transaction = [];
  cursor = 0;
  count = 0;
}

-- The answer of a method without a value.
abbrev pub error_of : Link × Response × Failure → Link × Failure
error_of (l, resp, failure) = (l, failure)

module _ (rpc : Rpc) (w : Environment) where
  unfoldable pub put : Bytes → Bytes → Bytes → Int64 → Link → Link × Failure
  put bucket key value ttl_seconds l = error_of (
      rpc.call w (text "KVServer.Put")
        (record empty_request {
          bucket = bucket;
          key = key;
          value = value;
          ttl_seconds = ttl_seconds;
        })
        l)

  unfoldable pub get : Bytes → Bytes → Link → Link × Bytes × Failure
  get bucket key l =
      let (l', resp, failure) =
        rpc.call w (text "KVServer.Get") (record empty_request { bucket = bucket; key = key }) l in
      (l', resp.value, failure)

  unfoldable pub delete : Bytes → Bytes → Link → Link × Failure
  delete bucket key l =
      error_of (
        rpc.call w (text "KVServer.Delete") (record empty_request { bucket = bucket; key = key }) l)

  unfoldable pub update : Bytes → Bytes → Bytes → Link → Link × Failure
  update bucket key value l = error_of (
      rpc.call w (text "KVServer.Update")
        (record empty_request { bucket = bucket; key = key; value = value }) l)

  unfoldable pub list : Bytes → Link → Link × Dict Bytes Bytes × Failure
  list bucket l =
      let (l', resp, failure) =
        rpc.call w (text "KVServer.List") (record empty_request { bucket = bucket }) l in
      (l', resp.values, failure)

  unfoldable pub list_keys_by_prefix : Bytes → Bytes → Link → Link × List Bytes × Failure
  list_keys_by_prefix bucket prefix l =
      let (l', resp, failure) =
        rpc.call w (text "KVServer.ListKeysByPrefix")
          (record empty_request { bucket = bucket; prefix = prefix }) l in
      (l', resp.keys, failure)

  unfoldable pub list_keys_in_range : Bytes → Bytes → Bytes → Link → Link × List Bytes × Failure
  list_keys_in_range bucket start end l =
      let (l', resp, failure) =
        rpc.call w (text "KVServer.ListKeysInRange")
          (record empty_request { bucket = bucket; start = start; end = end }) l in
      (l', resp.keys, failure)

  unfoldable pub set_add : Bytes → Bytes → Link → Link × Failure
  set_add set_name value l = error_of (
      rpc.call w (text "KVServer.SetAdd")
        (record empty_request { set_name = set_name; value_str = value }) l)

  unfoldable pub set_remove : Bytes → Bytes → Link → Link × Failure
  set_remove set_name value l = error_of (
      rpc.call w (text "KVServer.SetRemove")
        (record empty_request { set_name = set_name; value_str = value }) l)

  unfoldable pub set_list : Bytes → Link → Link × List Bytes × Failure
  set_list set_name l =
      let (l', resp, failure) =
        rpc.call w (text "KVServer.SetList") (record empty_request { set_name = set_name }) l in
      (l', resp.list, failure)

  unfoldable pub sorted_list_add : Bytes → Bytes → Link → Link × Failure
  sorted_list_add list_name value l = error_of (
      rpc.call w (text "KVServer.SortedListAdd")
        (record empty_request { list_name = list_name; value_str = value }) l)

  unfoldable pub sorted_list_get : Bytes → Link → Link × List Bytes × Failure
  sorted_list_get list_name l =
      let (l', resp, failure) =
        rpc.call w (text "KVServer.SortedListGet") (record empty_request { list_name = list_name })
          l in
      (l', resp.list, failure)

  unfoldable pub map_put : Bytes → Bytes → Bytes → Link → Link × Failure
  map_put map_name key value l = error_of (
      rpc.call w (text "KVServer.MapPut")
        (record empty_request { map_name = map_name; key = key; value_str = value }) l)

  unfoldable pub map_get : Bytes → Bytes → Link → Link × Option Bytes × Failure
  map_get map_name key l =
      let (l', resp, failure) =
        rpc.call w (text "KVServer.MapGet")
          (record empty_request { map_name = map_name; key = key }) l in
      (l', resp.data_value, failure)

  unfoldable pub queue_push : Bytes → Bytes → Link → Link × Failure
  queue_push name value l = error_of (
      rpc.call w (text "KVServer.QueuePush")
        (record empty_request { queue_name = name; value_str = value }) l)

  unfoldable pub queue_pop : Bytes → Link → Link × Bytes × Failure
  queue_pop name l =
      let (l', resp, failure) =
        rpc.call w (text "KVServer.QueuePop") (record empty_request { queue_name = name }) l in
      (l', resp.message, failure)

  unfoldable pub queue_peek : Bytes → Link → Link × Bytes × Failure
  queue_peek name l =
      let (l', resp, failure) =
        rpc.call w (text "KVServer.QueuePeek") (record empty_request { queue_name = name }) l in
      (l', resp.message, failure)

  unfoldable pub stack_push : Bytes → Bytes → Link → Link × Failure
  stack_push name value l = error_of (
      rpc.call w (text "KVServer.StackPush")
        (record empty_request { stack_name = name; value_str = value }) l)

  unfoldable pub stack_pop : Bytes → Link → Link × Bytes × Failure
  stack_pop name l =
      let (l', resp, failure) =
        rpc.call w (text "KVServer.StackPop") (record empty_request { stack_name = name }) l in
      (l', resp.message, failure)

  unfoldable pub stack_peek : Bytes → Link → Link × Bytes × Failure
  stack_peek name l =
      let (l', resp, failure) =
        rpc.call w (text "KVServer.StackPeek") (record empty_request { stack_name = name }) l in
      (l', resp.message, failure)

  unfoldable pub execute_transaction : List TransactionOp → Link → Link × List Failure × Failure
  execute_transaction ops l =
      let (l', resp, failure) =
        rpc.call w (text "KVServer.ExecuteTransaction") (record empty_request { transaction = ops })
          l in
      (l', resp.errors, failure)

unfoldable pub close : Rpc → Link → Link × Failure
close rpc l = rpc.close l
