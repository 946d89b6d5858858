-- ===== src/Client/Calls.antt =====
-- The calls of a client's methods as data, made over a connection and made of the service directly.
use fast_kv_a_lightweight_ke.Base.{
  ◌>>=◌, Option, none, some, List, [], if◌then◌else◌, Result, ok, err, Failure,
}
use fast_kv_a_lightweight_ke.Base.Bytes.{Bytes, bytes_key}
use fast_kv_a_lightweight_ke.Base.Dict.{Dict}
use fast_kv_a_lightweight_ke.Base.Words.{Int64, positive64}
use fast_kv_a_lightweight_ke.Service.KvService
use fast_kv_a_lightweight_ke.Service.KvService.{KvService}
use fast_kv_a_lightweight_ke.Service.Transactions
use fast_kv_a_lightweight_ke.Service.Transactions.{TransactionOp}
use fast_kv_a_lightweight_ke.Api.{with_turns}
use fast_kv_a_lightweight_ke.Api.Dispatch.{Environment}
use fast_kv_a_lightweight_ke.Client
use fast_kv_a_lightweight_ke.Client.{Link, Rpc, all_nil, delivered}

-- A call of a method of the client, with its arguments.
pub data Call : Type 0 where
  put_call : Bytes → Bytes → Bytes → Int64 → Call
  get_call : Bytes → Bytes → Call
  delete_call : Bytes → Bytes → Call
  update_call : Bytes → Bytes → Bytes → Call
  list_call : Bytes → Call
  list_keys_by_prefix_call : Bytes → Bytes → Call
  list_keys_in_range_call : Bytes → Bytes → Bytes → Call
  set_add_call : Bytes → Bytes → Call
  set_remove_call : Bytes → Bytes → Call
  set_list_call : Bytes → Call
  sorted_list_add_call : Bytes → Bytes → Call
  sorted_list_get_call : Bytes → Call
  map_put_call : Bytes → Bytes → Bytes → Call
  map_get_call : Bytes → Bytes → Call
  queue_push_call : Bytes → Bytes → Call
  queue_pop_call : Bytes → Call
  queue_peek_call : Bytes → Call
  stack_push_call : Bytes → Bytes → Call
  stack_pop_call : Bytes → Call
  stack_peek_call : Bytes → Call
  execute_transaction_call : List TransactionOp → Call

-- The value that a method answers next to its error.
pub data Answer : Type 0 where
  no_value : Answer
  bytes_answer : Bytes → Answer
  entries_answer : Dict Bytes Bytes → Answer
  keys_answer : List Bytes → Answer
  data_answer : Option Bytes → Answer
  errors_answer : List Failure → Answer

abbrev pub tagged {ℓ} : {A : Type ℓ} → (A → Answer) → Link × A × Failure → Link × Answer × Failure
tagged tag (l, a, failure) = (l, tag a, failure)

abbrev pub untagged : Link × Failure → Link × Answer × Failure
untagged (l, failure) = (l, no_value, failure)

unfoldable pub remote : Rpc → Environment → Call → Link → Link × Answer × Failure
remote rpc w (put_call bucket key value ttl_seconds) l =
    untagged (Client.put rpc w bucket key value ttl_seconds l)
remote rpc w (get_call bucket key) l = tagged bytes_answer (Client.get rpc w bucket key l)
remote rpc w (delete_call bucket key) l = untagged (Client.delete rpc w bucket key l)
remote rpc w (update_call bucket key value) l = untagged (Client.update rpc w bucket key value l)
remote rpc w (list_call bucket) l = tagged entries_answer (Client.list rpc w bucket l)
remote rpc w (list_keys_by_prefix_call bucket prefix) l =
    tagged keys_answer (Client.list_keys_by_prefix rpc w bucket prefix l)
remote rpc w (list_keys_in_range_call bucket start end) l =
    tagged keys_answer (Client.list_keys_in_range rpc w bucket start end l)
remote rpc w (set_add_call set_name value) l = untagged (Client.set_add rpc w set_name value l)
remote rpc w (set_remove_call set_name value) l =
    untagged (Client.set_remove rpc w set_name value l)
remote rpc w (set_list_call set_name) l = tagged keys_answer (Client.set_list rpc w set_name l)
remote rpc w (sorted_list_add_call list_name value) l =
    untagged (Client.sorted_list_add rpc w list_name value l)
remote rpc w (sorted_list_get_call list_name) l =
    tagged keys_answer (Client.sorted_list_get rpc w list_name l)
remote rpc w (map_put_call map_name key value) l =
    untagged (Client.map_put rpc w map_name key value l)
remote rpc w (map_get_call map_name key) l =
    tagged data_answer (Client.map_get rpc w map_name key l)
remote rpc w (queue_push_call name value) l = untagged (Client.queue_push rpc w name value l)
remote rpc w (queue_pop_call name) l = tagged bytes_answer (Client.queue_pop rpc w name l)
remote rpc w (queue_peek_call name) l = tagged bytes_answer (Client.queue_peek rpc w name l)
remote rpc w (stack_push_call name value) l = untagged (Client.stack_push rpc w name value l)
remote rpc w (stack_pop_call name) l = tagged bytes_answer (Client.stack_pop rpc w name l)
remote rpc w (stack_peek_call name) l = tagged bytes_answer (Client.stack_peek rpc w name l)
remote rpc w (execute_transaction_call ops) l =
    tagged errors_answer (Client.execute_transaction rpc w ops l)

-- What the service answers to its own caller: a value, with the zero value next to an error.
abbrev pub valued {ℓ} :
    {A : Type ℓ} → (A → Answer) → A → KvService → Result A → KvService × Answer × Failure
valued tag zero s (ok a) = (s, tag a, none)
valued tag zero s (err e) = (s, tag zero, some e)

abbrev pub unvalued : KvService × Failure → KvService × Answer × Failure
unvalued (s, failure) = (s, no_value, failure)

unfoldable pub local : Environment → Call → KvService → KvService × Answer × Failure
local w (put_call bucket key value ttl_seconds) s = (
  if positive64 ttl_seconds
      then KvService.put_with_ttl w.now bucket key value ttl_seconds w.io s
      else KvService.put bucket key value w.io s,
  no_value,
  none,
)
local w (get_call bucket key) s = valued bytes_answer [] s (KvService.get w.now bucket key s)
local w (delete_call bucket key) s = unvalued (KvService.delete bucket key w.io s)
local w (update_call bucket key value) s = unvalued (KvService.update w.now bucket key value w.io s)
local w (list_call bucket) s = valued entries_answer [] s (KvService.list w.order w.now bucket s)
local w (list_keys_by_prefix_call bucket prefix) s =
    valued keys_answer [] s (KvService.list_keys_by_prefix w.order w.now bucket prefix s)
local w (list_keys_in_range_call bucket start end) s =
    valued keys_answer [] s (KvService.list_keys_in_range w.order w.now bucket start end s)
local w (set_add_call set_name value) s = (KvService.set_add set_name value s, no_value, none)
local w (set_remove_call set_name value) s = unvalued (KvService.set_remove set_name value s)
local w (set_list_call set_name) s =
    valued keys_answer [] s (KvService.set_list w.set_order set_name s)
local w (sorted_list_add_call list_name value) s =
    (KvService.sorted_list_add list_name value s, no_value, none)
local w (sorted_list_get_call list_name) s =
    valued keys_answer [] s (KvService.sorted_list_get list_name s)
local w (map_put_call map_name key value) s =
    (KvService.map_put map_name key value s, no_value, none)
local w (map_get_call map_name key) s =
    valued data_answer none s (KvService.map_get map_name key s >>= (λ value. ok (some value)))
local w (queue_push_call name value) s = (KvService.queue_push name value s, no_value, none)
local w (queue_pop_call name) s =
    let (s', answer) = KvService.queue_pop name s in valued bytes_answer [] s' answer
local w (queue_peek_call name) s = valued bytes_answer [] s (KvService.queue_peek name s)
local w (stack_push_call name value) s = (KvService.stack_push name value s, no_value, none)
local w (stack_pop_call name) s =
    let (s', answer) = KvService.stack_pop name s in valued bytes_answer [] s' answer
local w (stack_peek_call name) s = valued bytes_answer [] s (KvService.stack_peek name s)
local w (execute_transaction_call ops) s =
    let (s', errors) = Transactions.execute_transaction (with_turns w.turns 0 ops) s in
    (s', errors_answer errors, none)
