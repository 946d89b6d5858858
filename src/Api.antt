-- ===== src/Api.antt =====
-- kv-distributed/internal/api/server.go and types.go: the handlers of the RPC server, and the calls
-- of its replicas. Package rpc delivers a request and its answer; a call of a replica is a message.
pub mod Structures
pub mod Effects
pub mod Replication
pub mod Divergence
pub mod Dispatch
pub mod JsonBridge
pub mod ReplicationManager
pub mod Durability
use fast_kv_a_lightweight_ke.Base.{
  ℕ, ◌+◌, nat_eq, Option, none, some, List, [], ◌∷◌, ◌++◌, map, if◌then◌else◌, Result, ok, err,
  Failure, dial_failed, ◌>>=◌,
}
use fast_kv_a_lightweight_ke.Base.Bytes.{Bytes, bytes_key, text}
use fast_kv_a_lightweight_ke.Base.Dict.{Dict, RangeOrder}
use fast_kv_a_lightweight_ke.Base.Words.{Int64, positive64}
use fast_kv_a_lightweight_ke.Storage.Engine.{Io}
use fast_kv_a_lightweight_ke.Service.KvService
use fast_kv_a_lightweight_ke.Service.KvService.{KvService}
use fast_kv_a_lightweight_ke.Service.Scan
use fast_kv_a_lightweight_ke.Service.Transactions.{TransactionOp}
use fast_kv_a_lightweight_ke.Service.Transactions

pub record Request : Type 0 where
  pub bucket : Bytes
  pub key : Bytes
  pub value : Bytes
  pub ttl_seconds : Int64
  pub set_name : Bytes
  pub list_name : Bytes
  pub map_name : Bytes
  pub queue_name : Bytes
  pub stack_name : Bytes
  pub prefix : Bytes
  pub start : Bytes
  pub end : Bytes
  pub value_str : Bytes
  pub transaction : List TransactionOp
  pub cursor : Int64
  pub count : Int64

pub record Response : Type 0 where
  pub value : Bytes
  pub values : Dict Bytes Bytes
  pub keys : List Bytes
  pub list : List Bytes
  pub data_value : Option Bytes
  pub message : Bytes
  pub errors : List Failure
  pub next_cursor : Int64

-- The response that a handler is given to fill.
abbrev pub empty_response : Response
empty_response = record {
  value = [];
  values = [];
  keys = [];
  list = [];
  data_value = none;
  message = [];
  errors = [];
  next_cursor = 0;
}

abbrev pub with_message : Bytes → Response
with_message message = record empty_response { message = message }

abbrev pub ok_response : Response
ok_response = with_message (text "OK")

-- The methods that are called at the replicas.
pub data Method : Type 0 where
  put_method delete_method update_method : Method

-- The replicas are known by numbers. `sent` holds the calls that were started, the oldest first;
-- each runs in a goroutine of its own, so they may arrive in any order.
pub record KvServer : Type 0 where
  pub service : KvService
  pub slaves : List ℕ
  pub sent : List (ℕ × Method × Request)

-- `NewKVServer`
unfoldable pub new_kv_server : KvService → KvServer
new_kv_server service = record { service = service; slaves = []; sent = [] }

unfoldable pub replicate_to_slaves : Method → Request → KvServer → KvServer
replicate_to_slaves method req s = record s {
  sent = s.sent ++ map (λ slave. (slave, method, req)) s.slaves;
}

-- `AddSlave`, with what the dial comes to
unfoldable pub add_slave : Result ℕ → KvServer → KvServer × Failure
add_slave dialled s = elim dialled [
  | err e ↦ (s, some e)
  | ok client ↦ (record s { slaves = s.slaves ++ client ∷ [] }, none)
]

unfoldable pub put : Int64 → Io → Request → KvServer → KvServer × Result Response
unfolding replicate_to_slaves
put now io req s =
    let service : KvService =
      if positive64 req.ttl_seconds
      then KvService.put_with_ttl now req.bucket req.key req.value req.ttl_seconds io s.service
      else KvService.put req.bucket req.key req.value io s.service in
    (replicate_to_slaves put_method req (record s { service = service }), ok ok_response)

unfoldable pub get : Int64 → Request → KvServer → Result Response
get now req s = do
  value ← KvService.get now req.bucket req.key s.service
  ok (record empty_response { value = value })

unfoldable pub delete : Io → Request → KvServer → KvServer × Result Response
unfolding replicate_to_slaves
delete io req s =
    let (service, failure) = KvService.delete req.bucket req.key io s.service in
    elim failure [
      | some e ↦ (record s { service = service }, err e)
      | none ↦
          (replicate_to_slaves delete_method req (record s { service = service }), ok ok_response)
    ]

unfoldable pub update : Int64 → Io → Request → KvServer → KvServer × Result Response
unfolding replicate_to_slaves
update now io req s =
    let (service, failure) = KvService.update now req.bucket req.key req.value io s.service in
    elim failure [
      | some e ↦ (record s { service = service }, err e)
      | none ↦
          (replicate_to_slaves update_method req (record s { service = service }), ok ok_response)
    ]

module _ (order : RangeOrder Bytes Bytes) (now : Int64) (req : Request) (s : KvServer) where
  unfoldable pub list : Result Response
  list = do
    values ← KvService.list order now req.bucket s.service
    ok (record empty_response { values = values })

  unfoldable pub list_keys_by_prefix : Result Response
  list_keys_by_prefix = do
    keys ← KvService.list_keys_by_prefix order now req.bucket req.prefix s.service
    ok (record empty_response { keys = keys })

  unfoldable pub list_keys_in_range : Result Response
  list_keys_in_range = do
    keys ← KvService.list_keys_in_range order now req.bucket req.start req.end s.service
    ok (record empty_response { keys = keys })

  unfoldable pub scan_keys : Result Response
  scan_keys =
      let page : List Bytes × Int64 =
        Scan.scan_keys order now s.service.storage.shards req.bucket req.cursor req.count in
      ok (record empty_response { keys = page.0; next_cursor = page.1 })

-- The operations from the position `i` on, each with its clock and its write.
unfoldable pub with_turns :
    (ℕ → Int64 × Io) → ℕ → List TransactionOp → List (TransactionOp × Int64 × Io)
with_turns turns i [] = []
with_turns turns i (op ∷ ops) = (op, (turns i).0, (turns i).1) ∷ with_turns turns (i + 1) ops

unfoldable pub execute_transaction :
    (ℕ → Int64 × Io) → Request → KvServer → KvServer × Result Response
unfolding with_turns
execute_transaction turns req s =
    let (service, errors) =
      Transactions.execute_transaction (with_turns turns 0 req.transaction) s.service in
    (record s { service = service }, ok (record empty_response { errors = errors }))
