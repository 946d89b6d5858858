-- ===== src/Service/Transactions.antt =====
-- kv-distributed/internal/service/transaction.go: what a transaction does, against the single
-- requests that it is made of.
use fast_kv_a_lightweight_ke.Base.{
  ℕ, suc, ◌≡◌, refl, sym, ap, ◌∙◌, Option, none, some, List, [], ◌∷◌, ◌++◌, length, All,
  if◌then◌else◌, Failure, invalid_action, arith, Option-cases, subst, inl, inr,
}
use fast_kv_a_lightweight_ke.Base.Bytes.{Bytes, bytes_eq, text}
use fast_kv_a_lightweight_ke.Base.Words.{Int64}
use fast_kv_a_lightweight_ke.Storage.Engine.{Io, put_record}
use fast_kv_a_lightweight_ke.Storage.Engine.Logging.{shards-log_op}
use fast_kv_a_lightweight_ke.Storage.Engine.Recovery.{IsDurable}
use fast_kv_a_lightweight_ke.Storage.Engine.Sessions.{
  Request, put_req, delete_req, update_req, execute, Fits, GoesWell, execute-IsDurable,
}
use fast_kv_a_lightweight_ke.Storage.Engine.Writes.{put_cut}
use fast_kv_a_lightweight_ke.Service.KvService.{KvService, put, delete, update}

pub record TransactionOp : Type 0 where
  pub action : Bytes
  pub bucket : Bytes
  pub key : Bytes
  pub value : Bytes

-- One turn of the loop: the error that is appended.
unfoldable pub execute_op : TransactionOp → Int64 → Io → KvService → KvService × Failure
unfolding put delete update
execute_op op now io s =
    if bytes_eq op.action (text "put")
    then (put op.bucket op.key op.value io s, none)
    else if bytes_eq op.action (text "delete")
    then delete op.bucket op.key io s
    else if bytes_eq op.action (text "update")
    then update now op.bucket op.key op.value io s
    else (s, some invalid_action)

-- `ExecuteTransaction`, with the clock and the write of each operation.
unfoldable pub execute_transaction :
    List (TransactionOp × Int64 × Io) → KvService → KvService × List Failure
execute_transaction [] s = (s, [])
execute_transaction ((op, now, io) ∷ ops) s =
    let done : KvService × Failure = execute_op op now io s in
    let later : KvService × List Failure = execute_transaction ops done.0 in
    (later.0, done.1 ∷ later.1)

-- A transaction answers one error, or nil, for each of its operations.
pub length-execute_transaction :
    (ops : List (TransactionOp × Int64 × Io)) (s : KvService)
    → length (execute_transaction ops s).1 ≡ length ops
unfolding execute_transaction
length-execute_transaction [] s = refl
length-execute_transaction ((op, now, io) ∷ ops) s =
    ap suc (length-execute_transaction ops (execute_op op now io s).0)

-- A transaction is not atomic: it is the first operations and then the others on what the first
-- have left, whether or not some of the first failed.
pub execute_transaction-append :
    (ops more : List (TransactionOp × Int64 × Io)) (s : KvService)
    → let first : KvService × List Failure = execute_transaction ops s in
      let then_more : KvService × List Failure = execute_transaction more first.0 in
      execute_transaction (ops ++ more) s ≡ (then_more.0, first.1 ++ then_more.1)
unfolding execute_transaction
execute_transaction-append [] more s = refl
execute_transaction-append ((op, now, io) ∷ ops) more s =
    ap (λ (x : KvService × List Failure). (x.0, (execute_op op now io s).1 ∷ x.1))
      (execute_transaction-append ops more (execute_op op now io s).0)

-- The request that an operation makes of the store, if its action is known.
unfoldable pub request_of : TransactionOp → Int64 → Option Request
request_of op now =
    if bytes_eq op.action (text "put")
    then some (put_req op.bucket op.key op.value)
    else if bytes_eq op.action (text "delete")
    then some (delete_req op.bucket op.key)
    else if bytes_eq op.action (text "update")
    then some (update_req now op.bucket op.key op.value)
    else none

-- An operation does to the store what its request does, and nothing if its action is unknown.
pub storage-execute_op :
    (op : TransactionOp) (now : Int64) (io : Io) (s : KvService)
    → (execute_op op now io s).0.storage
      ≡ elim (request_of op now) [ none ↦ s.storage | some q ↦ (execute s.storage q io).0 ]
unfolding execute_op request_of execute put delete update
storage-execute_op op now io s = ground arith

-- The operations of a transaction whose names and values fit the log, with writes that go well.
abbrev pub OpGoesWell : TransactionOp × Int64 × Io → Type 0
OpGoesWell call = elim (request_of call.0 call.1) [
  | none ↦ Unit {0}
  | some q ↦ GoesWell (q, call.2)
]

execute_op-IsDurable :
    (filename : Bytes) (op : TransactionOp) (now : Int64) (io : Io) (s : KvService)
    → IsDurable filename s.storage
    → OpGoesWell (op, now, io)
    → IsDurable filename (execute_op op now io s).0.storage
execute_op-IsDurable filename op now io s d well = elim (Option-cases (request_of op now)) [
  | inl unknown ↦
      subst (IsDurable filename) (sym (storage-execute_op op now io s ∙ rw unknown refl)) d
  | inr (q, known) ↦
      let (fits, whole) : Fits q × (io.fault ≡ none) = rw (known, OpGoesWell) at well in
      subst (IsDurable filename) (sym (storage-execute_op op now io s ∙ rw known refl))
        (execute-IsDurable filename s.storage q io d fits whole)
]

-- A transaction whose writes go well, whatever it answers, leaves a log that rebuilds the memory.
pub execute_transaction-IsDurable :
    (filename : Bytes) (ops : List (TransactionOp × Int64 × Io)) (s : KvService)
    → IsDurable filename s.storage
    → All OpGoesWell ops
    → IsDurable filename (execute_transaction ops s).0.storage
unfolding execute_transaction
execute_transaction-IsDurable filename [] s d well = d
execute_transaction-IsDurable filename ((op, now, io) ∷ ops) s d well =
    execute_transaction-IsDurable filename ops (execute_op op now io s).0
      (execute_op-IsDurable filename op now io s d well.0) well.1

-- A put in a transaction whose write fails answers nil, and has not changed the memory.
pub put_failure_hidden :
    (filename : Bytes) (s : KvService) (bucket key value : Bytes) (now : Int64) (io : Io) (n : ℕ)
    → IsDurable filename s.storage
    → io.fault ≡ some n
    → let op : TransactionOp = record {
      action = text "put";
      bucket = bucket;
      key = key;
      value = value;
    } in
      let done : KvService × List Failure = execute_transaction ((op, now, io) ∷ []) s in
      (done.1 ≡ none ∷ []) × (done.0.storage.shards ≡ s.storage.shards)
unfolding execute_transaction execute_op put
put_failure_hidden filename s bucket key value now io n d cut = (
  refl,
  ground (
    arith,
    put_cut filename s.storage d bucket key value io n cut,
    shards-log_op s.storage (put_record bucket key value 0) io,
  ),
)
