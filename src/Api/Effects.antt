-- ===== src/Api/Effects.antt =====
-- What one call of a handler does, when its write goes well.
use fast_kv_a_lightweight_ke.Base.{
  ℕ, nat_eq, ◌≡◌, refl, ap, ◌∙◌, true, none, some, List, ◌++◌, map, Result, ok, err, Failure, Error,
  arith, Option-cases, inl, inr,
}
use fast_kv_a_lightweight_ke.Base.Bytes.{Bytes, bytes_key, bytes_eq_refl}
use fast_kv_a_lightweight_ke.Base.Words.{Int64}
use fast_kv_a_lightweight_ke.Storage.Memory
use fast_kv_a_lightweight_ke.Storage.Memory.{Shards, put_internal, delete_internal}
use fast_kv_a_lightweight_ke.Storage.Memory.View.{value_at, value_at-put}
use fast_kv_a_lightweight_ke.Storage.Engine
use fast_kv_a_lightweight_ke.Storage.Engine.{
  Storage, Io, Wal, append, log_op, put_record, del_record, put_expiring, expiry_of,
}
use fast_kv_a_lightweight_ke.Storage.Engine.Logging.{shards-log_op}
use fast_kv_a_lightweight_ke.Storage.Wal.{LogRecord}
use fast_kv_a_lightweight_ke.Service.KvService
use fast_kv_a_lightweight_ke.Service.KvService.{KvService}
use fast_kv_a_lightweight_ke.Api.{
  Request, Response, Method, put_method, delete_method, update_method, KvServer, ok_response,
  replicate_to_slaves, put, delete, update,
}

-- A store without a log, or with one whose file is open.
abbrev pub IsReady : Storage → Type 0
IsReady s = elim s.wal [ none ↦ Unit {0} | some w ↦ w.is_open ≡ true ]

module _ (s : Storage) (ready : IsReady s) (io : Io) (whole : io.fault ≡ none) where
  log_op-ready : (r : LogRecord) → (log_op s r io).1 ≡ none
  unfolding log_op append
  log_op-ready r = elim (Option-cases s.wal) [
    | inl no_log ↦ ground (arith, no_log)
    | inr (w, logs) ↦ ground (arith, logs, whole, ready)
  ]

  IsReady-log_op : (r : LogRecord) → IsReady (log_op s r io).0
  unfolding log_op append
  IsReady-log_op r = elim (Option-cases s.wal) [
    | inl no_log ↦ ground (arith, no_log)
    | inr (w, logs) ↦ ground (arith, logs, whole, ready)
  ]

  IsReady-put_expiring :
      (bucket key value : Bytes) (ttl : Int64) → IsReady (put_expiring s bucket key value ttl io).0
  unfolding put_expiring
  IsReady-put_expiring bucket key value ttl = ground (
    arith,
    log_op-ready (put_record bucket key value ttl),
    IsReady-log_op (put_record bucket key value ttl),
  )

  shards-put_expiring :
      (bucket key value : Bytes) (ttl : Int64)
      → ((put_expiring s bucket key value ttl io).0.shards
          ≡ put_internal s.shards bucket key value ttl)
        × ((put_expiring s bucket key value ttl io).1 ≡ none)
  unfolding put_expiring
  shards-put_expiring bucket key value ttl = ground (
    arith,
    log_op-ready (put_record bucket key value ttl),
    shards-log_op s (put_record bucket key value ttl) io,
  )

  shards-delete :
      (bucket key : Bytes)
      → ((Engine.delete s bucket key io).0.shards ≡ (delete_internal s.shards bucket key).0)
        × ((Engine.delete s bucket key io).1 ≡ (delete_internal s.shards bucket key).1)
  unfolding Engine.delete
  shards-delete bucket key =
      ground
        (arith, log_op-ready (del_record bucket key), shards-log_op s (del_record bucket key) io)

-- A handler's call at a replica.
unfoldable pub handle : Method → Int64 → Io → Request → KvServer → KvServer × Result Response
handle put_method now io req s = put now io req s
handle delete_method now io req s = delete io req s
handle update_method now io req s = update now io req s

abbrev pub shards_of : KvServer → Shards
shards_of s = s.service.storage.shards

-- What a call that goes well does to the memory, and the error that it answers.
abbrev pub effect : Method → Int64 → Request → Shards → Shards
effect put_method now req shards =
    put_internal shards req.bucket req.key req.value (expiry_of now req.ttl_seconds)
effect delete_method now req shards = (delete_internal shards req.bucket req.key).0
effect update_method now req shards = elim (Memory.get now shards req.bucket req.key) [
  | err e ↦ shards
  | ok old ↦ put_internal shards req.bucket req.key req.value 0
]

abbrev pub failure_of : Method → Int64 → Request → Shards → Failure
failure_of put_method now req shards = none
failure_of delete_method now req shards = (delete_internal shards req.bucket req.key).1
failure_of update_method now req shards = elim (Memory.get now shards req.bucket req.key) [
  | err e ↦ some e
  | ok old ↦ none
]

-- The calls that are sent with a request that succeeds.
abbrev pub calls_of : Method → Request → KvServer → List (ℕ × Method × Request)
calls_of method req s = map (λ slave. (slave, method, req)) s.slaves

-- The answer and the calls that follow from the error.
abbrev pub Follows : Method → Request → KvServer → KvServer × Result Response → Failure → Type 0
Follows method req s done none =
    (done.1 ≡ ok ok_response) × (done.0.sent ≡ s.sent ++ calls_of method req s)
Follows method req s done (some e) = (done.1 ≡ err e) × (done.0.sent ≡ s.sent)

module _ (now : Int64) (io : Io) (req : Request) (s : KvServer) (ready : IsReady s.service.storage)
    (whole : io.fault ≡ none) where
  put_lem :
      (shards_of (put now io req s).0 ≡ effect put_method now req (shards_of s))
      × Follows put_method req s (put now io req s) none
  unfolding put KvService.put KvService.put_with_ttl Engine.put Engine.put_with_ttl expiry_of
      replicate_to_slaves
  put_lem = (
    ground (
      arith,
      shards-put_expiring s.service.storage ready io whole req.bucket req.key req.value 0,
      shards-put_expiring s.service.storage ready io whole req.bucket req.key req.value
          (expiry_of now req.ttl_seconds),
    ),
    (refl, refl),
  )

  pub IsReady-put : IsReady (put now io req s).0.service.storage
  unfolding put KvService.put KvService.put_with_ttl Engine.put Engine.put_with_ttl
      replicate_to_slaves
  IsReady-put = ground (
    arith,
    IsReady-put_expiring s.service.storage ready io whole req.bucket req.key req.value 0,
    IsReady-put_expiring s.service.storage ready io whole req.bucket req.key req.value
        (expiry_of now req.ttl_seconds),
  )

  pub value_at-put_call :
      value_at (shards_of (put now io req s).0) req.bucket req.key ≡ some req.value
  value_at-put_call = ground (
    arith,
    put_lem.0,
    value_at-put (shards_of s) req.bucket req.key req.bucket req.key req.value
        (expiry_of now req.ttl_seconds),
    bytes_eq_refl req.bucket,
    bytes_eq_refl req.key,
  )

  delete_lem :
      (shards_of (delete io req s).0 ≡ effect delete_method now req (shards_of s))
      × Follows delete_method req s
          (delete io req s)
          (failure_of delete_method now req (shards_of s))
  unfolding delete KvService.delete replicate_to_slaves
  delete_lem =
      let (moved, answered) = shards-delete s.service.storage ready io whole req.bucket req.key in
      elim (Option-cases (delete_internal (shards_of s) req.bucket req.key).1) [
        | inl done ↦ rw (answered ∙ done, done, delete) (moved, (refl, refl))
        | inr (e, missing) ↦ rw (answered ∙ missing, missing, delete) (moved, (refl, refl))
      ]

  update_found :
      (old : Bytes)
      → Memory.get now (shards_of s) req.bucket req.key ≡ ok old
      → Engine.update now s.service.storage req.bucket req.key req.value io
        ≡ put_expiring s.service.storage req.bucket req.key req.value 0 io
  unfolding Engine.update Engine.put
  update_found old e = ground (arith, e)

  update_missing :
      (e : Error)
      → Memory.get now (shards_of s) req.bucket req.key ≡ err e
      → Engine.update now s.service.storage req.bucket req.key req.value io
        ≡ (s.service.storage, some e)
  unfolding Engine.update
  update_missing e h = ground (arith, h)

  update_lem :
      (shards_of (update now io req s).0 ≡ effect update_method now req (shards_of s))
      × Follows update_method req s
          (update now io req s)
          (failure_of update_method now req (shards_of s))
  unfolding update KvService.update Engine.update Engine.put replicate_to_slaves
  update_lem =
      let (moved, answered) =
        shards-put_expiring s.service.storage ready io whole req.bucket req.key req.value 0 in
      go (Memory.get now (shards_of s) req.bucket req.key) refl moved answered
    where
      go :
          (found : Result Bytes)
          → Memory.get now (shards_of s) req.bucket req.key ≡ found
          → (put_expiring s.service.storage req.bucket req.key req.value 0 io).0.shards
            ≡ put_internal (shards_of s) req.bucket req.key req.value 0
          → (put_expiring s.service.storage req.bucket req.key req.value 0 io).1 ≡ none
          → (shards_of (update now io req s).0 ≡ effect update_method now req (shards_of s))
            × Follows update_method req s
                (update now io req s)
                (failure_of update_method now req (shards_of s))
      go (ok old) e moved answered =
          rw (e, answered, update, KvService.update, Engine.update, effect, failure_of, shards_of)
            (ap (λ (x : Storage × Failure). x.0.shards) (update_found old e) ∙ moved, (refl, refl))
      go (err x) e moved answered =
          rw (e, update, KvService.update, Engine.update, effect, failure_of, shards_of)
            (ap (λ (y : Storage × Failure). y.0.shards) (update_missing x e), (refl, refl))

  pub handle_lem :
      (method : Method)
      → (shards_of (handle method now io req s).0 ≡ effect method now req (shards_of s))
        × Follows method req s
            (handle method now io req s)
            (failure_of method now req (shards_of s))
  unfolding handle
  handle_lem put_method = put_lem
  handle_lem delete_method = delete_lem
  handle_lem update_method = update_lem
