-- ===== src/Api/Replication.antt =====
-- A replica against the server that it replicates.
use fast_kv_a_lightweight_ke.Base.{
  nat_eq, ◌≡◌, refl, sym, ap, ◌∙◌, none, some, ◌++◌, Result, Failure, Error, is_ok, if◌then◌else◌,
  arith,
}
use fast_kv_a_lightweight_ke.Base.Bytes.{bytes_key}
use fast_kv_a_lightweight_ke.Base.Words.{Int64}
use fast_kv_a_lightweight_ke.Storage.Memory.{Shards}
use fast_kv_a_lightweight_ke.Storage.Memory.View.{delete_cases}
use fast_kv_a_lightweight_ke.Storage.Engine.{Io}
use fast_kv_a_lightweight_ke.Api.{
  Request, Response, Method, put_method, delete_method, update_method, KvServer,
}
use fast_kv_a_lightweight_ke.Api.Effects.{
  IsReady, handle, shards_of, effect, failure_of, calls_of, Follows, handle_lem,
}

-- A call that answers an error does nothing to the memory.
effect_failed :
    (method : Method) (now : Int64) (req : Request) (shards : Shards) (e : Error)
    → failure_of method now req shards ≡ some e
    → effect method now req shards ≡ shards
effect_failed put_method now req shards e failed = cc
effect_failed delete_method now req shards e failed =
    ground (arith, failed, delete_cases shards req.bucket req.key)
effect_failed update_method now req shards e failed = ground (arith, failed)

-- A server and a replica whose memories are equal, at the same time of the clock and with writes
-- that go well: a call that succeeds at the server is sent to every replica, and there it brings the
-- memories to be equal again; a call that fails is not sent, and has left them equal.
pub replica_in_step :
    (method : Method) (now : Int64) (io replica_io : Io) (req : Request) (s replica : KvServer)
    → IsReady s.service.storage
    → IsReady replica.service.storage
    → io.fault ≡ none
    → replica_io.fault ≡ none
    → shards_of s ≡ shards_of replica
    → let done : KvServer × Result Response = handle method now io req s in
      if is_ok done.1
      then (done.0.sent ≡ s.sent ++ calls_of method req s)
        × (shards_of (handle method now replica_io req replica).0 ≡ shards_of done.0)
      else (done.0.sent ≡ s.sent) × (shards_of replica ≡ shards_of done.0)
replica_in_step method now io replica_io req s replica ready replica_ready whole replica_whole
      same =
    go (failure_of method now req (shards_of s)) refl (handle_lem now io req s ready whole method).1
  where
    go :
        (failure : Failure)
        → failure_of method now req (shards_of s) ≡ failure
        → Follows method req s (handle method now io req s) failure
        → (let done : KvServer × Result Response = handle method now io req s in
            if is_ok done.1
            then (done.0.sent ≡ s.sent ++ calls_of method req s)
              × (shards_of (handle method now replica_io req replica).0 ≡ shards_of done.0)
            else (done.0.sent ≡ s.sent) × (shards_of replica ≡ shards_of done.0))
    go none failed follows = rw follows.0 (
      follows.1,
      (handle_lem now replica_io req replica replica_ready replica_whole method).0
          ∙ ap (effect method now req) (sym same)
          ∙ sym (handle_lem now io req s ready whole method).0,
    )
    go (some e) failed follows = rw follows.0 (
      follows.1,
      sym same
          ∙ sym (effect_failed method now req (shards_of s) e failed)
          ∙ sym (handle_lem now io req s ready whole method).0,
    )
