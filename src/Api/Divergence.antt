-- ===== src/Api/Divergence.antt =====
-- Where a replica comes to differ from the server that it replicates.
use fast_kv_a_lightweight_ke.Base.{ℕ, nat_eq, ◌≡◌, ◌≢◌, refl, sym, ◌∙◌, none, some, ◌++◌, ok, arith}
use fast_kv_a_lightweight_ke.Base.Bytes.{Bytes, bytes_key}
use fast_kv_a_lightweight_ke.Base.Words.{Int64}
use fast_kv_a_lightweight_ke.Storage.Memory.View.{value_at}
use fast_kv_a_lightweight_ke.Storage.Engine
use fast_kv_a_lightweight_ke.Storage.Engine.{
  Storage, Io, Wal, append, log_op, put_record, del_record, put_expiring, expiry_of,
}
use fast_kv_a_lightweight_ke.Storage.Engine.Logging.{shards-log_op}
use fast_kv_a_lightweight_ke.Service.KvService
use fast_kv_a_lightweight_ke.Service.KvService.{KvService}
use fast_kv_a_lightweight_ke.Api.{
  Request, put_method, KvServer, ok_response, replicate_to_slaves, put,
}
use fast_kv_a_lightweight_ke.Storage.Engine.Recovery.{IsDurable}
use fast_kv_a_lightweight_ke.Storage.Engine.Writes.{put_expiring_cut}
use fast_kv_a_lightweight_ke.Api.Effects.{
  IsReady, shards_of, calls_of, IsReady-put, value_at-put_call,
}

-- The same two calls of `Put` of one key, which arrive at a replica in the other order, leave it with
-- the value that the server has overwritten.
pub swapped_puts_diverge :
    (now : Int64) (io : Io) (bucket key first second : Bytes) (req : Request) (s replica : KvServer)
    → IsReady s.service.storage
    → IsReady replica.service.storage
    → io.fault ≡ none
    → first ≢ second
    → let req1 : Request = record req { bucket = bucket; key = key; value = first } in
      let req2 : Request = record req { bucket = bucket; key = key; value = second } in
      value_at (shards_of (put now io req2 (put now io req1 s).0).0) bucket key
      ≢ value_at (shards_of (put now io req1 (put now io req2 replica).0).0) bucket key
swapped_puts_diverge now io bucket key first second req s replica ready replica_ready whole differ =
    let req1 : Request = record req { bucket = bucket; key = key; value = first } in
    let req2 : Request = record req { bucket = bucket; key = key; value = second } in
    let last_here =
      value_at-put_call now io req2 (put now io req1 s).0 (IsReady-put now io req1 s ready whole)
        whole in
    let last_there =
      value_at-put_call now io req1 (put now io req2 replica).0
        (IsReady-put now io req2 replica replica_ready whole) whole in
    λ same. differ (ground (arith, sym last_here ∙ same ∙ last_there))

put_answer :
    (now : Int64) (io : Io) (req : Request) (s : KvServer) → (put now io req s).1 ≡ ok ok_response
unfolding put
put_answer now io req s = refl

put_sent :
    (now : Int64) (io : Io) (req : Request) (s : KvServer)
    → (put now io req s).0.sent ≡ s.sent ++ calls_of put_method req s
unfolding put replicate_to_slaves
put_sent now io req s = refl

shards-failed_put :
    (filename : Bytes) (now : Int64) (io : Io) (req : Request) (s : KvServer) (n : ℕ)
    → IsDurable filename s.service.storage
    → io.fault ≡ some n
    → shards_of (put now io req s).0 ≡ shards_of s
unfolding put KvService.put KvService.put_with_ttl Engine.put Engine.put_with_ttl
    replicate_to_slaves
shards-failed_put filename now io req s n d cut = ground (
  arith,
  put_expiring_cut filename s.service.storage d req.bucket req.key io req.value 0 n cut,
  put_expiring_cut filename s.service.storage d req.bucket req.key io req.value
      (expiry_of now req.ttl_seconds) n cut,
  shards-log_op s.service.storage (put_record req.bucket req.key req.value 0) io,
  shards-log_op s.service.storage
      (put_record req.bucket req.key req.value (expiry_of now req.ttl_seconds)) io,
)

-- A server whose store keeps a log that rebuilds its memory: a `Put` whose write fails answers "OK"
-- and is sent to every replica; a replica whose own write goes well has the value, and the memory of
-- the server is as before.
pub failed_put_diverges :
    (filename : Bytes) (now : Int64) (io replica_io : Io) (req : Request) (s replica : KvServer)
    (n : ℕ)
    → IsDurable filename s.service.storage
    → IsReady replica.service.storage
    → io.fault ≡ some n
    → replica_io.fault ≡ none
    → ((put now io req s).1 ≡ ok ok_response)
      × ((put now io req s).0.sent ≡ s.sent ++ calls_of put_method req s)
      × (shards_of (put now io req s).0 ≡ shards_of s)
      × (value_at (shards_of (put now replica_io req replica).0) req.bucket req.key
          ≡ some req.value)
failed_put_diverges filename now io replica_io req s replica n d replica_ready cut replica_whole = (
  put_answer now io req s,
  put_sent now io req s,
  shards-failed_put filename now io req s n d cut,
  value_at-put_call now replica_io req replica replica_ready replica_whole,
)
