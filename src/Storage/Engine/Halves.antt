-- ===== src/Storage/Engine/Halves.antt =====
-- Requests of storage.go that run at the same time. Each writes its record under the log's lock and
-- then changes the memory under its shard's lock; other requests may do theirs in between.
use fast_kv_a_lightweight_ke.Base.{
  ◌≡◌, refl, ap, subst, ◌∙◌, none, List, [], ◌∷◌, ◌++◌, All, inl, inr,
}
use fast_kv_a_lightweight_ke.Base.Bytes.{Bytes}
use fast_kv_a_lightweight_ke.Storage.Memory.{Shards}
use fast_kv_a_lightweight_ke.Storage.Wal.{LogRecord}
use fast_kv_a_lightweight_ke.Storage.Wal.RoundTrip.{IsEncodable}
use fast_kv_a_lightweight_ke.Storage.Engine.{Io, Storage, log_op, apply_record}
use fast_kv_a_lightweight_ke.Storage.Engine.Logging.{shards-log_op}
use fast_kv_a_lightweight_ke.Storage.Engine.Recovery.{IsDurable}
use fast_kv_a_lightweight_ke.Storage.Engine.Sessions.{
  execute_cases, Request, execute, logged_record,
}
use fast_kv_a_lightweight_ke.Storage.Engine.Entries.{Apart}

-- A store, and the records that are in the log and not yet in the memory, in the log's order.
pub record InFlight : Type 0 where
  pub storage : Storage
  pub pending : List LogRecord

-- The two halves of a request whose record starts no compaction of the log; an update has made its
-- read before the first.
pub data Half : InFlight → InFlight → Type 0 where
  logs_half :
      (f : InFlight) (q : Request) (io : Io)
      → io.fault ≡ none
      → IsEncodable (logged_record q)
      → All (λ p. Apart p (logged_record q)) f.pending
      → (log_op f.storage (logged_record q) io).0.compactions ≡ f.storage.compactions
      → Half f (record {
        storage = (log_op f.storage (logged_record q) io).0;
        pending = f.pending ++ logged_record q ∷ [];
      })
  applies_half :
      (f : InFlight) (before : List LogRecord) (r : LogRecord) (after : List LogRecord)
      → f.pending ≡ before ++ r ∷ after
      → Half f (record {
        storage = record f.storage { shards = apply_record f.storage.shards r };
        pending = before ++ after;
      })

pub data Halves : InFlight → InFlight → Type 0 where
  no_half : (f : InFlight) → Halves f f
  and_half : (f mid end : InFlight) → Halves f mid → Half mid end → Halves f end

-- A request that nothing interleaves is its two halves, or none if it is an update that fails.
module _ (filename : Bytes) (s : Storage) (d : IsDurable filename s) (io : Io)
    (whole : io.fault ≡ none) where
  two-Halves :
      (q : Request) (shards : Shards)
      → (log_op s (logged_record q) io).0.compactions ≡ s.compactions
      → IsEncodable (logged_record q)
      → apply_record s.shards (logged_record q) ≡ shards
      → Halves
          (record { storage = s; pending = [] })
          (record {
            storage = record (log_op s (logged_record q) io).0 { shards = shards };
            pending = [];
          })
  two-Halves q shards quiet fits took =
      let f : InFlight = record { storage = s; pending = [] } in
      let r : LogRecord = logged_record q in
      let logged : InFlight = record { storage = (log_op s r io).0; pending = r ∷ [] } in
      let same : apply_record (log_op s r io).0.shards r ≡ shards =
        ap (λ x. apply_record x r) (shards-log_op s r io) ∙ took in
      subst
        (λ x. Halves f (record { storage = record (log_op s r io).0 { shards = x }; pending = [] }))
        same
        (and_half f logged _
          (and_half f f logged (no_half f) (logs_half f q io whole fits tt quiet))
          (applies_half logged [] r [] refl))

  pub execute-Halves :
      (q : Request)
      → (log_op s (logged_record q) io).0.compactions ≡ s.compactions
      → IsEncodable (logged_record q)
      → Halves
          (record { storage = s; pending = [] })
          (record { storage = (execute s q io).0; pending = [] })
  execute-Halves q quiet fits = elim (execute_cases s d.logs q io whole) [
    | inl e ↦ rw e (two-Halves q _ quiet fits refl)
    | inr e ↦ rw e (no_half _)
  ]
