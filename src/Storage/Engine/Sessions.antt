-- ===== src/Storage/Engine/Sessions.antt =====
-- Requests of the methods of `Storage` that write, and sequences of them, against a restart.
use fast_kv_a_lightweight_ke.Base.{
  ◌≡◌, refl, ap, ◌∙◌, true, false, none, List, [], ◌∷◌, All, ◌⊎◌, inl, inr, Failure,
}
use fast_kv_a_lightweight_ke.Base.Bytes.{Bytes}
use fast_kv_a_lightweight_ke.Base.Words.{Int64}
use fast_kv_a_lightweight_ke.Storage.Wal.{LogRecord}
use fast_kv_a_lightweight_ke.Storage.Wal.RoundTrip.{IsEncodable, encode_all}
use fast_kv_a_lightweight_ke.Storage.Engine.{
  Disk, Io, Storage, content, put_record, del_record, put, put_with_ttl, expiry_of, delete, update,
  log_op, apply_record, new_storage, set_persistence_file,
}
use fast_kv_a_lightweight_ke.Storage.Engine.Logging.{Logs, restart, content-insert_self}
use fast_kv_a_lightweight_ke.Storage.Engine.Recovery.{
  IsDurable, IsShort, restart-IsDurable, extended-IsDurable,
}
use fast_kv_a_lightweight_ke.Storage.Engine.Writes.{
  put_expiring_logged, put_expiring-restart, delete_logged, delete-restart, update_cases,
}

-- One call of a method that writes, with its arguments; `now` is the clock.
pub data Request : Type 0 where
  put_req : Bytes → Bytes → Bytes → Request
  put_with_ttl_req : Int64 → Bytes → Bytes → Bytes → Int64 → Request
  delete_req : Bytes → Bytes → Request
  update_req : Int64 → Bytes → Bytes → Bytes → Request

unfoldable pub execute : Storage → Request → Io → Storage × Failure
execute s (put_req bucket key value) io = put s bucket key value io
execute s (put_with_ttl_req now bucket key value ttl_seconds) io =
    put_with_ttl now s bucket key value ttl_seconds io
execute s (delete_req bucket key) io = delete s bucket key io
execute s (update_req now bucket key value) io = update now s bucket key value io

-- The record that the request logs, if it logs one.
abbrev pub logged_record : Request → LogRecord
logged_record (put_req bucket key value) = put_record bucket key value 0
logged_record (put_with_ttl_req now bucket key value ttl_seconds) =
    put_record bucket key value (expiry_of now ttl_seconds)
logged_record (delete_req bucket key) = del_record bucket key
logged_record (update_req now bucket key value) = put_record bucket key value 0

-- The names and the value fit the fields of the log.
pub record Fits (q : Request) : Type 0 where
  pub encodable : IsEncodable (logged_record q)

-- Over an open log, a request whose write goes well logs its record and changes the memory by it, or
-- does nothing.
pub execute_cases :
    (s : Storage) (logs : Logs s) (q : Request) (io : Io)
    → io.fault ≡ none
    → ((execute s q io).0 ≡ record (log_op s (logged_record q) io).0 {
      shards = apply_record s.shards (logged_record q);
    })
      ⊎ ((execute s q io).0 ≡ s)
unfolding execute put put_with_ttl apply_record
execute_cases s logs (put_req bucket key value) io whole =
    inl (ap (λ x. x.0) (put_expiring_logged s logs bucket key io whole value 0))
execute_cases s logs (put_with_ttl_req now bucket key value ttl_seconds) io whole = inl (
    ap (λ x. x.0)
      (put_expiring_logged s logs bucket key io whole value (expiry_of now ttl_seconds)))
execute_cases s logs (delete_req bucket key) io whole =
    inl (ap (λ x. x.0) (delete_logged s logs bucket key io whole))
execute_cases s logs (update_req now bucket key value) io whole =
    elim (update_cases now s bucket key value io) [
      | inl e ↦
          inl (
            ap (λ x. x.0) e
            ∙ ap (λ x. x.0) (put_expiring_logged s logs bucket key io whole value 0))
      | inr e ↦ inr e
    ]

-- A request whose write goes well leaves a log that rebuilds the memory, whatever it answers.
pub execute-IsDurable :
    (filename : Bytes) (s : Storage) (q : Request) (io : Io)
    → IsDurable filename s
    → Fits q
    → io.fault ≡ none
    → IsDurable filename (execute s q io).0
execute-IsDurable filename s q io d fits whole = elim (execute_cases s d.logs q io whole) [
  | inl e ↦ rw e (extended-IsDurable filename s d (logged_record q) io fits.encodable _ whole refl)
  | inr e ↦ rw e d
]

-- A request is atomic over a crash: whether its write is whole or cut short at any byte, a restart
-- from the file that it leaves reads back exactly the memory that it leaves.
pub restart-execute :
    (filename : Bytes) (s : Storage) (q : Request) (io : Io)
    → IsDurable filename s
    → Fits q
    → IsShort io (logged_record q)
    → (restart (execute s q io).0.disk filename).0.shards ≡ (execute s q io).0.shards
unfolding execute put put_with_ttl
restart-execute filename s (put_req bucket key value) io d fits short =
    put_expiring-restart filename s d bucket key io value 0 short fits.encodable
restart-execute filename s (put_with_ttl_req now bucket key value ttl_seconds) io d fits short =
    put_expiring-restart filename s d bucket key io value (expiry_of now ttl_seconds) short
      fits.encodable
restart-execute filename s (delete_req bucket key) io d fits short =
    delete-restart filename s d bucket key io short fits.encodable
restart-execute filename s (update_req now bucket key value) io d fits short =
    elim (update_cases now s bucket key value io) [
      | inl e ↦ rw e (put_expiring-restart filename s d bucket key io value 0 short fits.encodable)
      | inr e ↦ rw e (restart-IsDurable filename s d).0
    ]

-- A sequence of requests, each with its write.
unfoldable pub run : Storage → List (Request × Io) → Storage
run s [] = s
run s ((q, io) ∷ rest) = run (execute s q io).0 rest

abbrev pub GoesWell : Request × Io → Type 0
GoesWell call = Fits call.0 × (call.1.fault ≡ none)

-- Any requests whose arguments fit and whose writes go well leave a log that rebuilds the memory.
pub run-IsDurable :
    (filename : Bytes) (s : Storage) (calls : List (Request × Io))
    → IsDurable filename s
    → All GoesWell calls
    → IsDurable filename (run s calls)
unfolding run
run-IsDurable filename s [] d well = d
run-IsDurable filename s ((q, io) ∷ rest) d well =
    run-IsDurable filename (execute s q io).0 rest
      (execute-IsDurable filename s q io d well.0.0 well.0.1) well.1

-- A store that has just opened an empty or missing log is durable.
pub opened-IsDurable :
    (disk : Disk) (filename : Bytes)
    → content filename disk ≡ []
    → IsDurable filename (set_persistence_file (new_storage disk) filename true).0
unfolding set_persistence_file new_storage encode_all
opened-IsDurable disk filename blank = record {
  logs = record {
    log = record { filename = filename; is_open = true; op_count = 0; compacting = false };
    uses = refl;
    opened = refl;
  };
  named = refl;
  records = [];
  logged = content-insert_self filename (content filename disk) disk ∙ blank;
  fits = tt;
  rebuilt = refl;
}
