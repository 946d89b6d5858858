-- ===== src/Storage/Engine/Counters.antt =====
-- The counters of storage.go that `GetWALMetrics` reads, against the log.
use fast_kv_a_lightweight_ke.Base.{
  ◌+◌, ◌<◌, ◌*◌, ◌%◌, ◌^◌, ◌≡◌, refl, sym, ap, ◌∙◌, true, false, none, some, List, [], ◌∷◌, ◌++◌,
  length, length-append, All, arith, leb, not, ◌&&◌, ◌||◌, inl, inr,
}
use fast_kv_a_lightweight_ke.Base.Bytes.{Bytes, bytes_key}
use fast_kv_a_lightweight_ke.Base.Words.{Int64, add64}
use fast_kv_a_lightweight_ke.Storage.Memory.{Shards}
use fast_kv_a_lightweight_ke.Storage.Wal.{LogRecord, fill_buffer}
use fast_kv_a_lightweight_ke.Storage.Wal.Encode.{encode, fill_buffer-encode, length-encode}
use fast_kv_a_lightweight_ke.Storage.Engine.{
  Disk, Wal, Io, Storage, content, append, log_op, compaction_threshold, put_record, del_record,
  put_expiring, expiry_of, put, put_with_ttl, delete, new_storage, set_persistence_file,
  get_wal_metrics,
}
use fast_kv_a_lightweight_ke.Storage.Engine.Logging.{content-insert_self}
use fast_kv_a_lightweight_ke.Storage.Engine.Sessions.{
  Request, put_req, put_with_ttl_req, delete_req, update_req, execute, run, GoesWell,
  opened-IsDurable,
}
use fast_kv_a_lightweight_ke.Storage.Engine.Threshold.{
  Uncompacted, run-Uncompacted, opened-Uncompacted,
}
use fast_kv_a_lightweight_ke.Storage.Engine.Writes.{update_cases}

-- The log of a store that has been open since the log was empty: its operations, by the counter of
-- writes, and its length, which the counter of bytes says with four bytes more for each of them.
pub record Counts (filename : Bytes) (s : Storage) : Type 0 where
  pub log : Wal
  pub uses : s.wal ≡ some log
  pub opened : log.is_open ≡ true
  pub named : log.filename ≡ filename
  pub writes : s.wal_writes ≡ log.op_count % 2 ^ 64
  pub bytes_written :
      s.wal_bytes_written ≡ (length (content filename s.disk) + 4 * log.op_count) % 2 ^ 64

module _ (filename : Bytes) (s : Storage) (counts : Counts filename s) (io : Io)
    (whole : io.fault ≡ none) where
  content-log_op :
      (r : LogRecord)
      → content filename (log_op s r io).0.disk ≡ content filename s.disk ++ encode r
  unfolding log_op append
  content-log_op r = ground (
    arith,
    counts.uses,
    counts.opened,
    counts.named,
    whole,
    fill_buffer-encode r,
    content-insert_self filename (content filename s.disk ++ fill_buffer r) s.disk,
  )

  bytes-log_op :
      (r : LogRecord)
      → (log_op s r io).0.wal_bytes_written
        ≡ add64 s.wal_bytes_written (length r.bucket + length r.key + length r.value + 21)
  unfolding log_op append
  bytes-log_op r = ground (arith, counts.uses, counts.opened, whole)

  longer :
      (r : LogRecord)
      → add64 s.wal_bytes_written (length r.bucket + length r.key + length r.value + 21)
        ≡ (length (content filename s.disk ++ encode r) + 4 * (counts.log.op_count + 1)) % 2 ^ 64
  unfolding add64
  longer r = omega (
    arith,
    counts.bytes_written,
    length-append (content filename s.disk) (encode r),
    length-encode r,
  )

  Counts-log_op :
      (r : LogRecord) (shards : Shards)
      → Counts filename (record (log_op s r io).0 { shards = shards })
  unfolding log_op append add64
  Counts-log_op r shards = record {
    log = record counts.log {
      op_count = counts.log.op_count + 1;
      compacting =
          counts.log.compacting
          || (leb compaction_threshold (counts.log.op_count + 1) && not counts.log.compacting);
    };
    uses = ground (arith, counts.uses, counts.opened, whole);
    opened = counts.opened;
    named = counts.named;
    writes = ground (arith, counts.uses, counts.opened, whole, counts.writes);
    bytes_written =
        bytes-log_op r
        ∙ longer r
        ∙ ap (λ bytes. (length bytes + 4 * (counts.log.op_count + 1)) % 2 ^ 64)
            (sym (content-log_op r));
  }

  log_op-answers : (r : LogRecord) → (log_op s r io).1 ≡ none
  unfolding log_op append
  log_op-answers r = ground (arith, counts.uses, counts.opened, whole)

  Counts-put_expiring :
      (bucket key value : Bytes) (ttl : Int64)
      → Counts filename (put_expiring s bucket key value ttl io).0
  unfolding put_expiring
  Counts-put_expiring bucket key value ttl =
      let r : LogRecord = put_record bucket key value ttl in
      rw (log_op-answers r, put_expiring) (Counts-log_op r _)

  Counts-delete : (bucket key : Bytes) → Counts filename (delete s bucket key io).0
  unfolding delete
  Counts-delete bucket key =
      let r : LogRecord = del_record bucket key in rw (log_op-answers r, delete) (Counts-log_op r _)

Counts-execute :
    (filename : Bytes) (s : Storage) (q : Request) (io : Io)
    → Counts filename s
    → io.fault ≡ none
    → Counts filename (execute s q io).0
unfolding execute put put_with_ttl
Counts-execute filename s (put_req bucket key value) io counts whole =
    Counts-put_expiring filename s counts io whole bucket key value 0
Counts-execute filename s (put_with_ttl_req now bucket key value ttl_seconds) io counts whole =
    Counts-put_expiring filename s counts io whole bucket key value (expiry_of now ttl_seconds)
Counts-execute filename s (delete_req bucket key) io counts whole =
    Counts-delete filename s counts io whole bucket key
Counts-execute filename s (update_req now bucket key value) io counts whole =
    elim (update_cases now s bucket key value io) [
      | inl e ↦ rw e (Counts-put_expiring filename s counts io whole bucket key value 0)
      | inr e ↦ rw e counts
    ]

-- A new store over a missing or empty log.
Counts-opened :
    (disk : Disk) (filename : Bytes)
    → content filename disk ≡ []
    → Counts filename (set_persistence_file (new_storage disk) filename true).0
unfolding set_persistence_file new_storage
Counts-opened disk filename blank = record {
  log = record { filename = filename; is_open = true; op_count = 0; compacting = false };
  uses = refl;
  opened = refl;
  named = refl;
  writes = refl;
  bytes_written = rw (content-insert_self filename (content filename disk) disk, blank) refl;
}

Counts-run :
    (filename : Bytes) (s : Storage) (calls : List (Request × Io))
    → Counts filename s
    → All GoesWell calls
    → Counts filename (run s calls)
unfolding run
Counts-run filename s [] counts well = counts
Counts-run filename s ((q, io) ∷ calls) counts well =
    Counts-run filename (execute s q io).0 calls (Counts-execute filename s q io counts well.0.1)
      well.1

-- From a new store over a missing or empty log, after fewer than 100,000 requests whose arguments fit
-- and whose writes go well, no compaction has been started; the metrics' count of writes is the number
-- of operations of the log, and their count of bytes is the length of the file and four bytes more for
-- each operation, modulo 2 ^ 64.
pub metrics-run :
    (disk : Disk) (filename : Bytes) (calls : List (Request × Io))
    → content filename disk ≡ []
    → All GoesWell calls
    → length calls < compaction_threshold
    → let s : Storage = run (set_persistence_file (new_storage disk) filename true).0 calls in
      (s.compactions ≡ 0)
      × ((log : Wal) × (s.wal ≡ some log)
          × (get_wal_metrics s ≡ (
            log.op_count,
            (length (content filename s.disk) + 4 * log.op_count) % 2 ^ 64,
            s.wal_latency_ns,
          )))
unfolding get_wal_metrics
metrics-run disk filename calls blank well few =
    let s0 : Storage = (set_persistence_file (new_storage disk) filename true).0 in
    let counts = Counts-run filename s0 calls (Counts-opened disk filename blank) well in
    let under : Uncompacted (0 + length calls) (run s0 calls) =
      run-Uncompacted filename 0 s0 calls (opened-IsDurable disk filename blank) well (omega arith)
        (opened-Uncompacted disk filename) in
    let exact : counts.log.op_count % 2 ^ 64 ≡ counts.log.op_count =
      omega (arith, under.few counts.log counts.uses, few) in
    (
      under.none_started,
      (counts.log, counts.uses, rw (counts.writes, exact, counts.bytes_written) refl),
    )
