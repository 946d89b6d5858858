-- ===== src/Storage/Engine.antt =====
-- The struct `Storage` of storage.go: the shards in memory behind the write-ahead log of wal.go, the
-- files that the log is kept in, and the counters.
pub mod Logging
pub mod Recovery
pub mod Writes
pub mod Sessions
pub mod Threshold
pub mod Limits
pub mod TornWrites
pub mod Interleaving
pub mod Restarts
pub mod Expiry
pub mod Counters
pub mod Entries
pub mod Halves
pub mod Concurrent
pub mod UpdateRace
use fast_kv_a_lightweight_ke.Base.{
  ℕ, zero, suc, ◌+◌, ◌%◌, ◌^◌, ◌≡◌, Bool, true, false, not, ◌&&◌, ◌||◌, Option, none, some, List,
  [], ◌∷◌, ◌++◌, length, take, leb, if◌then◌else◌, ◌==◌, Result, ok, err, Failure, write_failed,
  open_failed, persistence_not_initialized,
}
use fast_kv_a_lightweight_ke.Base.Bytes.{Bytes, bytes_key}
use fast_kv_a_lightweight_ke.Base.Dict.{Dict, lookup, insert}
use fast_kv_a_lightweight_ke.Base.Words.{Int64, add64, positive64}
use fast_kv_a_lightweight_ke.Storage.Memory.{Shards, new_shards, put_internal, delete_internal, get}
use fast_kv_a_lightweight_ke.Storage.Wal.{op_put, op_del, LogRecord, fill_buffer, Replayed, replay}

abbrev pub compaction_threshold : ℕ
compaction_threshold = 100000

-- The files by their names. A missing file reads as an empty one that has been created.
abbrev pub Disk : Type 0
Disk = Dict Bytes Bytes

unfoldable pub content : Bytes → Disk → Bytes
content filename disk = elim (lookup filename disk) [ none ↦ [] | some bytes ↦ bytes ]

-- The handle `file` is that of the file named `filename`, opened for appending, until it is closed.
pub record Wal : Type 0 where
  pub filename : Bytes
  pub is_open : Bool
  pub op_count : ℕ
  pub compacting : Bool

-- What the operating system does with one write: all of it, or a failure after some bytes.
pub record Io : Type 0 where
  pub fault : Option ℕ
  pub latency : ℕ

-- `Append`: the file, the log's state, and whether a compaction is due.
unfoldable pub append : Disk → Wal → LogRecord → Io → Disk × Wal × Result Bool
append disk w r io =
    let written : Bytes = content w.filename disk in
    if w.is_open
    then elim io.fault [
      | none ↦
          let op_count : ℕ = w.op_count + 1 in
          let should_compact : Bool = leb compaction_threshold op_count && not w.compacting in
          (
            insert w.filename (written ++ fill_buffer r) disk,
            record w { op_count = op_count; compacting = w.compacting || should_compact },
            ok should_compact,
          )
      | some n ↦ (insert w.filename (written ++ take n (fill_buffer r)) disk, w, err write_failed)
    ]
    else (disk, w, err write_failed)

-- `compactions` counts the goroutines of `Compact` that were started and have not ended.
pub record Storage : Type 0 where
  pub shards : Shards
  pub wal : Option Wal
  pub disk : Disk
  pub compactions : ℕ
  pub wal_writes : ℕ
  pub wal_bytes_written : ℕ
  pub wal_latency_ns : ℕ

-- `NewStorage`, on a machine with these files
unfoldable pub new_storage : Disk → Storage
new_storage disk = record {
  shards = new_shards;
  wal = none;
  disk = disk;
  compactions = 0;
  wal_writes = 0;
  wal_bytes_written = 0;
  wal_latency_ns = 0;
}

-- `GetWALMetrics`
unfoldable pub get_wal_metrics : Storage → ℕ × ℕ × ℕ
get_wal_metrics s = (s.wal_writes, s.wal_bytes_written, s.wal_latency_ns)

-- The part of `Put`, `PutWithTTL` and `Delete` under `if s.wal != nil`.
unfoldable pub log_op : Storage → LogRecord → Io → Storage × Failure
unfolding append
log_op s r io = elim s.wal [
  | none ↦ (s, none)
  | some w ↦
      let (disk, w', result) = append s.disk w r io in
      elim result [
        | err e ↦ (record s { wal = some w'; disk = disk }, some e)
        | ok should_compact ↦ (
          record s {
            wal = some w';
            disk = disk;
            wal_writes = add64 s.wal_writes 1;
            wal_bytes_written =
                add64 s.wal_bytes_written (length r.bucket + length r.key + length r.value + 21);
            wal_latency_ns = add64 s.wal_latency_ns io.latency;
            compactions = if should_compact then s.compactions + 1 else s.compactions;
          },
          none,
        )
      ]
]

abbrev pub put_record : Bytes → Bytes → Bytes → Int64 → LogRecord
put_record bucket key value ttl = record {
  op = op_put;
  bucket = bucket;
  key = key;
  value = value;
  ttl = ttl;
}

abbrev pub del_record : Bytes → Bytes → LogRecord
del_record bucket key = record { op = op_del; bucket = bucket; key = key; value = []; ttl = 0 }

-- The write of both `Put` and `PutWithTTL`, once the expiry is known.
unfoldable pub put_expiring : Storage → Bytes → Bytes → Bytes → Int64 → Io → Storage × Failure
put_expiring s bucket key value ttl io =
    let (s', failure) = log_op s (put_record bucket key value ttl) io in
    elim failure [
      | some e ↦ (s', some e)
      | none ↦ (record s' { shards = put_internal s'.shards bucket key value ttl }, none)
    ]

unfoldable pub put : Storage → Bytes → Bytes → Bytes → Io → Storage × Failure
unfolding put_expiring
put s bucket key value io = put_expiring s bucket key value 0 io

-- `ttl = time.Now().Unix() + ttlSeconds` if that is asked for, on `int64`
unfoldable pub expiry_of : Int64 → Int64 → Int64
expiry_of now ttl_seconds = if positive64 ttl_seconds then add64 now ttl_seconds else 0

unfoldable pub put_with_ttl :
    Int64 → Storage → Bytes → Bytes → Bytes → Int64 → Io → Storage × Failure
unfolding put_expiring
put_with_ttl now s bucket key value ttl_seconds io =
    put_expiring s bucket key value (expiry_of now ttl_seconds) io

unfoldable pub delete : Storage → Bytes → Bytes → Io → Storage × Failure
delete s bucket key io =
    let (s', failure) = log_op s (del_record bucket key) io in
    elim failure [
      | some e ↦ (s', some e)
      | none ↦
          let (shards, missing) = delete_internal s'.shards bucket key in
          (record s' { shards = shards }, missing)
    ]

unfoldable pub update : Int64 → Storage → Bytes → Bytes → Bytes → Io → Storage × Failure
update now s bucket key value io = elim (get now s.shards bucket key) [
  | err e ↦ (s, some e)
  | ok old ↦ put s bucket key value io
]

-- `SetPersistenceFile`: the open creates a missing file, or fails.
unfoldable pub set_persistence_file : Storage → Bytes → Bool → Storage × Failure
set_persistence_file s filename opens =
    if opens
    then (
      record s {
        wal =
            some (record { filename = filename; is_open = true; op_count = 0; compacting = false });
        disk = insert filename (content filename s.disk) s.disk;
      },
      none,
    )
    else (s, some open_failed)

-- The callback that `LoadFromFile` hands to `Replay`.
unfoldable pub apply_record : Shards → LogRecord → Shards
apply_record shards r =
    if r.op == op_put
    then put_internal shards r.bucket r.key r.value r.ttl
    else if r.op == op_del
    then (delete_internal shards r.bucket r.key).0
    else shards

-- `LoadFromFile`; a read of an open file does not fail, the seek on a closed one does.
unfoldable pub load_from_file : Storage → Storage × Failure
load_from_file s = elim s.wal [
  | none ↦ (s, some persistence_not_initialized)
  | some w ↦
      if w.is_open
      then (let replayed : Replayed Shards =
            replay apply_record (content w.filename s.disk) s.shards w.op_count in
          (
            record s {
              shards = replayed.state;
              wal = some (record w { op_count = replayed.op_count });
            },
            replayed.failure,
          ))
      else (s, some write_failed)
]

-- `SaveToFile` does nothing.
unfoldable pub save_to_file : Storage → Storage × Failure
save_to_file s = (s, none)
