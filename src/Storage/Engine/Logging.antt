-- ===== src/Storage/Engine/Logging.antt =====
-- What one operation leaves in the log's file and in the rest of the store.
use fast_kv_a_lightweight_ke.Base.{
  ◌+◌, ◌≡◌, refl, true, none, some, ◌++◌, take, arith, leb, not, ◌&&◌, ◌||◌, if◌then◌else◌, Failure,
  write_failed,
}
use fast_kv_a_lightweight_ke.Base.Bytes.{Bytes, bytes_key, bytes_eq, bytes_eq_refl}
use fast_kv_a_lightweight_ke.Base.Dict.{insert, lookup-insert}
use fast_kv_a_lightweight_ke.Storage.Memory.{Shards, new_shards}
use fast_kv_a_lightweight_ke.Storage.Wal.{LogRecord, Replayed, replay}
use fast_kv_a_lightweight_ke.Storage.Wal.Encode.{encode, fill_buffer-encode}
use fast_kv_a_lightweight_ke.Storage.Engine.{
  compaction_threshold, Disk, Wal, Io, Storage, content, append, log_op, new_storage,
  set_persistence_file, load_from_file, apply_record,
}

pub content-insert :
    (f g bytes : Bytes) (disk : Disk)
    → content g (insert f bytes disk) ≡ (if bytes_eq f g then bytes else content g disk)
unfolding content
content-insert f g bytes disk = ground (arith, lookup-insert f g bytes disk)

pub content-insert_self : (f bytes : Bytes) (disk : Disk) → content f (insert f bytes disk) ≡ bytes
content-insert_self f bytes disk = ground (arith, content-insert f f bytes disk, bytes_eq_refl f)

-- The program started again: the log of that name is replayed into a new store.
unfoldable pub restart : Disk → Bytes → Storage × Failure
restart disk filename = load_from_file (set_persistence_file (new_storage disk) filename true).0

pub restart_lem :
    (disk : Disk) (filename : Bytes)
    → let replayed : Replayed Shards = replay apply_record (content filename disk) new_shards 0 in
      ((restart disk filename).0.shards ≡ replayed.state)
      × ((restart disk filename).1 ≡ replayed.failure)
unfolding restart load_from_file set_persistence_file new_storage
restart_lem disk filename =
    rw (content-insert_self filename (content filename disk) disk) (refl, refl)

-- Writing the log does not touch the memory, whatever comes of it.
pub shards-log_op : (s : Storage) (r : LogRecord) (io : Io) → (log_op s r io).0.shards ≡ s.shards
unfolding log_op append
shards-log_op s r io = ground arith

-- A store whose log is an open file.
pub record Logs (s : Storage) : Type 0 where
  pub log : Wal
  pub uses : s.wal ≡ some log
  pub opened : log.is_open ≡ true

-- The file after one attempt to write a record.
abbrev pub after_write : Bytes → LogRecord → Io → Bytes
after_write bytes r io = elim io.fault [
  | none ↦ bytes ++ encode r
  | some n ↦ bytes ++ take n (encode r)
]

abbrev pub write_failure : Io → Failure
write_failure io = elim io.fault [ none ↦ none | some n ↦ some write_failed ]

module _ (s : Storage) (logs : Logs s) (r : LogRecord) (io : Io) where
  pub log_op_lem :
      ((log_op s r io).1 ≡ write_failure io)
      × ((log_op s r io).0.shards ≡ s.shards)
      × (content logs.log.filename (log_op s r io).0.disk
          ≡ after_write (content logs.log.filename s.disk) r io)
  unfolding log_op append
  log_op_lem = ground (
    arith,
    logs.uses,
    logs.opened,
    fill_buffer-encode r,
    content-insert_self logs.log.filename (after_write (content logs.log.filename s.disk) r io)
        s.disk,
  )

  -- The log's state after the attempt.
  abbrev counted : Wal
  counted = elim io.fault [
    | none ↦ record logs.log {
      op_count = logs.log.op_count + 1;
      compacting =
          logs.log.compacting
          || (leb compaction_threshold (logs.log.op_count + 1) && not logs.log.compacting);
    }
    | some n ↦ logs.log
  ]

  log_op-uses : (log_op s r io).0.wal ≡ some counted
  unfolding log_op append
  log_op-uses = ground (arith, logs.uses, logs.opened)

  pub log_op-Logs : Logs (log_op s r io).0
  log_op-Logs = record { log = counted; uses = log_op-uses; opened = ground (arith, logs.opened) }

  pub filename-log_op : log_op-Logs.log.filename ≡ logs.log.filename
  unfolding log_op-Logs
  filename-log_op = ground arith
