-- ===== src/Storage/Compaction.antt =====
-- `Compact` and `writeOpToTemp` of wal.go: a snapshot of the live entries takes the log's place.
pub mod Snapshot
pub mod Rebuild
pub mod Live
pub mod Fits
pub mod Recovery
pub mod Life
pub mod Rounds
pub mod Events
pub mod Revival
use fast_kv_a_lightweight_ke.Base.{
  ℕ, zero, suc, ◌+◌, ◌-◌, Bool, true, false, Option, none, some, List, [], ◌∷◌, ◌++◌, take,
  if◌then◌else◌,
}
use fast_kv_a_lightweight_ke.Base.Bytes.{Bytes, text, bytes_key}
use fast_kv_a_lightweight_ke.Base.Dict.{Dict, insert, remove, RangeOrder}
use fast_kv_a_lightweight_ke.Base.Nested.{lookup_in}
use fast_kv_a_lightweight_ke.Base.Words.{Int64}
use fast_kv_a_lightweight_ke.Storage.Hash.{shard_count}
use fast_kv_a_lightweight_ke.Storage.Memory.{Shard, Shards, check_ttl}
use fast_kv_a_lightweight_ke.Storage.Wal.{LogRecord, fill_buffer}
use fast_kv_a_lightweight_ke.Storage.Engine.{Disk, Wal, Storage, content, put_record}

-- What the operating system does with the calls of one compaction. Each entry is written once, so
-- the faults of the writes are given by bucket and key.
pub record CompactIo : Type 0 where
  pub tmp_opens : Bool
  pub fault : Bytes → Bytes → Option ℕ
  pub removes : Bool
  pub renames : Bool
  pub reopens : Bool

-- `writeOpToTemp` does not look at the error of the write.
unfoldable pub write_op_to_temp : CompactIo → LogRecord → Bytes → Bytes
write_op_to_temp io r tmp = elim (io.fault r.bucket r.key) [
  | none ↦ tmp ++ fill_buffer r
  | some n ↦ tmp ++ take n (fill_buffer r)
]

-- The expiry that is written with an entry: 0 if it has none.
unfoldable pub ttl_of : Shard → Bytes → Bytes → Int64
ttl_of shard bucket key = elim (lookup_in bucket key shard.ttl) [ none ↦ 0 | some t ↦ t.expiry ]

-- The orders in which the two loops visit the buckets of a shard and the keys of a bucket.
module _ (buckets_order : RangeOrder Bytes (Dict Bytes Bytes)) (keys_order : RangeOrder Bytes Bytes)
    (now : Int64) (io : CompactIo) where
  unfoldable pub snapshot_bucket : Shard → Bytes → List (Bytes × Bytes) → Bytes → Bytes
  snapshot_bucket shard bucket [] tmp = tmp
  snapshot_bucket shard bucket ((key, val) ∷ rest) tmp = snapshot_bucket shard bucket rest (
      if check_ttl now shard bucket key
      then write_op_to_temp io (put_record bucket key val (ttl_of shard bucket key)) tmp
      else tmp)

  unfoldable pub snapshot_buckets : Shard → List (Bytes × Dict Bytes Bytes) → Bytes → Bytes
  snapshot_buckets shard [] tmp = tmp
  snapshot_buckets shard ((bucket, b) ∷ rest) tmp =
      snapshot_buckets shard rest (snapshot_bucket shard bucket (keys_order.visit b) tmp)

  unfoldable pub snapshot_from : ℕ → ℕ → Shards → Bytes → Bytes
  snapshot_from zero i shards tmp = tmp
  snapshot_from (suc rounds) i shards tmp =
      snapshot_from rounds (i + 1) shards
        (snapshot_buckets (shards i) (buckets_order.visit (shards i).buckets) tmp)

  -- The file that the loop over the shards writes.
  unfoldable pub snapshot : Shards → Bytes
  snapshot shards = snapshot_from shard_count 0 shards []

abbrev pub tmp_filename : Wal → Bytes
tmp_filename w = w.filename ++ text ".tmp"

-- From the lock of the log's mutex on: the log's file is closed, removed and replaced by the file of
-- the snapshot, and opened again. A log that cannot be opened again stays closed.
unfoldable pub swap_log : CompactIo → Wal → Bytes → Disk → Disk × Wal
swap_log io w tmp disk =
    let removed : Disk = if io.removes then remove w.filename disk else disk in
    let renamed : Disk =
      if io.renames then remove (tmp_filename w) (insert w.filename tmp removed) else removed in
    (
      (if io.reopens then insert w.filename (content w.filename renamed) renamed else renamed),
      record w { is_open = io.reopens; op_count = 0; compacting = false },
    )

-- The end of the goroutine: what the snapshot `tmp` was taken of may have changed since.
unfoldable pub finish_compaction : CompactIo → Bytes → Storage → Storage
finish_compaction io tmp s = elim s.wal [
  | none ↦ s
  | some w ↦
      let (disk, w') = swap_log io w tmp (insert (tmp_filename w) tmp s.disk) in
      record s { wal = some w'; disk = disk; compactions = s.compactions - 1 }
]

-- Without a temporary file the compaction is given up.
unfoldable pub abandon_compaction : Storage → Storage
abandon_compaction s = elim s.wal [
  | none ↦ s
  | some w ↦ record s {
    wal = some (record w { compacting = false });
    compactions = s.compactions - 1;
  }
]

-- A compaction that no other operation interleaves.
unfoldable pub compact :
    RangeOrder Bytes (Dict Bytes Bytes)
    → RangeOrder Bytes Bytes
    → Int64
    → CompactIo
    → Storage
    → Storage
unfolding finish_compaction
compact buckets_order keys_order now io s =
    if io.tmp_opens
    then finish_compaction io (snapshot buckets_order keys_order now io s.shards) s
    else abandon_compaction s
