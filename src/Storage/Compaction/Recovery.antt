-- ===== src/Storage/Compaction/Recovery.antt =====
-- A compacted log against a restart, also when writes came between the snapshot and the swap.
use fast_kv_a_lightweight_ke.Base.{
  ◌≡◌, sym, ap, ◌∙◌, true, false, none, some, List, ◌++◌, foldl, length, length-append,
  if◌then◌else◌, arith, Bool-cases, inl, inr, Option-cases, value?, Failure, subst,
}
use fast_kv_a_lightweight_ke.Base.Bytes.{Bytes, bytes_key, bytes_eq, bytes_eq_iff, text}
use fast_kv_a_lightweight_ke.Base.Dict.{Dict, insert, remove, lookup-remove, RangeOrder}
use fast_kv_a_lightweight_ke.Base.Words.{Int64, less64}
use fast_kv_a_lightweight_ke.Storage.Hash.{shard_count}
use fast_kv_a_lightweight_ke.Storage.Memory.{TtlInfo, Shards, new_shards, get}
use fast_kv_a_lightweight_ke.Storage.Memory.Invariant.{IsWellFormed}
use fast_kv_a_lightweight_ke.Storage.Memory.View.{value_at, expiry_at, is_expired, get-answer}
use fast_kv_a_lightweight_ke.Storage.Wal.{LogRecord, replay}
use fast_kv_a_lightweight_ke.Storage.Wal.RoundTrip.{encode_all, replay-encode_all}
use fast_kv_a_lightweight_ke.Storage.Engine.{Disk, Wal, Io, Storage, content, apply_record, put}
use fast_kv_a_lightweight_ke.Storage.Engine.Logging.{
  Logs, restart, restart_lem, content-insert_self,
}
use fast_kv_a_lightweight_ke.Storage.Engine.Recovery.{IsDurable}
use fast_kv_a_lightweight_ke.Storage.Engine.Writes.{put_whole_lem}
use fast_kv_a_lightweight_ke.Storage.Compaction.{
  CompactIo, snapshot, tmp_filename, swap_log, finish_compaction, compact,
}
use fast_kv_a_lightweight_ke.Storage.Compaction.Snapshot.{shards_records, snapshot_lem}
use fast_kv_a_lightweight_ke.Storage.Compaction.Live.{rebuilt_lem}
use fast_kv_a_lightweight_ke.Storage.Compaction.Fits.{
  StoreFits, replayed-StoreFits, shards_records-IsEncodable,
}

-- The calls of the compaction that matter to the log's file go well.
pub record CompactionGoesWell (io : CompactIo) : Type 0 where
  pub tmp_opened : io.tmp_opens ≡ true
  pub whole : (bucket key : Bytes) → io.fault bucket key ≡ none
  pub renamed : io.renames ≡ true

tmp_differs : (f : Bytes) → bytes_eq (f ++ text ".tmp") f ≡ false
tmp_differs f = elim (Bool-cases (bytes_eq (f ++ text ".tmp") f)) [
  | inl same ↦ absurd (
      omega (
        arith,
        ap length ((bytes_eq_iff (f ++ text ".tmp") f).0 same),
        length-append f (text ".tmp"),
      ))
  | inr other ↦ other
]

content-remove :
    (f g : Bytes) (disk : Disk) → bytes_eq f g ≡ false → content g (remove f disk) ≡ content g disk
unfolding content
content-remove f g disk other = ground (arith, other, lookup-remove f g disk)

-- The log's file after the swap is the snapshot's.
content-swap_log :
    (io : CompactIo) (w : Wal) (tmp : Bytes) (disk : Disk)
    → io.renames ≡ true
    → content w.filename (swap_log io w tmp disk).0 ≡ tmp
unfolding swap_log
content-swap_log io w tmp disk renamed =
    let removed : Disk = if io.removes then remove w.filename disk else disk in
    let swapped : Disk = remove (tmp_filename w) (insert w.filename tmp removed) in
    ground (
      arith,
      renamed,
      content-insert_self w.filename (content w.filename swapped) swapped,
      content-remove (tmp_filename w) w.filename (insert w.filename tmp removed)
          (tmp_differs w.filename),
      content-insert_self w.filename tmp removed,
    )

pub content-finish_compaction :
    (io : CompactIo) (tmp : Bytes) (s : Storage) (logs : Logs s)
    → io.renames ≡ true
    → content logs.log.filename (finish_compaction io tmp s).disk ≡ tmp
unfolding finish_compaction
content-finish_compaction io tmp s logs renamed = ground (
  arith,
  logs.uses,
  content-swap_log io logs.log tmp (insert (tmp_filename logs.log) tmp s.disk) renamed,
)

-- A compaction does not touch the memory.
pub shards-finish_compaction :
    (io : CompactIo) (tmp : Bytes) (s : Storage) → (finish_compaction io tmp s).shards ≡ s.shards
unfolding finish_compaction
shards-finish_compaction io tmp s = ground arith

-- Not earlier: what has expired at `now` has expired at `later`.
abbrev pub NotBefore : Int64 → Int64 → Type 0
NotBefore now later = less64 later now ≡ false

pub expired_stays :
    (now later : Int64) (t : TtlInfo)
    → NotBefore now later
    → less64 t.expiry now ≡ true
    → less64 t.expiry later ≡ true
unfolding less64
expired_stays now later t order expired = ground arith

-- Reading the rebuilt store later on.
get-rebuilt :
    (shards rebuilt : Shards) (now later : Int64) (bucket key : Bytes)
    → NotBefore now later
    → (value_at rebuilt bucket key ≡ (
        if is_expired now (expiry_at shards bucket key) then none else value_at shards bucket key))
      × (expiry_at rebuilt bucket key ≡ (
          if is_expired now (expiry_at shards bucket key)
          then none
          else expiry_at shards bucket key))
    → value? (get later rebuilt bucket key) ≡ value? (get later shards bucket key)
get-rebuilt shards rebuilt now later bucket key order e =
    elim (Option-cases (expiry_at shards bucket key)) [
      | inl free ↦
          ground (
            arith,
            free,
            e,
            get-answer later rebuilt bucket key,
            get-answer later shards bucket key,
          )
      | inr (t, found) ↦ ground (
        arith,
        found,
        e,
        get-answer later rebuilt bucket key,
        get-answer later shards bucket key,
        expired_stays now later t order,
      )
    ]

module _ (buckets_order : RangeOrder Bytes (Dict Bytes Bytes)) (keys_order : RangeOrder Bytes Bytes)
    (now : Int64) (io : CompactIo) where
  -- When a compaction has swapped in the snapshot of a durable store, a restart reads back, at any
  -- time from the snapshot on, the value of every key as that store had it. This is so whatever
  -- store `s1` the swap finds: what was written since the snapshot is not read back.
  pub restart_after_finish :
      (filename : Bytes) (s s1 : Storage) (later : Int64) (bucket key : Bytes) (logs1 : Logs s1)
      → IsDurable filename s
      → logs1.log.filename ≡ filename
      → CompactionGoesWell io
      → NotBefore now later
      → let tmp : Bytes = snapshot buckets_order keys_order now io s.shards in
        let restarted : Storage × Failure = restart (finish_compaction io tmp s1).disk filename in
        (restarted.1 ≡ none)
        × (value? (get later restarted.0.shards bucket key)
            ≡ value? (get later s.shards bucket key))
  restart_after_finish filename s s1 later bucket key logs1 d named well order =
      let tmp : Bytes = snapshot buckets_order keys_order now io s.shards in
      let records : List LogRecord =
        shards_records buckets_order keys_order now shard_count 0 s.shards in
      let ok_store : IsWellFormed s.shards × StoreFits s.shards =
        subst (λ x. IsWellFormed x × StoreFits x) d.rebuilt (replayed-StoreFits d.records d.fits) in
      let file : content filename (finish_compaction io tmp s1).disk ≡ encode_all records =
        ap (λ f. content f (finish_compaction io tmp s1).disk) (sym named)
        ∙ content-finish_compaction io tmp s1 logs1 well.renamed
        ∙ snapshot_lem buckets_order keys_order now io well.whole s.shards in
      let replayed =
        ap (λ bytes. replay apply_record bytes new_shards 0) file
        ∙ replay-encode_all apply_record records new_shards 0 (
            shards_records-IsEncodable buckets_order keys_order now shard_count 0 s.shards
              ok_store.0 ok_store.1) in
      let restarted = restart_lem (finish_compaction io tmp s1).disk filename in
      (
        ground (arith, restarted.1, replayed),
        subst (λ x. value? (get later x bucket key) ≡ value? (get later s.shards bucket key))
            (ground (arith, restarted.0, replayed))
            (get-rebuilt s.shards (foldl apply_record new_shards records) now later bucket key order
              (rebuilt_lem buckets_order keys_order now s.shards bucket key ok_store.0)),
      )

  -- An uninterrupted compaction changes nothing in memory, and a restart after it succeeds and reads
  -- back, at any time from then on, the value of every key.
  pub restart_after_compact :
      (filename : Bytes) (s : Storage) (later : Int64) (bucket key : Bytes)
      → IsDurable filename s
      → CompactionGoesWell io
      → NotBefore now later
      → let compacted : Storage = compact buckets_order keys_order now io s in
        (compacted.shards ≡ s.shards)
        × ((restart compacted.disk filename).1 ≡ none)
        × (value? (get later (restart compacted.disk filename).0.shards bucket key)
            ≡ value? (get later compacted.shards bucket key))
  unfolding compact finish_compaction
  restart_after_compact filename s later bucket key d well order = ground (
    arith,
    well.tmp_opened,
    d.logs.uses,
    restart_after_finish filename s s later bucket key d.logs d d.named well order,
  )

  -- A `Put` that is acknowledged between the snapshot and the swap is in memory and is lost to a
  -- restart: the key reads as it did when the snapshot was taken.
  pub put_during_compaction_lost :
      (filename : Bytes) (s : Storage) (later : Int64) (bucket key value : Bytes) (write : Io)
      → IsDurable filename s
      → CompactionGoesWell io
      → NotBefore now later
      → write.fault ≡ none
      → let tmp : Bytes = snapshot buckets_order keys_order now io s.shards in
        let written : Storage × Failure = put s bucket key value write in
        let swapped : Storage = finish_compaction io tmp written.0 in
        (written.1 ≡ none)
        × (value_at swapped.shards bucket key ≡ some value)
        × (value? (get later (restart swapped.disk filename).0.shards bucket key)
            ≡ value? (get later s.shards bucket key))
  put_during_compaction_lost filename s later bucket key value write d well order whole =
      let (acked, stored, logs1) = put_whole_lem s d.logs bucket key value write whole in
      (
        acked,
        ap (λ shards. value_at shards bucket key)
              (shards-finish_compaction io (snapshot buckets_order keys_order now io s.shards)
                (put s bucket key value write).0)
            ∙ stored,
        (restart_after_finish filename s (put s bucket key value write).0 later bucket key logs1.0 d
            (logs1.1 ∙ d.named) well order).1,
      )
