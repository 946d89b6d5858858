-- ===== src/Storage/Engine/Interleaving.antt =====
-- Two calls of `Put` whose two halves, the write of the log and the change of the memory, interleave:
-- each half holds a lock of its own.
use fast_kv_a_lightweight_ke.Base.{◌≡◌, refl, sym, ap, ◌∙◌, none, some, arith}
use fast_kv_a_lightweight_ke.Base.Bytes.{Bytes, bytes_eq_refl}
use fast_kv_a_lightweight_ke.Storage.Memory.{Shards, put_internal}
use fast_kv_a_lightweight_ke.Storage.Memory.View.{value_at, value_at-put}
use fast_kv_a_lightweight_ke.Storage.Wal.{LogRecord}
use fast_kv_a_lightweight_ke.Storage.Wal.RoundTrip.{IsEncodable}
use fast_kv_a_lightweight_ke.Storage.Engine.{Io, Storage, append, log_op, apply_record, put_record}
use fast_kv_a_lightweight_ke.Storage.Engine.Logging.{restart}
use fast_kv_a_lightweight_ke.Storage.Engine.Recovery.{
  IsDurable, restart-IsDurable, extended-IsDurable,
}

-- What is written to the log does not depend on the memory.
disk-log_op :
    (s : Storage) (shards : Shards) (r : LogRecord) (io : Io)
    → (log_op (record s { shards = shards }) r io).0.disk ≡ (log_op s r io).0.disk
unfolding log_op append
disk-log_op s shards r io = ground arith

value_at-put_same :
    (shards : Shards) (bucket key value : Bytes)
    → value_at (put_internal shards bucket key value 0) bucket key ≡ some value
value_at-put_same shards bucket key value = ground (
  arith,
  value_at-put shards bucket key bucket key value 0,
  bytes_eq_refl bucket,
  bytes_eq_refl key,
)

-- The store after a whole `Put`.
abbrev after_put : Storage → Bytes → Bytes → Bytes → Io → Storage
after_put s bucket key value io = record (log_op s (put_record bucket key value 0) io).0 {
  shards = put_internal s.shards bucket key value 0;
}

after_put-IsDurable :
    (filename : Bytes) (s : Storage) (bucket key value : Bytes) (io : Io)
    → IsDurable filename s
    → IsEncodable (put_record bucket key value 0)
    → io.fault ≡ none
    → IsDurable filename (after_put s bucket key value io)
unfolding apply_record
after_put-IsDurable filename s bucket key value io d fits whole =
    extended-IsDurable filename s d (put_record bucket key value 0) io fits
      (put_internal s.shards bucket key value 0) whole refl

-- Over a durable store, two calls of `Put` of one key are logged in one order and change the memory
-- in the other: both go well, the memory has the value of the first, and a restart that of the second.
pub interleaved_puts_diverge :
    (filename : Bytes) (s : Storage) (bucket key first second : Bytes) (io : Io)
    → IsDurable filename s
    → IsEncodable (put_record bucket key first 0)
    → IsEncodable (put_record bucket key second 0)
    → io.fault ≡ none
    → let logged1 : Storage = (log_op s (put_record bucket key first 0) io).0 in
      let logged2 : Storage = (log_op logged1 (put_record bucket key second 0) io).0 in
      let shards2 : Shards = put_internal logged2.shards bucket key second 0 in
      let done : Storage = record logged2 { shards = put_internal shards2 bucket key first 0 } in
      (value_at done.shards bucket key ≡ some first)
      × (value_at (restart done.disk filename).0.shards bucket key ≡ some second)
interleaved_puts_diverge filename s bucket key first second io d fits1 fits2 whole =
    let p1 : Storage = after_put s bucket key first io in
    let d1 : IsDurable filename p1 =
      after_put-IsDurable filename s bucket key first io d fits1 whole in
    let p2 : Storage = after_put p1 bucket key second io in
    let d2 : IsDurable filename p2 =
      after_put-IsDurable filename p1 bucket key second io d1 fits2 whole in
    let logged1 : Storage = (log_op s (put_record bucket key first 0) io).0 in
    let same =
      disk-log_op logged1 (put_internal s.shards bucket key first 0)
        (put_record bucket key second 0) io in
    (
      value_at-put_same _ bucket key first,
      ap (λ disk. value_at (restart disk filename).0.shards bucket key) (sym same)
          ∙ ap (λ shards. value_at shards bucket key) (restart-IsDurable filename p2 d2).0
          ∙ value_at-put_same p1.shards bucket key second,
    )
