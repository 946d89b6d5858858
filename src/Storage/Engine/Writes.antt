-- ===== src/Storage/Engine/Writes.antt =====
-- One call of each method of `Storage` that writes, against a restart.
use fast_kv_a_lightweight_ke.Base.{
  ℕ, ◌≡◌, refl, none, some, arith, ◌⊎◌, inl, inr, Option-cases, Result, ok, err, write_failed,
}
use fast_kv_a_lightweight_ke.Base.Bytes.{Bytes, bytes_eq_refl}
use fast_kv_a_lightweight_ke.Base.Words.{Int64}
use fast_kv_a_lightweight_ke.Storage.Memory.{put_internal, delete_internal, get}
use fast_kv_a_lightweight_ke.Storage.Memory.View.{value_at, value_at-put}
use fast_kv_a_lightweight_ke.Storage.Wal.{LogRecord}
use fast_kv_a_lightweight_ke.Storage.Wal.RoundTrip.{IsEncodable}
use fast_kv_a_lightweight_ke.Storage.Engine.{
  Io, Storage, log_op, apply_record, put_record, del_record, put_expiring, put, delete, update,
}
use fast_kv_a_lightweight_ke.Storage.Engine.Logging.{
  Logs, restart, log_op_lem, log_op-Logs, filename-log_op,
}
use fast_kv_a_lightweight_ke.Storage.Engine.Recovery.{IsDurable, IsShort, restart_after_write}

-- Over an open log, a write that goes well has both of its effects, and answers as the memory does.
module _ (s : Storage) (logs : Logs s) (bucket key : Bytes) (io : Io)
    (whole : io.fault ≡ none) where
  pub put_expiring_logged :
      (value : Bytes) (ttl : Int64)
      → put_expiring s bucket key value ttl io ≡ (
        record (log_op s (put_record bucket key value ttl) io).0 {
          shards = put_internal s.shards bucket key value ttl;
        },
        none,
      )
  unfolding put_expiring
  put_expiring_logged value ttl =
      ground (arith, whole, log_op_lem s logs (put_record bucket key value ttl) io)

  pub delete_logged : delete s bucket key io ≡ (
    record (log_op s (del_record bucket key) io).0 {
      shards = (delete_internal s.shards bucket key).0;
    },
    (delete_internal s.shards bucket key).1,
  )
  unfolding delete
  delete_logged = ground (arith, whole, log_op_lem s logs (del_record bucket key) io)

module _ (filename : Bytes) (s : Storage) (d : IsDurable filename s) (bucket key : Bytes)
    (io : Io) where
  module _ (value : Bytes) (ttl : Int64) where
    pub put_expiring_cut :
        (n : ℕ)
        → io.fault ≡ some n
        → put_expiring s bucket key value ttl io
          ≡ ((log_op s (put_record bucket key value ttl) io).0, some write_failed)
    unfolding put_expiring
    put_expiring_cut n cut =
        ground (arith, cut, log_op_lem s d.logs (put_record bucket key value ttl) io)

    apply-put_record :
        apply_record s.shards (put_record bucket key value ttl)
        ≡ put_internal s.shards bucket key value ttl
    unfolding apply_record
    apply-put_record = refl

    pub put_expiring-restart :
        IsShort io (put_record bucket key value ttl)
        → IsEncodable (put_record bucket key value ttl)
        → (restart (put_expiring s bucket key value ttl io).0.disk filename).0.shards
          ≡ (put_expiring s bucket key value ttl io).0.shards
    put_expiring-restart short fits = elim (Option-cases io.fault) [
      | inl whole ↦ ground (
        arith,
        whole,
        put_expiring_logged s d.logs bucket key io whole value ttl,
        restart_after_write filename s d (put_record bucket key value ttl) io fits
            (put_internal s.shards bucket key value ttl) short apply-put_record,
      )
      | inr (n, cut) ↦ ground (
        arith,
        cut,
        put_expiring_cut n cut,
        log_op_lem s d.logs (put_record bucket key value ttl) io,
        restart_after_write filename s d (put_record bucket key value ttl) io fits
            (put_internal s.shards bucket key value ttl) short apply-put_record,
      )
    ]

  delete_cut :
      (n : ℕ)
      → io.fault ≡ some n
      → delete s bucket key io ≡ ((log_op s (del_record bucket key) io).0, some write_failed)
  unfolding delete
  delete_cut n cut = ground (arith, cut, log_op_lem s d.logs (del_record bucket key) io)

  apply-del_record :
      apply_record s.shards (del_record bucket key) ≡ (delete_internal s.shards bucket key).0
  unfolding apply_record
  apply-del_record = refl

  pub delete-restart :
      IsShort io (del_record bucket key)
      → IsEncodable (del_record bucket key)
      → (restart (delete s bucket key io).0.disk filename).0.shards
        ≡ (delete s bucket key io).0.shards
  delete-restart short fits = elim (Option-cases io.fault) [
    | inl whole ↦ ground (
      arith,
      whole,
      delete_logged s d.logs bucket key io whole,
      restart_after_write filename s d (del_record bucket key) io fits
          (delete_internal s.shards bucket key).0 short apply-del_record,
    )
    | inr (n, cut) ↦ ground (
      arith,
      cut,
      delete_cut n cut,
      log_op_lem s d.logs (del_record bucket key) io,
      restart_after_write filename s d (del_record bucket key) io fits
          (delete_internal s.shards bucket key).0 short apply-del_record,
    )
  ]

-- A `Put` whose write was cut short answers the error, and has touched the log alone.
pub put_cut :
    (filename : Bytes) (s : Storage) (d : IsDurable filename s) (bucket key value : Bytes) (io : Io)
    (n : ℕ)
    → io.fault ≡ some n
    → put s bucket key value io
      ≡ ((log_op s (put_record bucket key value 0) io).0, some write_failed)
unfolding put
put_cut filename s d bucket key value io n cut =
    put_expiring_cut filename s d bucket key io value 0 n cut

pub put_whole :
    (s : Storage) (logs : Logs s) (bucket key value : Bytes) (io : Io)
    → io.fault ≡ none
    → put s bucket key value io ≡ (
      record (log_op s (put_record bucket key value 0) io).0 {
        shards = put_internal s.shards bucket key value 0;
      },
      none,
    )
unfolding put
put_whole s logs bucket key value io whole = put_expiring_logged s logs bucket key io whole value 0

-- A `Put` whose write goes well: the answer, the memory, and the log that it goes on with.
pub put_whole_lem :
    (s : Storage) (logs : Logs s) (bucket key value : Bytes) (io : Io)
    → io.fault ≡ none
    → ((put s bucket key value io).1 ≡ none)
      × (value_at (put s bucket key value io).0.shards bucket key ≡ some value)
      × ((after : Logs (put s bucket key value io).0) × (after.log.filename ≡ logs.log.filename))
put_whole_lem s logs bucket key value io whole =
    let r : LogRecord = put_record bucket key value 0 in
    let after : Logs (log_op s r io).0 = log_op-Logs s logs r io in
    rw (put_whole s logs bucket key value io whole) (
      refl,
      ground (
        arith,
        value_at-put s.shards bucket key bucket key value 0,
        bytes_eq_refl bucket,
        bytes_eq_refl key,
      ),
      (
        record { log = after.log; uses = after.uses; opened = after.opened },
        filename-log_op s logs r io,
      ),
    )

pub update_cases :
    (now : Int64) (s : Storage) (bucket key value : Bytes) (io : Io)
    → (update now s bucket key value io ≡ put s bucket key value io)
      ⊎ ((update now s bucket key value io).0 ≡ s)
unfolding update
update_cases now s bucket key value io = go (get now s.shards bucket key) refl
  where
    go :
        (found : Result Bytes)
        → get now s.shards bucket key ≡ found
        → (update now s bucket key value io ≡ put s bucket key value io)
          ⊎ ((update now s bucket key value io).0 ≡ s)
    go (ok old) e = inl (ground (arith, e))
    go (err x) e = inr (ground (arith, e))
