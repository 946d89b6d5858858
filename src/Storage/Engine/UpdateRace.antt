-- ===== src/Storage/Engine/UpdateRace.antt =====
-- `Update` and a `Delete` of the same key: the update reads under one lock and writes under others,
-- and the deletion may come between.
use fast_kv_a_lightweight_ke.Base.{◌≡◌, refl, ap, ◌∙◌, none, some, ok, err, key_not_found, arith}
use fast_kv_a_lightweight_ke.Base.Bytes.{Bytes, bytes_eq_refl}
use fast_kv_a_lightweight_ke.Base.Words.{Int64}
use fast_kv_a_lightweight_ke.Storage.Memory.{get}
use fast_kv_a_lightweight_ke.Storage.Memory.Invariant.{IsWellFormed, put_internal-IsWellFormed}
use fast_kv_a_lightweight_ke.Storage.Memory.View.{get-answer, expiry_at-delete}
use fast_kv_a_lightweight_ke.Storage.Memory.Reads.{get-delete, get-put_plain}
use fast_kv_a_lightweight_ke.Storage.Engine.{Io, Storage, put, delete, update, log_op, del_record}
use fast_kv_a_lightweight_ke.Storage.Engine.Logging.{Logs, log_op_lem, log_op-Logs}
use fast_kv_a_lightweight_ke.Storage.Engine.Writes.{put_whole_lem, put_whole, delete_logged}
use fast_kv_a_lightweight_ke.Storage.Engine.Limits.{zero_is_no_expiry}

module _ (s : Storage) (logs : Logs s) (bucket key : Bytes) (io : Io)
    (whole : io.fault ≡ none) where
  Logs-delete : Logs (delete s bucket key io).0
  unfolding delete
  Logs-delete =
      let after : Logs (log_op s (del_record bucket key) io).0 =
        log_op-Logs s logs (del_record bucket key) io in
      record {
        log = after.log;
        uses = ground (arith, whole, log_op_lem s logs (del_record bucket key) io, after.uses);
        opened = after.opened;
      }

module _ (now : Int64) (s : Storage) (bucket key old value : Bytes) (io : Io) (logs : Logs s)
    (wf : IsWellFormed s.shards) (found : get now s.shards bucket key ≡ ok old)
    (whole : io.fault ≡ none) where
  abbrev deleted : Storage
  deleted = (delete s bucket key io).0

  gone : get now deleted.shards bucket key ≡ err key_not_found
  gone =
      ap (λ x. get now x.0.shards bucket key) (delete_logged s logs bucket key io whole)
      ∙ (get-delete now s.shards bucket key wf).0

  deletes : (delete s bucket key io).1 ≡ none
  deletes = ground (
    arith,
    delete_logged s logs bucket key io whole,
    get-delete now s.shards bucket key wf,
    get-answer now s.shards bucket key,
    found,
  )

  written_back :
      ((put deleted bucket key value io).1 ≡ none)
      × (get now (put deleted bucket key value io).0.shards bucket key ≡ ok value)
  written_back = ground (
    arith,
    put_whole deleted (Logs-delete s logs bucket key io whole) bucket key value io whole,
    get-put_plain now deleted.shards bucket key value 0 zero_is_no_expiry,
    delete_logged s logs bucket key io whole,
    expiry_at-delete s.shards bucket key bucket key wf,
    bytes_eq_refl bucket,
    bytes_eq_refl key,
  )

  update_after : (update now deleted bucket key value io).1 ≡ some key_not_found
  unfolding update
  update_after = rw (gone, update) refl

  update_before : (update now s bucket key value io).0 ≡ (put s bucket key value io).0
  unfolding update
  update_before = rw (found, update) refl

  delete_after :
      get now (delete (update now s bucket key value io).0 bucket key io).0.shards bucket key
      ≡ err key_not_found
  delete_after = rw update_before (
      let written : Storage = (put s bucket key value io).0 in
      let moved = ap (λ x. x.0.shards) (put_whole s logs bucket key value io whole) in
      let formed : IsWellFormed written.shards =
        rw moved (put_internal-IsWellFormed s.shards wf bucket key value 0) in
      ap (λ x. get now x.0.shards bucket key)
        (delete_logged written (put_whole_lem s logs bucket key value io whole).2.0 bucket key io
          whole)
      ∙ (get-delete now written.shards bucket key formed).0)

  -- Over a well-formed store with an open log and a key that can be read, with writes that go well: an
  -- update that has found the key, and writes it after a deletion of it, succeeds, and so does the
  -- deletion, and the key is there. One after the other, in either order, they leave no key to be
  -- read: the update fails after the deletion, and the deletion removes what the update has written.
  pub update_not_atomic :
      ((delete s bucket key io).1 ≡ none)
      × ((put (delete s bucket key io).0 bucket key value io).1 ≡ none)
      × (get now (put (delete s bucket key io).0 bucket key value io).0.shards bucket key
          ≡ ok value)
      × ((update now (delete s bucket key io).0 bucket key value io).1 ≡ some key_not_found)
      × (get now (delete (update now s bucket key value io).0 bucket key io).0.shards bucket key
          ≡ err key_not_found)
  update_not_atomic = (deletes, written_back.0, written_back.1, update_after, delete_after)
