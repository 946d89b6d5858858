-- ===== src/Storage/Engine/Recovery.antt =====
-- The log rebuilds the memory: after whole operations, and after one whose write was cut short.
use fast_kv_a_lightweight_ke.Base.{
  ℕ, zero, suc, ◌<◌, ◌≡◌, refl, sym, ap, ◌∙◌, none, some, List, [], ◌∷◌, ◌++◌, take, drop, length,
  take-append-drop, foldl, All, All-append, arith, inl, inr, Option-cases,
}
use fast_kv_a_lightweight_ke.Base.Bytes.{Bytes}
use fast_kv_a_lightweight_ke.Storage.Memory.{Shards, new_shards}
use fast_kv_a_lightweight_ke.Storage.Wal.{LogRecord}
use fast_kv_a_lightweight_ke.Storage.Wal.Encode.{encode}
use fast_kv_a_lightweight_ke.Storage.Wal.RoundTrip.{
  IsEncodable, encode_all, encode_all-snoc, replay-encode_all,
}
use fast_kv_a_lightweight_ke.Storage.Wal.Torn.{replay_torn}
use fast_kv_a_lightweight_ke.Storage.Engine.{Io, Storage, content, log_op, apply_record}
use fast_kv_a_lightweight_ke.Storage.Engine.Logging.{
  Logs, restart, restart_lem, log_op_lem, log_op-Logs, filename-log_op,
}
use mathlib.Core.List.{foldl-append}

-- The log's file holds whole records that rebuild the memory from an empty store.
pub record IsDurable (filename : Bytes) (s : Storage) : Type 0 where
  pub logs : Logs s
  pub named : logs.log.filename ≡ filename
  pub records : List LogRecord
  pub logged : content filename s.disk ≡ encode_all records
  pub fits : All IsEncodable records
  pub rebuilt : foldl apply_record new_shards records ≡ s.shards

-- A failed write has written less than the whole record.
abbrev pub IsShort : Io → LogRecord → Type 0
IsShort io r = elim io.fault [ none ↦ Unit {0} | some n ↦ n < length (encode r) ]

nonempty_drop :
    (n : ℕ) (bytes : Bytes)
    → n < length bytes
    → (x : ℕ) × (back : Bytes) × (drop n bytes ≡ x ∷ back)
nonempty_drop n [] h = absurd (omega arith)
nonempty_drop zero (b ∷ bytes) h = (b, bytes, refl)
nonempty_drop (suc n) (b ∷ bytes) h = nonempty_drop n bytes (omega arith)

module _ (filename : Bytes) (s : Storage) (d : IsDurable filename s) where
  -- A restart reads the memory back from the log, without an error.
  pub restart-IsDurable :
      ((restart s.disk filename).0.shards ≡ s.shards) × ((restart s.disk filename).1 ≡ none)
  restart-IsDurable = ground (
    arith,
    restart_lem s.disk filename,
    d.logged,
    d.named,
    replay-encode_all apply_record d.records new_shards 0 d.fits,
    d.rebuilt,
  )

module _ (filename : Bytes) (s : Storage) (d : IsDurable filename s) where
  module _ (r : LogRecord) (io : Io) (fits : IsEncodable r) where
    -- The log after a whole write, over any memory that has taken the record in.
    pub extended-IsDurable :
        (shards : Shards)
        → io.fault ≡ none
        → apply_record s.shards r ≡ shards
        → IsDurable filename (record (log_op s r io).0 { shards = shards })
    extended-IsDurable shards whole took = record {
      logs = record {
        log = (log_op-Logs s d.logs r io).log;
        uses = (log_op-Logs s d.logs r io).uses;
        opened = (log_op-Logs s d.logs r io).opened;
      };
      named = filename-log_op s d.logs r io ∙ d.named;
      records = d.records ++ r ∷ [];
      logged = ground (
        arith,
        filename-log_op s d.logs r io,
        log_op_lem s d.logs r io,
        whole,
        d.logged,
        d.named,
        encode_all-snoc d.records r,
      );
      fits = All-append IsEncodable d.records (r ∷ []) d.fits (fits, tt);
      rebuilt =
          foldl-append apply_record new_shards d.records (r ∷ [])
          ∙ ap (λ x. apply_record x r) d.rebuilt
          ∙ took;
    }

    -- After a write that was cut short, a restart reads back the memory from before it.
    restart_cut :
        (n : ℕ)
        → io.fault ≡ some n
        → n < length (encode r)
        → (restart (log_op s r io).0.disk filename).0.shards ≡ s.shards
    restart_cut n cut short =
        let (x, back, left) = nonempty_drop n (encode r) short in
        ground (
          arith,
          cut,
          log_op_lem s d.logs r io,
          d.logged,
          d.named,
          restart_lem (log_op s r io).0.disk filename,
          replay_torn apply_record d.records r x (take n (encode r)) back new_shards 0 d.fits fits
              (sym (take-append-drop n (encode r)) ∙ ap (◌++◌ (take n (encode r))) left),
          d.rebuilt,
        )

    -- However one write goes, a restart right after it reads back the memory: `acked` if it was
    -- written whole, the one from before if it was not.
    pub restart_after_write :
        (acked : Shards)
        → IsShort io r
        → apply_record s.shards r ≡ acked
        → (restart (log_op s r io).0.disk filename).0.shards
          ≡ elim io.fault [ none ↦ acked | some n ↦ s.shards ]
    restart_after_write acked short took = elim (Option-cases io.fault) [
      | inl whole ↦ ground (
        arith,
        whole,
        restart-IsDurable filename (record (log_op s r io).0 { shards = acked })
            (extended-IsDurable acked whole took),
        filename-log_op s d.logs r io,
      )
      | inr (n, cut) ↦ ground (arith, cut, restart_cut n cut (ground (arith, cut)))
    ]
