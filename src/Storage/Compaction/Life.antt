-- ===== src/Storage/Compaction/Life.antt =====
-- A store that goes through requests, compactions and restarts in any order, against one more
-- restart: what can be read is read again.
use fast_kv_a_lightweight_ke.Base.{
  ◌≡◌, sym, ap, subst, ◌∙◌, false, none, List, [], ◌∷◌, ◌++◌, foldl, All, All-append, arith, inl,
  inr,
}
use fast_kv_a_lightweight_ke.Base.Bytes.{Bytes}
use fast_kv_a_lightweight_ke.Base.Words.{Int64}
use fast_kv_a_lightweight_ke.Storage.Memory.{new_shards}
use fast_kv_a_lightweight_ke.Storage.Memory.Invariant.{IsWellFormed, new_shards-IsWellFormed}
use fast_kv_a_lightweight_ke.Storage.Memory.View.{is_expired}
use fast_kv_a_lightweight_ke.Storage.Wal.{LogRecord}
use fast_kv_a_lightweight_ke.Storage.Wal.RoundTrip.{
  IsEncodable, encode_all, encode_all-snoc, replay-encode_all,
}
use fast_kv_a_lightweight_ke.Storage.Engine.{
  put_record, put, Io, Storage, content, log_op, apply_record,
}
use fast_kv_a_lightweight_ke.Storage.Engine.Logging.{
  Logs, restart, restart_lem, log_op_lem, log_op-Logs, filename-log_op,
}
use fast_kv_a_lightweight_ke.Storage.Engine.Recovery.{IsDurable}
use fast_kv_a_lightweight_ke.Storage.Engine.Writes.{put_whole}
use fast_kv_a_lightweight_ke.Storage.Engine.Restarts.{IsLog, restart_log-IsDurable}
use fast_kv_a_lightweight_ke.Storage.Engine.Sessions.{
  Request, logged_record, execute, execute_cases, GoesWell,
}
use fast_kv_a_lightweight_ke.Storage.Engine.Entries.{
  Entry, entry_at, act, apply_record-IsWellFormed, entry-apply_record, entry-foldl,
}
use fast_kv_a_lightweight_ke.Storage.Compaction.Fits.{
  StoreFits, replayed-StoreFits, apply_record-StoreFits,
}
use mathlib.Core.List.{foldl-append}

-- The log's entry is the memory's, if that has not expired by `later`.
abbrev pub Kept : Int64 → Entry → Entry → Type 0
Kept later x y = is_expired later y.1 ≡ false → x ≡ y

act-Kept :
    (later : Int64) (bucket key : Bytes) (x y : Entry) (r : LogRecord)
    → Kept later x y
    → Kept later (act bucket key x r) (act bucket key y r)
unfolding act
act-Kept later bucket key x y r kept live = ground (arith, kept, live)

-- The log's file holds whole records, and they keep every entry that can be read at `later`.
pub record Lasting (filename : Bytes) (later : Int64) (s : Storage) : Type 0 where
  pub logs : Logs s
  pub named : logs.log.filename ≡ filename
  pub records : List LogRecord
  pub logged : content filename s.disk ≡ encode_all records
  pub fits : All IsEncodable records
  pub formed : IsWellFormed s.shards
  pub entries_fit : StoreFits s.shards
  pub agrees :
      (bucket key : Bytes)
      → Kept later
          (foldl (act bucket key) (entry_at new_shards bucket key) records)
          (entry_at s.shards bucket key)

pub durable-Lasting :
    (filename : Bytes) (later : Int64) (s : Storage)
    → IsDurable filename s
    → Lasting filename later s
durable-Lasting filename later s d =
    let both : IsWellFormed s.shards × StoreFits s.shards =
      subst (λ x. IsWellFormed x × StoreFits x) d.rebuilt (replayed-StoreFits d.records d.fits) in
    record {
      logs = d.logs;
      named = d.named;
      records = d.records;
      logged = d.logged;
      fits = d.fits;
      formed = both.0;
      entries_fit = both.1;
      agrees = λ bucket key live.
          sym (entry-foldl bucket key new_shards d.records new_shards-IsWellFormed)
          ∙ ap (λ shards. entry_at shards bucket key) d.rebuilt;
    }

module _ (filename : Bytes) (later : Int64) (s : Storage) (kept : Lasting filename later s) where
  -- What a restart reads of an entry.
  pub entry-restart :
      (bucket key : Bytes)
      → entry_at (restart s.disk filename).0.shards bucket key
        ≡ foldl (act bucket key) (entry_at new_shards bucket key) kept.records
  entry-restart bucket key =
      let replayed : (restart s.disk filename).0.shards
          ≡ foldl apply_record new_shards kept.records =
        ground (
          arith,
          restart_lem s.disk filename,
          kept.logged,
          replay-encode_all apply_record kept.records new_shards 0 kept.fits,
        ) in
      ap (λ shards. entry_at shards bucket key) replayed
      ∙ entry-foldl bucket key new_shards kept.records new_shards-IsWellFormed

  snoc-Kept :
      (r : LogRecord) (bucket key : Bytes)
      → Kept later
          (foldl (act bucket key) (entry_at new_shards bucket key) (kept.records ++ r ∷ []))
          (entry_at (apply_record s.shards r) bucket key)
  snoc-Kept r bucket key =
      let blank : Entry = entry_at new_shards bucket key in
      let old : Entry = entry_at s.shards bucket key in
      subst (Kept later (foldl (act bucket key) blank (kept.records ++ r ∷ [])))
        (sym (entry-apply_record bucket key s.shards r kept.formed))
        (subst (λ x. Kept later x (act bucket key old r))
          (sym (foldl-append (act bucket key) blank kept.records (r ∷ [])))
          (act-Kept later bucket key (foldl (act bucket key) blank kept.records) old r
            (kept.agrees bucket key)))

  logged-Lasting :
      (r : LogRecord) (io : Io)
      → io.fault ≡ none
      → IsEncodable r
      → Lasting filename later (record (log_op s r io).0 { shards = apply_record s.shards r })
  logged-Lasting r io whole fits =
      let after : Logs (log_op s r io).0 = log_op-Logs s kept.logs r io in
      record {
        logs = record { log = after.log; uses = after.uses; opened = after.opened };
        named = filename-log_op s kept.logs r io ∙ kept.named;
        records = kept.records ++ r ∷ [];
        logged = ground (
          arith,
          log_op_lem s kept.logs r io,
          whole,
          kept.logged,
          kept.named,
          encode_all-snoc kept.records r,
        );
        fits = All-append IsEncodable kept.records (r ∷ []) kept.fits (fits, tt);
        formed = apply_record-IsWellFormed s.shards r kept.formed;
        entries_fit = apply_record-StoreFits s.shards r kept.formed fits kept.entries_fit;
        agrees = λ bucket key. snoc-Kept r bucket key;
      }

  pub execute-Lasting :
      (q : Request) (io : Io) → GoesWell (q, io) → Lasting filename later (execute s q io).0
  execute-Lasting q io well = elim (execute_cases s kept.logs q io well.1) [
    | inl e ↦ rw e (logged-Lasting (logged_record q) io well.1 well.0.encodable)
    | inr e ↦ rw e kept
  ]

  -- A restart takes up what the log has kept.
  pub restart-Lasting : Lasting filename later (restart s.disk filename).0
  restart-Lasting =
      let log : IsLog filename s.disk = record {
        records = kept.records;
        logged = kept.logged;
        fits = kept.fits;
      } in
      durable-Lasting filename later (restart s.disk filename).0
        (restart_log-IsDurable filename s.disk log).0

-- After a `Put`, a restart reads what it read before with the record on top.
pub entry-restart-put :
    (filename : Bytes) (later : Int64) (s : Storage) (kept : Lasting filename later s)
    (bucket key value : Bytes) (io : Io)
    → io.fault ≡ none
    → IsEncodable (put_record bucket key value 0)
    → entry_at (restart (put s bucket key value io).0.disk filename).0.shards bucket key
      ≡ act bucket key
          (entry_at (restart s.disk filename).0.shards bucket key)
          (put_record bucket key value 0)
unfolding logged-Lasting apply_record
entry-restart-put filename later s kept bucket key value io whole fits =
    let r : LogRecord = put_record bucket key value 0 in
    ap (λ x. entry_at (restart x.0.disk filename).0.shards bucket key)
      (put_whole s kept.logs bucket key value io whole)
    ∙ entry-restart filename later (record (log_op s r io).0 { shards = apply_record s.shards r })
        (logged-Lasting filename later s kept r io whole fits) bucket key
    ∙ foldl-append (act bucket key) (entry_at new_shards bucket key) kept.records (r ∷ [])
    ∙ ap (λ x. act bucket key x r) (sym (entry-restart filename later s kept bucket key))
