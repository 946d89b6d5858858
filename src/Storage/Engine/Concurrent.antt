-- ===== src/Storage/Engine/Concurrent.antt =====
-- Requests that run at the same time, against a restart: what the log keeps of them.
use fast_kv_a_lightweight_ke.Base.{
  ◌≡◌, sym, ap, subst, ◌∙◌, none, List, [], ◌∷◌, ◌++◌, foldl, All, All-append, arith,
}
use fast_kv_a_lightweight_ke.Base.Bytes.{Bytes}
use fast_kv_a_lightweight_ke.Base.Words.{Int64}
use fast_kv_a_lightweight_ke.Storage.Memory.{new_shards, get}
use fast_kv_a_lightweight_ke.Storage.Memory.Invariant.{IsWellFormed, new_shards-IsWellFormed}
use fast_kv_a_lightweight_ke.Storage.Memory.View.{answer, get-answer}
use fast_kv_a_lightweight_ke.Storage.Wal.{LogRecord}
use fast_kv_a_lightweight_ke.Storage.Wal.RoundTrip.{
  IsEncodable, encode_all, encode_all-snoc, replay-encode_all,
}
use fast_kv_a_lightweight_ke.Storage.Engine.{Io, Storage, content, log_op, apply_record}
use fast_kv_a_lightweight_ke.Storage.Engine.Logging.{
  Logs, restart, restart_lem, shards-log_op, log_op_lem, log_op-Logs, filename-log_op,
}
use fast_kv_a_lightweight_ke.Storage.Engine.Recovery.{IsDurable}
use fast_kv_a_lightweight_ke.Storage.Engine.Sessions.{logged_record}
use fast_kv_a_lightweight_ke.Storage.Engine.Entries.{
  Entry, entry_at, act, Apart, apply_record-IsWellFormed, entry-foldl, act_first,
  entry-apply_record, foldl-IsWellFormed,
}
use fast_kv_a_lightweight_ke.Storage.Engine.Halves.{
  InFlight, logs_half, applies_half, Halves, no_half, and_half,
}
use mathlib.Core.List.{foldl-append}

-- No two records are about the same entry.
abbrev pub Exclusive : List LogRecord → Type 0
Exclusive [] = Unit
Exclusive (p ∷ pending) = All (Apart p) pending × Exclusive pending

Exclusive-snoc :
    (pending : List LogRecord) (r : LogRecord)
    → Exclusive pending
    → All (λ p. Apart p r) pending
    → Exclusive (pending ++ r ∷ [])
Exclusive-snoc [] r exclusive apart = (tt, tt)
Exclusive-snoc (p ∷ pending) r exclusive apart = (
  All-append (Apart p) pending (r ∷ []) exclusive.0 (apart.0, tt),
  Exclusive-snoc pending r exclusive.1 apart.1,
)

All-split {ℓ κ} :
    {A : Type ℓ} (P : A → Type κ) (before : List A) (a : A) (after : List A)
    → All P (before ++ a ∷ after)
    → P a × All P (before ++ after)
All-split P [] a after all = all
All-split P (b ∷ before) a after all =
    let rest = All-split P before a after all.1 in (rest.0, (all.0, rest.1))

Exclusive-split :
    (before : List LogRecord) (r : LogRecord) (after : List LogRecord)
    → Exclusive (before ++ r ∷ after)
    → All (λ q. Apart q r) before × Exclusive (before ++ after)
Exclusive-split [] r after exclusive = (tt, exclusive.1)
Exclusive-split (p ∷ before) r after exclusive =
    let first = All-split (Apart p) before r after exclusive.0 in
    let rest = Exclusive-split before r after exclusive.1 in ((first.0, rest.0), (first.1, rest.1))

-- The log has what the memory and the records in flight come to, entry by entry.
pub record Tracks (filename : Bytes) (f : InFlight) : Type 0 where
  pub logs : Logs f.storage
  pub named : logs.log.filename ≡ filename
  pub records : List LogRecord
  pub logged : content filename f.storage.disk ≡ encode_all records
  pub fits : All IsEncodable records
  pub formed : IsWellFormed f.storage.shards
  pub exclusive : Exclusive f.pending
  pub agrees :
      (bucket key : Bytes)
      → foldl (act bucket key) (entry_at new_shards bucket key) records
        ≡ foldl (act bucket key) (entry_at f.storage.shards bucket key) f.pending

module _ (filename : Bytes) (f : InFlight) (tracks : Tracks filename f) where
  logs-Tracks :
      (r : LogRecord) (io : Io)
      → io.fault ≡ none
      → IsEncodable r
      → All (λ p. Apart p r) f.pending
      → Tracks filename
          (record { storage = (log_op f.storage r io).0; pending = f.pending ++ r ∷ [] })
  logs-Tracks r io whole fits apart = record {
    logs = log_op-Logs f.storage tracks.logs r io;
    named = filename-log_op f.storage tracks.logs r io ∙ tracks.named;
    records = tracks.records ++ r ∷ [];
    logged = ground (
      arith,
      log_op_lem f.storage tracks.logs r io,
      whole,
      tracks.logged,
      tracks.named,
      encode_all-snoc tracks.records r,
    );
    fits = All-append IsEncodable tracks.records (r ∷ []) tracks.fits (fits, tt);
    formed = rw (shards-log_op f.storage r io) tracks.formed;
    exclusive = Exclusive-snoc f.pending r tracks.exclusive apart;
    agrees = λ bucket key.
        foldl-append (act bucket key) (entry_at new_shards bucket key) tracks.records (r ∷ [])
        ∙ ap (λ x. act bucket key x r) (tracks.agrees bucket key)
        ∙ sym (
            foldl-append (act bucket key) (entry_at f.storage.shards bucket key) f.pending (r ∷ []))
        ∙ ap (λ shards. foldl (act bucket key) (entry_at shards bucket key) (f.pending ++ r ∷ []))
            (sym (shards-log_op f.storage r io));
  }

  applies-Tracks :
      (before : List LogRecord) (r : LogRecord) (after : List LogRecord)
      → f.pending ≡ before ++ r ∷ after
      → Tracks filename (record {
        storage = record f.storage { shards = apply_record f.storage.shards r };
        pending = before ++ after;
      })
  applies-Tracks before r after split =
      let (apart, rest) = Exclusive-split before r after (rw split at tracks.exclusive) in
      record {
        logs = record {
          log = tracks.logs.log;
          uses = tracks.logs.uses;
          opened = tracks.logs.opened;
        };
        named = tracks.named;
        records = tracks.records;
        logged = tracks.logged;
        fits = tracks.fits;
        formed = apply_record-IsWellFormed f.storage.shards r tracks.formed;
        exclusive = rest;
        agrees = λ bucket key.
            tracks.agrees bucket key
            ∙ ap (foldl (act bucket key) (entry_at f.storage.shards bucket key)) split
            ∙ act_first bucket key (entry_at f.storage.shards bucket key) before r after apart
            ∙ ap (λ x. foldl (act bucket key) x (before ++ after))
                (sym (entry-apply_record bucket key f.storage.shards r tracks.formed));
      }

Halves-Tracks :
    (filename : Bytes) (f g : InFlight) → Halves f g → Tracks filename f → Tracks filename g
Halves-Tracks filename f _ (no_half _) tracks = tracks
Halves-Tracks filename f _ (and_half _ mid _ earlier (logs_half _ q io whole fits apart quiet))
      tracks =
    logs-Tracks filename mid (Halves-Tracks filename f mid earlier tracks) (logged_record q) io
      whole fits apart
Halves-Tracks filename f _ (and_half _ mid _ earlier (applies_half _ before r after split)) tracks =
    applies-Tracks filename mid (Halves-Tracks filename f mid earlier tracks) before r after split

-- A durable store with nothing in flight.
durable-Tracks :
    (filename : Bytes) (s : Storage)
    → IsDurable filename s
    → Tracks filename (record { storage = s; pending = [] })
durable-Tracks filename s d = record {
  logs = d.logs;
  named = d.named;
  records = d.records;
  logged = d.logged;
  fits = d.fits;
  formed =
      subst IsWellFormed d.rebuilt
        (foldl-IsWellFormed new_shards d.records new_shards-IsWellFormed);
  exclusive = tt;
  agrees = λ bucket key.
      sym (entry-foldl bucket key new_shards d.records new_shards-IsWellFormed)
      ∙ ap (λ shards. entry_at shards bucket key) d.rebuilt;
}

-- What a restart reads from the log.
restarted :
    (filename : Bytes) (f : InFlight) (tracks : Tracks filename f)
    → (restart f.storage.disk filename).0.shards ≡ foldl apply_record new_shards tracks.records
restarted filename f tracks = ground (
  arith,
  restart_lem f.storage.disk filename,
  tracks.logged,
  replay-encode_all apply_record tracks.records new_shards 0 tracks.fits,
)

-- From a durable store, requests run at the same time and their halves interleave in any order, but
-- no two of them are in flight for the same entry. Their arguments fit, their writes go well, and none
-- of them starts a compaction of the log. Once none is in flight, a restart answers every read, at any
-- time, as the store does.
pub concurrent_recovery :
    (filename : Bytes) (s : Storage) (end : Storage) (now : Int64) (bucket key : Bytes)
    → IsDurable filename s
    → Halves (record { storage = s; pending = [] }) (record { storage = end; pending = [] })
    → get now (restart end.disk filename).0.shards bucket key ≡ get now end.shards bucket key
concurrent_recovery filename s end now bucket key d ran =
    let tracks = Halves-Tracks filename _ _ ran (durable-Tracks filename s d) in
    let same : entry_at (restart end.disk filename).0.shards bucket key
        ≡ entry_at end.shards bucket key =
      ap (λ shards. entry_at shards bucket key) (restarted filename _ tracks)
      ∙ entry-foldl bucket key new_shards tracks.records new_shards-IsWellFormed
      ∙ tracks.agrees bucket key in
    get-answer now (restart end.disk filename).0.shards bucket key
    ∙ ap (λ (x : Entry). answer now x.0 x.1) same
    ∙ sym (get-answer now end.shards bucket key)
