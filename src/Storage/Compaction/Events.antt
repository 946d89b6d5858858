-- ===== src/Storage/Compaction/Events.antt =====
-- Sequences of requests, compactions and restarts.
use fast_kv_a_lightweight_ke.Base.{◌≡◌, sym, ap, ◌∙◌, false, List, [], ◌∷◌, All, arith, ok}
use fast_kv_a_lightweight_ke.Base.Bytes.{Bytes, bytes_key}
use fast_kv_a_lightweight_ke.Base.Words.{Int64}
use fast_kv_a_lightweight_ke.Storage.Memory.{get}
use fast_kv_a_lightweight_ke.Storage.Memory.View.{is_expired, answer, get-answer, expiry_at}
use fast_kv_a_lightweight_ke.Storage.Engine.{Io, Storage}
use fast_kv_a_lightweight_ke.Storage.Engine.Logging.{restart}
use fast_kv_a_lightweight_ke.Storage.Engine.Recovery.{IsDurable}
use fast_kv_a_lightweight_ke.Storage.Engine.Sessions.{Request, execute, GoesWell}
use fast_kv_a_lightweight_ke.Storage.Engine.Entries.{Entry}
use fast_kv_a_lightweight_ke.Storage.Compaction.{compact}
use fast_kv_a_lightweight_ke.Storage.Compaction.Life.{
  Lasting, durable-Lasting, entry-restart, execute-Lasting, restart-Lasting,
}
use fast_kv_a_lightweight_ke.Storage.Compaction.Rounds.{Round, RoundGoesWell, compact-Lasting}

-- What happens to a store with a log: a request with its write, a compaction from its snapshot to its
-- swap, or the end of the program and its next start.
pub data Event : Type 0 where
  asks : Request → Io → Event
  compacts : Round → Event
  restarts : Event

unfoldable pub happen : Bytes → Storage → Event → Storage
happen filename s (asks q io) = (execute s q io).0
happen filename s (compacts c) = compact c.buckets_order c.keys_order c.now c.io s
happen filename s restarts = (restart s.disk filename).0

unfoldable pub live : Bytes → Storage → List Event → Storage
live filename s [] = s
live filename s (e ∷ events) = live filename (happen filename s e) events

abbrev pub EventGoesWell : Int64 → Event → Type 0
EventGoesWell later (asks q io) = GoesWell (q, io)
EventGoesWell later (compacts c) = RoundGoesWell later c
EventGoesWell later restarts = Unit

live-Lasting :
    (filename : Bytes) (later : Int64) (s : Storage) (events : List Event)
    → All (EventGoesWell later) events
    → Lasting filename later s
    → Lasting filename later (live filename s events)
unfolding live happen
live-Lasting filename later s [] well kept = kept
live-Lasting filename later s (asks q io ∷ events) well kept =
    live-Lasting filename later (execute s q io).0 events well.1
      (execute-Lasting filename later s kept q io well.0)
live-Lasting filename later s (compacts c ∷ events) well kept =
    live-Lasting filename later _ events well.1 (compact-Lasting filename later s c well.0 kept)
live-Lasting filename later s (restarts ∷ events) well kept =
    live-Lasting filename later _ events well.1 (restart-Lasting filename later s kept)

-- A durable store goes through any requests whose arguments fit, any compactions, none of which
-- another event interleaves, and any restarts, and their writes and their calls go well. What can be
-- read of it at a time that is not before a compaction's clock can be read at that time after one
-- more restart.
pub no_reading_lost :
    (filename : Bytes) (s : Storage) (events : List Event) (later : Int64)
    (bucket key value : Bytes)
    → IsDurable filename s
    → All (EventGoesWell later) events
    → let end : Storage = live filename s events in
      get later end.shards bucket key ≡ ok value
      → get later (restart end.disk filename).0.shards bucket key ≡ ok value
no_reading_lost filename s events later bucket key value d well reads =
    let end : Storage = live filename s events in
    let kept : Lasting filename later end =
      live-Lasting filename later s events well (durable-Lasting filename later s d) in
    let unexpired : is_expired later (expiry_at end.shards bucket key) ≡ false =
      ground (arith, reads, get-answer later end.shards bucket key) in
    get-answer later (restart end.disk filename).0.shards bucket key
    ∙ ap (λ (x : Entry). answer later x.0 x.1)
        (entry-restart filename later end kept bucket key ∙ kept.agrees bucket key unexpired)
    ∙ sym (get-answer later end.shards bucket key)
    ∙ reads
