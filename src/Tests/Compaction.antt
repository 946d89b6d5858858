-- ===== src/Tests/Compaction.antt =====
-- Compactions of kv-distributed/internal/storage/wal.go between requests and restarts.
use fast_kv_a_lightweight_ke.Base.{
  ◌≡◌, refl, ap, ◌∙◌, none, true, List, [], ◌∷◌, arith, ok, err, key_expired, Failure,
}
use fast_kv_a_lightweight_ke.Base.Bytes.{Bytes, bytes_key, text}
use fast_kv_a_lightweight_ke.Base.Dict.{lookup, in_order}
use fast_kv_a_lightweight_ke.Base.Words.{add64, positive64, less64}
use fast_kv_a_lightweight_ke.Storage.Memory.{get}
use fast_kv_a_lightweight_ke.Storage.Wal.RoundTrip.{IsEncodable}
use fast_kv_a_lightweight_ke.Storage.Engine.{
  Io, Storage, content, expiry_of, put_record, put, put_with_ttl, new_storage, set_persistence_file,
}
use fast_kv_a_lightweight_ke.Storage.Engine.Logging.{restart}
use fast_kv_a_lightweight_ke.Storage.Engine.Recovery.{IsDurable}
use fast_kv_a_lightweight_ke.Storage.Engine.Writes.{put_expiring_logged}
use fast_kv_a_lightweight_ke.Storage.Engine.Sessions.{
  Request, put_with_ttl_req, execute, Fits, opened-IsDurable, execute-IsDurable,
}
use fast_kv_a_lightweight_ke.Storage.Engine.Expiry.{ttl_window}
use fast_kv_a_lightweight_ke.Storage.Compaction.{CompactIo, compact}
use fast_kv_a_lightweight_ke.Storage.Compaction.Recovery.{CompactionGoesWell}
use fast_kv_a_lightweight_ke.Storage.Compaction.Rounds.{Round, RoundGoesWell, compact-shards}
use fast_kv_a_lightweight_ke.Storage.Compaction.Events.{
  Event, asks, compacts, restarts, happen, live, no_reading_lost,
}
use fast_kv_a_lightweight_ke.Storage.Compaction.Revival.{compaction_revives}

abbrev wal_name : Bytes
wal_name = text "kv.wal"

abbrev users : Bytes
users = text "users"

abbrev ann : Bytes
ann = text "ann"

abbrev whole : Io
whole = record { fault = none; latency = 10 }

no_file : content wal_name [] ≡ []
unfolding content lookup
no_file = refl

abbrev fresh : Storage
fresh = (set_persistence_file (new_storage []) wal_name true).0

fresh-IsDurable : IsDurable wal_name fresh
fresh-IsDurable = opened-IsDurable [] wal_name no_file

-- A key that can be read until 50.
abbrev put_ann : Request
put_ann = put_with_ttl_req 10 users ann (text "1") 40

put_ann-Fits : Fits put_ann
unfolding expiry_of add64 positive64
put_ann-Fits = record {
  encodable = record {
    bucket_fits = omega arith;
    key_fits = omega arith;
    value_fits = omega arith;
    ttl_fits = omega arith;
  };
}

abbrev stored : Storage
stored = (put_with_ttl 10 fresh users ann (text "1") 40 whole).0

takes_write : (put_with_ttl 10 fresh users ann (text "1") 40 whole).1 ≡ none
unfolding put_with_ttl
takes_write =
    ap (λ x. x.1)
      (put_expiring_logged fresh fresh-IsDurable.logs users ann whole refl (text "1")
        (expiry_of 10 40))

stored-IsDurable : IsDurable wal_name stored
unfolding execute
stored-IsDurable = execute-IsDurable wal_name fresh put_ann whole fresh-IsDurable put_ann-Fits refl

abbrev all_well : CompactIo
all_well = record {
  tmp_opens = true;
  fault = λ bucket key. none;
  removes = true;
  renames = true;
  reopens = true;
}

all_well_lem : CompactionGoesWell all_well
all_well_lem = record { tmp_opened = refl; whole = λ bucket key. refl; renamed = refl }

abbrev at_twenty : Round
at_twenty = record { buckets_order = in_order; keys_order = in_order; now = 20; io = all_well }

abbrev at_sixty : Round
at_sixty = record { buckets_order = in_order; keys_order = in_order; now = 60; io = all_well }

at_twenty-GoesWell : RoundGoesWell 30 at_twenty
unfolding less64
at_twenty-GoesWell = record { well = all_well_lem; reopens = refl; in_time = refl }

at_sixty-GoesWell : RoundGoesWell 70 at_sixty
unfolding less64
at_sixty-GoesWell = record { well = all_well_lem; reopens = refl; in_time = refl }

-- A put, a compaction and a restart.
abbrev first_events : List Event
first_events = asks put_ann whole ∷ compacts at_twenty ∷ []

abbrev events : List Event
events = asks put_ann whole ∷ compacts at_twenty ∷ restarts ∷ []

first_reads : get 30 (live wal_name fresh first_events).shards users ann ≡ ok (text "1")
unfolding live happen execute
first_reads =
    ap (λ x. get 30 x users ann) (compact-shards at_twenty stored)
    ∙ ttl_window 10 fresh users ann (text "1") 40 whole takes_write 30 (omega arith) (omega arith)
        (omega arith)

reads : get 30 (live wal_name fresh events).shards users ann ≡ ok (text "1")
unfolding live happen
reads =
    no_reading_lost wal_name fresh first_events 30 users ann (text "1") fresh-IsDurable
      ((put_ann-Fits, refl), (at_twenty-GoesWell, tt)) first_reads

no_reading_lost_example :
    get 30 (restart (live wal_name fresh events).disk wal_name).0.shards users ann ≡ ok (text "1")
no_reading_lost_example =
    no_reading_lost wal_name fresh events 30 users ann (text "1") fresh-IsDurable
      ((put_ann-Fits, refl), (at_twenty-GoesWell, (tt, tt))) reads

expired : get 60 stored.shards users ann ≡ err key_expired
expired =
    ttl_window 10 fresh users ann (text "1") 40 whole takes_write 60 (omega arith) (omega arith)
      (omega arith)

two-IsEncodable : IsEncodable (put_record users ann (text "2") 0)
two-IsEncodable = record {
  bucket_fits = omega arith;
  key_fits = omega arith;
  value_fits = omega arith;
  ttl_fits = omega arith;
}

compaction_revives_example :
    let compacted : Storage = compact in_order in_order 60 all_well stored in
    let done : Storage × Failure = put compacted users ann (text "2") whole in
    (done.1 ≡ none)
    × (get 70 done.0.shards users ann ≡ err key_expired)
    × (get 70 (restart done.0.disk wal_name).0.shards users ann ≡ ok (text "2"))
compaction_revives_example =
    compaction_revives wal_name stored at_sixty 70 users ann (text "2") whole stored-IsDurable
      at_sixty-GoesWell expired refl two-IsEncodable
