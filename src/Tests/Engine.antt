-- ===== src/Tests/Engine.antt =====
-- Sessions of kv-distributed/internal/storage/storage.go with a log, restarts and compactions.
use fast_kv_a_lightweight_ke.Base.{
  ◌≡◌, refl, none, some, true, List, [], ◌∷◌, ◌<◌, ◌^◌, arith, length, All, value?, Failure,
}
use fast_kv_a_lightweight_ke.Base.Bytes.{Bytes, bytes_key, text}
use fast_kv_a_lightweight_ke.Base.Dict.{lookup, in_order}
use fast_kv_a_lightweight_ke.Base.Words.{add64, positive64, less64}
use fast_kv_a_lightweight_ke.Storage.Memory.{Shards, put_internal, get}
use fast_kv_a_lightweight_ke.Storage.Memory.View.{value_at}
use fast_kv_a_lightweight_ke.Storage.Wal.Encode.{length-encode}
use fast_kv_a_lightweight_ke.Storage.Engine.{
  Io, Storage, content, log_op, put_record, put, expiry_of, new_storage, set_persistence_file,
}
use fast_kv_a_lightweight_ke.Storage.Engine.Logging.{restart}
use fast_kv_a_lightweight_ke.Storage.Engine.Recovery.{IsDurable}
use fast_kv_a_lightweight_ke.Storage.Engine.Sessions.{
  Request, put_with_ttl_req, delete_req, execute, logged_record, Fits, GoesWell, run,
  opened-IsDurable, run-IsDurable, restart-execute,
}
use fast_kv_a_lightweight_ke.Storage.Engine.Threshold.{recovery}
use fast_kv_a_lightweight_ke.Storage.Engine.TornWrites.{acknowledged_put_lost}
use fast_kv_a_lightweight_ke.Storage.Wal.RoundTrip.{IsEncodable}
use fast_kv_a_lightweight_ke.Storage.Engine.Interleaving.{interleaved_puts_diverge}
use fast_kv_a_lightweight_ke.Storage.Compaction.{CompactIo, snapshot, finish_compaction, compact}
use fast_kv_a_lightweight_ke.Storage.Compaction.Recovery.{
  CompactionGoesWell, NotBefore, restart_after_compact, put_during_compaction_lost,
}

abbrev wal_name : Bytes
wal_name = text "kv.wal"

abbrev users : Bytes
users = text "users"

abbrev ann : Bytes
ann = text "ann"

abbrev whole : Io
whole = record { fault = none; latency = 10 }

abbrev torn : Io
torn = record { fault = some 1; latency = 10 }

no_file : content wal_name [] ≡ []
unfolding content lookup
no_file = refl

abbrev fresh : Storage
fresh = (set_persistence_file (new_storage []) wal_name true).0

fresh-IsDurable : IsDurable wal_name fresh
fresh-IsDurable = opened-IsDurable [] wal_name no_file

abbrev put_ann : Request
put_ann = put_with_ttl_req 10 users ann (text "1") 40

put_ann-Fits : Fits put_ann
unfolding expiry_of add64 positive64
put_ann-Fits = record {
  encodable = record {
    bucket_fits = omega arith;
    key_fits = omega arith;
    value_fits = omega arith;
    ttl_fits = omega arith;
  };
}

abbrev del_ann : Request
del_ann = delete_req users ann

del_ann-Fits : Fits del_ann
del_ann-Fits = record {
  encodable = record {
    bucket_fits = omega arith;
    key_fits = omega arith;
    value_fits = omega arith;
    ttl_fits = omega arith;
  };
}

abbrev calls : List (Request × Io)
calls = (put_ann, whole) ∷ (del_ann, whole) ∷ (put_ann, whole) ∷ []

calls-GoWell : All GoesWell calls
calls-GoWell = ((put_ann-Fits, refl), ((del_ann-Fits, refl), ((put_ann-Fits, refl), tt)))

recovery_example :
    ((run fresh calls).compactions ≡ 0)
    × (get 20 (restart (run fresh calls).disk wal_name).0.shards users ann
        ≡ get 20 (run fresh calls).shards users ann)
recovery_example = recovery [] wal_name calls no_file calls-GoWell (omega arith) 20 users ann

restart-execute_example :
    (restart (execute fresh del_ann torn).0.disk wal_name).0.shards
    ≡ (execute fresh del_ann torn).0.shards
restart-execute_example =
    restart-execute wal_name fresh del_ann torn fresh-IsDurable del_ann-Fits
      (omega (arith, length-encode (logged_record del_ann)))

put-IsEncodable :
    (value : Bytes) → length value < 2 ^ 32 → IsEncodable (put_record users ann value 0)
put-IsEncodable value fits = record {
  bucket_fits = omega arith;
  key_fits = omega arith;
  value_fits = fits;
  ttl_fits = omega arith;
}

interleaved_puts_diverge_example :
    let logged1 : Storage = (log_op fresh (put_record users ann (text "1") 0) whole).0 in
    let logged2 : Storage = (log_op logged1 (put_record users ann (text "2") 0) whole).0 in
    let shards2 : Shards = put_internal logged2.shards users ann (text "2") 0 in
    let done : Storage = record logged2 { shards = put_internal shards2 users ann (text "1") 0 } in
    (value_at done.shards users ann ≡ some (text "1"))
    × (value_at (restart done.disk wal_name).0.shards users ann ≡ some (text "2"))
interleaved_puts_diverge_example =
    interleaved_puts_diverge wal_name fresh users ann (text "1") (text "2") whole fresh-IsDurable
      (put-IsEncodable (text "1") (omega arith)) (put-IsEncodable (text "2") (omega arith)) refl

acknowledged_put_lost_example :
    let s1 : Storage = (put fresh users ann (text "1") torn).0 in
    let s2 : Storage × Failure = put s1 users ann (text "2") whole in
    (s2.1 ≡ none)
    × (value_at s2.0.shards users ann ≡ some (text "2"))
    × ((restart s2.0.disk wal_name).0.shards ≡ fresh.shards)
acknowledged_put_lost_example =
    acknowledged_put_lost wal_name fresh fresh-IsDurable users ann (text "2") users ann (text "1")
      torn whole refl refl (omega arith) (omega arith)

abbrev compacts : CompactIo
compacts = record {
  tmp_opens = true;
  fault = λ bucket key. none;
  removes = true;
  renames = true;
  reopens = true;
}

compacts_well : CompactionGoesWell compacts
compacts_well = record { tmp_opened = refl; whole = λ bucket key. refl; renamed = refl }

abbrev stored : Storage
stored = run fresh calls

stored-IsDurable : IsDurable wal_name stored
stored-IsDurable = run-IsDurable wal_name fresh calls fresh-IsDurable calls-GoWell

twenty_before_thirty : NotBefore 20 30
unfolding less64
twenty_before_thirty = refl

restart_after_compact_example :
    let compacted : Storage = compact in_order in_order 20 compacts stored in
    (compacted.shards ≡ stored.shards)
    × ((restart compacted.disk wal_name).1 ≡ none)
    × (value? (get 30 (restart compacted.disk wal_name).0.shards users ann)
        ≡ value? (get 30 compacted.shards users ann))
restart_after_compact_example =
    restart_after_compact in_order in_order 20 compacts wal_name stored 30 users ann
      stored-IsDurable compacts_well twenty_before_thirty

put_during_compaction_lost_example :
    let tmp : Bytes = snapshot in_order in_order 20 compacts stored.shards in
    let written : Storage × Failure = put stored users ann (text "2") whole in
    let swapped : Storage = finish_compaction compacts tmp written.0 in
    (written.1 ≡ none)
    × (value_at swapped.shards users ann ≡ some (text "2"))
    × (value? (get 30 (restart swapped.disk wal_name).0.shards users ann)
        ≡ value? (get 30 stored.shards users ann))
put_during_compaction_lost_example =
    put_during_compaction_lost in_order in_order 20 compacts wal_name stored 30 users ann (text "2")
      whole stored-IsDurable compacts_well twenty_before_thirty refl
