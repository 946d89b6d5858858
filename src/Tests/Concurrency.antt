-- ===== src/Tests/Concurrency.antt =====
-- Requests of kv-distributed/internal/storage/storage.go that run at the same time, expiries by the
-- numbers and counters, on small inputs.
use fast_kv_a_lightweight_ke.Base.{
  ◌≡◌, refl, ap, ◌+◌, ◌-◌, ◌*◌, ◌%◌, ◌^◌, none, some, true, ok, err, key_expired, key_not_found,
  List, [], ◌∷◌, arith, length, All,
}
use fast_kv_a_lightweight_ke.Base.Bytes.{Bytes, bytes_key, text}
use fast_kv_a_lightweight_ke.Base.Dict.{lookup}
use fast_kv_a_lightweight_ke.Base.Nested.{lookup_in}
use fast_kv_a_lightweight_ke.Base.Words.{add64, positive64}
use fast_kv_a_lightweight_ke.Storage.Memory.{get_shard, new_shards, put_internal, get}
use fast_kv_a_lightweight_ke.Storage.Memory.Invariant.{
  IsWellFormed, new_shards-IsWellFormed, put_internal-IsWellFormed,
}
use fast_kv_a_lightweight_ke.Storage.Memory.View.{value_at, expiry_at}
use fast_kv_a_lightweight_ke.Storage.Memory.Reads.{get-put_plain}
use fast_kv_a_lightweight_ke.Storage.Wal.{LogRecord}
use fast_kv_a_lightweight_ke.Storage.Engine.{
  Io, Wal, Storage, content, log_op, apply_record, put, put_with_ttl, put_expiring, expiry_of,
  delete, update, new_storage, set_persistence_file, get_wal_metrics,
}
use fast_kv_a_lightweight_ke.Storage.Engine.Logging.{restart, Logs}
use fast_kv_a_lightweight_ke.Storage.Engine.Writes.{put_whole, put_whole_lem}
use fast_kv_a_lightweight_ke.Storage.Engine.Recovery.{IsDurable}
use fast_kv_a_lightweight_ke.Storage.Engine.Sessions.{
  Request, put_with_ttl_req, delete_req, logged_record, Fits, GoesWell, run, opened-IsDurable,
}
use fast_kv_a_lightweight_ke.Storage.Engine.Halves.{
  InFlight, logs_half, applies_half, Halves, no_half, and_half,
}
use fast_kv_a_lightweight_ke.Storage.Engine.Concurrent.{concurrent_recovery}
use fast_kv_a_lightweight_ke.Storage.Engine.Limits.{zero_is_no_expiry}
use fast_kv_a_lightweight_ke.Storage.Engine.UpdateRace.{update_not_atomic}
use fast_kv_a_lightweight_ke.Storage.Engine.Expiry.{ttl_window, ttl_overflow}
use fast_kv_a_lightweight_ke.Storage.Engine.Counters.{metrics-run}

abbrev wal_name : Bytes
wal_name = text "kv.wal"

abbrev users : Bytes
users = text "users"

abbrev ann : Bytes
ann = text "ann"

abbrev bob : Bytes
bob = text "bob"

abbrev whole : Io
whole = record { fault = none; latency = 10 }

no_file : content wal_name [] ≡ []
unfolding content lookup
no_file = refl

abbrev fresh : Storage
fresh = (set_persistence_file (new_storage []) wal_name true).0

fresh-IsDurable : IsDurable wal_name fresh
fresh-IsDurable = opened-IsDurable [] wal_name no_file

abbrev put_ann : Request
put_ann = put_with_ttl_req 10 users ann (text "1") 40

abbrev delete_bob : Request
delete_bob = delete_req users bob

put_ann-Fits : Fits put_ann
unfolding expiry_of add64 positive64
put_ann-Fits = record {
  encodable = record {
    bucket_fits = omega arith;
    key_fits = omega arith;
    value_fits = omega arith;
    ttl_fits = omega arith;
  };
}

delete_bob-Fits : Fits delete_bob
delete_bob-Fits = record {
  encodable = record {
    bucket_fits = omega arith;
    key_fits = omega arith;
    value_fits = omega arith;
    ttl_fits = omega arith;
  };
}

-- The two records are logged in one order and change the memory in the other.
abbrev ann_record : LogRecord
ann_record = logged_record put_ann

abbrev bob_record : LogRecord
bob_record = logged_record delete_bob

abbrev begun : InFlight
begun = record { storage = fresh; pending = [] }

abbrev one_logged : InFlight
one_logged = record { storage = (log_op fresh ann_record whole).0; pending = ann_record ∷ [] }

abbrev two_logged : InFlight
two_logged = record {
  storage = (log_op one_logged.storage bob_record whole).0;
  pending = ann_record ∷ bob_record ∷ [];
}

abbrev one_applied : InFlight
one_applied = record {
  storage = record two_logged.storage {
    shards = apply_record two_logged.storage.shards bob_record;
  };
  pending = ann_record ∷ [];
}

abbrev two_applied : Storage
two_applied = record one_applied.storage {
  shards = apply_record one_applied.storage.shards ann_record;
}

crossed : Halves begun (record { storage = two_applied; pending = [] })
unfolding set_persistence_file log_op
crossed =
    and_half begun one_applied (record { storage = two_applied; pending = [] })
      (and_half begun two_logged one_applied
        (and_half begun one_logged two_logged
          (and_half begun begun one_logged (no_half begun)
            (logs_half begun put_ann whole refl put_ann-Fits.encodable tt refl))
          (logs_half one_logged delete_bob whole refl delete_bob-Fits.encodable (refl, tt) refl))
        (applies_half two_logged (ann_record ∷ []) bob_record [] refl))
      (applies_half one_applied [] ann_record [] refl)

concurrent_recovery_example :
    get 20 (restart two_applied.disk wal_name).0.shards users ann
    ≡ get 20 two_applied.shards users ann
concurrent_recovery_example =
    concurrent_recovery wal_name fresh two_applied 20 users ann fresh-IsDurable crossed

-- A store without a log takes every write.
takes_sixty : (put_with_ttl 10 (new_storage []) users ann (text "1") 60 whole).1 ≡ none
unfolding put_with_ttl put_expiring log_op new_storage
takes_sixty = refl

takes_ages : (put_with_ttl 10 (new_storage []) users ann (text "1") (2 ^ 63 - 1) whole).1 ≡ none
unfolding put_with_ttl put_expiring log_op new_storage
takes_ages = refl

ttl_window_example :
    get 71 (put_with_ttl 10 (new_storage []) users ann (text "1") 60 whole).0.shards users ann
    ≡ err key_expired
ttl_window_example =
    ttl_window 10 (new_storage []) users ann (text "1") 60 whole takes_sixty 71 (omega arith)
      (omega arith) (omega arith)

ttl_overflow_example :
    (value_at
        (put_with_ttl 10 (new_storage []) users ann (text "1") (2 ^ 63 - 1) whole).0.shards
        users
        ann
      ≡ some (text "1"))
    × (expiry_at
          (put_with_ttl 10 (new_storage []) users ann (text "1") (2 ^ 63 - 1) whole).0.shards
          users
          ann
        ≡ expiry_at (new_storage []).shards users ann)
ttl_overflow_example =
    ttl_overflow 10 (new_storage []) users ann (text "1") (2 ^ 63 - 1) whole takes_ages
      (omega arith) (omega arith) (omega arith)

abbrev calls : List (Request × Io)
calls = (put_ann, whole) ∷ (delete_bob, whole) ∷ []

calls-GoWell : All GoesWell calls
calls-GoWell = ((put_ann-Fits, refl), ((delete_bob-Fits, refl), tt))

metrics-run_example :
    let s : Storage = run fresh calls in
    (s.compactions ≡ 0)
    × ((log : Wal) × (s.wal ≡ some log)
        × (get_wal_metrics s ≡ (
          log.op_count,
          (length (content wal_name s.disk) + 4 * log.op_count) % 2 ^ 64,
          s.wal_latency_ns,
        )))
metrics-run_example = metrics-run [] wal_name calls no_file calls-GoWell (omega arith)

-- A store with the key.
abbrev stored : Storage
stored = (put fresh users ann (text "1") whole).0

stored_shards : stored.shards ≡ put_internal new_shards users ann (text "1") 0
unfolding set_persistence_file new_storage
stored_shards =
    ap (λ x. x.0.shards) (put_whole fresh fresh-IsDurable.logs users ann (text "1") whole refl)

stored-IsWellFormed : IsWellFormed stored.shards
stored-IsWellFormed =
    rw stored_shards
      (put_internal-IsWellFormed new_shards new_shards-IsWellFormed users ann (text "1") 0)

stored-Logs : Logs stored
stored-Logs = (put_whole_lem fresh fresh-IsDurable.logs users ann (text "1") whole refl).2.0

stored_get : get 10 stored.shards users ann ≡ ok (text "1")
unfolding expiry_at get_shard lookup_in lookup
stored_get = rw stored_shards (get-put_plain 10 new_shards users ann (text "1") 0 zero_is_no_expiry)

update_not_atomic_example :
    ((delete stored users ann whole).1 ≡ none)
    × ((put (delete stored users ann whole).0 users ann (text "2") whole).1 ≡ none)
    × (get 10 (put (delete stored users ann whole).0 users ann (text "2") whole).0.shards users ann
        ≡ ok (text "2"))
    × ((update 10 (delete stored users ann whole).0 users ann (text "2") whole).1
        ≡ some key_not_found)
    × (get 10
          (delete (update 10 stored users ann (text "2") whole).0 users ann whole).0.shards
          users
          ann
        ≡ err key_not_found)
update_not_atomic_example =
    update_not_atomic 10 stored users ann (text "1") (text "2") whole stored-Logs
      stored-IsWellFormed stored_get refl
