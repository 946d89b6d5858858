-- ===== src/Storage/Engine/Threshold.antt =====
-- Before the log has as many operations as `Append` starts a compaction at, against a restart.
use fast_kv_a_lightweight_ke.Base.{
  ◌+◌, ◌<◌, ◌≤◌, ◌≡◌, refl, ap, true, none, some, List, [], ◌∷◌, length, All, ℕ, arith, inl, inr,
}
use fast_kv_a_lightweight_ke.Base.Bytes.{Bytes}
use fast_kv_a_lightweight_ke.Base.Words.{Int64}
use fast_kv_a_lightweight_ke.Storage.Memory.{Shards, get}
use fast_kv_a_lightweight_ke.Storage.Wal.{LogRecord}
use fast_kv_a_lightweight_ke.Storage.Engine.{
  compaction_threshold, Disk, content, Wal, Io, Storage, append, log_op, new_storage,
  set_persistence_file,
}
use fast_kv_a_lightweight_ke.Storage.Engine.Logging.{Logs, restart}
use fast_kv_a_lightweight_ke.Storage.Engine.Recovery.{IsDurable, restart-IsDurable}
use fast_kv_a_lightweight_ke.Storage.Engine.Sessions.{
  opened-IsDurable, run-IsDurable, Request, logged_record, execute, execute_cases,
  execute-IsDurable, run, GoesWell,
}

-- The log has so many operations at most, and no compaction has been started.
pub record Uncompacted (most : ℕ) (s : Storage) : Type 0 where
  pub few : (log : Wal) → s.wal ≡ some log → log.op_count ≤ most
  pub none_started : s.compactions ≡ 0

module _ (most : ℕ) (s : Storage) (logs : Logs s) (few : most + 1 < compaction_threshold)
    (before : Uncompacted most s) (io : Io) (whole : io.fault ≡ none) where
  log_op-Uncompacted :
      (r : LogRecord) (shards : Shards)
      → Uncompacted (most + 1) (record (log_op s r io).0 { shards = shards })
  unfolding log_op append
  log_op-Uncompacted r shards =
      let counted : logs.log.op_count ≤ most = before.few logs.log logs.uses in
      record {
        few = λ log uses. ground (arith, whole, logs.uses, logs.opened, counted, uses);
        none_started =
            ground (arith, whole, logs.uses, logs.opened, counted, few, before.none_started);
      }

  execute-Uncompacted : (q : Request) → Uncompacted (most + 1) (execute s q io).0
  execute-Uncompacted q = elim (execute_cases s logs q io whole) [
    | inl e ↦ rw e (log_op-Uncompacted (logged_record q) _)
    | inr e ↦ rw e (record {
      few = λ log uses. omega (arith, before.few log uses);
      none_started = before.none_started;
    })
  ]

-- Requests whose arguments fit and whose writes go well start no compaction as long as the log keeps
-- below the threshold.
pub run-Uncompacted :
    (filename : Bytes) (most : ℕ) (s : Storage) (calls : List (Request × Io))
    → IsDurable filename s
    → All GoesWell calls
    → most + length calls < compaction_threshold
    → Uncompacted most s
    → Uncompacted (most + length calls) (run s calls)
unfolding run
run-Uncompacted filename most s [] d well few before = record {
  few = λ log uses. omega (arith, before.few log uses);
  none_started = before.none_started;
}
run-Uncompacted filename most s ((q, io) ∷ calls) d well few before =
    let after : Uncompacted (most + 1) (execute s q io).0 =
      execute-Uncompacted most s d.logs (omega arith) before io well.0.1 q in
    let later : Uncompacted ((most + 1) + length calls) (run (execute s q io).0 calls) =
      run-Uncompacted filename (most + 1) (execute s q io).0 calls
        (execute-IsDurable filename s q io d well.0.0 well.0.1) well.1 (omega arith) after in
    record {
      few = λ log uses. omega (arith, later.few log uses);
      none_started = later.none_started;
    }

-- A store that has just opened its log.
pub opened-Uncompacted :
    (disk : Disk) (filename : Bytes)
    → Uncompacted 0 (set_persistence_file (new_storage disk) filename true).0
unfolding set_persistence_file new_storage
opened-Uncompacted disk filename = record {
  few = λ log uses. ground (arith, uses);
  none_started = refl;
}

-- From a new store with an empty or missing log, after fewer than 100,000 requests whose arguments fit
-- and whose writes go well, no compaction has been started, and a restart has every key as it was:
-- reads at any time answer the same.
pub recovery :
    (disk : Disk) (filename : Bytes) (calls : List (Request × Io))
    → content filename disk ≡ []
    → All GoesWell calls
    → length calls < compaction_threshold
    → (now : Int64) (bucket key : Bytes)
    → let s : Storage = run (set_persistence_file (new_storage disk) filename true).0 calls in
      (s.compactions ≡ 0)
      × (get now (restart s.disk filename).0.shards bucket key ≡ get now s.shards bucket key)
recovery disk filename calls blank well few now bucket key =
    let s0 : Storage = (set_persistence_file (new_storage disk) filename true).0 in
    let d : IsDurable filename s0 = opened-IsDurable disk filename blank in
    let under : Uncompacted (0 + length calls) (run s0 calls) =
      run-Uncompacted filename 0 s0 calls d well (omega arith) (opened-Uncompacted disk filename) in
    (
      under.none_started,
      ap (λ shards. get now shards bucket key)
          (restart-IsDurable filename (run s0 calls) (run-IsDurable filename s0 calls d well)).0,
    )
