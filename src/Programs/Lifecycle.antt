-- ===== src/Programs/Lifecycle.antt =====
-- The life of a server program: starts, requests, stops and crashes, as steps between states. The
-- program is a record of its operations and of what they do to the store.
use fast_kv_a_lightweight_ke.Base.{◌≡◌, ◌∙◌, none, arith}
use fast_kv_a_lightweight_ke.Base.Bytes.{Bytes, bytes_key}
use fast_kv_a_lightweight_ke.Storage.Engine.{Disk, Storage, content}
use fast_kv_a_lightweight_ke.Storage.Engine.Logging.{restart, restart_lem}
use fast_kv_a_lightweight_ke.Storage.Engine.Recovery.{IsDurable, restart-IsDurable}
use fast_kv_a_lightweight_ke.Storage.Engine.Restarts.{IsLog, durable-IsLog, restart_log-IsDurable}

-- A program over a log of that name: how it starts from the files of a machine, what a stop leaves of
-- them, and its requests.
pub record Program (data_file : Bytes) : Type 1 where
  pub Server : Type 0
  pub storage : Server → Storage
  pub start : Disk → Server
  pub stop : Server → Disk
  pub Request : Type 0
  pub GoesWell : Request → Type 0
  pub serve : Request → Server → Server
  pub storage-start : (disk : Disk) → storage (start disk) ≡ (restart disk data_file).0
  pub content-stop : (s : Server) → content data_file (stop s) ≡ content data_file (storage s).disk
  pub serve-IsDurable :
      (q : Request) (s : Server)
      → GoesWell q
      → IsDurable data_file (storage s)
      → IsDurable data_file (storage (serve q s))

module _ {data_file : Bytes} (p : Program data_file) where
  -- Not running, with the files on the machine, or running.
  pub data State : Type 0 where
    down : Disk → State
    up : p.Server → State

  -- A start, a request that goes well and starts no compaction of the log, a stop by a signal, and a
  -- crash between two requests.
  pub data Step : State → State → Type 0 where
    starts : (disk : Disk) → Step (down disk) (up (p.start disk))
    serves :
        (q : p.Request) (s : p.Server)
        → p.GoesWell q
        → (p.storage (p.serve q s)).compactions ≡ (p.storage s).compactions
        → Step (up s) (up (p.serve q s))
    stops : (s : p.Server) → Step (up s) (down (p.stop s))
    crashes : (s : p.Server) → Step (up s) (down (p.storage s).disk)

  pub data Reaches : State → State → Type 0 where
    stays : (st : State) → Reaches st st
    then_step : (st mid end : State) → Reaches st mid → Step mid end → Reaches st end

  -- Running, the log rebuilds the memory; not running, the file holds whole records.
  abbrev Holds : State → Type 0
  Holds (down disk) = IsLog data_file disk
  Holds (up s) = IsDurable data_file (p.storage s)

  Step-Holds : (st end : State) → Step st end → Holds st → Holds end
  Step-Holds _ _ (starts disk) holds =
      rw (p.storage-start disk) (restart_log-IsDurable data_file disk holds).0
  Step-Holds _ _ (serves q s well quiet) holds = p.serve-IsDurable q s well holds
  Step-Holds _ _ (stops s) holds =
      let log : IsLog data_file (p.storage s).disk = durable-IsLog data_file (p.storage s) holds in
      record { records = log.records; logged = p.content-stop s ∙ log.logged; fits = log.fits }
  Step-Holds _ _ (crashes s) holds = durable-IsLog data_file (p.storage s) holds

  Reaches-Holds : (st end : State) → Reaches st end → Holds st → Holds end
  Reaches-Holds st _ (stays _) holds = holds
  Reaches-Holds st end (then_step _ mid _ before step) holds =
      Step-Holds mid end step (Reaches-Holds st mid before holds)

  -- After one more stop, or crash, and a start, the program has the memory that it had.
  pub restarted :
      (disk : Disk) (s : p.Server)
      → IsLog data_file disk
      → Reaches (down disk) (up s)
      → ((p.storage (p.start (p.stop s))).shards ≡ (p.storage s).shards)
        × ((p.storage (p.start (p.storage s).disk)).shards ≡ (p.storage s).shards)
  restarted disk s log reached =
      let d : IsDurable data_file (p.storage s) = Reaches-Holds (down disk) (up s) reached log in
      ground (
        arith,
        p.storage-start (p.stop s),
        p.storage-start (p.storage s).disk,
        restart_lem (p.stop s) data_file,
        restart_lem (p.storage s).disk data_file,
        p.content-stop s,
        restart-IsDurable data_file (p.storage s) d,
      )

  -- The start itself reads the log without an error.
  pub no_failure :
      (disk : Disk) (s : p.Server)
      → IsLog data_file disk
      → Reaches (down disk) (up s)
      → ((restart (p.stop s) data_file).1 ≡ none)
        × ((restart (p.storage s).disk data_file).1 ≡ none)
  no_failure disk s log reached =
      let d : IsDurable data_file (p.storage s) = Reaches-Holds (down disk) (up s) reached log in
      ground (
        arith,
        restart_lem (p.stop s) data_file,
        restart_lem (p.storage s).disk data_file,
        p.content-stop s,
        restart-IsDurable data_file (p.storage s) d,
      )
