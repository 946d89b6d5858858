-- ===== src/Storage/Engine/Restarts.antt =====
-- Start after start: a log of whole records is read into a store that goes on with it.
use fast_kv_a_lightweight_ke.Base.{
  ◌+◌, ◌≡◌, refl, ◌∙◌, true, false, none, some, List, [], foldl, length, All,
}
use fast_kv_a_lightweight_ke.Base.Bytes.{Bytes, bytes_key}
use fast_kv_a_lightweight_ke.Storage.Memory.{new_shards}
use fast_kv_a_lightweight_ke.Storage.Wal.{LogRecord}
use fast_kv_a_lightweight_ke.Storage.Wal.RoundTrip.{IsEncodable, encode_all, replay-encode_all}
use fast_kv_a_lightweight_ke.Storage.Engine.{
  Disk, Storage, content, apply_record, new_storage, set_persistence_file, load_from_file,
}
use fast_kv_a_lightweight_ke.Storage.Engine.Logging.{restart, content-insert_self}
use fast_kv_a_lightweight_ke.Storage.Engine.Recovery.{IsDurable}

-- The file of that name, if there is one, holds whole records whose fields fit.
pub record IsLog (filename : Bytes) (disk : Disk) : Type 0 where
  pub records : List LogRecord
  pub logged : content filename disk ≡ encode_all records
  pub fits : All IsEncodable records

-- A durable store has left such a file.
pub durable-IsLog : (filename : Bytes) (s : Storage) → IsDurable filename s → IsLog filename s.disk
durable-IsLog filename s d = record { records = d.records; logged = d.logged; fits = d.fits }

pub blank-IsLog :
    (filename : Bytes) (disk : Disk) → content filename disk ≡ [] → IsLog filename disk
unfolding encode_all
blank-IsLog filename disk blank = record { records = []; logged = blank; fits = tt }

module _ (filename : Bytes) (disk : Disk) (log : IsLog filename disk) where
  -- The store that a start over the log comes to.
  abbrev loaded : Storage
  loaded = record (set_persistence_file (new_storage disk) filename true).0 {
    shards = foldl apply_record new_shards log.records;
    wal = some (record {
      filename = filename;
      is_open = true;
      op_count = 0 + length log.records;
      compacting = false;
    });
  }

  restart_log : restart disk filename ≡ (loaded, none)
  unfolding restart load_from_file set_persistence_file new_storage
  restart_log =
      rw
        (
          content-insert_self filename (content filename disk) disk,
          log.logged,
          replay-encode_all apply_record log.records new_shards 0 log.fits,
        )
        refl

  pub restart_log-IsDurable :
      IsDurable filename (restart disk filename).0 × ((restart disk filename).1 ≡ none)
  unfolding set_persistence_file new_storage
  restart_log-IsDurable = rw restart_log (
    record {
      logs = record { log = _; uses = refl; opened = refl };
      named = refl;
      records = log.records;
      logged = content-insert_self filename (content filename disk) disk ∙ log.logged;
      fits = log.fits;
      rebuilt = refl;
    },
    refl,
  )
