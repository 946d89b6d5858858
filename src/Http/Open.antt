-- ===== src/Http/Open.antt =====
-- The two routes of kv-distributed/cmd/http-server/main.go that ask for no key. Package runtime's
-- numbers are an argument; the program divides two of them, and this model does not.
use fast_kv_a_lightweight_ke.Storage.Engine.{get_wal_metrics}
use fast_kv_a_lightweight_ke.Http.{MemStats, health, metrics, answered, Handler, cors}

pub data OpenRoute : Type 0 where
  health_route metrics_route : OpenRoute

unfoldable pub open_handler : MemStats → OpenRoute → Handler
open_handler mem health_route r s = (s, answered health)
open_handler mem metrics_route r s =
    let (wal_writes, wal_bytes, wal_lat_ns) = get_wal_metrics s.service.storage in
    (
      s,
      answered (
          metrics (record {
            mem = mem;
            total_ops = s.ops_counter;
            active_lanes = 256;
            wal_writes = wal_writes;
            wal_bytes = wal_bytes;
            wal_lat_ns = wal_lat_ns;
          })),
    )

unfoldable pub serve_open : MemStats → OpenRoute → Handler
unfolding open_handler
serve_open mem route = cors (open_handler mem route)
