-- ===== src/Programs/Serves.antt =====
-- The calls of the demonstration over a connection to a server whose store works.
use fast_kv_a_lightweight_ke.Base.{
  ◌≡◌, refl, ◌&&◌, if◌then◌else◌, true, false, Option, none, some, arith,
}
use fast_kv_a_lightweight_ke.Base.Bytes.{Bytes, bytes_key, text}
use fast_kv_a_lightweight_ke.Base.Dict.{lookup}
use fast_kv_a_lightweight_ke.Base.Words.{Int64, positive64}
use fast_kv_a_lightweight_ke.Storage.Memory.{put_internal}
use fast_kv_a_lightweight_ke.Storage.Memory.Invariant.{IsWellFormed, put_internal-IsWellFormed}
use fast_kv_a_lightweight_ke.Storage.Memory.View.{
  value_at, expiry_at, same_entry, value_at-put, expiry_at-put,
}
use fast_kv_a_lightweight_ke.Storage.Engine.{expiry_of}
use fast_kv_a_lightweight_ke.Api
use fast_kv_a_lightweight_ke.Api.{Request, Response, KvServer, put_method}
use fast_kv_a_lightweight_ke.Api.Effects.{IsReady, IsReady-put, handle, handle_lem, shards_of}
use fast_kv_a_lightweight_ke.Api.Dispatch.{Environment, dispatch, dispatch_method}
use fast_kv_a_lightweight_ke.Client
use fast_kv_a_lightweight_ke.Client.{Link, Rpc, empty_request}
use fast_kv_a_lightweight_ke.Programs.ClientMain.{users, user1}

-- A connection to a server whose store works, and what it holds for the user: no expiry, and `v`.
pub record Serves (v : Option Bytes) (l : Link) : Type 0 where
  pub opened : l.is_open ≡ true
  pub ready : IsReady l.server.service.storage
  pub formed : IsWellFormed (shards_of l.server)
  pub lasting : expiry_at (shards_of l.server) users user1 ≡ none
  pub stored : value_at (shards_of l.server) users user1 ≡ v

-- A connection whose server has the same store serves the same.
pub Serves-same :
    (v : Option Bytes) (l l' : Link)
    → Serves v l
    → l'.is_open ≡ true
    → l'.server.service.storage ≡ l.server.service.storage
    → Serves v l'
Serves-same v l l' serves opened same = record {
  opened = opened;
  ready = rw same serves.ready;
  formed = rw same serves.formed;
  lasting = rw same serves.lasting;
  stored = rw same serves.stored;
}

module _ (rpc : Rpc) (w : Environment) (bucket key value : Bytes) (ttl : Int64) where
  abbrev put_request : Request
  put_request = record empty_request {
    bucket = bucket;
    key = key;
    value = value;
    ttl_seconds = ttl;
  }

  client_put_lem :
      (l : Link)
      → l.is_open ≡ true
      → Client.put rpc w bucket key value ttl l
        ≡ (record { server = (Api.put w.now w.io put_request l.server).0; is_open = true }, none)
  unfolding Client.put dispatch dispatch_method lookup Api.put
  client_put_lem l opened = rw (rpc.call-open w (text "KVServer.Put") put_request l opened) refl

  shards-client_put :
      (l : Link) (v : Option Bytes)
      → Serves v l
      → w.io.fault ≡ none
      → shards_of (Api.put w.now w.io put_request l.server).0
        ≡ put_internal (shards_of l.server) bucket key value (expiry_of w.now ttl)
  unfolding handle
  shards-client_put l v serves whole =
      (handle_lem w.now w.io put_request l.server serves.ready whole put_method).0

  -- A put of another entry, or one without an expiry, of the user's: the value that is then there.
  pub Serves-put :
      (l : Link) (v : Option Bytes)
      → Serves v l
      → w.io.fault ≡ none
      → (positive64 (expiry_of w.now ttl) && same_entry bucket key users user1) ≡ false
      → ((Client.put rpc w bucket key value ttl l).1 ≡ none)
        × Serves
            (if same_entry bucket key users user1 then some value else v)
            (Client.put rpc w bucket key value ttl l).0
  Serves-put l v serves whole kept =
      let moved = shards-client_put l v serves whole in
      rw (client_put_lem l serves.opened) (
        refl,
        record {
          opened = refl;
          ready = IsReady-put w.now w.io put_request l.server serves.ready whole;
          formed = rw moved (
              put_internal-IsWellFormed (shards_of l.server) serves.formed bucket key value
                (expiry_of w.now ttl));
          lasting = ground (
            arith,
            moved,
            kept,
            serves.lasting,
            expiry_at-put (shards_of l.server) bucket key users user1 value (expiry_of w.now ttl),
          );
          stored = ground (
            arith,
            moved,
            serves.stored,
            value_at-put (shards_of l.server) bucket key users user1 value (expiry_of w.now ttl),
          );
        },
      )
