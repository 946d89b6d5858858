-- ===== src/Api/ReplicationManager.antt =====
-- kv-distributed/internal/api/replication.go: the manager, which no other code uses, and what its
-- calls come to at a replica. Package json is an argument: what it makes of the data.
use fast_kv_a_lightweight_ke.Base.{
  ℕ, ◌≡◌, refl, List, [], ◌∷◌, ◌++◌, map, All, Result, ok, err, Failure, none, some,
  method_not_found,
}
use fast_kv_a_lightweight_ke.Base.Bytes.{Bytes, bytes_key, text}
use fast_kv_a_lightweight_ke.Base.Dict.{lookup}
use fast_kv_a_lightweight_ke.Base.Words.{Int64}
use fast_kv_a_lightweight_ke.Api.{Request, KvServer}
use fast_kv_a_lightweight_ke.Api.Dispatch.{Environment, dispatch}

pub record ReplicationRequest : Type 0 where
  pub operation : Bytes
  pub data_bytes : Bytes
  pub timestamp : Int64

-- One call that was started in a goroutine: the replica, the name and the argument.
pub record ReplicationCall : Type 0 where
  pub slave : ℕ
  pub service_method : Bytes
  pub request : ReplicationRequest

pub record ReplicationManager : Type 0 where
  pub slaves : List ℕ
  pub sent : List ReplicationCall

-- `AddSlave`, with what the dial comes to
unfoldable pub add_slave : Result ℕ → ReplicationManager → ReplicationManager × Failure
add_slave (err e) rm = (rm, some e)
add_slave (ok client) rm = (record rm { slaves = rm.slaves ++ client ∷ [] }, none)

abbrev pub call_at : ReplicationRequest → ℕ → ReplicationCall
call_at req slave = record {
  slave = slave;
  service_method = text "KVServer.Replicate";
  request = req;
}

unfoldable pub replicate : Int64 → Bytes → Result Bytes → ReplicationManager → ReplicationManager
replicate now operation (err e) rm = rm
replicate now operation (ok json_data) rm = record rm {
  sent =
      rm.sent
      ++ map (call_at (record { operation = operation; data_bytes = json_data; timestamp = now }))
          rm.slaves;
}

-- The call is refused by the server, which is left as it was, whatever its argument is.
abbrev pub IsRefused : Environment → Request → KvServer → ReplicationCall → Type 0
IsRefused w req s call = dispatch w call.service_method req s ≡ (s, err method_not_found)

refused :
    (w : Environment) (req : Request) (s : KvServer) (sent : ReplicationRequest) (slaves : List ℕ)
    → All (IsRefused w req s) (map (call_at sent) slaves)
unfolding dispatch lookup
refused w req s sent [] = tt
refused w req s sent (slave ∷ slaves) = (refl, refused w req s sent slaves)

-- A replication of data that package json can encode starts one call at each replica, and each of
-- them is refused there and changes nothing: the server has no method of that name.
pub replicate-IsRefused :
    (now : Int64) (operation json_data : Bytes) (rm : ReplicationManager) (w : Environment)
    (req : Request) (s : KvServer)
    → let sent : ReplicationRequest = record {
      operation = operation;
      data_bytes = json_data;
      timestamp = now;
    } in
      let calls : List ReplicationCall = map (call_at sent) rm.slaves in
      ((replicate now operation (ok json_data) rm).sent ≡ rm.sent ++ calls)
      × All (IsRefused w req s) calls
unfolding replicate
replicate-IsRefused now operation json_data rm w req s = (
  refl,
  refused w req s (record { operation = operation; data_bytes = json_data; timestamp = now })
      rm.slaves,
)
