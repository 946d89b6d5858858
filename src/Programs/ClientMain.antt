-- ===== src/Programs/ClientMain.antt =====
-- kv-distributed/cmd/client/main.go: the demonstration of the client. The lines that it prints stand
-- here without their check marks, and those with a value as their message and the value.
use fast_kv_a_lightweight_ke.Base.{ℕ, Option, none, some, List, [], Result, ok, err}
use fast_kv_a_lightweight_ke.Base.Bytes.{Bytes, text}
use fast_kv_a_lightweight_ke.Api.Dispatch.{Environment}
use fast_kv_a_lightweight_ke.Client
use fast_kv_a_lightweight_ke.Client.{Link, Rpc, new_kv_client, close}
use fast_kv_a_lightweight_ke.Programs.Script.{
  Output, line, value_line, keys_line, entries_line, Outcome, completed, fatal, Script, ◌>>=◌, ◌>>◌,
  print, receive, expect,
}

abbrev pub users : Bytes
users = text "users"

abbrev pub user1 : Bytes
user1 = text "user1"

abbrev pub harsh : Bytes
harsh = text "Harsh"

-- The calls between the connection and its close; call number `i` is made under `w i`.
module _ (rpc : Rpc) (w : ℕ → Environment) where
  unfoldable pub put_and_get : Script (Unit {0})
  put_and_get = do
    print (line (text "Testing KV operations..."))
    expect (text "Put failed:") (Client.put rpc (w 0) users user1 harsh 0)
    print (line (text "Put user1 successful"))
    value ← receive (text "Get failed:") (Client.get rpc (w 1) users user1)
    print (value_line (text "Get user1:") value)

  unfoldable pub put_more : Script (Unit {0})
  put_more = do
    expect (text "Put with TTL failed:")
        (Client.put rpc (w 2) (text "sessions") (text "session1") (text "active") 60)
    print (line (text "Put session1 with TTL successful"))
    expect (text "Put failed:") (Client.put rpc (w 3) users (text "user2") (text "Jane Smith") 0)

  unfoldable pub query_keys : Script (Unit {0})
  query_keys = do
    keys ←
        receive (text "ListKeysByPrefix failed:")
          (Client.list_keys_by_prefix rpc (w 4) users (text "user"))
    print (keys_line (text "Keys with prefix 'user':") keys)

  unfoldable pub use_set : Script (Unit {0})
  use_set = do
    expect (text "SetAdd failed:") (Client.set_add rpc (w 5) (text "admins") user1)
    print (line (text "SetAdd successful"))
    members ← receive (text "SetList failed:") (Client.set_list rpc (w 6) (text "admins"))
    print (keys_line (text "Set members:") members)

  unfoldable pub list_users : Script (Unit {0})
  list_users = do
    entries ← receive (text "List failed:") (Client.list rpc (w 7) users)
    print (entries_line (text "All users:") entries)

  unfoldable pub use_queue_and_stack : Script (Unit {0})
  use_queue_and_stack = do
    expect (text "QueuePush failed:") (Client.queue_push rpc (w 8) (text "tasks") (text "task1"))
    print (line (text "QueuePush successful"))
    expect (text "StackPush failed:")
        (Client.stack_push rpc (w 9) (text "history") (text "action1"))
    print (line (text "StackPush successful"))
    print (line (text "All operations completed successfully!"))

  unfoldable pub demonstration : Script (Unit {0})
  demonstration = do put_and_get; put_more; query_keys; use_set; list_users; use_queue_and_stack

  -- `main`, with what the dial comes to: the connection at the end, the lines and the outcome. The
  -- deferred `Close` is run only if the program returns.
  unfoldable pub client_main : Result Link → Option Link × List Output × Outcome (Unit {0})
  unfolding demonstration
  client_main dialled = elim (new_kv_client dialled) [
    | err e ↦ (none, [], fatal (text "Failed to connect to server:") e)
    | ok link ↦
        let (st, outcome) = demonstration (record { link = link; printed = [] }) in
        elim outcome [
          | completed unit ↦ (some (close rpc st.link).0, st.printed, completed unit)
          | fatal message e ↦ (some st.link, st.printed, fatal message e)
        ]
  ]
