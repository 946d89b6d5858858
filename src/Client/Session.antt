-- ===== src/Client/Session.antt =====
-- A client's calls over a connection, against the same calls made of the service directly.
use fast_kv_a_lightweight_ke.Base.{
  ◌≡◌, refl, subst, ap, ◌∙◌, Bool, true, ◌&&◌, List, [], ◌∷◌, Failure, arith,
}
use fast_kv_a_lightweight_ke.Base.Bytes.{bytes_key, text}
use fast_kv_a_lightweight_ke.Base.Dict.{lookup}
use fast_kv_a_lightweight_ke.Service.KvService.{KvService}
use fast_kv_a_lightweight_ke.Api.{Request, Response, KvServer, with_turns}
use fast_kv_a_lightweight_ke.Api
use fast_kv_a_lightweight_ke.Api.Structures
use fast_kv_a_lightweight_ke.Api.Dispatch.{Environment, dispatch, dispatch_method}
use fast_kv_a_lightweight_ke.Client
use fast_kv_a_lightweight_ke.Client.{Link, Rpc, all_nil, delivered}
use fast_kv_a_lightweight_ke.Client.Calls.{
  Call, put_call, get_call, delete_call, update_call, list_call, list_keys_by_prefix_call,
  list_keys_in_range_call, set_add_call, set_remove_call, set_list_call, sorted_list_add_call,
  sorted_list_get_call, map_put_call, map_get_call, queue_push_call, queue_pop_call,
  queue_peek_call, stack_push_call, stack_pop_call, stack_peek_call, execute_transaction_call,
  Answer, errors_answer, remote, local,
}

-- Whether the answer can be sent: no operation of a transaction has failed.
abbrev pub is_sent : Answer → Bool
is_sent (errors_answer errors) = all_nil errors
is_sent answer = true

-- What comes over an open connection of what the service answers.
abbrev Carries : Link × Answer × Failure → KvService × Answer × Failure → Type 0
Carries (l, a, e) (s, b, f) = (l.is_open ≡ true) × (l.server.service ≡ s) × (a ≡ b) × (e ≡ f)

module _ (rpc : Rpc) (w : Environment) (l : Link) (opened : l.is_open ≡ true) where
  -- Over an open connection, a call does to the service what the service's own method does, and
  -- answers the same, unless it is a transaction with an operation that fails.
  pub remote_lem :
      (c : Call)
      → is_sent (local w c l.server.service).1 ≡ true
      → Carries (remote rpc w c l) (local w c l.server.service)
  unfolding remote local dispatch dispatch_method lookup Api.replicate_to_slaves Client.put Api.put
      Client.get Api.get Client.delete Api.delete Client.update Api.update Client.list Api.list
      Client.list_keys_by_prefix Api.list_keys_by_prefix Client.list_keys_in_range
      Api.list_keys_in_range Client.set_add Structures.set_add Client.set_remove
      Structures.set_remove Client.set_list Structures.set_list Client.sorted_list_add
      Structures.sorted_list_add Client.sorted_list_get Structures.sorted_list_get Client.map_put
      Structures.map_put Client.map_get Structures.map_get Client.queue_push Structures.queue_push
      Client.queue_pop Structures.queue_pop Client.queue_peek Structures.queue_peek
      Client.stack_push Structures.stack_push Client.stack_pop Structures.stack_pop
      Client.stack_peek Structures.stack_peek Client.execute_transaction Api.execute_transaction
  remote_lem (put_call bucket key value ttl_seconds) sent =
      rw (rpc.call-open w (text "KVServer.Put") _ l opened) (ground arith)
  remote_lem (get_call bucket key) sent =
      rw (rpc.call-open w (text "KVServer.Get") _ l opened) (ground arith)
  remote_lem (delete_call bucket key) sent =
      rw (rpc.call-open w (text "KVServer.Delete") _ l opened) (ground arith)
  remote_lem (update_call bucket key value) sent =
      rw (rpc.call-open w (text "KVServer.Update") _ l opened) (ground arith)
  remote_lem (list_call bucket) sent =
      rw (rpc.call-open w (text "KVServer.List") _ l opened) (ground arith)
  remote_lem (list_keys_by_prefix_call bucket prefix) sent =
      rw (rpc.call-open w (text "KVServer.ListKeysByPrefix") _ l opened) (ground arith)
  remote_lem (list_keys_in_range_call bucket start end) sent =
      rw (rpc.call-open w (text "KVServer.ListKeysInRange") _ l opened) (ground arith)
  remote_lem (set_add_call set_name value) sent =
      rw (rpc.call-open w (text "KVServer.SetAdd") _ l opened) (ground arith)
  remote_lem (set_remove_call set_name value) sent =
      rw (rpc.call-open w (text "KVServer.SetRemove") _ l opened) (ground arith)
  remote_lem (set_list_call set_name) sent =
      rw (rpc.call-open w (text "KVServer.SetList") _ l opened) (ground arith)
  remote_lem (sorted_list_add_call list_name value) sent =
      rw (rpc.call-open w (text "KVServer.SortedListAdd") _ l opened) (ground arith)
  remote_lem (sorted_list_get_call list_name) sent =
      rw (rpc.call-open w (text "KVServer.SortedListGet") _ l opened) (ground arith)
  remote_lem (map_put_call map_name key value) sent =
      rw (rpc.call-open w (text "KVServer.MapPut") _ l opened) (ground arith)
  remote_lem (map_get_call map_name key) sent =
      rw (rpc.call-open w (text "KVServer.MapGet") _ l opened) (ground arith)
  remote_lem (queue_push_call name value) sent =
      rw (rpc.call-open w (text "KVServer.QueuePush") _ l opened) (ground arith)
  remote_lem (queue_pop_call name) sent =
      rw (rpc.call-open w (text "KVServer.QueuePop") _ l opened) (ground arith)
  remote_lem (queue_peek_call name) sent =
      rw (rpc.call-open w (text "KVServer.QueuePeek") _ l opened) (ground arith)
  remote_lem (stack_push_call name value) sent =
      rw (rpc.call-open w (text "KVServer.StackPush") _ l opened) (ground arith)
  remote_lem (stack_pop_call name) sent =
      rw (rpc.call-open w (text "KVServer.StackPop") _ l opened) (ground arith)
  remote_lem (stack_peek_call name) sent =
      rw (rpc.call-open w (text "KVServer.StackPeek") _ l opened) (ground arith)
  remote_lem (execute_transaction_call ops) sent =
      rw (rpc.call-open w (text "KVServer.ExecuteTransaction") _ l opened) (ground arith)

  -- The same, once it is known what the service answers.
  pub remote_as :
      (c : Call) (s : KvService) (answer : Answer) (failure : Failure)
      → local w c l.server.service ≡ (s, answer, failure)
      → is_sent answer ≡ true
      → Carries (remote rpc w c l) (s, answer, failure)
  remote_as c s answer failure known sent =
      subst (Carries (remote rpc w c l)) known (remote_lem c (rw known sent))

-- The calls of one client, one after the other.
unfoldable pub run_remote : Rpc → List (Environment × Call) → Link → Link × List (Answer × Failure)
run_remote rpc [] l = (l, [])
run_remote rpc ((w, c) ∷ calls) l =
    let done : Link × Answer × Failure = remote rpc w c l in
    let later : Link × List (Answer × Failure) = run_remote rpc calls done.0 in
    (later.0, (done.1, done.2) ∷ later.1)

unfoldable pub run_local :
    List (Environment × Call) → KvService → KvService × List (Answer × Failure)
run_local [] s = (s, [])
run_local ((w, c) ∷ calls) s =
    let done : KvService × Answer × Failure = local w c s in
    let later : KvService × List (Answer × Failure) = run_local calls done.0 in
    (later.0, (done.1, done.2) ∷ later.1)

abbrev pub all_sent : List (Answer × Failure) → Bool
all_sent [] = true
all_sent ((answer, failure) ∷ answers) = is_sent answer && all_sent answers

-- Over an open connection, any calls of a client of which no transaction has an operation that fails
-- answer, one after the other, what the service's own methods answer, leave the service as those do,
-- and leave the connection open.
pub run_remote-refines :
    (rpc : Rpc) (calls : List (Environment × Call)) (l : Link)
    → l.is_open ≡ true
    → all_sent (run_local calls l.server.service).1 ≡ true
    → ((run_remote rpc calls l).0.is_open ≡ true)
      × ((run_remote rpc calls l).0.server.service ≡ (run_local calls l.server.service).0)
      × ((run_remote rpc calls l).1 ≡ (run_local calls l.server.service).1)
unfolding run_remote run_local
run_remote-refines rpc [] l opened sent = (opened, refl, refl)
run_remote-refines rpc ((w, c) ∷ calls) l opened sent =
    let done : Carries (remote rpc w c l) (local w c l.server.service) =
      remote_lem rpc w l opened c (ground (arith, sent)) in
    let later =
      run_remote-refines rpc calls (remote rpc w c l).0 done.0 (rw done.1 (ground (arith, sent))) in
    (
      later.0,
      later.1 ∙ ap (λ s. (run_local calls s).0) done.1,
      rw (done.2, done.3, later.2, done.1) refl,
    )
