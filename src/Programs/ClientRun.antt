-- ===== src/Programs/ClientRun.antt =====
-- The demonstration over a working server: each part of it runs to its end.
use fast_kv_a_lightweight_ke.Base.{
  ℕ, ◌≡◌, refl, ap, ◌∙◌, false, Option, none, some, List, [], ◌∷◌, ◌++◌, ok, Failure, arith,
}
use fast_kv_a_lightweight_ke.Base.Bytes.{Bytes, bytes_key, text}
use fast_kv_a_lightweight_ke.Base.Words.{positive64}
use fast_kv_a_lightweight_ke.Storage.Engine.{expiry_of}
use fast_kv_a_lightweight_ke.Api.Dispatch.{Environment}
use fast_kv_a_lightweight_ke.Client.{Link, Rpc, new_kv_client, close}
use fast_kv_a_lightweight_ke.Programs.Script.{
  Output, line, value_line, keys_line, entries_line, Progress, Outcome, completed, print, receive,
  expect, Runs, Runs->>=, Runs->>, Runs-weaken,
}
use fast_kv_a_lightweight_ke.Programs.ClientMain.{
  users, user1, harsh, put_and_get, put_more, query_keys, use_set, list_users, use_queue_and_stack,
  demonstration, client_main,
}
use fast_kv_a_lightweight_ke.Programs.Serves.{Serves, Serves-put}
use fast_kv_a_lightweight_ke.Programs.ServedCalls.{
  Serves-get, Serves-queue_push, Serves-stack_push, HasSet, Serves-set_add, Serves-set_list,
  Serves-list, Serves-list_keys_by_prefix,
}

-- The values that the lines show.
abbrev pub values : List Output → List Bytes
values [] = []
values (value_line message value ∷ outputs) = value ∷ values outputs
values (line message ∷ outputs) = values outputs
values (keys_line message keys ∷ outputs) = values outputs
values (entries_line message entries ∷ outputs) = values outputs

values-append : (xs ys : List Output) → values (xs ++ ys) ≡ values xs ++ values ys
values-append [] ys = refl
values-append (value_line message value ∷ xs) ys = ap (◌∷◌ value) (values-append xs ys)
values-append (line message ∷ xs) ys = values-append xs ys
values-append (keys_line message keys ∷ xs) ys = values-append xs ys
values-append (entries_line message entries ∷ xs) ys = values-append xs ys

-- The state of the demonstration: the server's, and the values that have been shown.
abbrev pub Good : (Link → Type 0) → List Bytes → Progress → Type 0
Good P shown st = P st.link × (values st.printed ≡ shown)

print-Good :
    (P : Link → Type 0) (shown : List Bytes) (output : Output)
    → Runs (Good P shown) (print output) (λ done. Good P (shown ++ values (output ∷ [])))
unfolding print
print-Good P shown output = record {
  runs = λ st good. (
    tt,
    refl,
    (good.0, values-append st.printed (output ∷ []) ∙ ap (λ x. x ++ values (output ∷ [])) good.1),
  );
}

-- A call that answers no error and leaves the server as described.
expect-Good :
    (P Q : Link → Type 0) (shown : List Bytes) (message : Bytes) (call : Link → Link × Failure)
    → ((l : Link) → P l → ((call l).1 ≡ none) × Q (call l).0)
    → Runs (Good P shown) (expect message call) (λ done. Good Q shown)
unfolding expect receive
expect-Good P Q shown message call works = record {
  runs = λ st good.
      let worked = works st.link good.0 in
      rw (worked.0, expect, receive) (tt, refl, (worked.1, good.1));
}

receive-Good {ℓ} :
    {A : Type ℓ} (P : Link → Type 0) (shown : List Bytes) (message : Bytes)
    (call : Link → Link × A × Failure) (Q : A → Link → Type 0)
    → ((l : Link) → P l → ((call l).2 ≡ none) × Q (call l).1 (call l).0)
    → Runs (Good P shown) (receive message call) (λ a. Good (Q a) shown)
unfolding receive
receive-Good P shown message call Q works = record {
  runs = λ st good.
      let worked = works st.link good.0 in
      rw (worked.0, receive) ((call st.link).1, refl, (worked.1, good.1));
}

-- The user's value is in the store.
abbrev Stored : Link → Type 0
Stored = Serves (some harsh)

-- The value that was read is the user's.
abbrev Read : Bytes → Link → Type 0
Read value l = Stored l × (value ≡ harsh)

-- The user's value is in the store, and has been read and shown.
abbrev Shown : Progress → Type 0
Shown = Good Stored (harsh ∷ [])

abbrev Listed : Link → Type 0
Listed l = Stored l × HasSet (text "admins") l

keep :
    (message : Bytes) (call : Link → Link × Failure)
    → ((l : Link) → Stored l → ((call l).1 ≡ none) × Stored (call l).0)
    → Runs Shown (expect message call) (λ done. Shown)
keep message call = expect-Good Stored Stored (harsh ∷ []) message call

fetch {ℓ} :
    {A : Type ℓ} (message : Bytes) (call : Link → Link × A × Failure)
    → ((l : Link) → Stored l → ((call l).2 ≡ none) × Stored (call l).0)
    → Runs Shown (receive message call) (λ a. Shown)
fetch message call = receive-Good Stored (harsh ∷ []) message call (λ a. Stored)

module _ (rpc : Rpc) (w : ℕ → Environment) (whole : (i : ℕ) → (w i).io.fault ≡ none) where
  put_and_get-Runs :
      (v : Option Bytes) → Runs (Good (Serves v) []) (put_and_get rpc w) (λ done. Shown)
  unfolding put_and_get positive64 expiry_of
  put_and_get-Runs v = Runs->> (print-Good (Serves v) [] _) (
      Runs->>
        (expect-Good (Serves v) Stored [] _ _
          λ l serves. Serves-put rpc (w 0) users user1 harsh 0 l v serves (whole 0) refl)
        (Runs->> (print-Good Stored [] _) (
          Runs->>= (receive-Good Stored [] _ _ Read (Serves-get rpc (w 1) harsh)) λ value.
            Runs-weaken (λ unit st good. (good.0.0, good.1 ∙ ap (λ x. x ∷ []) good.0.1))
              (print-Good (Read value) [] _))))

  put_more-Runs : Runs Shown (put_more rpc w) (λ done. Shown)
  unfolding put_more positive64 expiry_of
  put_more-Runs =
      Runs->>
        (keep _ _ λ l serves.
          Serves-put rpc (w 2) (text "sessions") (text "session1") (text "active") 60 l (some harsh)
            serves (whole 2) (ground arith))
        (Runs->> (print-Good Stored (harsh ∷ []) _) (
          keep _ _ λ l serves.
            Serves-put rpc (w 3) users (text "user2") (text "Jane Smith") 0 l (some harsh) serves
              (whole 3) refl))

  query_keys-Runs : Runs Shown (query_keys rpc w) (λ done. Shown)
  unfolding query_keys
  query_keys-Runs =
      Runs->>= (fetch _ _ (Serves-list_keys_by_prefix rpc (w 4) harsh (text "user")))
        λ keys. (print-Good Stored (harsh ∷ []) _)

  use_set-Runs : Runs Shown (use_set rpc w) (λ done. Shown)
  unfolding use_set
  use_set-Runs =
      Runs->>
        (expect-Good Stored Listed (harsh ∷ []) _ _
          (Serves-set_add rpc (w 5) (some harsh) (text "admins") user1))
        (Runs->> (print-Good Listed (harsh ∷ []) _) (
          Runs->>=
            (receive-Good Listed (harsh ∷ []) _ _ (λ members. Stored)
              (Serves-set_list rpc (w 6) (some harsh) (text "admins")))
            λ members. (print-Good Stored (harsh ∷ []) _)))

  list_users-Runs : Runs Shown (list_users rpc w) (λ done. Shown)
  unfolding list_users
  list_users-Runs =
      Runs->>= (fetch _ _ (Serves-list rpc (w 7) harsh))
        λ entries. (print-Good Stored (harsh ∷ []) _)

  use_queue_and_stack-Runs : Runs Shown (use_queue_and_stack rpc w) (λ done. Shown)
  unfolding use_queue_and_stack
  use_queue_and_stack-Runs =
      Runs->> (keep _ _ (Serves-queue_push rpc (w 8) (some harsh) (text "tasks") (text "task1"))) (
        Runs->> (print-Good Stored (harsh ∷ []) _) (
          Runs->>
            (keep _ _ (Serves-stack_push rpc (w 9) (some harsh) (text "history") (text "action1")))
            (Runs->> (print-Good Stored (harsh ∷ []) _) (print-Good Stored (harsh ∷ []) _))))

  demonstration-Runs :
      (v : Option Bytes) → Runs (Good (Serves v) []) (demonstration rpc w) (λ done. Shown)
  unfolding demonstration
  demonstration-Runs v = Runs->> (put_and_get-Runs v) (
      Runs->> put_more-Runs (
        Runs->> query_keys-Runs
          (Runs->> use_set-Runs (Runs->> list_users-Runs use_queue_and_stack-Runs))))

  client_main_ends :
      (l : Link) (unit : Unit {0})
      → let done : Progress × Outcome (Unit {0}) =
          demonstration rpc w (record { link = l; printed = [] }) in
        done.1 ≡ completed unit
        → client_main rpc w (ok l)
          ≡ (some (rpc.close done.0.link).0, done.0.printed, completed unit)
  unfolding client_main new_kv_client close
  client_main_ends l unit ends = rw (ends, client_main) refl

  -- The client's program, connected to a server whose store works, whose writes all go well and in
  -- which its user has no expiry, ends without an error, with its connection closed, and has shown
  -- the one value that it put.
  pub client_main-completes :
      (v : Option Bytes) (l : Link)
      → Serves v l
      → let done : Option Link × List Output × Outcome (Unit {0}) = client_main rpc w (ok l) in
        (done.2 ≡ completed tt)
        × (values done.1 ≡ harsh ∷ [])
        × ((end : Link) × (done.0 ≡ some end) × (end.is_open ≡ false))
  client_main-completes v l serves =
      let (unit, ends, shown) =
        (demonstration-Runs v).runs (record { link = l; printed = [] }) (serves, refl) in
      let shut =
        rpc.close-open (demonstration rpc w (record { link = l; printed = [] })).0.link
          shown.0.opened in
      rw (client_main_ends l unit ends, shut) (refl, shown.1, (_, refl, refl))
