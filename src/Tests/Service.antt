-- ===== src/Tests/Service.antt =====
-- Subscriptions, transactions, queries and scans of kv-distributed/internal/service on small inputs.
use fast_kv_a_lightweight_ke.Base.{
  ◌<◌, ◌+◌, ℕ, ◌≡◌, ◌≤◌, refl, true, false, ◌&&◌, none, is_some, List, [], ◌∷◌, length,
  if◌then◌else◌, ok, value?, nat_eq, All, arith,
}
use fast_kv_a_lightweight_ke.Base.Bytes.{Bytes, bytes_key, bytes_le, has_prefix, text}
use fast_kv_a_lightweight_ke.Base.Dict.{in_order, lookup, insert}
use fast_kv_a_lightweight_ke.Base.Nested.{lookup_in, insert_in, ensure, bucket_or_nil}
use fast_kv_a_lightweight_ke.Base.Words.{Int64, positive64, less64}
use fast_kv_a_lightweight_ke.DataStructures.{insert_sorted, sort_strings}
use fast_kv_a_lightweight_ke.Indexing
use fast_kv_a_lightweight_ke.Indexing.{keys_where}
use fast_kv_a_lightweight_ke.Storage.Hash.{shard_index}
use fast_kv_a_lightweight_ke.DataStructures.Sorting.{IsSorted, occurrences}
use fast_kv_a_lightweight_ke.Storage.Memory.{Shards, new_shards, put_internal}
use fast_kv_a_lightweight_ke.Base.Nested.{lookup_in}
use fast_kv_a_lightweight_ke.Storage.Memory.{get_shard}
use fast_kv_a_lightweight_ke.Storage.Memory.View.{expiry_at}
use fast_kv_a_lightweight_ke.Storage.Memory.Reads.{get-put_plain}
use fast_kv_a_lightweight_ke.Storage.Engine.Limits.{zero_is_no_expiry}
use fast_kv_a_lightweight_ke.Storage.Memory
use fast_kv_a_lightweight_ke.Storage.Memory.Invariant.{
  IsWellFormed, new_shards-IsWellFormed, put_internal-IsWellFormed,
}
use fast_kv_a_lightweight_ke.Storage.Engine.{Io, content, new_storage, set_persistence_file}
use fast_kv_a_lightweight_ke.Storage.Engine.Recovery.{IsDurable}
use fast_kv_a_lightweight_ke.Storage.Engine.Sessions.{opened-IsDurable}
use fast_kv_a_lightweight_ke.Service.KvService.{
  KvService, new_kv_service, get, list, list_keys_by_prefix, list_keys_in_range,
}
use fast_kv_a_lightweight_ke.Service.Queries.{prefix_query, range_query}
use fast_kv_a_lightweight_ke.Service.Transactions.{TransactionOp, OpGoesWell, request_of}
use fast_kv_a_lightweight_ke.Service.Scan.Pages.{scan_pages}
use fast_kv_a_lightweight_ke.Service.Scan.Complete.{scan_pages_complete}
use fast_kv_a_lightweight_ke.Service.PubSub.{PubSub, capacity, new_pub_sub, subscribe}
use fast_kv_a_lightweight_ke.Service.PubSub.Invariant
use fast_kv_a_lightweight_ke.Service.PubSub.Invariant.{
  is_subscribed, new_pub_sub-IsWellFormed, subscribe-IsWellFormed,
}
use fast_kv_a_lightweight_ke.Service.PubSub.Runs.{
  Call, subscribing, unsubscribing, publishing, receiving, run, never_panics, publish_all,
  messages-publish_all,
}

abbrev news : Bytes
news = text "news"

abbrev users : Bytes
users = text "users"

abbrev ann : Bytes
ann = text "ann"

-- One subscriber, channel 0.
abbrev one_subscriber : PubSub
one_subscriber = (subscribe news new_pub_sub).0

one_subscriber-IsWellFormed : Invariant.IsWellFormed one_subscriber
one_subscriber-IsWellFormed = subscribe-IsWellFormed new_pub_sub new_pub_sub-IsWellFormed news

abbrev calls : List Call
calls =
    subscribing news
    ∷ publishing news ann
    ∷ unsubscribing users 0
    ∷ unsubscribing news 0
    ∷ publishing news ann
    ∷ receiving 0
    ∷ []

never_panics_example :
    ((run in_order calls new_pub_sub).panicked ≡ false)
    × ((name : Bytes) (ch : ℕ)
        → (is_subscribed name ch (run in_order calls new_pub_sub)
            && ((run in_order calls new_pub_sub).channels ch).closed)
          ≡ false)
    × ((ch : ℕ) → length ((run in_order calls new_pub_sub).channels ch).messages ≤ capacity)
never_panics_example = never_panics in_order calls

messages-publish_all_example :
    ((publish_all in_order news (ann ∷ users ∷ []) one_subscriber).channels 0).messages
    ≡ ann ∷ users ∷ []
unfolding subscribe is_subscribed lookup insert
messages-publish_all_example =
    messages-publish_all in_order news 0 (ann ∷ users ∷ []) one_subscriber
      one_subscriber-IsWellFormed refl

abbrev stored : Shards
stored = put_internal new_shards users ann (text "1") 50

stored-IsWellFormed : IsWellFormed stored
stored-IsWellFormed =
    put_internal-IsWellFormed new_shards new_shards-IsWellFormed users ann (text "1") 50

-- A clock that has gone on by a second at each cursor, and a key without an expiry.
abbrev ticking : Int64 → Int64
ticking cursor = 10 + cursor

abbrev lasting : Shards
lasting = put_internal new_shards users ann (text "2") 0

lasting-IsWellFormed : IsWellFormed lasting
lasting-IsWellFormed =
    put_internal-IsWellFormed new_shards new_shards-IsWellFormed users ann (text "2") 0

ann_at_every_page :
    (cursor : Int64)
    → cursor < 256
    → is_some (value? (Memory.get (ticking cursor) lasting users ann)) ≡ true
unfolding expiry_at get_shard lookup_in lookup
ann_at_every_page cursor h =
    rw (get-put_plain (ticking cursor) new_shards users ann (text "2") 0 zero_is_no_expiry) refl

scan_pages_complete_example :
    occurrences ann (scan_pages in_order ticking lasting users 256 (λ cursor. 1) 0) ≡ 1
scan_pages_complete_example =
    scan_pages_complete in_order ticking lasting users ann lasting-IsWellFormed true
      ann_at_every_page (λ cursor. 1)

abbrev service : KvService
service = new_kv_service (record (new_storage []) { shards = stored })

service-IsWellFormed : IsWellFormed service.storage.shards
unfolding new_kv_service
service-IsWellFormed = stored-IsWellFormed

prefix_answer : list_keys_by_prefix in_order 10 users (text "a") service ≡ ok (ann ∷ [])
unfolding new_kv_service list_keys_by_prefix list_keys_in_range list Memory.list Memory.list_from
    Memory.list_shard Memory.collect Memory.check_ttl Memory.get_shard Memory.set_shard lookup
    insert put_internal shard_index lookup_in insert_in ensure bucket_or_nil positive64 less64
    Indexing.list_keys_by_prefix Indexing.list_keys_in_range keys_where has_prefix bytes_le
    insert_sorted sort_strings
prefix_answer = refl

range_answer : list_keys_in_range in_order 10 users (text "a") (text "b") service ≡ ok (ann ∷ [])
unfolding new_kv_service list_keys_by_prefix list_keys_in_range list Memory.list Memory.list_from
    Memory.list_shard Memory.collect Memory.check_ttl Memory.get_shard Memory.set_shard lookup
    insert put_internal shard_index lookup_in insert_in ensure bucket_or_nil positive64 less64
    Indexing.list_keys_by_prefix Indexing.list_keys_in_range keys_where has_prefix bytes_le
    insert_sorted sort_strings
range_answer = refl

prefix_query_example :
    occurrences ann (ann ∷ [])
    ≡ (if has_prefix ann (text "a") && is_some (value? (get 10 users ann service)) then 1 else 0)
prefix_query_example =
    prefix_query in_order 10 service users (text "a") (ann ∷ []) service-IsWellFormed prefix_answer
      ann

range_query_example :
    IsSorted (ann ∷ [])
    × ((key : Bytes)
        → occurrences key (ann ∷ []) ≡ (
            if bytes_le (text "a") key
              && bytes_le key (text "b")
              && is_some (value? (get 10 users key service))
            then 1
            else 0))
range_query_example =
    range_query in_order 10 service users (text "a") (text "b") (ann ∷ []) service-IsWellFormed
      range_answer

abbrev put_op : TransactionOp
put_op = record { action = text "put"; bucket = users; key = ann; value = text "2" }

abbrev bad_op : TransactionOp
bad_op = record { action = text "drop"; bucket = users; key = ann; value = [] }

abbrev whole : Io
whole = record { fault = none; latency = 10 }

abbrev ops : List (TransactionOp × ℕ × Io)
ops = (put_op, 10, whole) ∷ (bad_op, 10, whole) ∷ []

abbrev fresh : KvService
fresh = new_kv_service (set_persistence_file (new_storage []) users true).0

fresh-IsDurable : IsDurable users fresh.storage
unfolding new_kv_service content lookup
fresh-IsDurable = opened-IsDurable [] users refl

ops-GoWell : All OpGoesWell ops
unfolding request_of
ops-GoWell = (
  (
    record {
      encodable = record {
        bucket_fits = omega arith;
        key_fits = omega arith;
        value_fits = omega arith;
        ttl_fits = omega arith;
      };
    },
    refl,
  ),
  (tt, tt),
)
