-- ===== src/Tests/Memory.antt =====
-- Reads and writes of the shards of kv-distributed/internal/storage/storage.go on small stores.
use fast_kv_a_lightweight_ke.Base.{◌≡◌, refl, not, is_some, [], ◌∷◌, ok, err, key_not_found, value?}
use fast_kv_a_lightweight_ke.Base.Bytes.{Bytes, bytes_key, text}
use fast_kv_a_lightweight_ke.Base.Dict.{Dict, lookup, insert, NodupKeys, in_order}
use fast_kv_a_lightweight_ke.Base.Nested.{lookup_in, insert_in, ensure, bucket_or_nil}
use fast_kv_a_lightweight_ke.Base.Words.{positive64, less64}
use fast_kv_a_lightweight_ke.Storage.Hash.{shard_index}
use fast_kv_a_lightweight_ke.Storage.Memory.{
  Shards, new_shards, put_internal, delete_internal, check_ttl, get, get_shard, set_shard, list,
  list_from, list_shard, collect,
}
use fast_kv_a_lightweight_ke.Storage.Memory.Invariant.{
  IsWellFormed, new_shards-IsWellFormed, put_internal-IsWellFormed,
}
use fast_kv_a_lightweight_ke.Storage.Memory.View.{value_at}
use fast_kv_a_lightweight_ke.Storage.Memory.Reads.{get-delete, get-other}
use fast_kv_a_lightweight_ke.Storage.Memory.Listing.{list-agrees-get}

abbrev users : Bytes
users = text "users"

abbrev ann : Bytes
ann = text "ann"

-- One entry that expires at 50.
abbrev one_entry : Shards
one_entry = put_internal new_shards users ann (text "1") 50

one_entry-IsWellFormed : IsWellFormed one_entry
one_entry-IsWellFormed =
    put_internal-IsWellFormed new_shards new_shards-IsWellFormed users ann (text "1") 50

-- The published FNV-1a vectors of "" and "a" are 0x811c9dc5 and 0xe40c292c.
shard_of_empty : shard_index [] ≡ 0xc5
unfolding shard_index
shard_of_empty = refl

shard_of_a : shard_index (text "a") ≡ 0x2c
unfolding shard_index
shard_of_a = refl

get-delete_example :
    (get 10 (delete_internal one_entry users ann).0 users ann ≡ err key_not_found)
    × (is_some (delete_internal one_entry users ann).1
        ≡ not (is_some (value_at one_entry users ann)))
get-delete_example = get-delete 10 one_entry users ann one_entry-IsWellFormed

get-other_example :
    (get 10 (put_internal one_entry users (text "bob") (text "2") 0) users ann
      ≡ get 10 one_entry users ann)
    × (get 10 (delete_internal one_entry users (text "bob")).0 users ann
        ≡ get 10 one_entry users ann)
get-other_example =
    get-other 10 one_entry users (text "bob") users ann (text "2") 0 one_entry-IsWellFormed refl

abbrev listing : Dict Bytes Bytes
listing = (ann, text "1") ∷ []

listing_of_users : list in_order 10 one_entry users ≡ ok listing
unfolding list list_from list_shard collect check_ttl get_shard set_shard lookup put_internal
    shard_index positive64 less64 lookup_in insert_in insert ensure bucket_or_nil
listing_of_users = refl

list-agrees-get_example :
    NodupKeys listing × ((key : Bytes) → lookup key listing ≡ value? (get 10 one_entry users key))
list-agrees-get_example =
    list-agrees-get in_order 10 one_entry users listing one_entry-IsWellFormed listing_of_users
