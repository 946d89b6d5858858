-- ===== src/Storage/Memory.antt =====
-- The shards of storage.go in memory: what the methods of `Storage` do without the log. An
-- access of a shard holds its lock and is one step; so is, here, a listing of all shards.
-- `time.Now().Unix()` is an argument `now`, read once for an operation.
pub mod Invariant
pub mod View
pub mod Reads
pub mod Listing
use fast_kv_a_lightweight_ke.Base.{
  ℕ, zero, suc, ◌+◌, ◌≡◌, Bool, true, false, not, ◌||◌, Option, none, some, List, [], ◌∷◌, ◌++◌,
  if◌then◌else◌, ◌==◌, Result, ok, err, Error, Failure, key_expired, key_not_found,
  bucket_not_found, bucket_not_found_or_empty,
}
use fast_kv_a_lightweight_ke.Base.Bytes.{Bytes, bytes_key}
use fast_kv_a_lightweight_ke.Base.Dict.{Dict, lookup, insert, RangeOrder}
use fast_kv_a_lightweight_ke.Base.Nested.{Nested, lookup_in, ensure, insert_in, remove_in}
use fast_kv_a_lightweight_ke.Base.Words.{Int64, less64, positive64}
use fast_kv_a_lightweight_ke.Storage.Hash.{shard_count, shard_index}

pub record TtlInfo : Type 0 where
  pub expiry : Int64

pub record Shard : Type 0 where
  pub buckets : Nested Bytes
  pub ttl : Nested TtlInfo

-- The array `shards`; it is read at indices below `shard_count` only.
abbrev pub Shards : Type 0
Shards = ℕ → Shard

-- `NewStorage`: every shard has two empty maps.
abbrev pub new_shards : Shards
new_shards i = record { buckets = []; ttl = [] }

unfoldable pub get_shard : Shards → Bytes → Shard
get_shard shards key = shards (shard_index key)

-- A write through the pointer `s.shards[i]`.
unfoldable pub set_shard : Shards → ℕ → Shard → Shards
set_shard shards i shard j = if i == j then shard else shards j

unfoldable pub put_internal : Shards → Bytes → Bytes → Bytes → Int64 → Shards
unfolding get_shard set_shard
put_internal shards bucket key value ttl =
    let shard = get_shard shards key in
    set_shard shards (shard_index key) (record {
      buckets = insert_in bucket key value (ensure bucket shard.buckets);
      ttl =
          if positive64 ttl
          then insert_in bucket key (record { expiry = ttl }) (ensure bucket shard.ttl)
          else shard.ttl;
    })

unfoldable pub check_ttl : Int64 → Shard → Bytes → Bytes → Bool
check_ttl now shard bucket key = elim (lookup_in bucket key shard.ttl) [
  | none ↦ true
  | some t ↦ not (less64 t.expiry now)
]

unfoldable pub get : Int64 → Shards → Bytes → Bytes → Result Bytes
unfolding get_shard
get now shards bucket key =
    let shard = get_shard shards key in
    if check_ttl now shard bucket key
    then elim (lookup_in bucket key shard.buckets) [ none ↦ err key_not_found | some val ↦ ok val ]
    else err key_expired

-- The value and the expiry of a key, deleted from the two maps of its shard.
unfoldable pub erase_entry : Shards → Bytes → Bytes → Shards
unfolding get_shard set_shard
erase_entry shards bucket key =
    let shard = get_shard shards key in
    set_shard shards (shard_index key) (record {
      buckets = remove_in bucket key shard.buckets;
      ttl = remove_in bucket key shard.ttl;
    })

unfoldable pub delete_internal : Shards → Bytes → Bytes → Shards × Failure
unfolding get_shard
delete_internal shards bucket key =
    let shard = get_shard shards key in
    elim (lookup bucket shard.buckets) [
      | none ↦ (shards, some bucket_not_found)
      | some b ↦ elim (lookup key b) [
        | none ↦ (shards, some key_not_found)
        | some val ↦ (erase_entry shards bucket key, none)
      ]
    ]

-- The sequential effect of `CheckTTLAndClean` on the shard of `key`.
unfoldable pub check_ttl_and_clean : Int64 → Shards → Bytes → Bytes → Shards × Bool
unfolding get_shard
check_ttl_and_clean now shards bucket key =
    let shard = get_shard shards key in
    elim (lookup_in bucket key shard.ttl) [
      | none ↦ (shards, true)
      | some t ↦
          if less64 t.expiry now then (erase_entry shards bucket key, false) else (shards, true)
    ]

module _ (order : RangeOrder Bytes Bytes) (now : Int64) where
  -- `for k, v := range b { if s.checkTTL(…) { result[k] = v } }`
  unfoldable pub collect :
      Shard → Bytes → List (Bytes × Bytes) → Dict Bytes Bytes → Dict Bytes Bytes
  collect shard bucket [] result = result
  collect shard bucket ((k, v) ∷ rest) result =
      collect shard bucket rest (if check_ttl now shard bucket k then insert k v result else result)

  unfoldable pub list_shard : Shard → Bytes → Dict Bytes Bytes → Dict Bytes Bytes
  list_shard shard bucket result = elim (lookup bucket shard.buckets) [
    | none ↦ result
    | some b ↦ collect shard bucket (order.visit b) result
  ]

  -- The rounds of the loop over the shards from `i` on.
  unfoldable pub list_from : ℕ → ℕ → Shards → Bytes → Dict Bytes Bytes → Dict Bytes Bytes
  list_from zero i shards bucket result = result
  list_from (suc rounds) i shards bucket result =
      list_from rounds (i + 1) shards bucket (list_shard (shards i) bucket result)

  abbrev or_empty : Dict Bytes Bytes → Result (Dict Bytes Bytes)
  or_empty [] = err bucket_not_found_or_empty
  or_empty (entry ∷ result) = ok (entry ∷ result)

  unfoldable pub list : Shards → Bytes → Result (Dict Bytes Bytes)
  list shards bucket = or_empty (list_from shard_count 0 shards bucket [])

  unfoldable pub live_keys : Shard → Bytes → List (Bytes × Bytes) → List Bytes
  live_keys shard bucket [] = []
  live_keys shard bucket ((k, v) ∷ rest) =
      let keys = live_keys shard bucket rest in
      if check_ttl now shard bucket k then k ∷ keys else keys

  unfoldable pub scan_shard : Shards → Bytes → Int64 → List Bytes
  scan_shard shards bucket index =
      if less64 index 0 || not (less64 index shard_count)
      then []
      else elim (lookup bucket (shards index).buckets) [
        | none ↦ []
        | some b ↦ live_keys (shards index) bucket (order.visit b)
      ]
