-- ===== src/Storage/Memory/View.antt =====
-- What the shards hold for one key of one bucket, and how the operations change it.
use fast_kv_a_lightweight_ke.Base.{
  ◌≡◌, Bool, true, false, ◌&&◌, Option, none, some, is_some, ◌⊎◌, inl, inr, Option-cases, arith,
  if◌then◌else◌, Result, ok, err, key_expired, key_not_found,
}
use fast_kv_a_lightweight_ke.Base.Bytes.{Bytes, bytes_key, bytes_eq, bytes_eq_iff}
use fast_kv_a_lightweight_ke.Base.Dict.{lookup}
use fast_kv_a_lightweight_ke.Base.Nested.{
  lookup_in, ensure, lookup_in-ensure, lookup_in-insert_in, lookup_in-remove_in,
}
use fast_kv_a_lightweight_ke.Base.Words.{Int64, positive64, less64}
use fast_kv_a_lightweight_ke.Storage.Hash.{shard_index}
use fast_kv_a_lightweight_ke.Storage.Memory.{
  TtlInfo, Shards, get_shard, put_internal, erase_entry, delete_internal, check_ttl, get,
}
use fast_kv_a_lightweight_ke.Storage.Memory.Invariant.{IsWellFormed}

unfoldable pub value_at : Shards → Bytes → Bytes → Option Bytes
unfolding get_shard
value_at shards bucket key = lookup_in bucket key (get_shard shards key).buckets

unfoldable pub expiry_at : Shards → Bytes → Bytes → Option TtlInfo
unfolding get_shard
expiry_at shards bucket key = lookup_in bucket key (get_shard shards key).ttl

-- The same bucket and the same key.
abbrev pub same_entry : Bytes → Bytes → Bytes → Bytes → Bool
same_entry bucket key c j = bytes_eq bucket c && bytes_eq key j

abbrev pub is_expired : Int64 → Option TtlInfo → Bool
is_expired now none = false
is_expired now (some t) = less64 t.expiry now

-- What a read at `now` answers for a value and an expiry.
abbrev pub answer : Int64 → Option Bytes → Option TtlInfo → Result Bytes
answer now value expiry =
    if is_expired now expiry
    then err key_expired
    else elim value [ none ↦ err key_not_found | some v ↦ ok v ]

pub get-answer :
    (now : Int64) (shards : Shards) (bucket key : Bytes)
    → get now shards bucket key
      ≡ answer now (value_at shards bucket key) (expiry_at shards bucket key)
unfolding get check_ttl value_at expiry_at
get-answer now shards bucket key = ground arith

module _ (shards : Shards) (bucket key c j : Bytes) where
  pub value_at-put :
      (value : Bytes) (ttl : Int64)
      → value_at (put_internal shards bucket key value ttl) c j
        ≡ (if same_entry bucket key c j then some value else value_at shards c j)
  unfolding value_at put_internal
  value_at-put value ttl =
      let m = (get_shard shards key).buckets in
      ground (
        arith,
        bytes_eq_iff key j,
        lookup_in-insert_in bucket key c j value (ensure bucket m),
        lookup_in-ensure bucket c j m,
      )

  pub expiry_at-put :
      (value : Bytes) (ttl : Int64)
      → expiry_at (put_internal shards bucket key value ttl) c j ≡ (
          if positive64 ttl && same_entry bucket key c j
          then some (record { expiry = ttl })
          else expiry_at shards c j)
  unfolding expiry_at put_internal
  expiry_at-put value ttl =
      let m = (get_shard shards key).ttl in
      ground (
        arith,
        bytes_eq_iff key j,
        lookup_in-insert_in bucket key c j (record { expiry = ttl }) (ensure bucket m),
        lookup_in-ensure bucket c j m,
      )

  pub value_at-erase :
      value_at (erase_entry shards bucket key) c j
      ≡ (if same_entry bucket key c j then none else value_at shards c j)
  unfolding value_at erase_entry
  value_at-erase =
      ground (
        arith,
        bytes_eq_iff key j,
        lookup_in-remove_in bucket key c j (get_shard shards key).buckets,
      )

  pub expiry_at-erase :
      expiry_at (erase_entry shards bucket key) c j
      ≡ (if same_entry bucket key c j then none else expiry_at shards c j)
  unfolding expiry_at erase_entry
  expiry_at-erase =
      ground
        (arith, bytes_eq_iff key j, lookup_in-remove_in bucket key c j (get_shard shards key).ttl)

module _ (shards : Shards) (bucket key : Bytes) where
  -- A deletion of a present key erases its entry, and any other changes nothing and says so.
  pub delete_cases :
      ((value_at shards bucket key ≡ none)
        × ((delete_internal shards bucket key).0 ≡ shards)
        × (is_some (delete_internal shards bucket key).1 ≡ true))
      ⊎ ((is_some (value_at shards bucket key) ≡ true)
          × (delete_internal shards bucket key ≡ (erase_entry shards bucket key, none)))
  unfolding value_at delete_internal lookup_in
  delete_cases = elim (Option-cases (lookup bucket (get_shard shards key).buckets)) [
    | inl missing ↦ inl (ground (arith, missing))
    | inr (b, found) ↦ elim (Option-cases (lookup key b)) [
      | inl missing ↦ inl (ground (arith, found, missing))
      | inr (val, present) ↦ inr (ground (arith, found, present))
    ]
  ]

  pub expiry_needs_value :
      IsWellFormed shards → value_at shards bucket key ≡ none → expiry_at shards bucket key ≡ none
  unfolding value_at expiry_at
  expiry_needs_value wf missing = elim (Option-cases (expiry_at shards bucket key)) [
    | inl free ↦ free
    | inr (t, found) ↦ ground (arith, (wf (shard_index key)).expiry_present bucket key t found)
  ]

module _ (shards : Shards) (bucket key c j : Bytes) where
  pub value_at-delete :
      value_at (delete_internal shards bucket key).0 c j
      ≡ (if same_entry bucket key c j then none else value_at shards c j)
  value_at-delete = ground (
    arith,
    delete_cases shards bucket key,
    value_at-erase shards bucket key c j,
    bytes_eq_iff key j,
    bytes_eq_iff bucket c,
  )

  pub expiry_at-delete :
      IsWellFormed shards
      → expiry_at (delete_internal shards bucket key).0 c j
        ≡ (if same_entry bucket key c j then none else expiry_at shards c j)
  expiry_at-delete wf = ground (
    arith,
    delete_cases shards bucket key,
    expiry_at-erase shards bucket key c j,
    expiry_needs_value shards bucket key wf,
    bytes_eq_iff key j,
    bytes_eq_iff bucket c,
  )
