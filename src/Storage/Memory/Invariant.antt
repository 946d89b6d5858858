-- ===== src/Storage/Memory/Invariant.antt =====
-- The well-formedness of the shards: each key in its own shard, once, and an expiry only for a
-- key that is there.
use fast_kv_a_lightweight_ke.Base.{
  ℕ, ◌≡◌, refl, true, some, [], is_some, inl, inr, Bool-cases, Option-cases, arith, ◌==◌, ==_iff,
  subst,
}
use fast_kv_a_lightweight_ke.Base.Bytes.{Bytes, bytes_key, bytes_eq_iff, bytes_eq_refl}
use fast_kv_a_lightweight_ke.Base.Dict.{lookup}
use fast_kv_a_lightweight_ke.Base.Nested.{
  lookup_in, ensure, insert_in, remove_in, NodupNested, lookup_in-ensure, lookup_in-insert_in,
  lookup_in-remove_in, NodupNested-ensure, NodupNested-insert_in, NodupNested-remove_in,
}
use fast_kv_a_lightweight_ke.Base.Words.{Int64, positive64, less64}
use fast_kv_a_lightweight_ke.Storage.Hash.{shard_index}
use fast_kv_a_lightweight_ke.Storage.Memory.{
  TtlInfo, Shard, Shards, new_shards, get_shard, set_shard, put_internal, erase_entry,
  delete_internal, check_ttl_and_clean,
}

-- What holds of the shard at index `i`.
pub record ShardIsWellFormed (i : ℕ) (shard : Shard) : Type 0 where
  pub nodup_buckets : NodupNested shard.buckets
  pub nodup_ttl : NodupNested shard.ttl
  pub placed :
      (bucket key : Bytes)
      → is_some (lookup_in bucket key shard.buckets) ≡ true
      → i ≡ shard_index key
  pub expiry_present :
      (bucket key : Bytes) (t : TtlInfo)
      → lookup_in bucket key shard.ttl ≡ some t
      → (is_some (lookup_in bucket key shard.buckets) ≡ true) × (positive64 t.expiry ≡ true)

abbrev pub IsWellFormed : Shards → Type 0
IsWellFormed shards = (i : ℕ) → ShardIsWellFormed i (shards i)

NodupNested-nil {κ} : {V : Type κ} → NodupNested {V = V} []
unfolding lookup
NodupNested-nil = record { outer = tt; inner = λ bucket b found. absurd (ground arith) }

-- A fresh store is well formed.
pub new_shards-IsWellFormed : IsWellFormed new_shards
unfolding lookup_in lookup
new_shards-IsWellFormed i = record {
  nodup_buckets = NodupNested-nil;
  nodup_ttl = NodupNested-nil;
  placed = λ bucket key found. absurd (ground arith);
  expiry_present = λ bucket key t found. absurd (ground arith);
}

pub set_shard-IsWellFormed :
    (shards : Shards) (i : ℕ) (shard : Shard)
    → IsWellFormed shards
    → ShardIsWellFormed i shard
    → IsWellFormed (set_shard shards i shard)
unfolding set_shard
set_shard-IsWellFormed shards i shard wf h j = elim (Bool-cases (i == j)) [
  | inl same ↦ rw same (subst (λ n. ShardIsWellFormed n shard) ((==_iff i j).0 same) h)
  | inr other ↦ rw other (wf j)
]

module _ (i : ℕ) (shard : Shard) (wf : ShardIsWellFormed i shard) (bucket key : Bytes) where
  put_plain-IsWellFormed :
      (value : Bytes)
      → i ≡ shard_index key
      → ShardIsWellFormed i
          (record shard { buckets = insert_in bucket key value (ensure bucket shard.buckets) })
  put_plain-IsWellFormed value at = record {
    nodup_buckets =
        NodupNested-insert_in bucket key _ (NodupNested-ensure bucket key _ wf.nodup_buckets) value;
    nodup_ttl = wf.nodup_ttl;
    placed = λ c j. ground (
      arith,
      wf.placed c j,
      lookup_in-insert_in bucket key c j value (ensure bucket shard.buckets),
      lookup_in-ensure bucket c j shard.buckets,
      bytes_eq_iff key j,
    );
    expiry_present = λ c j t. ground (
      arith,
      wf.expiry_present c j t,
      lookup_in-insert_in bucket key c j value (ensure bucket shard.buckets),
      lookup_in-ensure bucket c j shard.buckets,
    );
  }

  put_expiry-IsWellFormed :
      (t : TtlInfo)
      → is_some (lookup_in bucket key shard.buckets) ≡ true
      → positive64 t.expiry ≡ true
      → ShardIsWellFormed i
          (record shard { ttl = insert_in bucket key t (ensure bucket shard.ttl) })
  put_expiry-IsWellFormed t present pos = record {
    nodup_buckets = wf.nodup_buckets;
    nodup_ttl = NodupNested-insert_in bucket key _ (NodupNested-ensure bucket key _ wf.nodup_ttl) t;
    placed = wf.placed;
    expiry_present = λ c j u. ground (
      arith,
      wf.expiry_present c j u,
      lookup_in-insert_in bucket key c j t (ensure bucket shard.ttl),
      lookup_in-ensure bucket c j shard.ttl,
      bytes_eq_iff bucket c,
      bytes_eq_iff key j,
    );
  }

  remove-IsWellFormed : ShardIsWellFormed i (record {
    buckets = remove_in bucket key shard.buckets;
    ttl = remove_in bucket key shard.ttl;
  })
  remove-IsWellFormed = record {
    nodup_buckets = NodupNested-remove_in bucket key _ wf.nodup_buckets;
    nodup_ttl = NodupNested-remove_in bucket key _ wf.nodup_ttl;
    placed = λ c j. ground (arith, wf.placed c j, lookup_in-remove_in bucket key c j shard.buckets);
    expiry_present = λ c j t. ground (
      arith,
      wf.expiry_present c j t,
      lookup_in-remove_in bucket key c j shard.buckets,
      lookup_in-remove_in bucket key c j shard.ttl,
    );
  }

module _ (shards : Shards) (wf : IsWellFormed shards) (bucket key : Bytes) where
  at_key : ShardIsWellFormed (shard_index key) (get_shard shards key)
  unfolding get_shard
  at_key = wf (shard_index key)

  abbrev put_plain : Bytes → Shard
  put_plain value = record (get_shard shards key) {
    buckets = insert_in bucket key value (ensure bucket (get_shard shards key).buckets);
  }

  put_plain_wf : (value : Bytes) → ShardIsWellFormed (shard_index key) (put_plain value)
  put_plain_wf value =
      put_plain-IsWellFormed (shard_index key) (get_shard shards key) at_key bucket key value refl

  put_plain_present :
      (value : Bytes) → is_some (lookup_in bucket key (put_plain value).buckets) ≡ true
  put_plain_present value = ground (
    arith,
    lookup_in-insert_in bucket key bucket key value (ensure bucket (get_shard shards key).buckets),
    bytes_eq_refl bucket,
    bytes_eq_refl key,
  )

  -- A write keeps the store well formed, with or without an expiry.
  pub put_internal-IsWellFormed :
      (value : Bytes) (ttl : Int64) → IsWellFormed (put_internal shards bucket key value ttl)
  unfolding put_internal
  put_internal-IsWellFormed value ttl = elim (Bool-cases (positive64 ttl)) [
    | inl pos ↦ rw pos (
        set_shard-IsWellFormed shards (shard_index key) _ wf (
          put_expiry-IsWellFormed (shard_index key) (put_plain value) (put_plain_wf value) bucket
            key (record { expiry = ttl }) (put_plain_present value) pos))
    | inr zero_or_less ↦
        rw zero_or_less (set_shard-IsWellFormed shards (shard_index key) _ wf (put_plain_wf value))
  ]

  pub erase_entry-IsWellFormed : IsWellFormed (erase_entry shards bucket key)
  unfolding erase_entry
  erase_entry-IsWellFormed =
      set_shard-IsWellFormed shards (shard_index key) _ wf
        (remove-IsWellFormed (shard_index key) (get_shard shards key) at_key bucket key)

  -- A deletion keeps the store well formed, whether or not it finds the key.
  pub delete_internal-IsWellFormed : IsWellFormed (delete_internal shards bucket key).0
  unfolding delete_internal
  delete_internal-IsWellFormed =
      elim (Option-cases (lookup bucket (get_shard shards key).buckets)) [
        | inl missing ↦ rw (missing, delete_internal) wf
        | inr (b, found) ↦ elim (Option-cases (lookup key b)) [
          | inl missing ↦ rw (found, missing, delete_internal) wf
          | inr (val, present) ↦ rw (found, present, delete_internal) erase_entry-IsWellFormed
        ]
      ]

  pub check_ttl_and_clean-IsWellFormed :
      (now : Int64) → IsWellFormed (check_ttl_and_clean now shards bucket key).0
  unfolding check_ttl_and_clean
  check_ttl_and_clean-IsWellFormed now =
      elim (Option-cases (lookup_in bucket key (get_shard shards key).ttl)) [
        | inl missing ↦ rw (missing, check_ttl_and_clean) wf
        | inr (t, found) ↦ elim (Bool-cases (less64 t.expiry now)) [
          | inl expired ↦ rw (found, expired, check_ttl_and_clean) erase_entry-IsWellFormed
          | inr live ↦ rw (found, live, check_ttl_and_clean) wf
        ]
      ]
