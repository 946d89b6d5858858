-- ===== src/Storage/Memory/Reads.antt =====
-- Reads after writes, deletions and clean-ups.
use fast_kv_a_lightweight_ke.Base.{
  ◌≡◌, true, false, ◌&&◌, not, is_some, arith, if◌then◌else◌, ok, err, key_expired, key_not_found,
}
use fast_kv_a_lightweight_ke.Base.Bytes.{Bytes, bytes_eq_iff, bytes_eq_refl}
use fast_kv_a_lightweight_ke.Base.Words.{Int64, positive64, less64}
use fast_kv_a_lightweight_ke.Storage.Memory.{
  Shards, put_internal, erase_entry, delete_internal, get, check_ttl_and_clean,
}
use fast_kv_a_lightweight_ke.Storage.Memory.Invariant.{IsWellFormed}
use fast_kv_a_lightweight_ke.Storage.Memory.View.{
  value_at, expiry_at, same_entry, is_expired, get-answer, value_at-put, expiry_at-put,
  delete_cases, value_at-delete, expiry_at-delete, value_at-erase, expiry_at-erase,
}

module _ (now : Int64) (shards : Shards) (bucket key : Bytes) where
  -- After a write with an expiry, a read returns the value until the clock has passed the expiry,
  -- and then the error for an expired key.
  pub get-put_expiring :
      (value : Bytes) (ttl : Int64)
      → positive64 ttl ≡ true
      → get now (put_internal shards bucket key value ttl) bucket key
        ≡ (if less64 ttl now then err key_expired else ok value)
  get-put_expiring value ttl pos = ground (
    arith,
    get-answer now (put_internal shards bucket key value ttl) bucket key,
    value_at-put shards bucket key bucket key value ttl,
    expiry_at-put shards bucket key bucket key value ttl,
    bytes_eq_refl bucket,
    bytes_eq_refl key,
  )

  -- After a write without an expiry, a read is judged by the expiry that the key had before: the
  -- write does not clear it.
  pub get-put_plain :
      (value : Bytes) (ttl : Int64)
      → positive64 ttl ≡ false
      → get now (put_internal shards bucket key value ttl) bucket key
        ≡ (if is_expired now (expiry_at shards bucket key) then err key_expired else ok value)
  get-put_plain value ttl zero = ground (
    arith,
    get-answer now (put_internal shards bucket key value ttl) bucket key,
    value_at-put shards bucket key bucket key value ttl,
    expiry_at-put shards bucket key bucket key value ttl,
    bytes_eq_refl bucket,
    bytes_eq_refl key,
  )

  -- A deletion of a stored key, expired or not, succeeds, and any other fails; after it a read
  -- finds no key.
  pub get-delete :
      IsWellFormed shards
      → (get now (delete_internal shards bucket key).0 bucket key ≡ err key_not_found)
        × (is_some (delete_internal shards bucket key).1
            ≡ not (is_some (value_at shards bucket key)))
  get-delete wf = ground (
    arith,
    get-answer now (delete_internal shards bucket key).0 bucket key,
    value_at-delete shards bucket key bucket key,
    expiry_at-delete shards bucket key bucket key wf,
    delete_cases shards bucket key,
    bytes_eq_refl bucket,
    bytes_eq_refl key,
  )

module _ (now : Int64) (shards : Shards) (bucket key c j : Bytes) where
  -- Writes and deletions of one entry do not change what a read of another entry answers.
  pub get-other :
      (value : Bytes) (ttl : Int64)
      → IsWellFormed shards
      → same_entry bucket key c j ≡ false
      → (get now (put_internal shards bucket key value ttl) c j ≡ get now shards c j)
        × (get now (delete_internal shards bucket key).0 c j ≡ get now shards c j)
  get-other value ttl wf other = (
    ground (
      arith,
      other,
      get-answer now shards c j,
      get-answer now (put_internal shards bucket key value ttl) c j,
      value_at-put shards bucket key c j value ttl,
      expiry_at-put shards bucket key c j value ttl,
    ),
    ground (
      arith,
      other,
      get-answer now shards c j,
      get-answer now (delete_internal shards bucket key).0 c j,
      value_at-delete shards bucket key c j,
      expiry_at-delete shards bucket key c j wf,
    ),
  )

clean_cases :
    (now : Int64) (shards : Shards) (bucket key : Bytes)
    → check_ttl_and_clean now shards bucket key ≡ (
        if is_expired now (expiry_at shards bucket key)
        then (erase_entry shards bucket key, false)
        else (shards, true))
unfolding check_ttl_and_clean expiry_at
clean_cases now shards bucket key = ground arith

-- What a read finds is not changed by a clean-up but for the key that it found expired, which is
-- gone from then on.
pub get-check_ttl_and_clean :
    (now : Int64) (shards : Shards) (bucket key c j : Bytes)
    → get now (check_ttl_and_clean now shards bucket key).0 c j ≡ (
        if same_entry bucket key c j && is_expired now (expiry_at shards c j)
        then err key_not_found
        else get now shards c j)
get-check_ttl_and_clean now shards bucket key c j = ground (
  arith,
  clean_cases now shards bucket key,
  get-answer now shards c j,
  get-answer now (erase_entry shards bucket key) c j,
  value_at-erase shards bucket key c j,
  expiry_at-erase shards bucket key c j,
  bytes_eq_iff bucket c,
  bytes_eq_iff key j,
)
