-- ===== src/Storage/Engine/Expiry.antt =====
-- `PutWithTTL` by the numbers: how long a key can be read, and what its sum on `int64` does when it
-- overflows.
use fast_kv_a_lightweight_ke.Base.{
  ◌+◌, ◌^◌, ◌≤◌, ◌<◌, ◌≡◌, true, false, none, some, leb, if◌then◌else◌, ok, err, key_expired, arith,
}
use fast_kv_a_lightweight_ke.Base.Bytes.{Bytes, bytes_eq_refl}
use fast_kv_a_lightweight_ke.Base.Words.{Int64, add64, less64, positive64}
use fast_kv_a_lightweight_ke.Storage.Memory.{put_internal, get}
use fast_kv_a_lightweight_ke.Storage.Memory.View.{value_at, expiry_at, value_at-put, expiry_at-put}
use fast_kv_a_lightweight_ke.Storage.Memory.Reads.{get-put_expiring}
use fast_kv_a_lightweight_ke.Storage.Engine.{
  Io, Storage, put_record, put_expiring, expiry_of, put_with_ttl,
}
use fast_kv_a_lightweight_ke.Storage.Engine.Logging.{shards-log_op}

-- The expiry is the sum, if that is an `int64`.
expiry-in_range :
    (now ttl_seconds : Int64)
    → 0 < ttl_seconds
    → now + ttl_seconds < 2 ^ 63
    → (expiry_of now ttl_seconds ≡ now + ttl_seconds)
      × (positive64 (expiry_of now ttl_seconds) ≡ true)
unfolding expiry_of positive64 less64 add64
expiry-in_range now ttl_seconds some_time fits = ground arith

-- Otherwise it is negative.
expiry-overflow :
    (now ttl_seconds : Int64)
    → now < 2 ^ 63
    → ttl_seconds < 2 ^ 63
    → 2 ^ 63 ≤ now + ttl_seconds
    → positive64 (expiry_of now ttl_seconds) ≡ false
unfolding expiry_of positive64 less64 add64
expiry-overflow now ttl_seconds clock seconds over = ground arith

shards-put_with_ttl :
    (now : Int64) (s : Storage) (bucket key value : Bytes) (ttl_seconds : Int64) (io : Io)
    → (put_with_ttl now s bucket key value ttl_seconds io).1 ≡ none
    → (put_with_ttl now s bucket key value ttl_seconds io).0.shards
      ≡ put_internal s.shards bucket key value (expiry_of now ttl_seconds)
unfolding put_with_ttl put_expiring
shards-put_with_ttl now s bucket key value ttl_seconds io done =
    ground (arith, shards-log_op s (put_record bucket key value (expiry_of now ttl_seconds)) io)

module _ (now : Int64) (s : Storage) (bucket key value : Bytes) (ttl_seconds : Int64) (io : Io)
    (done : (put_with_ttl now s bucket key value ttl_seconds io).1 ≡ none) where
  -- A key that was put at `now` for a positive number of seconds, with a sum that is an `int64`, is
  -- read as it was put up to and at the second `now + ttl_seconds`, and as expired from then on.
  pub ttl_window :
      (later : Int64)
      → 0 < ttl_seconds
      → now + ttl_seconds < 2 ^ 63
      → later < 2 ^ 63
      → get later (put_with_ttl now s bucket key value ttl_seconds io).0.shards bucket key
        ≡ (if leb later (now + ttl_seconds) then ok value else err key_expired)
  unfolding less64
  ttl_window later some_time fits clock = ground (
    arith,
    shards-put_with_ttl now s bucket key value ttl_seconds io done,
    expiry-in_range now ttl_seconds some_time fits,
    get-put_expiring later s.shards bucket key value (expiry_of now ttl_seconds),
  )

  -- A key that is put with so many seconds that the sum overflows is put without an expiry: it has
  -- the value, and expires only if, and when, it would have before.
  pub ttl_overflow :
      now < 2 ^ 63
      → ttl_seconds < 2 ^ 63
      → 2 ^ 63 ≤ now + ttl_seconds
      → (value_at (put_with_ttl now s bucket key value ttl_seconds io).0.shards bucket key
          ≡ some value)
        × (expiry_at (put_with_ttl now s bucket key value ttl_seconds io).0.shards bucket key
            ≡ expiry_at s.shards bucket key)
  ttl_overflow clock seconds over = ground (
    arith,
    shards-put_with_ttl now s bucket key value ttl_seconds io done,
    expiry-overflow now ttl_seconds clock seconds over,
    value_at-put s.shards bucket key bucket key value (expiry_of now ttl_seconds),
    expiry_at-put s.shards bucket key bucket key value (expiry_of now ttl_seconds),
    bytes_eq_refl bucket,
    bytes_eq_refl key,
  )
