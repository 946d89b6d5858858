-- ===== src/Storage/Engine/Limits.antt =====
-- Where the store answers otherwise than its callers may expect.
use fast_kv_a_lightweight_ke.Base.{
  ℕ, ◌+◌, ◌%◌, ◌^◌, ◌≤◌, ◌<◌, ◌≡◌, ◌≢◌, refl, sym, ap, ◌∙◌, false, none, length, arith, Result, ok,
  err, ◌>>=◌, >>=-eq-ok, key_expired,
}
use fast_kv_a_lightweight_ke.Base.Bytes.{Bytes}
use fast_kv_a_lightweight_ke.Base.Words.{Int64, positive64, add64}
use fast_kv_a_lightweight_ke.Storage.Memory.{get}
use fast_kv_a_lightweight_ke.Storage.Memory.View.{get-answer}
use fast_kv_a_lightweight_ke.Storage.Memory.Reads.{get-put_plain}
use fast_kv_a_lightweight_ke.Storage.Wal.{
  LogRecord, fill_buffer, read_full, read_number, read_record,
}
use fast_kv_a_lightweight_ke.Storage.Wal.Encode.{fill_buffer-encode, length-encode}
use fast_kv_a_lightweight_ke.Storage.Wal.RoundTrip.{body, read_full-append, read_number-le_bytes}
use fast_kv_a_lightweight_ke.Storage.Wal.Readers.{read_full-parts}
use fast_kv_a_lightweight_ke.Storage.Engine.{
  Io, Storage, append, log_op, put_record, put_expiring, put,
}
use fast_kv_a_lightweight_ke.Storage.Engine.Logging.{Logs, shards-log_op}

pub zero_is_no_expiry : positive64 0 ≡ false
unfolding positive64
zero_is_no_expiry = refl

-- A `Put` that answers success over an expired key leaves the key expired: what was written cannot
-- be read.
pub put_over_expired :
    (now : Int64) (s : Storage) (bucket key value : Bytes) (io : Io)
    → get now s.shards bucket key ≡ err key_expired
    → (put s bucket key value io).1 ≡ none
    → get now (put s bucket key value io).0.shards bucket key ≡ err key_expired
unfolding put put_expiring
put_over_expired now s bucket key value io expired done = ground (
  arith,
  shards-log_op s (put_record bucket key value 0) io,
  get-answer now s.shards bucket key,
  get-put_plain now s.shards bucket key value 0 zero_is_no_expiry,
)

-- The counter of written bytes grows by four more than the record that was written.
pub bytes_overcounted :
    (s : Storage) (logs : Logs s) (r : LogRecord) (io : Io)
    → io.fault ≡ none
    → (log_op s r io).0.wal_bytes_written ≡ add64 s.wal_bytes_written (length (fill_buffer r) + 4)
unfolding log_op append
bytes_overcounted s logs r io whole =
    ground (arith, whole, logs.uses, logs.opened, fill_buffer-encode r, length-encode r)

-- The reads behind the key's keep the key.
abbrev after_key : ℕ → Bytes → Bytes → Bytes → Result (LogRecord × Bytes)
after_key op bucket key bytes4 = do
  (ttl, bytes5) ← read_number 8 bytes4
  (value_len, bytes6) ← read_number 4 bytes5
  (value, bytes7) ← read_full value_len bytes6
  ok (record { op = op; bucket = bucket; key = key; value = value; ttl = ttl }, bytes7)

long_differs : (k key : Bytes) → length k ≡ length key % 2 ^ 16 → 2 ^ 16 ≤ length key → k ≢ key
long_differs k key short long e = omega (arith, ap length e)

key-after_key :
    (op : ℕ) (bucket key bytes4 : Bytes) (q : LogRecord) (left : Bytes)
    → after_key op bucket key bytes4 ≡ ok (q, left)
    → q.key ≡ key
key-after_key op bucket key bytes4 q left h = ground arith

-- A record whose key is longer than the log's field can say is written, but whatever is read back
-- from its bytes has another key: one of the length cut to 16 bits.
pub long_key_lost :
    (r q : LogRecord) (rest left : Bytes)
    → length r.bucket < 2 ^ 16
    → 2 ^ 16 ≤ length r.key
    → read_record r.op (body r rest) ≡ ok (q, left)
    → (length q.key ≡ length r.key % 2 ^ 16) × (q.key ≢ r.key)
unfolding read_record
long_key_lost r q rest left bucket_fits long read =
    let behind_bucket =
      rw
        (
          read_number-le_bytes 2 (length r.bucket % 2 ^ 16) _ (omega arith),
          read_full-append (length r.bucket % 2 ^ 16) r.bucket _ (omega arith),
          read_number-le_bytes 2 (length r.key % 2 ^ 16) _ (omega arith),
        )
        at read in
    let key_read = >>=-eq-ok _ _ behind_bucket in
    let same : q.key ≡ key_read.0.0 =
      key-after_key r.op r.bucket key_read.0.0 key_read.0.1 q left key_read.2 in
    let short : length key_read.0.0 ≡ length r.key % 2 ^ 16 =
      sym (read_full-parts _ _ _ _ key_read.1).1 in
    let read_short : length q.key ≡ length r.key % 2 ^ 16 = ap length same ∙ short in
    (read_short, λ e. long_differs q.key r.key read_short long e)
