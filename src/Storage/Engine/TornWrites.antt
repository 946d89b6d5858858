-- ===== src/Storage/Engine/TornWrites.antt =====
-- What is written behind the bytes of a write that failed.
use fast_kv_a_lightweight_ke.Base.{
  ℕ, zero, suc, ◌+◌, ◌*◌, ◌%◌, ◌/◌, ◌^◌, ◌<◌, ◌≡◌, refl, none, some, [], ◌∷◌, ◌++◌, length,
  length-append, append_assoc, arith, Failure, ok, err, unexpected_eof, take,
}
use fast_kv_a_lightweight_ke.Base.Bytes.{Bytes, bytes_eq_refl}
use fast_kv_a_lightweight_ke.Storage.Memory.{new_shards}
use fast_kv_a_lightweight_ke.Storage.Memory.View.{value_at, value_at-put}
use fast_kv_a_lightweight_ke.Storage.Wal.{
  LogRecord, le_bytes, from_le, read_full, read_number, read_record,
}
use fast_kv_a_lightweight_ke.Storage.Wal.Encode.{encode, length-le_bytes}
use fast_kv_a_lightweight_ke.Storage.Wal.RoundTrip.{encode_all}
use fast_kv_a_lightweight_ke.Storage.Wal.Torn.{replay_unreadable}
use fast_kv_a_lightweight_ke.Storage.Engine.{
  Disk, Io, Storage, content, log_op, apply_record, put_record, put,
}
use fast_kv_a_lightweight_ke.Storage.Engine.Logging.{
  restart, restart_lem, log_op_lem, log_op-Logs, filename-log_op,
}
use fast_kv_a_lightweight_ke.Storage.Engine.Recovery.{IsDurable}
use fast_kv_a_lightweight_ke.Storage.Engine.Writes.{put_cut, put_whole}

read_full_short :
    (n b : ℕ) (bytes : Bytes)
    → suc (length bytes) < n
    → read_full n (b ∷ bytes) ≡ err unexpected_eof
unfolding read_full
read_full_short zero b bytes h = absurd (omega arith)
read_full_short (suc n) b bytes h = ground arith

-- The fields of a record behind the low byte of its bucket's length.
abbrev behind_low : LogRecord → Bytes
behind_low r =
    r.bucket
    ++ (le_bytes 2 (length r.key % 2 ^ 16)
        ++ (r.key ++ (le_bytes 8 r.ttl ++ (le_bytes 4 (length r.value % 2 ^ 32) ++ r.value))))

length-behind_low :
    (r : LogRecord) → length (behind_low r) ≡ length r.bucket + length r.key + length r.value + 14
length-behind_low r = simp (length-append, length-le_bytes) (omega arith)

encode-low :
    (r : LogRecord)
    → encode r
      ≡ r.op
        ∷ (length r.bucket % 2 ^ 16 % 256)
        ∷ (length r.bucket % 2 ^ 16 / 256 % 256)
        ∷ behind_low r
unfolding encode le_bytes
encode-low r = refl

read_number-low : (a b : ℕ) (rest : Bytes) → read_number 2 (a ∷ b ∷ rest) ≡ ok (a + 256 * b, rest)
unfolding read_number from_le read_full
read_number-low a b rest = ground arith

-- Read one byte late, a small record seems to announce a bucket longer than itself.
shifted_unreadable :
    (r : LogRecord) (op : ℕ)
    → r.op ≡ 1
    → length r.bucket < 256
    → length r.key + length r.value + 14 < 255 * length r.bucket
    → read_record op (encode r) ≡ err unexpected_eof
unfolding read_record
shifted_unreadable r op is_put small few = rw (
  encode-low r,
  read_number-low r.op (length r.bucket % 2 ^ 16 % 256) _,
  read_full_short (r.op + 256 * (length r.bucket % 2 ^ 16 % 256)) _ (behind_low r)
      (omega (arith, length-behind_low r)),
)

first_byte : (r : LogRecord) → take 1 (encode r) ≡ r.op ∷ []
unfolding encode
first_byte r = refl

-- The file after a write of one byte and a whole write.
shifted_file :
    (filename : Bytes) (s : Storage) (d : IsDurable filename s) (r1 r2 : LogRecord)
    (torn whole : Io)
    → torn.fault ≡ some 1
    → whole.fault ≡ none
    → content filename (log_op (log_op s r1 torn).0 r2 whole).0.disk
      ≡ encode_all d.records ++ r1.op ∷ encode r2
shifted_file filename s d r1 r2 torn whole cut fine = ground (
  arith,
  cut,
  fine,
  log_op_lem s d.logs r1 torn,
  log_op_lem (log_op s r1 torn).0 (log_op-Logs s d.logs r1 torn) r2 whole,
  filename-log_op s d.logs r1 torn,
  d.named,
  d.logged,
  first_byte r1,
  append_assoc (encode_all d.records) (r1.op ∷ []) (encode r2),
)

-- A restart stops at the shifted record.
restart_shifted :
    (filename : Bytes) (s : Storage) (d : IsDurable filename s) (op : ℕ) (r : LogRecord)
    (disk : Disk)
    → content filename disk ≡ encode_all d.records ++ op ∷ encode r
    → read_record op (encode r) ≡ err unexpected_eof
    → (restart disk filename).0.shards ≡ s.shards
restart_shifted filename s d op r disk file unread = ground (
  arith,
  file,
  restart_lem disk filename,
  replay_unreadable apply_record d.records op (encode r) unexpected_eof new_shards 0 d.fits unread,
  d.rebuilt,
)

-- After a write that left one byte of its record in the file, the next `Put` is acknowledged and
-- read back, and is gone after a restart: the byte makes its record unreadable. So it is for every
-- bucket of 1 to 255 bytes and for keys and values that are not much longer.
pub acknowledged_put_lost :
    (filename : Bytes) (s : Storage) (d : IsDurable filename s)
    (bucket key value torn_bucket torn_key torn_value : Bytes) (torn whole : Io)
    → torn.fault ≡ some 1
    → whole.fault ≡ none
    → length bucket < 256
    → length key + length value + 14 < 255 * length bucket
    → let s1 : Storage = (put s torn_bucket torn_key torn_value torn).0 in
      let s2 : Storage × Failure = put s1 bucket key value whole in
      (s2.1 ≡ none)
      × (value_at s2.0.shards bucket key ≡ some value)
      × ((restart s2.0.disk filename).0.shards ≡ s.shards)
acknowledged_put_lost filename s d bucket key value torn_bucket torn_key torn_value torn whole cut
      fine small few =
    let r1 : LogRecord = put_record torn_bucket torn_key torn_value 0 in
    let r2 : LogRecord = put_record bucket key value 0 in
    let s1 : Storage = (log_op s r1 torn).0 in
    rw
      (
        put_cut filename s d torn_bucket torn_key torn_value torn 1 cut,
        put_whole s1 (log_op-Logs s d.logs r1 torn) bucket key value whole fine,
      )
      (
        refl,
        ground (
          arith,
          value_at-put s1.shards bucket key bucket key value 0,
          bytes_eq_refl bucket,
          bytes_eq_refl key,
        ),
        restart_shifted filename s d 1 r2 (log_op s1 r2 whole).0.disk
            (shifted_file filename s d r1 r2 torn whole cut fine)
            (shifted_unreadable r2 1 refl small few),
      )
