-- ===== src/Storage/Wal.antt =====
-- kv-distributed/internal/storage/wal.go: the bytes of a log record, and reading a log back.
pub mod Encode
pub mod RoundTrip
pub mod Readers
pub mod Torn
use fast_kv_a_lightweight_ke.Base.{
  ℕ, zero, suc, ◌+◌, ◌*◌, ◌/◌, ◌%◌, ◌^◌, ◌<◌, Bool, List, [], ◌∷◌, ◌++◌, length, take, drop,
  replicate, none, some, if◌then◌else◌, ◌==◌, ltb, Result, ok, err, Failure, eof, unexpected_eof,
  out_of_fuel, ◌>>=◌,
}
use fast_kv_a_lightweight_ke.Base.Bytes.{Bytes}
use fast_kv_a_lightweight_ke.Base.Words.{Int64, IsInt64}

abbrev pub op_put : ℕ
op_put = 1

abbrev pub op_del : ℕ
op_del = 2

-- The arguments of `Append`, `writeOpToTemp` and of the callback of `Replay`.
pub record LogRecord : Type 0 where
  pub op : ℕ
  pub bucket : Bytes
  pub key : Bytes
  pub value : Bytes
  pub ttl : Int64

-- The `count` bytes that `binary.LittleEndian.PutUintN` writes, and the number that is read back.
unfoldable pub le_bytes : ℕ → ℕ → Bytes
le_bytes zero n = []
le_bytes (suc count) n = (n % 256) ∷ le_bytes count (n / 256)

unfoldable pub from_le : Bytes → ℕ
from_le [] = 0
from_le (b ∷ bs) = b + 256 * from_le bs

-- `copy(buf[offset:], src)`
unfoldable pub copy_at : Bytes → ℕ → Bytes → Bytes
copy_at [] offset src = []
copy_at (b ∷ buf) zero [] = b ∷ buf
copy_at (b ∷ buf) zero (s ∷ src) = s ∷ copy_at buf zero src
copy_at (b ∷ buf) (suc offset) src = b ∷ copy_at buf offset src

-- The buffer that `Append` and `writeOpToTemp` fill and write. The lengths are cast to `uint16` and
-- `uint32`.
unfoldable pub fill_buffer : LogRecord → Bytes
unfolding copy_at le_bytes
fill_buffer r =
    let size : ℕ = 1 + 2 + length r.bucket + 2 + length r.key + 8 + 4 + length r.value in
    let buf0 : Bytes = replicate size 0 in
    let buf1 : Bytes = copy_at buf0 0 (r.op ∷ []) in
    let buf2 : Bytes = copy_at buf1 1 (le_bytes 2 (length r.bucket % 2 ^ 16)) in
    let buf3 : Bytes = copy_at buf2 3 r.bucket in
    let offset3 : ℕ = 3 + length r.bucket in
    let buf4 : Bytes = copy_at buf3 offset3 (le_bytes 2 (length r.key % 2 ^ 16)) in
    let offset4 : ℕ = offset3 + 2 in
    let buf5 : Bytes = copy_at buf4 offset4 r.key in
    let offset5 : ℕ = offset4 + length r.key in
    let buf6 : Bytes = copy_at buf5 offset5 (le_bytes 8 r.ttl) in
    let offset6 : ℕ = offset5 + 8 in
    let buf7 : Bytes = copy_at buf6 offset6 (le_bytes 4 (length r.value % 2 ^ 32)) in
    let offset7 : ℕ = offset6 + 4 in
    if ltb 0 (length r.value) then copy_at buf7 offset7 r.value else buf7

-- `io.ReadFull` of `n` bytes: an end of the file before the first and after it are two errors.
unfoldable pub read_full : ℕ → Bytes → Result (Bytes × Bytes)
read_full zero bytes = ok ([], bytes)
read_full (suc n) [] = err eof
read_full (suc n) (b ∷ bytes) =
    if ltb (length bytes) n then err unexpected_eof else ok (b ∷ take n bytes, drop n bytes)

-- `binary.Read` of an unsigned number of `count` bytes
unfoldable pub read_number : ℕ → Bytes → Result (ℕ × Bytes)
unfolding read_full from_le
read_number count bytes = do (field, rest) ← read_full count bytes; ok (from_le field, rest)

-- One round of the loop of `Replay` behind the operation's byte: the record, and what follows it.
-- `read_full 0` is the empty value that the code leaves unread.
unfoldable pub read_record : ℕ → Bytes → Result (LogRecord × Bytes)
unfolding read_number
read_record op bytes0 = do
  (bucket_len, bytes1) ← read_number 2 bytes0
  (bucket, bytes2) ← read_full bucket_len bytes1
  (key_len, bytes3) ← read_number 2 bytes2
  (key, bytes4) ← read_full key_len bytes3
  (ttl, bytes5) ← read_number 8 bytes4
  (value_len, bytes6) ← read_number 4 bytes5
  (value, bytes7) ← read_full value_len bytes6
  ok (record { op = op; bucket = bucket; key = key; value = value; ttl = ttl }, bytes7)

pub record Replayed {ℓ} (S : Type ℓ) : Type ℓ where
  pub state : S
  pub op_count : ℕ
  pub failure : Failure

-- `Replay`: the callback `apply` acts on a state. Each round takes a byte at least, so as many
-- rounds as the file has bytes are enough.
module _ {ℓ} {S : Type ℓ} (apply : S → LogRecord → S) where
  unfoldable pub replay_loop : ℕ → Bytes → S → ℕ → Replayed S
  replay_loop fuel [] s op_count = record { state = s; op_count = op_count; failure = none }
  replay_loop zero (op ∷ bytes) s op_count = record {
    state = s;
    op_count = op_count;
    failure = some out_of_fuel;
  }
  replay_loop (suc fuel) (op ∷ bytes) s op_count = elim (read_record op bytes) [
    | ok (r, rest) ↦ replay_loop fuel rest (apply s r) (op_count + 1)
    | err e ↦ record { state = s; op_count = op_count; failure = some e }
  ]

  unfoldable pub replay : Bytes → S → ℕ → Replayed S
  unfolding replay_loop
  replay bytes s op_count = replay_loop (length bytes) bytes s op_count
