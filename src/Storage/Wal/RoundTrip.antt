-- ===== src/Storage/Wal/RoundTrip.antt =====
-- Reading back what was written.
use fast_kv_a_lightweight_ke.Base.{
  ℕ, zero, suc, ◌+◌, ◌-◌, ◌%◌, ◌^◌, ◌≤◌, ◌<◌, ◌≡◌, refl, sym, ap, ap₂, ◌∙◌, List, [], ◌∷◌, ◌++◌,
  length, length-append, append-nil, append_assoc, take-append, drop-append, foldl, none, arith,
  All, ok,
}
use fast_kv_a_lightweight_ke.Base.Bytes.{Bytes}
use fast_kv_a_lightweight_ke.Base.Words.{IsInt64}
use fast_kv_a_lightweight_ke.Storage.Wal.{
  LogRecord, le_bytes, read_full, read_number, read_record, replay_loop, replay,
}
use fast_kv_a_lightweight_ke.Storage.Wal.Encode.{encode, length-le_bytes, from_le-le_bytes}
use native.Mathlib.Nat.{add-zero, sub-zero}

-- The lengths fit the fields that hold them, and the expiry is an `int64`.
pub record IsEncodable (r : LogRecord) : Type 0 where
  pub bucket_fits : length r.bucket < 2 ^ 16
  pub key_fits : length r.key < 2 ^ 16
  pub value_fits : length r.value < 2 ^ 32
  pub ttl_fits : IsInt64 r.ttl

-- `ReadFull` of exactly the bytes of `front`.
pub read_full-append :
    (n : ℕ) (front rest : Bytes) → n ≡ length front → read_full n (front ++ rest) ≡ ok (front, rest)
unfolding read_full
read_full-append zero [] rest h = refl
read_full-append zero (b ∷ front) rest h = absurd (omega arith)
read_full-append (suc n) [] rest h = absurd (omega arith)
read_full-append (suc n) (b ∷ front) rest h =
    let e : n ≡ length front = omega arith in
    ground (arith, e, length-append front rest, take-append front rest, drop-append front rest)

pub read_number-le_bytes :
    (count n : ℕ) (rest : Bytes)
    → n < 256 ^ count
    → read_number count (le_bytes count n ++ rest) ≡ ok (n, rest)
unfolding read_number
read_number-le_bytes count n rest h =
    rw (read_full-append count (le_bytes count n) rest (sym (length-le_bytes count n)))
      (ap (λ x. ok (x, rest)) (from_le-le_bytes count n h))

-- The bytes of `encode r` behind the operation's.
abbrev pub body : LogRecord → Bytes → Bytes
body r rest =
    le_bytes 2 (length r.bucket % 2 ^ 16)
    ++ (r.bucket
        ++ (le_bytes 2 (length r.key % 2 ^ 16)
            ++ (r.key
                ++ (le_bytes 8 r.ttl
                    ++ (le_bytes 4 (length r.value % 2 ^ 32) ++ (r.value ++ rest))))))

pub encode-append : (r : LogRecord) (rest : Bytes) → encode r ++ rest ≡ r.op ∷ body r rest
unfolding encode
encode-append r rest = simp append_assoc

-- A record whose fields fit is read back whole, and what follows it is left.
pub read_record-body :
    (r : LogRecord) (rest : Bytes) → IsEncodable r → read_record r.op (body r rest) ≡ ok (r, rest)
unfolding read_record
read_record-body r rest fits = rw (
  read_number-le_bytes 2 (length r.bucket % 2 ^ 16) _ (omega arith),
  read_full-append (length r.bucket % 2 ^ 16) r.bucket _ (omega arith),
  read_number-le_bytes 2 (length r.key % 2 ^ 16) _ (omega arith),
  read_full-append (length r.key % 2 ^ 16) r.key _ (omega arith),
  read_number-le_bytes 8 r.ttl _ (omega arith),
  read_number-le_bytes 4 (length r.value % 2 ^ 32) _ (omega arith),
  read_full-append (length r.value % 2 ^ 32) r.value rest (omega arith),
)

-- The records of a log, one after the other.
unfoldable pub encode_all : List LogRecord → Bytes
encode_all [] = []
encode_all (r ∷ rs) = encode r ++ encode_all rs

pub encode_all-append :
    (rs qs : List LogRecord) → encode_all (rs ++ qs) ≡ encode_all rs ++ encode_all qs
unfolding encode_all
encode_all-append [] qs = refl
encode_all-append (r ∷ rs) qs =
    ap (◌++◌ (encode r)) (encode_all-append rs qs) ∙ sym (append_assoc (encode r) _ _)

pub encode_all-snoc :
    (rs : List LogRecord) (r : LogRecord) → encode_all (rs ++ r ∷ []) ≡ encode_all rs ++ encode r
encode_all-snoc rs r =
    encode_all-append rs (r ∷ [])
    ∙ ap (◌++◌ (encode_all rs)) (unfold encode_all in append-nil (encode r))

module _ {ℓ} {S : Type ℓ} (apply : S → LogRecord → S) where
  -- One round of the loop on a whole record.
  replay_loop-encode :
      (fuel : ℕ) (r : LogRecord) (rest : Bytes) (s : S) (n : ℕ)
      → IsEncodable r
      → replay_loop apply (suc fuel) (encode r ++ rest) s n
        ≡ replay_loop apply fuel rest (apply s r) (n + 1)
  replay_loop-encode fuel r rest s n fits =
      rw (encode-append r rest)
        (unfold replay_loop in rw (read_record-body r rest fits, replay_loop))

  encode-grows : (r : LogRecord) (rest : Bytes) → suc (length rest) ≤ length (encode r ++ rest)
  encode-grows r rest = rw length-append (unfold encode in omega arith)

  -- The loop over whole records and whatever follows them.
  pub replay_loop-encode_all :
      (rs : List LogRecord) (fuel : ℕ) (rest : Bytes) (s : S) (n : ℕ)
      → All IsEncodable rs
      → length rs ≤ fuel
      → replay_loop apply fuel (encode_all rs ++ rest) s n
        ≡ replay_loop apply (fuel - length rs) rest (foldl apply s rs) (n + length rs)
  unfolding encode_all
  replay_loop-encode_all [] fuel rest s n fits h = rw (add-zero n, sub-zero fuel)
  replay_loop-encode_all (r ∷ rs) zero rest s n fits h = absurd (omega arith)
  replay_loop-encode_all (r ∷ rs) (suc fuel) rest s n fits h =
      rw (append_assoc (encode r) (encode_all rs) rest) (
        replay_loop-encode fuel r (encode_all rs ++ rest) s n fits.0
        ∙ replay_loop-encode_all rs fuel rest (apply s r) (n + 1) fits.1 (omega arith)
        ∙ ap₂ (λ f m. replay_loop apply f rest (foldl apply (apply s r) rs) m) (omega arith)
            (omega arith))

  pub length-le-encode_all : (rs : List LogRecord) → length rs ≤ length (encode_all rs)
  unfolding encode_all
  length-le-encode_all [] = omega arith
  length-le-encode_all (r ∷ rs) =
      omega (arith, encode-grows r (encode_all rs), length-le-encode_all rs)

  replay_loop-nil :
      (fuel : ℕ) (s : S) (n : ℕ)
      → replay_loop apply fuel [] s n ≡ record { state = s; op_count = n; failure = none }
  unfolding replay_loop
  replay_loop-nil zero s n = refl
  replay_loop-nil (suc fuel) s n = refl

  -- A log of records that fit is replayed whole, in order: the callback is applied to each record,
  -- the operations are counted, and there is no error.
  pub replay-encode_all :
      (rs : List LogRecord) (s : S) (n : ℕ)
      → All IsEncodable rs
      → replay apply (encode_all rs) s n
        ≡ record { state = foldl apply s rs; op_count = n + length rs; failure = none }
  unfolding replay
  replay-encode_all rs s n fits =
      ap (λ bytes. replay_loop apply (length (encode_all rs)) bytes s n)
        (sym (append-nil (encode_all rs)))
      ∙ replay_loop-encode_all rs (length (encode_all rs)) [] s n fits (length-le-encode_all rs)
      ∙ replay_loop-nil (length (encode_all rs) - length rs) _ _
