-- ===== src/Storage/Wal/Encode.antt =====
-- What the buffer holds when it is written: the fields one after the other.
use fast_kv_a_lightweight_ke.Base.{
  ℕ, zero, suc, ◌+◌, ◌/◌, ◌%◌, ◌^◌, ◌<◌, ◌≡◌, refl, sym, ap, ◌∙◌, List, [], ◌∷◌, ◌++◌, length,
  replicate, length-append, append-nil, append_assoc, lt→ltb, arith,
}
use fast_kv_a_lightweight_ke.Base.Bytes.{Bytes}
use fast_kv_a_lightweight_ke.Storage.Wal.{LogRecord, le_bytes, from_le, copy_at, fill_buffer}
use native.Mathlib.Nat.{zero-add, suc-add, pow-suc}
use mathlib.Core.List.{flatten}

pub length-le_bytes : (count n : ℕ) → length (le_bytes count n) ≡ count
unfolding le_bytes
length-le_bytes zero n = refl
length-le_bytes (suc count) n = ap suc (length-le_bytes count (n / 256))

-- A number that fits its bytes is read back.
pub from_le-le_bytes : (count n : ℕ) → n < 256 ^ count → from_le (le_bytes count n) ≡ n
unfolding from_le le_bytes
from_le-le_bytes zero n h = omega arith
from_le-le_bytes (suc count) n h =
    omega (arith, pow-suc 256 count, from_le-le_bytes count (n / 256))

-- The format of a record.
unfoldable pub encode : LogRecord → Bytes
encode r =
    r.op
    ∷ (le_bytes 2 (length r.bucket % 2 ^ 16)
        ++ (r.bucket
            ++ (le_bytes 2 (length r.key % 2 ^ 16)
                ++ (r.key
                    ++ (le_bytes 8 r.ttl ++ (le_bytes 4 (length r.value % 2 ^ 32) ++ r.value))))))

copy_at-nil : (buf : Bytes) (offset : ℕ) → copy_at buf offset [] ≡ buf
unfolding copy_at
copy_at-nil [] offset = refl
copy_at-nil (b ∷ buf) zero = refl
copy_at-nil (b ∷ buf) (suc offset) = ap (◌∷◌ b) (copy_at-nil buf offset)

copy_at-front :
    (src : Bytes) (n : ℕ) → copy_at (replicate (length src + n) 0) 0 src ≡ src ++ replicate n 0
unfolding copy_at
copy_at-front [] n = rw (zero-add n) (copy_at-nil (replicate n 0) 0)
copy_at-front (s ∷ src) n = rw (suc-add (length src) n) (ap (◌∷◌ s) (copy_at-front src n))

copy_at-append :
    (pre buf src : Bytes) → copy_at (pre ++ buf) (length pre) src ≡ pre ++ copy_at buf 0 src
unfolding copy_at
copy_at-append [] buf src = refl
copy_at-append (p ∷ pre) buf src = ap (◌∷◌ p) (copy_at-append pre buf src)

-- The copies one after the other, each behind the last.
fill : Bytes → ℕ → List Bytes → Bytes
fill buf offset [] = buf
fill buf offset (src ∷ rest) = fill (copy_at buf offset src) (offset + length src) rest

fill-flatten :
    (fields : List Bytes) (pre : Bytes) (offset : ℕ)
    → offset ≡ length pre
    → fill (pre ++ replicate (length (flatten fields)) 0) offset fields ≡ pre ++ flatten fields
unfolding fill flatten
fill-flatten [] pre offset at = refl
fill-flatten (src ∷ rest) pre offset at =
    let n : ℕ = length (flatten rest) in
    let copied : copy_at (pre ++ replicate (length (src ++ flatten rest)) 0) offset src
        ≡ (pre ++ src) ++ replicate n 0 =
      rw (at, length-append src (flatten rest))
        (copy_at-append pre (replicate (length src + n) 0) src
          ∙ ap (◌++◌ pre) (copy_at-front src n)
          ∙ sym (append_assoc pre src (replicate n 0))) in
    rw copied (
      fill-flatten rest (pre ++ src) (offset + length src) (omega (arith, length-append pre src))
      ∙ append_assoc pre src (flatten rest))

abbrev fields : LogRecord → List Bytes
fields r =
    (r.op ∷ [])
    ∷ le_bytes 2 (length r.bucket % 2 ^ 16)
    ∷ r.bucket
    ∷ le_bytes 2 (length r.key % 2 ^ 16)
    ∷ r.key
    ∷ le_bytes 8 r.ttl
    ∷ le_bytes 4 (length r.value % 2 ^ 32)
    ∷ r.value
    ∷ []

flatten-fields : (r : LogRecord) → flatten (fields r) ≡ encode r
unfolding encode flatten le_bytes
flatten-fields r = simp append-nil

length-fields :
    (r : LogRecord)
    → length (flatten (fields r))
      ≡ 1 + 2 + length r.bucket + 2 + length r.key + 8 + 4 + length r.value
unfolding flatten
length-fields r = simp (length-append, length-le_bytes) (omega arith)

fill_buffer-fill :
    (r : LogRecord)
    → fill_buffer r
      ≡ fill
          (replicate (1 + 2 + length r.bucket + 2 + length r.key + 8 + 4 + length r.value) 0)
          0
          (fields r)
unfolding fill_buffer fill
fill_buffer-fill r =
    elim r.value
      as (λ v.
        fill_buffer (record r { value = v })
        ≡ fill (replicate (1 + 2 + length r.bucket + 2 + length r.key + 8 + 4 + length v) 0) 0
            (fields (record r { value = v }))) [
              | [] ↦ sym (copy_at-nil _ _)
              | b ∷ v ↦ rw (lt→ltb 0 (suc (length v)) (omega arith)) refl
            ]

-- The buffer is filled to its last byte with the fields in their order.
pub fill_buffer-encode : (r : LogRecord) → fill_buffer r ≡ encode r
fill_buffer-encode r =
    fill_buffer-fill r
    ∙ rw (← length-fields r) (fill-flatten (fields r) [] 0 refl)
    ∙ flatten-fields r

pub length-encode :
    (r : LogRecord) → length (encode r) ≡ length r.bucket + length r.key + length r.value + 17
length-encode r = omega (arith, ap length (flatten-fields r), length-fields r)
