-- ===== src/Storage/Wal/Readers.antt =====
-- Facts about every reader that is built from `read_full`: more input behind does not change what
-- was read, and the only errors are those of the end of the file.
use fast_kv_a_lightweight_ke.Base.{
  ℕ, zero, suc, ◌≤◌, ◌≡◌, ◌⊎◌, refl, ap, ◌∙◌, [], ◌∷◌, ◌++◌, length, length-append, append_assoc,
  take-append-drop, length-take, arith, inl, inr, Result, ok, err, ◌>>=◌, Error, eof,
  unexpected_eof,
}
use fast_kv_a_lightweight_ke.Base.Bytes.{Bytes}
use fast_kv_a_lightweight_ke.Storage.Wal.{from_le, read_full, read_number, read_record}
use fast_kv_a_lightweight_ke.Storage.Wal.RoundTrip.{read_full-append}

abbrev pub IsEnd : Error → Type 0
IsEnd e = (e ≡ eof) ⊎ (e ≡ unexpected_eof)

pub record IsReader {A : Type 0} (p : Bytes → Result (A × Bytes)) : Type 0 where
  pub extends :
      (bytes more : Bytes) (a : A) (rest : Bytes)
      → p bytes ≡ ok (a, rest)
      → p (bytes ++ more) ≡ ok (a, rest ++ more)
  pub shrinks :
      (bytes : Bytes) (a : A) (rest : Bytes) → p bytes ≡ ok (a, rest) → length rest ≤ length bytes
  pub fails : (bytes : Bytes) (e : Error) → p bytes ≡ err e → IsEnd e

module _ {A : Type 0} where
  pub IsReader-ok : (a : A) → IsReader (λ bytes. ok (a, bytes))
  IsReader-ok a = record {
    extends = λ bytes more b rest h. ground arith;
    shrinks = λ bytes b rest h. ground arith;
    fails = λ bytes e h. cc;
  }

module _ {A B : Type 0} (p : Bytes → Result (A × Bytes)) (f : A → Bytes → Result (B × Bytes)) where
  abbrev and_then : Bytes → Result (B × Bytes)
  and_then bytes = p bytes >>= λ x. f x.0 x.1

  Result-cases :
      (bytes : Bytes)
      → ((a : A) × (rest : Bytes) × (p bytes ≡ ok (a, rest))) ⊎ ((e : Error) × (p bytes ≡ err e))
  Result-cases bytes = go (p bytes) refl
    where
      go :
          (r : Result (A × Bytes))
          → p bytes ≡ r
          → ((a : A) × (rest : Bytes) × (p bytes ≡ ok (a, rest)))
            ⊎ ((e : Error) × (p bytes ≡ err e))
      go (ok (a, rest)) h = inl (a, rest, h)
      go (err e) h = inr (e, h)

  pub IsReader-bind : IsReader p → ((a : A) → IsReader (f a)) → IsReader and_then
  IsReader-bind first next = record {
    extends = λ bytes more b rest h. elim (Result-cases bytes) [
      | inl (a, rest', e) ↦
          rw (first.extends bytes more a rest' e) ((next a).extends rest' more b rest (rw e at h))
      | inr (x, e) ↦ absurd (cc (h, ap (λ r. r >>= λ x. f x.0 x.1) e))
    ];
    shrinks = λ bytes b rest h. elim (Result-cases bytes) [
      | inl (a, rest', e) ↦
          omega (arith, first.shrinks bytes a rest' e, (next a).shrinks rest' b rest (rw e at h))
      | inr (x, e) ↦ absurd (cc (h, ap (λ r. r >>= λ x. f x.0 x.1) e))
    ];
    fails = λ bytes x h. elim (Result-cases bytes) [
      | inl (a, rest', e) ↦ (next a).fails rest' x (rw e at h)
      | inr (y, e) ↦ let same : y ≡ x = cc (rw e at h) in first.fails bytes x (e ∙ ap err same)
    ];
  }

-- What was read and what is left make up the input.
pub read_full-parts :
    (n : ℕ) (bytes front rest : Bytes)
    → read_full n bytes ≡ ok (front, rest)
    → (bytes ≡ front ++ rest) × (n ≡ length front)
unfolding read_full
read_full-parts zero bytes front rest h = ground arith
read_full-parts (suc n) [] front rest h = cc
read_full-parts (suc n) (b ∷ bytes) front rest h =
    ground (arith, take-append-drop n bytes, length-take n bytes)

read_full-fails : (n : ℕ) (bytes : Bytes) (e : Error) → read_full n bytes ≡ err e → IsEnd e
unfolding read_full
read_full-fails zero bytes e h = cc
read_full-fails (suc n) [] e h = ground arith
read_full-fails (suc n) (b ∷ bytes) e h = ground arith

pub IsReader-read_full : (n : ℕ) → IsReader (read_full n)
IsReader-read_full n = record {
  extends = λ bytes more front rest h.
      let (parts, exact) = read_full-parts n bytes front rest h in
      rw (parts, append_assoc front rest more) (read_full-append n front (rest ++ more) exact);
  shrinks = λ bytes front rest h.
      ground (arith, read_full-parts n bytes front rest h, length-append front rest);
  fails = read_full-fails n;
}

pub IsReader-read_number : (count : ℕ) → IsReader (read_number count)
unfolding read_number
IsReader-read_number count =
    IsReader-bind (read_full count) _ (IsReader-read_full count)
      (λ field. IsReader-ok (from_le field))

pub IsReader-read_record : (op : ℕ) → IsReader (read_record op)
unfolding read_record
IsReader-read_record op = IsReader-bind (read_number 2) _ (IsReader-read_number 2) λ bucket_len.
    IsReader-bind (read_full bucket_len) _ (IsReader-read_full bucket_len) λ bucket.
      IsReader-bind (read_number 2) _ (IsReader-read_number 2) λ key_len.
        IsReader-bind (read_full key_len) _ (IsReader-read_full key_len) λ key.
          IsReader-bind (read_number 8) _ (IsReader-read_number 8) λ ttl.
            IsReader-bind (read_number 4) _ (IsReader-read_number 4) λ value_len.
              IsReader-bind (read_full value_len) _ (IsReader-read_full value_len) λ value.
                IsReader-ok
                  (record { op = op; bucket = bucket; key = key; value = value; ttl = ttl })
