-- ===== src/Storage/Wal/Torn.antt =====
-- Replaying any bytes ends, and a log whose last record was cut short.
use fast_kv_a_lightweight_ke.Base.{
  ℕ, zero, suc, ◌+◌, ◌-◌, ◌≤◌, ◌≡◌, ◌⊎◌, refl, sym, ◌∙◌, List, [], ◌∷◌, ◌++◌, length, length-append,
  append-nil, arith, All, foldl, inl, inr, none, some, Result, ok, err, Error, Failure,
}
use fast_kv_a_lightweight_ke.Base.Bytes.{Bytes}
use fast_kv_a_lightweight_ke.Storage.Wal.{LogRecord, read_record, replay_loop, replay}
use fast_kv_a_lightweight_ke.Storage.Wal.Encode.{encode}
use fast_kv_a_lightweight_ke.Storage.Wal.RoundTrip.{
  IsEncodable, encode_all, body, encode-append, read_record-body, replay_loop-encode_all,
  replay-encode_all, length-le-encode_all,
}
use fast_kv_a_lightweight_ke.Storage.Wal.Readers.{IsEnd, IsReader-read_record}

-- How a replay may end: at the end of the file, or with the error of a record that is cut short.
abbrev pub EndsAtEnd : Failure → Type 0
EndsAtEnd none = Unit
EndsAtEnd (some e) = IsEnd e

record_cases :
    (op : ℕ) (bytes : Bytes)
    → ((r : LogRecord) × (rest : Bytes) × (read_record op bytes ≡ ok (r, rest)))
      ⊎ ((e : Error) × (read_record op bytes ≡ err e))
record_cases op bytes = go (read_record op bytes) refl
  where
    go :
        (x : Result (LogRecord × Bytes))
        → read_record op bytes ≡ x
        → ((r : LogRecord) × (rest : Bytes) × (read_record op bytes ≡ ok (r, rest)))
          ⊎ ((e : Error) × (read_record op bytes ≡ err e))
    go (ok (r, rest)) h = inl (r, rest, h)
    go (err e) h = inr (e, h)

module _ {ℓ} {S : Type ℓ} (apply : S → LogRecord → S) where
  replay_loop-EndsAtEnd :
      (fuel : ℕ) (bytes : Bytes) (s : S) (n : ℕ)
      → length bytes ≤ fuel
      → EndsAtEnd (replay_loop apply fuel bytes s n).failure
  unfolding replay_loop
  replay_loop-EndsAtEnd zero [] s n h = tt
  replay_loop-EndsAtEnd (suc fuel) [] s n h = tt
  replay_loop-EndsAtEnd zero (op ∷ bytes) s n h = absurd (omega arith)
  replay_loop-EndsAtEnd (suc fuel) (op ∷ bytes) s n h = elim (record_cases op bytes) [
    | inl (r, rest, e) ↦
        rw (e, replay_loop)
          (replay_loop-EndsAtEnd fuel rest (apply s r) (n + 1)
            (omega (arith, (IsReader-read_record op).shrinks bytes r rest e)))
    | inr (x, e) ↦ rw (e, replay_loop) ((IsReader-read_record op).fails bytes x e)
  ]

  -- A replay of any bytes at all ends, at the end of the file or with one of its two errors.
  pub replay-EndsAtEnd :
      (bytes : Bytes) (s : S) (n : ℕ) → EndsAtEnd (replay apply bytes s n).failure
  unfolding replay
  replay-EndsAtEnd bytes s n = replay_loop-EndsAtEnd (length bytes) bytes s n (omega arith)

-- A record that is cut short cannot be read: what was read from a part would be read from the whole.
read_record_cut :
    (r : LogRecord) (op x : ℕ) (front back : Bytes)
    → IsEncodable r
    → encode r ≡ op ∷ (front ++ x ∷ back)
    → (e : Error) × (read_record op front ≡ err e)
read_record_cut r op x front back fits cut = elim (record_cases op front) [
  | inl (q, rest, e) ↦ absurd (
      ground (
        arith,
        (IsReader-read_record op).extends front (x ∷ back) q rest e,
        read_record-body r [] fits,
        whole,
        length-append rest (x ∷ back),
      ))
  | inr found ↦ found
]
  where
    whole : r.op ∷ body r [] ≡ op ∷ (front ++ x ∷ back)
    whole = sym (encode-append r []) ∙ append-nil (encode r) ∙ cut

module _ {ℓ} {S : Type ℓ} (apply : S → LogRecord → S) where
  -- Whole records are replayed up to the first that cannot be read; nothing behind it is looked at.
  pub replay_unreadable :
      (rs : List LogRecord) (op : ℕ) (bytes : Bytes) (e : Error) (s : S) (n : ℕ)
      → All IsEncodable rs
      → read_record op bytes ≡ err e
      → replay apply (encode_all rs ++ op ∷ bytes) s n
        ≡ record { state = foldl apply s rs; op_count = n + length rs; failure = some e }
  unfolding replay
  replay_unreadable rs op bytes e s n fits unread =
      let fuel : ℕ = length (encode_all rs ++ op ∷ bytes) in
      let all : length (encode_all rs) + suc (length bytes) ≡ fuel =
        sym (length-append (encode_all rs) (op ∷ bytes)) in
      let left : fuel - length rs ≡ suc (fuel - length rs - 1) =
        omega (arith, all, length-le-encode_all apply rs) in
      rw
        (
          replay_loop-encode_all apply rs fuel (op ∷ bytes) s n fits
              (omega (arith, all, length-le-encode_all apply rs)),
          left,
        )
        (unfold replay_loop in rw (unread, replay_loop))

  -- If the last record of a log is cut short at any byte, the replay applies the records before it
  -- and nothing of the last.
  pub replay_torn :
      (rs : List LogRecord) (r : LogRecord) (x : ℕ) (front back : Bytes) (s : S) (n : ℕ)
      → All IsEncodable rs
      → IsEncodable r
      → encode r ≡ front ++ x ∷ back
      → ((replay apply (encode_all rs ++ front) s n).state ≡ foldl apply s rs)
        × ((replay apply (encode_all rs ++ front) s n).op_count ≡ n + length rs)
  replay_torn rs r x [] back s n fits last_fits cut =
      rw (append-nil (encode_all rs), replay-encode_all apply rs s n fits) (refl, refl)
  replay_torn rs r x (op ∷ front) back s n fits last_fits cut =
      let (e, unread) = read_record_cut r op x front back last_fits cut in
      rw (replay_unreadable rs op front e s n fits unread) (refl, refl)
