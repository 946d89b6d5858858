-- ===== src/Storage/Engine/Entries.antt =====
-- What a record of the log does to one entry of the memory, and when two records may be swapped.
use fast_kv_a_lightweight_ke.Base.{
  nat_eq, ◌≡◌, refl, ap, ◌∙◌, Bool, false, Option, none, some, List, [], ◌∷◌, ◌++◌, foldl, All,
  if◌then◌else◌, ◌==◌, arith, Bool-cases, inl, inr,
}
use fast_kv_a_lightweight_ke.Base.Bytes.{Bytes, bytes_key, bytes_eq_iff}
use fast_kv_a_lightweight_ke.Base.Words.{positive64}
use fast_kv_a_lightweight_ke.Storage.Memory.{TtlInfo, Shards}
use fast_kv_a_lightweight_ke.Storage.Memory.Invariant.{
  IsWellFormed, put_internal-IsWellFormed, delete_internal-IsWellFormed,
}
use fast_kv_a_lightweight_ke.Storage.Memory.View.{
  value_at, expiry_at, same_entry, value_at-put, expiry_at-put, value_at-delete, expiry_at-delete,
}
use fast_kv_a_lightweight_ke.Storage.Wal.{op_put, op_del, LogRecord}
use fast_kv_a_lightweight_ke.Storage.Engine.{apply_record}

-- The value and the expiry of a key of a bucket.
abbrev pub Entry : Type 0
Entry = Option Bytes × Option TtlInfo

abbrev pub entry_at : Shards → Bytes → Bytes → Entry
entry_at shards bucket key = (value_at shards bucket key, expiry_at shards bucket key)

abbrev pub touches : LogRecord → Bytes → Bytes → Bool
touches r bucket key = same_entry r.bucket r.key bucket key

-- A record's effect on the entry, as far as it is about it.
unfoldable pub act : Bytes → Bytes → Entry → LogRecord → Entry
act bucket key x r =
    if touches r bucket key
    then (if r.op == op_put
        then (some r.value, if positive64 r.ttl then some (record { expiry = r.ttl }) else x.1)
        else if r.op == op_del
        then (none, none)
        else x)
    else x

-- The records are about two different entries.
abbrev pub Apart : LogRecord → LogRecord → Type 0
Apart q r = same_entry q.bucket q.key r.bucket r.key ≡ false

pub apply_record-IsWellFormed :
    (shards : Shards) (r : LogRecord) → IsWellFormed shards → IsWellFormed (apply_record shards r)
unfolding apply_record
apply_record-IsWellFormed shards r wf = elim (Bool-cases (r.op == op_put)) [
  | inl is_put ↦ rw is_put (put_internal-IsWellFormed shards wf r.bucket r.key r.value r.ttl)
  | inr no_put ↦ elim (Bool-cases (r.op == op_del)) [
    | inl is_del ↦ rw (no_put, is_del) (delete_internal-IsWellFormed shards wf r.bucket r.key)
    | inr no_del ↦ rw (no_put, no_del) wf
  ]
]

-- Any records of the log, applied to a well-formed memory, keep it well formed.
pub foldl-IsWellFormed :
    (shards : Shards) (rs : List LogRecord)
    → IsWellFormed shards
    → IsWellFormed (foldl apply_record shards rs)
foldl-IsWellFormed shards [] wf = wf
foldl-IsWellFormed shards (r ∷ rs) wf =
    foldl-IsWellFormed (apply_record shards r) rs (apply_record-IsWellFormed shards r wf)

module _ (bucket key : Bytes) where
  pub entry-apply_record :
      (shards : Shards) (r : LogRecord)
      → IsWellFormed shards
      → entry_at (apply_record shards r) bucket key ≡ act bucket key (entry_at shards bucket key) r
  unfolding apply_record act
  entry-apply_record shards r wf = ground (
    arith,
    value_at-put shards r.bucket r.key bucket key r.value r.ttl,
    expiry_at-put shards r.bucket r.key bucket key r.value r.ttl,
    value_at-delete shards r.bucket r.key bucket key,
    expiry_at-delete shards r.bucket r.key bucket key wf,
  )

  pub entry-foldl :
      (shards : Shards) (rs : List LogRecord)
      → IsWellFormed shards
      → entry_at (foldl apply_record shards rs) bucket key
        ≡ foldl (act bucket key) (entry_at shards bucket key) rs
  entry-foldl shards [] wf = refl
  entry-foldl shards (r ∷ rs) wf =
      entry-foldl (apply_record shards r) rs (apply_record-IsWellFormed shards r wf)
      ∙ ap (λ x. foldl (act bucket key) x rs) (entry-apply_record shards r wf)

  act_swap :
      (x : Entry) (q r : LogRecord)
      → Apart q r
      → act bucket key (act bucket key x q) r ≡ act bucket key (act bucket key x r) q
  unfolding act
  act_swap x q r apart = ground (
    arith,
    bytes_eq_iff q.bucket bucket,
    bytes_eq_iff q.key key,
    bytes_eq_iff r.bucket bucket,
    bytes_eq_iff r.key key,
    bytes_eq_iff q.bucket r.bucket,
    bytes_eq_iff q.key r.key,
  )

  -- A record that is about another entry than all those before it may come first.
  pub act_first :
      (x : Entry) (before : List LogRecord) (r : LogRecord) (after : List LogRecord)
      → All (λ q. Apart q r) before
      → foldl (act bucket key) x (before ++ r ∷ after)
        ≡ foldl (act bucket key) (act bucket key x r) (before ++ after)
  act_first x [] r after apart = refl
  act_first x (q ∷ before) r after apart =
      act_first (act bucket key x q) before r after apart.1
      ∙ ap (λ y. foldl (act bucket key) y (before ++ after)) (act_swap x q r apart.0)
