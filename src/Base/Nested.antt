-- ===== src/Base/Nested.antt =====
-- Maps of maps: a bucket's name leads to a map from keys, which is made on its first write.
use fast_kv_a_lightweight_ke.Base.Tests.{Option-cases, Bool-cases, if◌then◌else◌}
use fast_kv_a_lightweight_ke.Base.Bytes.{Bytes, bytes_key, bytes_eq, bytes_eq_iff, bytes_eq_refl}
use fast_kv_a_lightweight_ke.Base.Dict.{Dict, lookup, lookup-nil, insert, remove, NodupKeys}
use fast_kv_a_lightweight_ke.Base.Dict.{lookup-insert, lookup-remove}
use fast_kv_a_lightweight_ke.Base.Dict.{NodupKeys-insert, NodupKeys-remove}
use mathlib.Core.Path.{◌≡◌, sym, ◌∙◌, subst}
use mathlib.Core.Logic.{inl, inr}
use mathlib.Core.Bool.{◌&&◌}
use mathlib.Core.Option.{Option, none, some}
use mathlib.Core.List.{[], ◌∷◌}
use native.Mathlib.Omega.{arith}

abbrev pub Nested {κ} : Type κ → Type κ
Nested V = Dict Bytes (Dict Bytes V)

module _ {κ} {V : Type κ} where
  -- `if b, ok := m[bucket]; ok { if v, ok := b[key]; ok { … v … } }`
  unfoldable pub lookup_in : Bytes → Bytes → Nested V → Option V
  lookup_in bucket key m = elim (lookup bucket m) [ none ↦ none | some b ↦ lookup key b ]

  -- `if _, ok := m[bucket]; !ok { m[bucket] = make(map[string]V) }`
  unfoldable pub ensure : Bytes → Nested V → Nested V
  ensure bucket m = elim (lookup bucket m) [ none ↦ insert bucket [] m | some b ↦ m ]

  -- The map at a name; a missing one reads as the empty map.
  unfoldable pub bucket_or_nil : Bytes → Nested V → Dict Bytes V
  bucket_or_nil bucket m = elim (lookup bucket m) [ none ↦ [] | some b ↦ b ]

  -- `m[bucket][key] = v`, after `ensure`
  unfoldable pub insert_in : Bytes → Bytes → V → Nested V → Nested V
  insert_in bucket key v m = insert bucket (insert key v (bucket_or_nil bucket m)) m

  -- `delete(m[bucket], key)`: a deletion from a missing map does nothing.
  unfoldable pub remove_in : Bytes → Bytes → Nested V → Nested V
  remove_in bucket key m = elim (lookup bucket m) [
    | none ↦ m
    | some b ↦ insert bucket (remove key b) m
  ]

  -- Every map of the two levels has each key once.
  pub record NodupNested (m : Nested V) : Type κ where
    pub outer : NodupKeys m
    pub inner : (bucket : Bytes) (b : Dict Bytes V) → lookup bucket m ≡ some b → NodupKeys b

module _ {κ} {V : Type κ} where
  pub lookup-bucket_or_nil :
      (bucket key : Bytes) (m : Nested V)
      → lookup key (bucket_or_nil bucket m) ≡ lookup_in bucket key m
  unfolding lookup_in bucket_or_nil
  lookup-bucket_or_nil bucket key m = ground (arith, lookup-nil {V = V} key)

  pub lookup_in-ensure :
      (bucket c key : Bytes) (m : Nested V) → lookup_in c key (ensure bucket m) ≡ lookup_in c key m
  unfolding lookup_in ensure
  lookup_in-ensure bucket c key m =
      ground (arith, lookup-insert bucket c [] m, bytes_eq_iff bucket c, lookup-nil {V = V} key)

  pub lookup_in-insert_in :
      (bucket key c j : Bytes) (v : V) (m : Nested V)
      → lookup_in c j (insert_in bucket key v m)
        ≡ (if bytes_eq bucket c && bytes_eq key j then some v else lookup_in c j m)
  unfolding lookup_in insert_in
  lookup_in-insert_in bucket key c j v m = ground (
    arith,
    lookup-insert bucket c (insert key v (bucket_or_nil bucket m)) m,
    lookup-insert key j v (bucket_or_nil bucket m),
    lookup-bucket_or_nil bucket j m,
    bytes_eq_iff bucket c,
  )

  pub lookup_in-remove_in :
      (bucket key c j : Bytes) (m : Nested V)
      → lookup_in c j (remove_in bucket key m)
        ≡ (if bytes_eq bucket c && bytes_eq key j then none else lookup_in c j m)
  unfolding lookup_in remove_in
  lookup_in-remove_in bucket key c j m = elim (Option-cases (lookup bucket m)) [
    | inl missing ↦ ground (arith, missing, bytes_eq_iff bucket c)
    | inr (b, found) ↦ ground (
      arith,
      found,
      lookup-insert bucket c (remove key b) m,
      lookup-remove key j b,
      bytes_eq_iff bucket c,
    )
  ]

module _ {κ} {V : Type κ} (bucket key : Bytes) (m : Nested V) (nodup : NodupNested m) where
  NodupKeys-bucket_or_nil : NodupKeys (bucket_or_nil bucket m)
  unfolding bucket_or_nil
  NodupKeys-bucket_or_nil = elim (Option-cases (lookup bucket m)) [
    | inl missing ↦ rw (missing, bucket_or_nil) tt
    | inr (b, found) ↦ rw (found, bucket_or_nil) (nodup.inner bucket b found)
  ]

  -- One write at a name keeps both levels free of repeated keys.
  pub NodupNested-insert : (b : Dict Bytes V) → NodupKeys b → NodupNested (insert bucket b m)
  NodupNested-insert b h = record {
    outer = NodupKeys-insert bucket b m nodup.outer;
    inner = λ c d found. elim (Bool-cases (bytes_eq bucket c)) [
      | inl same ↦ let e : b ≡ d = ground (arith, lookup-insert bucket c b m) in subst NodupKeys e h
      | inr other ↦ nodup.inner c d (rw other at (sym (lookup-insert bucket c b m) ∙ found))
    ];
  }

module _ {κ} {V : Type κ} (bucket key : Bytes) (m : Nested V) (nodup : NodupNested m) where
  pub NodupNested-ensure : NodupNested (ensure bucket m)
  unfolding ensure
  NodupNested-ensure = elim (Option-cases (lookup bucket m)) [
    | inl missing ↦ rw (missing, ensure) (NodupNested-insert bucket key m nodup [] tt)
    | inr (b, found) ↦ rw (found, ensure) nodup
  ]

  pub NodupNested-insert_in : (v : V) → NodupNested (insert_in bucket key v m)
  unfolding insert_in
  NodupNested-insert_in v =
      NodupNested-insert bucket key m nodup _
        (NodupKeys-insert key v _ (NodupKeys-bucket_or_nil bucket key m nodup))

  pub NodupNested-remove_in : NodupNested (remove_in bucket key m)
  unfolding remove_in
  NodupNested-remove_in = elim (Option-cases (lookup bucket m)) [
    | inl missing ↦ rw (missing, remove_in) nodup
    | inr (b, found) ↦
        rw (found, remove_in)
          (NodupNested-insert bucket key m nodup _
            (NodupKeys-remove key b (nodup.inner bucket b found)))
  ]

-- The first map, and the rest.
pub NodupNested-cons {κ} :
    {V : Type κ} (bucket : Bytes) (b : Dict Bytes V) (m : Nested V)
    → NodupNested ((bucket, b) ∷ m)
    → NodupKeys b × NodupNested m
unfolding lookup
NodupNested-cons bucket b m h = (
  h.inner bucket b (rw (bytes_eq_refl bucket)),
  record {
    outer = h.outer.1;
    inner = λ c d found. h.inner c d (ground (arith, bytes_eq_iff bucket c, h.outer.0));
  },
)
