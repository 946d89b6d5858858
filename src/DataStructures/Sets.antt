-- ===== src/DataStructures/Sets.antt =====
-- `SetAdd`, `SetRemove`, `SetList` against membership.
use fast_kv_a_lightweight_ke.Base.{
  ◌≡◌, refl, Bool, true, false, not, ◌&&◌, is_some, List, [], ◌∷◌, if◌then◌else◌, ok, arith, inl,
  inr, Option-cases,
}
use fast_kv_a_lightweight_ke.Base.Bytes.{Bytes, bytes_key, bytes_eq, bytes_eq_iff}
use fast_kv_a_lightweight_ke.Base.Dict.{Dict, lookup, NodupKeys, RangeOrder}
use fast_kv_a_lightweight_ke.Base.Nested.{
  lookup_in, ensure, NodupNested, lookup_in-ensure, lookup_in-insert_in, lookup_in-remove_in,
  NodupNested-ensure, NodupNested-insert_in, NodupNested-remove_in,
}
use fast_kv_a_lightweight_ke.DataStructures.{DataStructures, set_add, set_remove, keys_of, set_list}
use fast_kv_a_lightweight_ke.DataStructures.Sorting.{occurrences}

-- Whether the set of that name holds a value.
unfoldable pub member : Bytes → Bytes → DataStructures → Bool
member set_name value ds = is_some (lookup_in set_name value ds.sets)

-- After an addition the set holds the value, and nothing else has changed in any set.
pub member-set_add :
    (set_name value c j : Bytes) (ds : DataStructures)
    → member c j (set_add set_name value ds)
      ≡ (if bytes_eq set_name c && bytes_eq value j then true else member c j ds)
unfolding member set_add
member-set_add set_name value c j ds = ground (
  arith,
  lookup_in-insert_in set_name value c j tt (ensure set_name ds.sets),
  lookup_in-ensure set_name c j ds.sets,
)

-- A removal succeeds exactly for a member; after it the set does not hold the value, and nothing
-- else has changed in any set.
pub member-set_remove :
    (set_name value c j : Bytes) (ds : DataStructures)
    → (member c j (set_remove set_name value ds).0
        ≡ (if bytes_eq set_name c && bytes_eq value j then false else member c j ds))
      × (is_some (set_remove set_name value ds).1 ≡ not (member set_name value ds))
unfolding member set_remove lookup_in
member-set_remove set_name value c j ds = elim (Option-cases (lookup set_name ds.sets)) [
  | inl missing ↦ ground (arith, missing, bytes_eq_iff set_name c, bytes_eq_iff value j)
  | inr (s, found) ↦ elim (Option-cases (lookup value s)) [
    | inl absent ↦ ground (arith, found, absent, bytes_eq_iff set_name c, bytes_eq_iff value j)
    | inr (unit, present) ↦
        ground (arith, found, present, lookup_in-remove_in set_name value c j ds.sets)
  ]
]

occurrences-keys_of {κ} :
    {V : Type κ} (v : Bytes) (entries : Dict Bytes V)
    → NodupKeys entries
    → occurrences v (keys_of entries) ≡ (if is_some (lookup v entries) then 1 else 0)
unfolding lookup
occurrences-keys_of v [] h = refl
occurrences-keys_of v ((k, x) ∷ rest) h =
    ground (arith, occurrences-keys_of v rest h.1, h.0, bytes_eq_iff k v)

-- A listing succeeds for every set that has ever had a member, and shows each member once and
-- nothing else, in whatever order the map is visited.
pub set_list-members :
    (order : RangeOrder Bytes (Unit {0})) (set_name : Bytes) (ds : DataStructures)
    (values : List Bytes)
    → NodupNested ds.sets
    → set_list order set_name ds ≡ ok values
    → (v : Bytes) → occurrences v values ≡ (if member set_name v ds then 1 else 0)
unfolding set_list member lookup_in
set_list-members order set_name ds values nodup listed v =
    elim (Option-cases (lookup set_name ds.sets)) [
      | inl missing ↦ absurd (ground (arith, missing))
      | inr (s, found) ↦ ground (
        arith,
        found,
        occurrences-keys_of v (order.visit s)
            (order.visit-NodupKeys s (nodup.inner set_name s found)),
        order.lookup-visit s (nodup.inner set_name s found) v,
      )
    ]

-- Additions and removals keep each value once in its set.
pub sets-NodupNested :
    (set_name value : Bytes) (ds : DataStructures)
    → NodupNested ds.sets
    → NodupNested (set_add set_name value ds).sets
      × NodupNested (set_remove set_name value ds).0.sets
unfolding set_add set_remove
sets-NodupNested set_name value ds nodup = (
  NodupNested-insert_in set_name value _ (NodupNested-ensure set_name value _ nodup) tt,
  elim (Option-cases (lookup set_name ds.sets)) [
    | inl missing ↦ rw (missing, set_remove) nodup
    | inr (s, found) ↦ elim (Option-cases (lookup value s)) [
      | inl absent ↦ rw (found, absent, set_remove) nodup
      | inr (unit, present) ↦
          rw (found, present, set_remove) (NodupNested-remove_in set_name value _ nodup)
    ]
  ],
)
