-- ===== src/Storage/Memory/Listing.antt =====
-- `List` collects exactly the entries that `Get` would return, in whatever order `range` visits.
use fast_kv_a_lightweight_ke.Base.{
  ℕ, zero, suc, ◌+◌, ◌≡◌, ◌≢◌, refl, ◌&&◌, Option, none, some, List, [], ◌∷◌, inl, inr, Bool-cases,
  Option-cases, arith, if◌then◌else◌, ok, err, value?, bucket_not_found_or_empty, leb, ltb, ◌==◌,
  ==_iff, ap, sym, subst, ◌∙◌, ◌↔◌,
}
use fast_kv_a_lightweight_ke.Base.Bytes.{Bytes, bytes_key, bytes_eq_iff, bytes_eq_refl}
use fast_kv_a_lightweight_ke.Base.Dict.{
  Dict, lookup, lookup-nil, insert, NodupKeys, NodupKeys-insert, lookup-insert, RangeOrder,
}
use fast_kv_a_lightweight_ke.Base.Nested.{lookup_in}
use fast_kv_a_lightweight_ke.Base.Words.{Int64}
use fast_kv_a_lightweight_ke.Storage.Hash.{shard_count, shard_index, shard_index-lt-shard_count}
use fast_kv_a_lightweight_ke.Storage.Memory.{
  Shard, Shards, get_shard, check_ttl, get, collect, list_shard, list_from, or_empty, list,
}
use fast_kv_a_lightweight_ke.Storage.Memory.Invariant.{IsWellFormed, ShardIsWellFormed}

module _ (order : RangeOrder Bytes Bytes) (now : Int64) where
  -- The live entry of `key` in one shard.
  abbrev live_in : Shard → Bytes → Bytes → Option Bytes
  live_in shard bucket key =
      if check_ttl now shard bucket key then lookup_in bucket key shard.buckets else none

  abbrev or_else : Option Bytes → Option Bytes → Option Bytes
  or_else (some v) o = some v
  or_else none o = o

  lookup-collect :
      (shard : Shard) (bucket key : Bytes) (entries : List (Bytes × Bytes))
      (result : Dict Bytes Bytes)
      → NodupKeys entries
      → lookup key (collect order now shard bucket entries result) ≡ (
          if check_ttl now shard bucket key
          then or_else (lookup key entries) (lookup key result)
          else lookup key result)
  unfolding collect lookup
  lookup-collect shard bucket key [] result h = ground arith
  lookup-collect shard bucket key ((k, v) ∷ rest) result h = ground (
    arith,
    lookup-collect shard bucket key rest
        (if check_ttl now shard bucket k then insert k v result else result) h.1,
    lookup-insert k key v result,
    bytes_eq_iff k key,
  )

  NodupKeys-collect :
      (shard : Shard) (bucket : Bytes) (entries : List (Bytes × Bytes)) (result : Dict Bytes Bytes)
      → NodupKeys result
      → NodupKeys (collect order now shard bucket entries result)
  unfolding collect
  NodupKeys-collect shard bucket [] result h = h
  NodupKeys-collect shard bucket ((k, v) ∷ rest) result h =
      elim (Bool-cases (check_ttl now shard bucket k)) [
        | inl live ↦ rw live (
            NodupKeys-collect shard bucket rest (insert k v result) (NodupKeys-insert k v result h))
        | inr expired ↦ rw expired (NodupKeys-collect shard bucket rest result h)
      ]

  lookup-list_shard :
      (i : ℕ) (shard : Shard) (bucket key : Bytes) (result : Dict Bytes Bytes)
      → ShardIsWellFormed i shard
      → lookup key (list_shard order now shard bucket result)
        ≡ or_else (live_in shard bucket key) (lookup key result)
  unfolding list_shard lookup_in
  lookup-list_shard i shard bucket key result wf =
      elim (Option-cases (lookup bucket shard.buckets)) [
        | inl missing ↦ ground (arith, missing)
        | inr (b, found) ↦ ground (
          arith,
          found,
          lookup-collect shard bucket key (order.visit b) result
              (order.visit-NodupKeys b (wf.nodup_buckets.inner bucket b found)),
          order.lookup-visit b (wf.nodup_buckets.inner bucket b found) key,
        )
      ]

  NodupKeys-list_shard :
      (shard : Shard) (bucket : Bytes) (result : Dict Bytes Bytes)
      → NodupKeys result
      → NodupKeys (list_shard order now shard bucket result)
  unfolding list_shard
  NodupKeys-list_shard shard bucket result h = elim (Option-cases (lookup bucket shard.buckets)) [
    | inl missing ↦ rw (missing, list_shard) h
    | inr (b, found) ↦
        rw (found, list_shard) (NodupKeys-collect shard bucket (order.visit b) result h)
  ]

  -- Another shard than the key's own has no entry for it.
  live_in_elsewhere :
      (i : ℕ) (shard : Shard) (bucket key : Bytes)
      → ShardIsWellFormed i shard
      → i ≢ shard_index key
      → live_in shard bucket key ≡ none
  live_in_elsewhere i shard bucket key wf away = ground (arith, wf.placed bucket key)

  -- The loop reaches the key's shard once, if it is among the rounds.
  lookup-list_from :
      (rounds i : ℕ) (shards : Shards) (bucket key : Bytes) (result : Dict Bytes Bytes)
      → IsWellFormed shards
      → lookup key (list_from order now rounds i shards bucket result) ≡ (
          if leb i (shard_index key) && ltb (shard_index key) (i + rounds)
          then or_else (live_in (get_shard shards key) bucket key) (lookup key result)
          else lookup key result)
  unfolding list_from get_shard
  lookup-list_from zero i shards bucket key result wf = ground arith
  lookup-list_from (suc rounds) i shards bucket key result wf =
      elim (Bool-cases (i == shard_index key)) [
        | inl here ↦ ground (
          arith,
          here,
          ap shards ((==_iff i (shard_index key)).0 here),
          lookup-list_from rounds (i + 1) shards bucket key
              (list_shard order now (shards i) bucket result) wf,
          lookup-list_shard i (shards i) bucket key result (wf i),
        )
        | inr away ↦ ground (
          arith,
          away,
          lookup-list_from rounds (i + 1) shards bucket key
              (list_shard order now (shards i) bucket result) wf,
          lookup-list_shard i (shards i) bucket key result (wf i),
          live_in_elsewhere i (shards i) bucket key (wf i),
        )
      ]

  NodupKeys-list_from :
      (rounds i : ℕ) (shards : Shards) (bucket : Bytes) (result : Dict Bytes Bytes)
      → NodupKeys result
      → NodupKeys (list_from order now rounds i shards bucket result)
  unfolding list_from
  NodupKeys-list_from zero i shards bucket result h = h
  NodupKeys-list_from (suc rounds) i shards bucket result h =
      NodupKeys-list_from rounds (i + 1) shards bucket _
        (NodupKeys-list_shard (shards i) bucket result h)

  get-live :
      (shards : Shards) (bucket key : Bytes)
      → value? (get now shards bucket key) ≡ live_in (get_shard shards key) bucket key
  unfolding get
  get-live shards bucket key = ground arith

  lookup-listed :
      (shards : Shards) (bucket key : Bytes)
      → IsWellFormed shards
      → lookup key (list_from order now shard_count 0 shards bucket [])
        ≡ value? (get now shards bucket key)
  lookup-listed shards bucket key wf = ground (
    arith,
    lookup-list_from shard_count 0 shards bucket key [] wf,
    get-live shards bucket key,
    shard_index-lt-shard_count key,
    lookup-nil {V = Bytes} key,
  )

  or_empty-eq-ok : (d m : Dict Bytes Bytes) → or_empty order now d ≡ ok m → d ≡ m
  or_empty-eq-ok [] m h = cc
  or_empty-eq-ok (entry ∷ d) m h = cc

  or_empty-eq-err :
      (d : Dict Bytes Bytes)
      → (or_empty order now d ≡ err bucket_not_found_or_empty)
        ↔ ((key : Bytes) → lookup key d ≡ none)
  or_empty-eq-err [] = (λ h key. lookup-nil key, λ h. refl)
  or_empty-eq-err ((k, v) ∷ d) =
      (λ h. cc, λ h. unfold lookup in ground (arith, h k, bytes_eq_refl k))

  -- A listing that succeeds maps a key to a value exactly if a read of that key returns the value,
  -- and has no key twice, in whatever order the maps are visited.
  pub list-agrees-get :
      (shards : Shards) (bucket : Bytes) (m : Dict Bytes Bytes)
      → IsWellFormed shards
      → list order now shards bucket ≡ ok m
      → NodupKeys m × ((key : Bytes) → lookup key m ≡ value? (get now shards bucket key))
  unfolding list
  list-agrees-get shards bucket m wf h =
      subst (λ x. NodupKeys x × ((key : Bytes) → lookup key x ≡ value? (get now shards bucket key)))
        (or_empty-eq-ok (list_from order now shard_count 0 shards bucket []) m h)
        (
          NodupKeys-list_from shard_count 0 shards bucket [] tt,
          λ key. lookup-listed shards bucket key wf,
        )

  -- A listing fails exactly if no key of the bucket can be read.
  pub list-fails :
      (shards : Shards) (bucket : Bytes)
      → IsWellFormed shards
      → (list order now shards bucket ≡ err bucket_not_found_or_empty)
        ↔ ((key : Bytes) → value? (get now shards bucket key) ≡ none)
  unfolding list
  list-fails shards bucket wf =
      let d : Dict Bytes Bytes = list_from order now shard_count 0 shards bucket [] in
      (
        λ h key. sym (lookup-listed shards bucket key wf) ∙ (or_empty-eq-err d).0 h key,
        λ h. (or_empty-eq-err d).1 (λ key. lookup-listed shards bucket key wf ∙ h key),
      )

  -- A bucket with a key that can be read is listed.
  pub list-readable :
      (shards : Shards) (bucket key v : Bytes)
      → IsWellFormed shards
      → value? (get now shards bucket key) ≡ some v
      → (m : Dict Bytes Bytes) × (list order now shards bucket ≡ ok m)
  unfolding list
  list-readable shards bucket key v wf readable =
      go (list_from order now shard_count 0 shards bucket []) refl
    where
      go :
          (d : Dict Bytes Bytes)
          → list_from order now shard_count 0 shards bucket [] ≡ d
          → (m : Dict Bytes Bytes) × (list order now shards bucket ≡ ok m)
      go [] same = absurd (
          ground
            (arith, (list-fails shards bucket wf).0 (ap (or_empty order now) same) key, readable))
      go (entry ∷ d) same = (entry ∷ d, ap (or_empty order now) same)
