-- ===== src/Base/Dict.antt =====
-- Go's `map` as an association list over keys with an equality, and `range` over it, whose order
-- the language leaves open.
use fast_kv_a_lightweight_ke.Base.Tests.{Eq, is_some, if◌then◌else◌}
use mathlib.Core.Path.{◌≡◌, refl}
use mathlib.Core.Bool.{Bool, true}
use mathlib.Core.Option.{Option, none, some}
use mathlib.Core.List.{List, [], ◌∷◌}
use native.Mathlib.Omega.{arith}

abbrev pub Dict {ℓ κ} : Type ℓ → Type κ → Type (ℓ ⊔ κ)
Dict K V = List (K × V)

module _ {ℓ κ} {K : Type ℓ} {V : Type κ} ⦃e : Eq K⦄ where
  -- `v, ok := m[k]`
  unfoldable pub lookup : K → Dict K V → Option V
  lookup k [] = none
  lookup k ((j, v) ∷ m) = if e.beq j k then some v else lookup k m

  -- `m[k] = v`
  unfoldable pub insert : K → V → Dict K V → Dict K V
  insert k v [] = (k, v) ∷ []
  insert k v ((j, w) ∷ m) = if e.beq j k then (j, v) ∷ m else (j, w) ∷ insert k v m

  -- `delete(m, k)`
  unfoldable pub remove : K → Dict K V → Dict K V
  remove k [] = []
  remove k ((j, v) ∷ m) = let rest = remove k m in if e.beq j k then rest else (j, v) ∷ rest

  -- `_, ok := m[k]`
  abbrev pub has_key : K → Dict K V → Bool
  has_key k m = is_some (lookup k m)

  -- A key stands at most once.
  abbrev pub NodupKeys : Dict K V → Type κ
  NodupKeys [] = Unit
  NodupKeys ((k, v) ∷ m) = (lookup k m ≡ none) × NodupKeys m

pub lookup-nil {ℓ κ} : {K : Type ℓ} {V : Type κ} ⦃e : Eq K⦄ (key : K) → lookup {V = V} key [] ≡ none
unfolding lookup
lookup-nil key = refl

pub beq_refl {ℓ} : {K : Type ℓ} ⦃e : Eq K⦄ (k : K) → e.beq k k ≡ true
beq_refl ⦃e⦄ k = (e.beq_iff k k).1 refl

module _ {ℓ κ} {K : Type ℓ} {V : Type κ} ⦃e : Eq K⦄ where
  pub lookup-insert :
      (k j : K) (v : V) (m : Dict K V)
      → lookup j (insert k v m) ≡ (if e.beq k j then some v else lookup j m)
  unfolding lookup insert
  lookup-insert k j v [] = refl
  lookup-insert k j v ((i, w) ∷ m) =
      ground (arith, e.beq_iff k j, e.beq_iff i k, e.beq_iff i j, lookup-insert k j v m)

  pub lookup-remove :
      (k j : K) (m : Dict K V) → lookup j (remove k m) ≡ (if e.beq k j then none else lookup j m)
  unfolding lookup remove
  lookup-remove k j [] = ground arith
  lookup-remove k j ((i, w) ∷ m) =
      ground (arith, e.beq_iff k j, e.beq_iff i k, e.beq_iff i j, lookup-remove k j m)

  pub NodupKeys-insert : (k : K) (v : V) (m : Dict K V) → NodupKeys m → NodupKeys (insert k v m)
  unfolding insert
  NodupKeys-insert k v [] h = (unfold lookup in refl, tt)
  NodupKeys-insert k v ((j, w) ∷ m) h =
      ground
        (arith, NodupKeys-insert k v m h.1, lookup-insert k j v m, e.beq_iff j k, e.beq_iff k j)

  pub NodupKeys-remove : (k : K) (m : Dict K V) → NodupKeys m → NodupKeys (remove k m)
  unfolding remove
  NodupKeys-remove k [] h = tt
  NodupKeys-remove k ((j, w) ∷ m) h = ground (arith, NodupKeys-remove k m h.1, lookup-remove k j m)

-- The order in which one `range` visits the entries of a map: any order, each entry once.
pub record RangeOrder {ℓ κ} (K : Type ℓ) (V : Type κ) ⦃e : Eq K⦄ : Type (ℓ ⊔ κ) where
  pub visit : Dict K V → List (K × V)
  pub visit-NodupKeys : (m : Dict K V) → NodupKeys m → NodupKeys (visit m)
  pub lookup-visit : (m : Dict K V) → NodupKeys m → (k : K) → lookup k (visit m) ≡ lookup k m

-- One possible order.
abbrev pub in_order {ℓ κ} : {K : Type ℓ} {V : Type κ} ⦃e : Eq K⦄ → RangeOrder K V
in_order = record { visit = λ m. m; visit-NodupKeys = λ m h. h; lookup-visit = λ m h k. refl }
