-- ===== src/DataStructures/Sorting.antt =====
-- `sort.Strings` sorts: ascending, and the same strings as often.
use fast_kv_a_lightweight_ke.Base.{
  ℕ, ◌+◌, ◌≡◌, refl, true, List, [], ◌∷◌, All, arith, if◌then◌else◌, inl, inr, Bool-cases,
}
use fast_kv_a_lightweight_ke.Base.Bytes.{Bytes, bytes_eq, bytes_le, bytes_le_total, bytes_le_trans}
use fast_kv_a_lightweight_ke.DataStructures.{insert_sorted, sort_strings}
use mathlib.Core.List.{Perm}
use mathlib.Core.List.Perm

-- Ascending: each string is at most all that follow.
abbrev pub IsSorted : List Bytes → Type 0
IsSorted [] = Unit
IsSorted (x ∷ xs) = All (λ y. bytes_le x y ≡ true) xs × IsSorted xs

All-weaken :
    (v x : Bytes) (xs : List Bytes)
    → bytes_le v x ≡ true
    → All (λ y. bytes_le x y ≡ true) xs
    → All (λ y. bytes_le v y ≡ true) xs
All-weaken v x [] h k = tt
All-weaken v x (y ∷ ys) h k = (bytes_le_trans v x y h k.0, All-weaken v x ys h k.1)

All-insert_sorted :
    (P : Bytes → Type 0) (v : Bytes) (xs : List Bytes) → P v → All P xs → All P (insert_sorted v xs)
unfolding insert_sorted
All-insert_sorted P v [] h k = (h, tt)
All-insert_sorted P v (x ∷ xs) h k = elim (Bool-cases (bytes_le v x)) [
  | inl le ↦ rw le (h, k)
  | inr gt ↦ rw gt (k.0, All-insert_sorted P v xs h k.1)
]

insert_sorted-IsSorted : (v : Bytes) (xs : List Bytes) → IsSorted xs → IsSorted (insert_sorted v xs)
unfolding insert_sorted
insert_sorted-IsSorted v [] h = (tt, tt)
insert_sorted-IsSorted v (x ∷ xs) h = elim (Bool-cases (bytes_le v x)) [
  | inl le ↦ rw le ((le, All-weaken v x xs le h.0), h)
  | inr gt ↦ rw gt (
    All-insert_sorted (λ y. bytes_le x y ≡ true) v xs (ground (arith, gt, bytes_le_total v x)) h.0,
    insert_sorted-IsSorted v xs h.1,
  )
]

pub sort_strings-IsSorted : (xs : List Bytes) → IsSorted (sort_strings xs)
unfolding sort_strings
sort_strings-IsSorted [] = tt
sort_strings-IsSorted (x ∷ xs) =
    insert_sorted-IsSorted x (sort_strings xs) (sort_strings-IsSorted xs)

insert_sorted-perm : (v : Bytes) (xs : List Bytes) → Perm (insert_sorted v xs) (v ∷ xs)
unfolding insert_sorted
insert_sorted-perm v [] = Perm.refl (v ∷ [])
insert_sorted-perm v (x ∷ xs) = elim (Bool-cases (bytes_le v x)) [
  | inl le ↦ rw le (Perm.refl (v ∷ x ∷ xs))
  | inr gt ↦ rw gt (Perm.trans (Perm.cons x (insert_sorted-perm v xs)) (Perm.swap v x xs))
]

pub sort_strings-perm : (xs : List Bytes) → Perm (sort_strings xs) xs
unfolding sort_strings
sort_strings-perm [] = Perm.refl []
sort_strings-perm (x ∷ xs) =
    Perm.trans (insert_sorted-perm x (sort_strings xs)) (Perm.cons x (sort_strings-perm xs))

-- How often a string stands in a list.
abbrev pub occurrences : Bytes → List Bytes → ℕ
occurrences v [] = 0
occurrences v (x ∷ xs) = (if bytes_eq x v then 1 else 0) + occurrences v xs

occurrences-insert_sorted :
    (v x : Bytes) (xs : List Bytes)
    → occurrences v (insert_sorted x xs) ≡ (if bytes_eq x v then 1 else 0) + occurrences v xs
unfolding insert_sorted
occurrences-insert_sorted v x [] = refl
occurrences-insert_sorted v x (y ∷ ys) = ground (arith, occurrences-insert_sorted v x ys)

pub occurrences-sort_strings :
    (v : Bytes) (xs : List Bytes) → occurrences v (sort_strings xs) ≡ occurrences v xs
unfolding sort_strings
occurrences-sort_strings v [] = refl
occurrences-sort_strings v (x ∷ xs) =
    omega (arith, occurrences-insert_sorted v x (sort_strings xs), occurrences-sort_strings v xs)
