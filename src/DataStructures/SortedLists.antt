-- ===== src/DataStructures/SortedLists.antt =====
-- `SortedListAdd` and `SortedListGet`.
use fast_kv_a_lightweight_ke.Base.{
  ◌≡◌, refl, sym, ap, ◌∙◌, List, [], ◌∷◌, ◌++◌, append_assoc, ok, arith, inl, inr, Bool-cases,
}
use fast_kv_a_lightweight_ke.Base.Bytes.{
  Bytes, bytes_key, bytes_eq_refl, bytes_le, bytes_le_total, bytes_le_trans, bytes_le_antisymm,
}
use fast_kv_a_lightweight_ke.Base.Dict.{lookup-insert}
use fast_kv_a_lightweight_ke.DataStructures.{
  DataStructures, slice_at, insert_sorted, sort_strings, sorted_list_add, sorted_list_get,
}
use fast_kv_a_lightweight_ke.DataStructures.Slices.{slice_at-insert}
use fast_kv_a_lightweight_ke.DataStructures.Sorting.{
  IsSorted, sort_strings-IsSorted, sort_strings-perm,
}
use mathlib.Core.List.{Perm}

-- Two insertions may be swapped.
insert_sorted_comm :
    (a b : Bytes) (xs : List Bytes)
    → insert_sorted a (insert_sorted b xs) ≡ insert_sorted b (insert_sorted a xs)
unfolding insert_sorted
insert_sorted_comm a b [] = ground (arith, bytes_le_total a b, bytes_le_antisymm a b)
insert_sorted_comm a b (x ∷ xs) = ground (
  arith,
  bytes_le_total a b,
  bytes_le_antisymm a b,
  bytes_le_trans a b x,
  bytes_le_trans b a x,
  bytes_le_total a x,
  bytes_le_total b x,
  insert_sorted_comm a b xs,
)

-- Appending a value and sorting is inserting it in its place.
pub sort_strings-snoc :
    (xs : List Bytes) (v : Bytes) → sort_strings (xs ++ v ∷ []) ≡ insert_sorted v (sort_strings xs)
unfolding sort_strings
sort_strings-snoc [] v = refl
sort_strings-snoc (x ∷ xs) v =
    ap (insert_sorted x) (sort_strings-snoc xs v) ∙ insert_sorted_comm x v (sort_strings xs)

-- Additions in a row.
unfoldable pub add_all : Bytes → List Bytes → DataStructures → DataStructures
add_all list_name [] ds = ds
add_all list_name (v ∷ vs) ds = add_all list_name vs (sorted_list_add list_name v ds)

sort-insert_sorted :
    (v : Bytes) (xs ys : List Bytes)
    → sort_strings (insert_sorted v xs ++ ys) ≡ insert_sorted v (sort_strings (xs ++ ys))
unfolding sort_strings
sort-insert_sorted v [] ys = refl
sort-insert_sorted v (x ∷ xs) ys = elim (Bool-cases (bytes_le v x)) [
  | inl le ↦ rw (le, insert_sorted) refl
  | inr gt ↦
      rw (gt, insert_sorted)
        (ap (insert_sorted x) (sort-insert_sorted v xs ys)
          ∙ insert_sorted_comm x v (sort_strings (xs ++ ys)))
]

-- Sorting what has been sorted before changes nothing.
sort-sort : (xs ys : List Bytes) → sort_strings (sort_strings xs ++ ys) ≡ sort_strings (xs ++ ys)
unfolding sort_strings
sort-sort [] ys = refl
sort-sort (x ∷ xs) ys =
    sort-insert_sorted x (sort_strings xs) ys ∙ ap (insert_sorted x) (sort-sort xs ys)

module _ (list_name : Bytes) where
  get-add :
      (v : Bytes) (ds : DataStructures)
      → (sorted_list_get list_name (sorted_list_add list_name v ds)
          ≡ ok (sort_strings (slice_at list_name ds.lists ++ v ∷ [])))
        × (slice_at list_name (sorted_list_add list_name v ds).lists
            ≡ sort_strings (slice_at list_name ds.lists ++ v ∷ []))
  unfolding sorted_list_add sorted_list_get
  get-add v ds =
      let values : List Bytes = sort_strings (slice_at list_name ds.lists ++ v ∷ []) in
      (
        ground (arith, lookup-insert list_name list_name values ds.lists, bytes_eq_refl list_name),
        ground
            (arith, slice_at-insert list_name list_name values ds.lists, bytes_eq_refl list_name),
      )

  get-add_all :
      (v : Bytes) (vs : List Bytes) (ds : DataStructures)
      → sorted_list_get list_name (add_all list_name (v ∷ vs) ds)
        ≡ ok (sort_strings (slice_at list_name ds.lists ++ v ∷ vs))
  unfolding add_all
  get-add_all v [] ds = (get-add v ds).0
  get-add_all v (w ∷ vs) ds =
      get-add_all w vs (sorted_list_add list_name v ds)
      ∙ ap ok (
          ap (λ old. sort_strings (old ++ w ∷ vs)) (get-add v ds).1
          ∙ sort-sort (slice_at list_name ds.lists ++ v ∷ []) (w ∷ vs)
          ∙ ap sort_strings (append_assoc (slice_at list_name ds.lists) (v ∷ []) (w ∷ vs)))

  -- After any additions to a list, in any order, it reads as the values it had and the values that
  -- were added, each as often, ascending.
  pub sorted_list_get-add_all :
      (v : Bytes) (vs : List Bytes) (ds : DataStructures)
      → (values : List Bytes) × (sorted_list_get list_name (add_all list_name (v ∷ vs) ds)
          ≡ ok values)
        × IsSorted values
        × Perm values (slice_at list_name ds.lists ++ v ∷ vs)
  sorted_list_get-add_all v vs ds =
      let all : List Bytes = slice_at list_name ds.lists ++ v ∷ vs in
      (sort_strings all, get-add_all v vs ds, sort_strings-IsSorted all, sort_strings-perm all)

get-add_twice :
    (list_name a b : Bytes) (ds : DataStructures)
    → sorted_list_get list_name (sorted_list_add list_name a (sorted_list_add list_name b ds))
      ≡ ok (insert_sorted a (insert_sorted b (sort_strings (slice_at list_name ds.lists))))
get-add_twice list_name a b ds =
    let old : List Bytes = slice_at list_name ds.lists in
    (get-add list_name a (sorted_list_add list_name b ds)).0
    ∙ ap ok (
        ap (λ values. sort_strings (values ++ a ∷ [])) (get-add list_name b ds).1
        ∙ sort-sort (old ++ b ∷ []) (a ∷ [])
        ∙ sort_strings-snoc (old ++ b ∷ []) a
        ∙ ap (insert_sorted a) (sort_strings-snoc old b))

-- Two additions to a list may be swapped: it reads the same.
pub sorted_list_add_comm :
    (list_name a b : Bytes) (ds : DataStructures)
    → sorted_list_get list_name (sorted_list_add list_name a (sorted_list_add list_name b ds))
      ≡ sorted_list_get list_name (sorted_list_add list_name b (sorted_list_add list_name a ds))
sorted_list_add_comm list_name a b ds =
    get-add_twice list_name a b ds
    ∙ ap ok (insert_sorted_comm a b (sort_strings (slice_at list_name ds.lists)))
    ∙ sym (get-add_twice list_name b a ds)
