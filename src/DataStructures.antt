-- ===== src/DataStructures.antt =====
-- kv-distributed/internal/datastructures/service.go: named sets, sorted lists, maps, queues and stacks.
-- Every method holds the service's lock, so each is one step.
pub mod Slices
pub mod Sorting
pub mod Sets
pub mod SortedLists
pub mod Maps
pub mod Queues
pub mod Stacks
use fast_kv_a_lightweight_ke.Base.{
  ℕ, Bool, true, false, ◌&&◌, Option, none, some, List, [], ◌∷◌, ◌++◌, if◌then◌else◌, Result, ok,
  err, Failure, value_not_found_in_set, set_not_found, list_not_found, key_not_found_in_map,
  map_not_found, queue_empty, stack_empty, map,
}
use fast_kv_a_lightweight_ke.Base.Bytes.{Bytes, bytes_key, bytes_le}
use fast_kv_a_lightweight_ke.Base.Dict.{Dict, lookup, insert, remove, RangeOrder}
use fast_kv_a_lightweight_ke.Base.Nested.{Nested, ensure, insert_in, remove_in}

-- A `Set` is a map to the empty struct. The values of a `Map` are all strings.
pub record DataStructures : Type 0 where
  pub sets : Nested (Unit {0})
  pub lists : Dict Bytes (List Bytes)
  pub maps : Nested Bytes
  pub queues : Dict Bytes (List Bytes)
  pub stacks : Dict Bytes (List Bytes)

abbrev pub new_data_structures : DataStructures
new_data_structures = record { sets = []; lists = []; maps = []; queues = []; stacks = [] }

-- Reading a missing name gives the nil slice.
unfoldable pub slice_at : Bytes → Dict Bytes (List Bytes) → List Bytes
slice_at name m = elim (lookup name m) [ none ↦ [] | some values ↦ values ]

unfoldable pub set_add : Bytes → Bytes → DataStructures → DataStructures
set_add set_name value ds = record ds {
  sets = insert_in set_name value tt (ensure set_name ds.sets);
}

unfoldable pub set_remove : Bytes → Bytes → DataStructures → DataStructures × Failure
set_remove set_name value ds = elim (lookup set_name ds.sets) [
  | none ↦ (ds, some set_not_found)
  | some s ↦ elim (lookup value s) [
    | none ↦ (ds, some value_not_found_in_set)
    | some unit ↦ (record ds { sets = remove_in set_name value ds.sets }, none)
  ]
]

abbrev pub keys_of {κ} : {V : Type κ} → List (Bytes × V) → List Bytes
keys_of [] = []
keys_of ((k, v) ∷ entries) = k ∷ keys_of entries

unfoldable pub set_list : RangeOrder Bytes (Unit {0}) → Bytes → DataStructures → Result (List Bytes)
set_list order set_name ds = elim (lookup set_name ds.sets) [
  | none ↦ err set_not_found
  | some s ↦ ok (keys_of (order.visit s))
]

-- `sort.Strings`: the order is total and equal strings cannot be told apart, so every way to sort
-- gives the same slice.
unfoldable pub insert_sorted : Bytes → List Bytes → List Bytes
insert_sorted v [] = v ∷ []
insert_sorted v (x ∷ xs) = if bytes_le v x then v ∷ x ∷ xs else x ∷ insert_sorted v xs

unfoldable pub sort_strings : List Bytes → List Bytes
unfolding insert_sorted
sort_strings [] = []
sort_strings (x ∷ xs) = insert_sorted x (sort_strings xs)

unfoldable pub sorted_list_add : Bytes → Bytes → DataStructures → DataStructures
unfolding slice_at sort_strings
sorted_list_add list_name value ds = record ds {
  lists = insert list_name (sort_strings (slice_at list_name ds.lists ++ value ∷ [])) ds.lists;
}

unfoldable pub sorted_list_get : Bytes → DataStructures → Result (List Bytes)
sorted_list_get list_name ds = elim (lookup list_name ds.lists) [
  | none ↦ err list_not_found
  | some values ↦ ok values
]

unfoldable pub map_put : Bytes → Bytes → Bytes → DataStructures → DataStructures
map_put map_name key value ds = record ds {
  maps = insert_in map_name key value (ensure map_name ds.maps);
}

unfoldable pub map_get : Bytes → Bytes → DataStructures → Result Bytes
map_get map_name key ds = elim (lookup map_name ds.maps) [
  | none ↦ err map_not_found
  | some m ↦ elim (lookup key m) [ none ↦ err key_not_found_in_map | some val ↦ ok val ]
]

unfoldable pub queue_push : Bytes → Bytes → DataStructures → DataStructures
unfolding slice_at
queue_push name value ds = record ds {
  queues = insert name (slice_at name ds.queues ++ value ∷ []) ds.queues;
}

-- `q[0]` and `q[1:]`
abbrev pop_front : Bytes → DataStructures → List Bytes → DataStructures × Result Bytes
pop_front name ds [] = (ds, err queue_empty)
pop_front name ds (val ∷ rest) = (record ds { queues = insert name rest ds.queues }, ok val)

unfoldable pub queue_pop : Bytes → DataStructures → DataStructures × Result Bytes
unfolding slice_at
queue_pop name ds = pop_front name ds (slice_at name ds.queues)

abbrev pub front : List Bytes → Result Bytes
front [] = err queue_empty
front (val ∷ rest) = ok val

unfoldable pub queue_peek : Bytes → DataStructures → Result Bytes
unfolding slice_at
queue_peek name ds = front (slice_at name ds.queues)

unfoldable pub stack_push : Bytes → Bytes → DataStructures → DataStructures
unfolding slice_at
stack_push name value ds = record ds {
  stacks = insert name (slice_at name ds.stacks ++ value ∷ []) ds.stacks;
}

-- `s[:len(s)-1]` and `s[len(s)-1]`
unfoldable pub split_last : List Bytes → Option (List Bytes × Bytes)
split_last [] = none
split_last (x ∷ xs) = elim (split_last xs) [ none ↦ some ([], x) | some (ys, y) ↦ some (x ∷ ys, y) ]

unfoldable pub stack_pop : Bytes → DataStructures → DataStructures × Result Bytes
unfolding slice_at split_last
stack_pop name ds = elim (split_last (slice_at name ds.stacks)) [
  | none ↦ (ds, err stack_empty)
  | some (rest, val) ↦ (record ds { stacks = insert name rest ds.stacks }, ok val)
]

unfoldable pub stack_peek : Bytes → DataStructures → Result Bytes
unfolding slice_at split_last
stack_peek name ds = elim (split_last (slice_at name ds.stacks)) [
  | none ↦ err stack_empty
  | some (rest, val) ↦ ok val
]
