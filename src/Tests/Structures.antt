-- ===== src/Tests/Structures.antt =====
-- The data structures of kv-distributed/internal/datastructures/service.go and the queries of
-- kv-distributed/internal/indexing/indexer.go on small inputs.
use fast_kv_a_lightweight_ke.Base.{◌≡◌, refl, List, [], ◌∷◌, ◌++◌, ok, if◌then◌else◌, arith}
use fast_kv_a_lightweight_ke.Base.Bytes.{Bytes, bytes_key, text}
use fast_kv_a_lightweight_ke.Base.Dict.{lookup, insert, in_order}
use fast_kv_a_lightweight_ke.Base.Nested.{NodupNested, insert_in, ensure, bucket_or_nil}
use fast_kv_a_lightweight_ke.DataStructures.{
  DataStructures, new_data_structures, slice_at, set_add, set_list, sorted_list_get,
}
use fast_kv_a_lightweight_ke.DataStructures.Sorting.{IsSorted, occurrences}
use fast_kv_a_lightweight_ke.DataStructures.Sets.{member, set_list-members, sets-NodupNested}
use fast_kv_a_lightweight_ke.DataStructures.SortedLists.{add_all, sorted_list_get-add_all}
use fast_kv_a_lightweight_ke.DataStructures.Queues.{
  QueueCall, run_queues, run_spec, run_queues-eq-run_spec,
}
use fast_kv_a_lightweight_ke.DataStructures.Stacks.{
  StackCall, run_stacks, run_stack_spec, run_stacks-eq-run_stack_spec,
}
use mathlib.Core.List.{Perm}

abbrev a : Bytes
a = text "a"

abbrev b : Bytes
b = text "b"

abbrev tags : Bytes
tags = text "tags"

abbrev tagged : DataStructures
tagged = set_add tags a new_data_structures

new-NodupNested : NodupNested {V = Unit {0}} []
unfolding lookup
new-NodupNested = record { outer = tt; inner = λ set_name values found. absurd (ground arith) }

tagged-NodupNested : NodupNested tagged.sets
tagged-NodupNested = (sets-NodupNested tags a new_data_structures new-NodupNested).0

set_list-members_example : occurrences a (a ∷ []) ≡ (if member tags a tagged then 1 else 0)
unfolding set_list set_add insert_in insert ensure bucket_or_nil lookup
set_list-members_example = set_list-members in_order tags tagged (a ∷ []) tagged-NodupNested refl a

sorted_list_get-add_all_example :
    (values : List Bytes) × (sorted_list_get tags (add_all tags (b ∷ a ∷ []) new_data_structures)
      ≡ ok values)
    × IsSorted values
    × Perm values (slice_at tags [] ++ b ∷ a ∷ [])
sorted_list_get-add_all_example = sorted_list_get-add_all tags b (a ∷ []) new_data_structures

abbrev queue_calls : List QueueCall
queue_calls =
    QueueCall.push tags a
    ∷ QueueCall.push tags b
    ∷ QueueCall.peek tags
    ∷ QueueCall.pop tags
    ∷ QueueCall.pop a
    ∷ []

run_queues-eq-run_spec_example :
    run_queues queue_calls new_data_structures ≡ run_spec queue_calls (λ name. [])
unfolding slice_at lookup
run_queues-eq-run_spec_example =
    run_queues-eq-run_spec queue_calls new_data_structures (λ name. []) (λ name. refl)

abbrev stack_calls : List StackCall
stack_calls =
    StackCall.push tags a
    ∷ StackCall.push tags b
    ∷ StackCall.peek tags
    ∷ StackCall.pop tags
    ∷ StackCall.pop a
    ∷ []

run_stacks-eq-run_stack_spec_example :
    run_stacks stack_calls new_data_structures ≡ run_stack_spec stack_calls (λ name. [])
unfolding slice_at lookup
run_stacks-eq-run_stack_spec_example =
    run_stacks-eq-run_stack_spec stack_calls new_data_structures (λ name. []) (λ name. refl)
