-- ===== src/DataStructures/Queues.antt =====
-- `QueuePush`, `QueuePop` and `QueuePeek` against queues by name.
use fast_kv_a_lightweight_ke.Base.{
  ◌≡◌, refl, ap, ap₂, List, [], ◌∷◌, ◌++◌, if◌then◌else◌, Result, arith,
}
use fast_kv_a_lightweight_ke.Base.Bytes.{Bytes, bytes_key, bytes_eq, bytes_eq_iff}
use fast_kv_a_lightweight_ke.DataStructures.{
  DataStructures, slice_at, front, pop_front, queue_push, queue_pop, queue_peek,
}
use fast_kv_a_lightweight_ke.DataStructures.Slices.{slice_at-insert}

-- One call of a queue's method, with the queue's name.
pub data QueueCall : Type 0 where
  push : Bytes → Bytes → QueueCall
  pop : Bytes → QueueCall
  peek : Bytes → QueueCall

-- The answers of a sequence of calls; a push answers nothing.
unfoldable pub run_queues : List QueueCall → DataStructures → List (Result Bytes)
run_queues [] ds = []
run_queues (push name value ∷ calls) ds = run_queues calls (queue_push name value ds)
run_queues (pop name ∷ calls) ds =
    let popped : DataStructures × Result Bytes = queue_pop name ds in
    popped.1 ∷ run_queues calls popped.0
run_queues (peek name ∷ calls) ds = queue_peek name ds ∷ run_queues calls ds

-- The specification: a queue of values for every name, its front first.
abbrev pub Queues : Type 0
Queues = Bytes → List Bytes

abbrev pub set_queue : Queues → Bytes → List Bytes → Queues
set_queue q name values other = if bytes_eq name other then values else q other

abbrev pub rest : List Bytes → List Bytes
rest [] = []
rest (x ∷ xs) = xs

unfoldable pub run_spec : List QueueCall → Queues → List (Result Bytes)
run_spec [] q = []
run_spec (push name value ∷ calls) q = run_spec calls (set_queue q name (q name ++ value ∷ []))
run_spec (pop name ∷ calls) q = front (q name) ∷ run_spec calls (set_queue q name (rest (q name)))
run_spec (peek name ∷ calls) q = front (q name) ∷ run_spec calls q

abbrev Implements : DataStructures → Queues → Type 0
Implements ds q = (name : Bytes) → slice_at name ds.queues ≡ q name

Implements-push :
    (name value : Bytes) (ds : DataStructures) (q : Queues)
    → Implements ds q
    → Implements (queue_push name value ds) (set_queue q name (q name ++ value ∷ []))
unfolding queue_push
Implements-push name value ds q same other = ground (
  arith,
  same name,
  same other,
  slice_at-insert name other (slice_at name ds.queues ++ value ∷ []) ds.queues,
)

Implements-pop_front :
    (name : Bytes) (ds : DataStructures) (q : Queues) (values : List Bytes)
    → slice_at name ds.queues ≡ values
    → Implements ds q
    → Implements (pop_front name ds values).0 (set_queue q name (rest (q name)))
Implements-pop_front name ds q [] now same other =
    ground (arith, now, same name, same other, bytes_eq_iff name other)
Implements-pop_front name ds q (val ∷ later) now same other =
    ground (arith, now, same name, same other, slice_at-insert name other later ds.queues)

Implements-pop :
    (name : Bytes) (ds : DataStructures) (q : Queues)
    → Implements ds q
    → ((queue_pop name ds).1 ≡ front (q name))
      × Implements (queue_pop name ds).0 (set_queue q name (rest (q name)))
unfolding queue_pop
Implements-pop name ds q same =
    (ground (arith, same name), Implements-pop_front name ds q (slice_at name ds.queues) refl same)

-- Whatever calls are made on whatever queues, they answer as first-in-first-out queues kept by name
-- do, the errors of empty queues included.
pub run_queues-eq-run_spec :
    (calls : List QueueCall) (ds : DataStructures) (q : Queues)
    → ((name : Bytes) → slice_at name ds.queues ≡ q name)
    → run_queues calls ds ≡ run_spec calls q
unfolding run_queues run_spec
run_queues-eq-run_spec [] ds q same = refl
run_queues-eq-run_spec (push name value ∷ calls) ds q same =
    run_queues-eq-run_spec calls (queue_push name value ds) _ (Implements-push name value ds q same)
run_queues-eq-run_spec (pop name ∷ calls) ds q same =
    let (answer, after) = Implements-pop name ds q same in
    ap₂ ◌∷◌ answer (run_queues-eq-run_spec calls (queue_pop name ds).0 _ after)
run_queues-eq-run_spec (peek name ∷ calls) ds q same =
    ap₂ ◌∷◌ (unfold queue_peek in ap front (same name)) (run_queues-eq-run_spec calls ds q same)
