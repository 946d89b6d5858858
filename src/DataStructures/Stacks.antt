-- ===== src/DataStructures/Stacks.antt =====
-- `StackPush`, `StackPop` and `StackPeek` against stacks by name.
use fast_kv_a_lightweight_ke.Base.{
  ◌≡◌, refl, ap, ap₂, none, some, List, [], ◌∷◌, ◌++◌, if◌then◌else◌, Result, ok, err, arith,
  stack_empty, ◌∙◌, Bool-cases, inl, inr,
}
use fast_kv_a_lightweight_ke.Base.Bytes.{Bytes, bytes_key, bytes_eq, bytes_eq_iff}
use fast_kv_a_lightweight_ke.DataStructures.{
  DataStructures, slice_at, split_last, stack_push, stack_pop, stack_peek,
}
use fast_kv_a_lightweight_ke.DataStructures.Slices.{slice_at-insert}

pub data StackCall : Type 0 where
  push : Bytes → Bytes → StackCall
  pop : Bytes → StackCall
  peek : Bytes → StackCall

-- The answers of a sequence of calls; a push answers nothing.
unfoldable pub run_stacks : List StackCall → DataStructures → List (Result Bytes)
run_stacks [] ds = []
run_stacks (push name value ∷ calls) ds = run_stacks calls (stack_push name value ds)
run_stacks (pop name ∷ calls) ds =
    let popped : DataStructures × Result Bytes = stack_pop name ds in
    popped.1 ∷ run_stacks calls popped.0
run_stacks (peek name ∷ calls) ds = stack_peek name ds ∷ run_stacks calls ds

-- The specification: a stack of values for every name, its top first.
abbrev pub Stacks : Type 0
Stacks = Bytes → List Bytes

abbrev pub set_stack : Stacks → Bytes → List Bytes → Stacks
set_stack q name values other = if bytes_eq name other then values else q other

abbrev pub top : List Bytes → Result Bytes
top [] = err stack_empty
top (x ∷ xs) = ok x

abbrev pub below : List Bytes → List Bytes
below [] = []
below (x ∷ xs) = xs

unfoldable pub run_stack_spec : List StackCall → Stacks → List (Result Bytes)
run_stack_spec [] q = []
run_stack_spec (push name value ∷ calls) q =
    run_stack_spec calls (set_stack q name (value ∷ q name))
run_stack_spec (pop name ∷ calls) q =
    top (q name) ∷ run_stack_spec calls (set_stack q name (below (q name)))
run_stack_spec (peek name ∷ calls) q = top (q name) ∷ run_stack_spec calls q

-- The slice that holds a stack: its bottom first.
abbrev pub bottom_first : List Bytes → List Bytes
bottom_first [] = []
bottom_first (x ∷ xs) = bottom_first xs ++ x ∷ []

pub split_last-snoc : (xs : List Bytes) (v : Bytes) → split_last (xs ++ v ∷ []) ≡ some (xs, v)
unfolding split_last
split_last-snoc [] v = refl
split_last-snoc (x ∷ xs) v = ground (arith, split_last-snoc xs v)

split_last-bottom_first :
    (stack : List Bytes)
    → split_last (bottom_first stack)
      ≡ elim stack [ [] ↦ none | x ∷ xs ↦ some (bottom_first xs, x) ]
split_last-bottom_first [] = unfold split_last in refl
split_last-bottom_first (x ∷ xs) = split_last-snoc (bottom_first xs) x

abbrev Implements : DataStructures → Stacks → Type 0
Implements ds q = (name : Bytes) → slice_at name ds.stacks ≡ bottom_first (q name)

module _ (name : Bytes) (ds : DataStructures) (q : Stacks) (same : Implements ds q) where
  Implements-push :
      (value : Bytes) → Implements (stack_push name value ds) (set_stack q name (value ∷ q name))
  unfolding stack_push
  Implements-push value other = elim (Bool-cases (bytes_eq name other)) [
    | inl here ↦ ground (
      arith,
      here,
      same name,
      slice_at-insert name other (slice_at name ds.stacks ++ value ∷ []) ds.stacks,
    )
    | inr away ↦ ground (
      arith,
      away,
      same other,
      slice_at-insert name other (slice_at name ds.stacks ++ value ∷ []) ds.stacks,
    )
  ]

  -- The top of a stack that the specification knows.
  at_top :
      (stack : List Bytes)
      → q name ≡ stack
      → split_last (slice_at name ds.stacks)
        ≡ elim stack [ [] ↦ none | x ∷ xs ↦ some (bottom_first xs, x) ]
  at_top stack known =
      ap split_last (same name ∙ ap bottom_first known) ∙ split_last-bottom_first stack

  Implements-pop_at :
      (stack : List Bytes)
      → q name ≡ stack
      → ((stack_pop name ds).1 ≡ top stack)
        × Implements (stack_pop name ds).0 (set_stack q name (below stack))
        × (stack_peek name ds ≡ top stack)
  unfolding stack_pop stack_peek
  Implements-pop_at [] known = (
    ground (arith, at_top [] known),
    λ other. ground (arith, at_top [] known, same other, known, bytes_eq_iff name other),
    ground (arith, at_top [] known),
  )
  Implements-pop_at (x ∷ xs) known = (
    ground (arith, at_top (x ∷ xs) known),
    λ other. elim (Bool-cases (bytes_eq name other)) [
      | inl here ↦ ground (
        arith,
        here,
        at_top (x ∷ xs) known,
        slice_at-insert name other (bottom_first xs) ds.stacks,
      )
      | inr away ↦ ground (
        arith,
        away,
        at_top (x ∷ xs) known,
        same other,
        slice_at-insert name other (bottom_first xs) ds.stacks,
      )
    ],
    ground (arith, at_top (x ∷ xs) known),
  )

-- Whatever calls are made on whatever stacks, they answer as last-in-first-out stacks kept by name
-- do, the errors of empty stacks included.
pub run_stacks-eq-run_stack_spec :
    (calls : List StackCall) (ds : DataStructures) (q : Stacks)
    → ((name : Bytes) → slice_at name ds.stacks ≡ bottom_first (q name))
    → run_stacks calls ds ≡ run_stack_spec calls q
unfolding run_stacks run_stack_spec
run_stacks-eq-run_stack_spec [] ds q same = refl
run_stacks-eq-run_stack_spec (push name value ∷ calls) ds q same =
    run_stacks-eq-run_stack_spec calls (stack_push name value ds) _
      (Implements-push name ds q same value)
run_stacks-eq-run_stack_spec (pop name ∷ calls) ds q same =
    let (answer, after, shown) = Implements-pop_at name ds q same (q name) refl in
    ap₂ ◌∷◌ answer (run_stacks-eq-run_stack_spec calls (stack_pop name ds).0 _ after)
run_stacks-eq-run_stack_spec (peek name ∷ calls) ds q same =
    let (answer, after, shown) = Implements-pop_at name ds q same (q name) refl in
    ap₂ ◌∷◌ shown (run_stacks-eq-run_stack_spec calls ds q same)
