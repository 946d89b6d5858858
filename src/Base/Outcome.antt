-- ===== src/Base/Outcome.antt =====
-- Go's (value, error) pair: the errors are the source's messages and those of the operating
-- system, of package `io` and of package `rpc` that the source passes on.
use mathlib.Core.Path.{◌≡◌, refl}
use mathlib.Core.Bool.{Bool, true, false}
use mathlib.Core.Option.{Option, none, some}

pub data Error : Type 0 where
  -- storage.go
  key_expired key_not_found bucket_not_found bucket_not_found_or_empty : Error
  persistence_not_initialized : Error
  -- transaction.go
  invalid_action : Error
  -- datastructures/service.go
  value_not_found_in_set set_not_found list_not_found key_not_found_in_map map_not_found : Error
  queue_empty stack_empty : Error
  -- `io.EOF`, `io.ErrUnexpectedEOF`, a failed open, write or seek, a failed dial
  eof unexpected_eof open_failed write_failed dial_failed : Error
  -- package rpc: an unknown method, an answer that breaks off, a connection that has been shut down
  method_not_found reading_body shut_down : Error
  -- no error of the program: a loop of the model has no rounds left
  out_of_fuel : Error

pub data Result {ℓ} (A : Type ℓ) : Type ℓ where
  ok : A → Result A
  err : Error → Result A

infixl 5 ◌>>=◌
-- `if err != nil { return err }` between two calls
abbrev pub ◌>>=◌ {ℓ κ} : {V : Type ℓ} {W : Type κ} → Result V → (V → Result W) → Result W
err failure >>= next = err failure
ok value >>= next = next value

-- A bare `error` result: `none` is `nil`.
abbrev pub Failure : Type 0
Failure = Option Error

-- The value of a result, if there is one.
abbrev pub value? {ℓ} : {A : Type ℓ} → Result A → Option A
value? (ok a) = some a
value? (err e) = none

abbrev pub is_ok {ℓ} : {A : Type ℓ} → Result A → Bool
is_ok (ok a) = true
is_ok (err e) = false

-- A chain that succeeds had a first call that succeeded.
pub >>=-eq-ok {ℓ κ} :
    {V : Type ℓ} {W : Type κ} (call : Result V) (next : V → Result W) {w : W}
    → (call >>= next) ≡ ok w
    → (v : V) × (call ≡ ok v) × (next v ≡ ok w)
>>=-eq-ok (err failure) next done = cc
>>=-eq-ok (ok value) next done = (value, refl, done)
