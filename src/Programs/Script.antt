-- ===== src/Programs/Script.antt =====
-- A program that calls over one connection, prints lines and ends early with `log.Fatal`, and the
-- triples that its proofs are made of.
use fast_kv_a_lightweight_ke.Base.{◌≡◌, refl, none, some, List, [], ◌∷◌, ◌++◌, Failure, Error}
use fast_kv_a_lightweight_ke.Base.Bytes.{Bytes}
use fast_kv_a_lightweight_ke.Base.Dict.{Dict}
use fast_kv_a_lightweight_ke.Client.{Link}

-- What a program prints: a message, or a message with what was read.
pub data Output : Type 0 where
  line : Bytes → Output
  value_line : Bytes → Bytes → Output
  keys_line : Bytes → List Bytes → Output
  entries_line : Bytes → Dict Bytes Bytes → Output

pub record Progress : Type 0 where
  pub link : Link
  pub printed : List Output

-- A part of a program has run to its end, or the program has exited with a message and an error.
pub data Outcome {ℓ} (A : Type ℓ) : Type ℓ where
  completed : A → Outcome A
  fatal : Bytes → Error → Outcome A

abbrev pub Script {ℓ} : Type ℓ → Type ℓ
Script A = Progress → Progress × Outcome A

infixl 5 ◌>>=◌ ◌>>◌
unfoldable pub ◌>>=◌ {ℓ κ} : {A : Type ℓ} {B : Type κ} → Script A → (A → Script B) → Script B
(script >>= next) st = elim (script st).1 [
  | completed a ↦ next a (script st).0
  | fatal message e ↦ ((script st).0, fatal message e)
]

unfoldable pub ◌>>◌ {ℓ} : {B : Type ℓ} → Script (Unit {0}) → Script B → Script B
unfolding ◌>>=◌
first >> second = first >>= (λ done. second)

unfoldable pub print : Output → Script (Unit {0})
print output st = (record st { printed = st.printed ++ output ∷ [] }, completed tt)

-- A call, and `if err != nil { log.Fatal(message, err) }`.
unfoldable pub receive {ℓ} : {A : Type ℓ} → Bytes → (Link → Link × A × Failure) → Script A
receive message call st =
    let (link, a, failure) = call st.link in
    elim failure [
      | none ↦ (record st { link = link }, completed a)
      | some e ↦ (record st { link = link }, fatal message e)
    ]

unfoldable pub expect : Bytes → (Link → Link × Failure) → Script (Unit {0})
unfolding receive
expect message call = receive message (λ l. let (link, failure) = call l in (link, tt, failure))

-- From a state of the one kind, the script runs to its end and into a state of the other.
pub record Runs {ℓ κ ι} {A : Type ℓ} (Before : Progress → Type κ) (script : Script A)
    (After : A → Progress → Type ι) : Type (ℓ ⊔ κ ⊔ ι) where
  pub runs :
      (st : Progress) → Before st → (a : A) × ((script st).1 ≡ completed a) × After a (script st).0

>>=-completed {ℓ κ} :
    {A : Type ℓ} {B : Type κ} (script : Script A) (next : A → Script B) (st : Progress) (a : A)
    → (script st).1 ≡ completed a
    → (script >>= next) st ≡ next a (script st).0
unfolding ◌>>=◌
>>=-completed script next st a ends = rw (ends, ◌>>=◌) refl

pub Runs->>= {ℓ κ ι ν μ} :
    {A : Type ℓ} {B : Type κ} {Before : Progress → Type ι} {script : Script A}
    {Between : A → Progress → Type ν} {next : A → Script B} {After : B → Progress → Type μ}
    → Runs Before script Between
    → ((a : A) → Runs (Between a) (next a) After)
    → Runs Before (script >>= next) After
Runs->>= {script = script} {next = next} first second = record {
  runs = λ st before.
      let (a, ends, between) = first.runs st before in
      let (b, ends2, after) = (second a).runs (script st).0 between in
      let same = >>=-completed script next st a ends in (b, rw same ends2, rw same after);
}

pub Runs->> {ℓ κ ι ν} :
    {B : Type ℓ} {Before : Progress → Type κ} {first : Script (Unit {0})}
    {Between : Unit {0} → Progress → Type ι} {second : Script B} {After : B → Progress → Type ν}
    → Runs Before first Between
    → Runs (Between tt) second After
    → Runs Before (first >> second) After
unfolding ◌>>◌
Runs->> one two = Runs->>= one (λ done. two)

-- What holds at the end may be weakened.
pub Runs-weaken {ℓ κ ι ν} :
    {A : Type ℓ} {Before : Progress → Type κ} {script : Script A} {After : A → Progress → Type ι}
    {Weaker : A → Progress → Type ν}
    → ((a : A) (st : Progress) → After a st → Weaker a st)
    → Runs Before script After
    → Runs Before script Weaker
Runs-weaken weaker triple = record {
  runs = λ st before. let (a, ends, after) = triple.runs st before in (a, ends, weaker a _ after);
}
