-- ===== src/Base/Results.antt =====
-- Go's `(T, error)`, and calls that also change a state.
use Prim.Native.String.{String}
use mathlib.Core.Path.{◌≡◌, refl}
use mathlib.Core.Bool.{Bool, true, false}
use mathlib.Core.Logic.{◌⊎◌, inl, inr}
use mathlib.Core.Option.{Option, none, some}
use mathlib.Core.List.{List, [], ◌∷◌}

-- The errors that `errors.Is` tells apart. A text is the format of the message, without what
-- `fmt.Errorf` fills in. `diverged` is no error of the program: it marks a loop whose fuel ran out.
pub data Error : Type 0 where
  forbidden not_found conflict diverged : Error
  invalid failure : String → Error

-- A value, or the error that is not `nil`.
pub data Result {ℓ} (T : Type ℓ) : Type ℓ where
  err : (error : Error) → Result T
  ok : (value : T) → Result T

infixl 5 ◌>>=◌
abbrev pub ◌>>=◌ {i j} : {T : Type i} {U : Type j} → Result T → (T → Result U) → Result U
err error >>= next = err error
ok value >>= next = next value

infixl 5 ◌>>◌
abbrev pub ◌>>◌ {i j} : {T : Type i} {U : Type j} → Result T → Result U → Result U
first >> second = first >>= λ _. second

-- `if !test { return error }`.
abbrev pub guard : Bool → Error → Result (Unit {0})
guard false e = err e
guard true e = ok tt

abbrev pub or_error {ℓ} : {A : Type ℓ} → Option A → Error → Result A
or_error none e = err e
or_error (some a) e = ok a

-- A sequence that succeeds, taken apart.
pub >>=-eq-ok {i j} :
    {T : Type i} {U : Type j} (first : Result T) (next : T → Result U) {u : U}
    → (first >>= next) ≡ ok u
    → (value : T) × (first ≡ ok value) × (next value ≡ ok u)
>>=-eq-ok (err error) next h = cc
>>=-eq-ok (ok value) next h = (value, refl, h)

-- A call on a state `S`. What was written stays written when the call fails.
abbrev pub Action : Type 0 → Type 0 → Type 0
Action S A = S → Result A × S

-- A loop that calls `f` on each item and returns at the first error.
abbrev pub traverse {ℓ κ} : {A : Type ℓ} {B : Type κ} → (A → Result B) → List A → Result (List B)
traverse f [] = ok []
traverse f (x ∷ xs) = let rest = traverse f xs in do y ← f x; ys ← rest; ok (y ∷ ys)

pub guard-eq-ok : (b : Bool) (e : Error) → guard b e ≡ ok tt → b ≡ true
guard-eq-ok true e h = refl
guard-eq-ok false e h = cc

pub Result-cases {ℓ} :
    {A : Type ℓ} (r : Result A) → ((e : Error) × (r ≡ err e)) ⊎ ((a : A) × (r ≡ ok a))
Result-cases (ok a) = inr (a, refl)
Result-cases (err e) = inl (e, refl)

-- A split on a result, with the equation in each branch.
pub on_result {ℓ κ} :
    {A : Type ℓ} {P : Type κ} (r : Result A)
    → ((e : Error) → r ≡ err e → P)
    → ((a : A) → r ≡ ok a → P)
    → P
on_result (ok a) failed done = done a refl
on_result (err e) failed done = failed e refl
