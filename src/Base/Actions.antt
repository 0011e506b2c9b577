-- ===== src/Base/Actions.antt =====
-- `do` for calls that change a state. It stands apart from `Base`, whose `do` is that of `Result`.
use mathlib.Core.Path.{◌≡◌}
use fine_grained_permissions.Base.Results.{Error, Result, ok, err, Action, on_result}

infixl 5 ◌>>=◌ ◌>>◌
abbrev pub ◌>>=◌ : {S A B : Type 0} → Action S A → (A → Action S B) → Action S B
◌>>=◌ m f s = let (r, s') = m s in elim r [ ok a ↦ f a s' | err e ↦ (err e, s') ]

abbrev pub ◌>>◌ : {S A B : Type 0} → Action S A → Action S B → Action S B
m >> k = m >>= λ _. k

abbrev pub pure : {S A : Type 0} → A → Action S A
pure a s = (ok a, s)

-- A call that only reads.
abbrev pub reading : {S A : Type 0} → (S → Result A) → Action S A
reading f s = (f s, s)

-- The call fails and leaves the state as it was.
abbrev pub Refused : {S A : Type 0} → Action S A → S → Type 0
Refused m s = (e : Error) × (m s ≡ (err e, s))

-- What holds of the state after a call, and after any that follows it, holds after both.
pub >>=-keeps :
    {S A B : Type 0} (P : S → Type 0) (m : Action S A) (f : A → Action S B) (s : S)
    → P (m s).1
    → ((a : A) → P (f a (m s).1).1)
    → P ((m >>= f) s).1
>>=-keeps P m f s after both =
    on_result (m s).0 (λ e failed. rw (failed, ◌>>=◌) after) (λ a done. rw (done, ◌>>=◌) (both a))
