-- ===== src/Base/Finds.antt =====
-- What `find_first` and `any` find in lists that are put together, filtered or mapped.
use mathlib.Core.Path.{◌≡◌, refl, ap}
use mathlib.Core.Logic.{◌⊎◌, inl, inr}
use mathlib.Core.Bool.{Bool, true, false}
use mathlib.Core.Option.{none, some}
use mathlib.Core.List.{List, [], ◌∷◌, ◌++◌, map}
use native.Mathlib.Omega.{arith}
use fine_grained_permissions.Base.Tests.{Bool-cases}
use fine_grained_permissions.Base.Lists.{find_first, any, select, In}

pub find_first-append_left {ℓ} :
    {A : Type ℓ} (f : A → Bool) (xs ys : List A) {x : A}
    → find_first f xs ≡ some x
    → find_first f (xs ++ ys) ≡ some x
find_first-append_left f [] ys h = cc
find_first-append_left f (y ∷ xs) ys h = elim (Bool-cases (f y)) [
  | inl taken ↦ rw taken (rw taken at h)
  | inr left ↦ rw left (find_first-append_left f xs ys (rw left at h))
]

pub find_first-append {ℓ} :
    {A : Type ℓ} (f : A → Bool) (xs : List A) (y : A) {x : A}
    → find_first f (xs ++ y ∷ []) ≡ some x
    → (find_first f xs ≡ some x) ⊎ ((f y ≡ true) × (y ≡ x))
find_first-append f [] y h = elim (Bool-cases (f y)) [
  | inl taken ↦ inr (taken, cc (rw taken at h))
  | inr left ↦ absurd (cc (rw left at h))
]
find_first-append f (z ∷ xs) y h = elim (Bool-cases (f z)) [
  | inl taken ↦ inl (rw taken (rw taken at h))
  | inr left ↦ rw left (find_first-append f xs y (rw left at h))
]

pub find_first-select {ℓ} :
    {A : Type ℓ} (f g : A → Bool) (xs : List A)
    → ((x : A) → f x ≡ true → g x ≡ true)
    → find_first f (select g xs) ≡ find_first f xs
find_first-select f g [] h = refl
find_first-select f g (x ∷ xs) h = elim (Bool-cases (f x)) [
  | inl taken ↦ rw (taken, h x taken, taken) refl
  | inr left ↦ elim (Bool-cases (g x)) [
    | inl kept ↦ rw (left, kept, left) (find_first-select f g xs h)
    | inr dropped ↦ rw (left, dropped) (find_first-select f g xs h)
  ]
]

pub find_first-select-none {ℓ} :
    {A : Type ℓ} (f g : A → Bool) (xs : List A)
    → ((x : A) → f x ≡ true → g x ≡ false)
    → find_first f (select g xs) ≡ none
find_first-select-none f g [] h = refl
find_first-select-none f g (x ∷ xs) h = elim (Bool-cases (g x)) [
  | inl kept ↦ elim (Bool-cases (f x)) [
    | inl taken ↦ absurd (cc (h x taken))
    | inr left ↦ rw (kept, left) (find_first-select-none f g xs h)
  ]
  | inr dropped ↦ rw dropped (find_first-select-none f g xs h)
]

pub any-In :
    {A : Type 0} (f : A → Bool) (xs : List A) (x : A) → any f xs ≡ false → In x xs → f x ≡ false
any-In f [] x h i = absurd i
any-In f (y ∷ xs) x h (inl same) = rw same (ground arith)
any-In f (y ∷ xs) x h (inr later) = any-In f xs x (ground arith) later

pub find_first-map {ℓ} :
    {A : Type ℓ} (f : A → Bool) (g : A → A) (xs : List A) {x : A}
    → ((y : A) → f (g y) ≡ f y)
    → find_first f xs ≡ some x
    → find_first f (map g xs) ≡ some (g x)
find_first-map f g [] k h = cc
find_first-map f g (y ∷ xs) k h = elim (Bool-cases (f y)) [
  | inl taken ↦ rw (k y, taken) (ap some (ap g (cc (rw taken at h))))
  | inr left ↦ rw (k y, left) (find_first-map f g xs k (rw left at h))
]

pub In-any :
    {A : Type 0} (f : A → Bool) (xs : List A) (x : A) → In x xs → f x ≡ true → any f xs ≡ true
In-any f [] x i h = absurd i
In-any f (y ∷ xs) x (inl same) h = rw (← same) (rw h refl)
In-any f (y ∷ xs) x (inr later) h = ground (arith, In-any f xs x later h)

-- When no item of a list passes, the first that does in a longer one is the new item.
pub find_first-append-new {ℓ} :
    {A : Type ℓ} (f : A → Bool) (xs : List A) (y : A)
    → find_first f xs ≡ none
    → f y ≡ true
    → find_first f (xs ++ y ∷ []) ≡ some y
find_first-append-new f [] y h k = rw k refl
find_first-append-new f (x ∷ xs) y h k = elim (Bool-cases (f x)) [
  | inl taken ↦ absurd (cc (rw taken at h))
  | inr left ↦ rw left (find_first-append-new f xs y (rw left at h) k)
]

pub find_first-any {ℓ} :
    {A : Type ℓ} (f : A → Bool) (xs : List A) → any f xs ≡ false → find_first f xs ≡ none
find_first-any f [] h = refl
find_first-any f (x ∷ xs) h = elim (Bool-cases (f x)) [
  | inl taken ↦ absurd (cc (rw taken at h))
  | inr left ↦ rw left (find_first-any f xs (rw left at h))
]

pub any_mono {ℓ} :
    {A : Type ℓ} (f g : A → Bool) (xs : List A)
    → ((x : A) → f x ≡ true → g x ≡ true)
    → any g xs ≡ false
    → any f xs ≡ false
any_mono f g [] k h = refl
any_mono f g (x ∷ xs) k h = elim (Bool-cases (f x)) [
  | inl taken ↦ absurd (cc (rw (k x taken) at h))
  | inr left ↦ let rest : any g xs ≡ false = ground arith in rw left (any_mono f g xs k rest)
]

pub any-passes :
    {A : Type 0} (f : A → Bool) (xs : List A) → any f xs ≡ true → (x : A) × In x xs × (f x ≡ true)
any-passes f [] h = cc
any-passes f (y ∷ xs) h = elim (Bool-cases (f y)) [
  | inl passes ↦ (y, inl refl, passes)
  | inr fails ↦ let (x, i, e) = any-passes f xs (rw fails at h) in (x, inr i, e)
]
