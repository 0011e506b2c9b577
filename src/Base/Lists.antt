-- ===== src/Base/Lists.antt =====
-- Lists: membership by recursion, search, filtering, sorting, and their lemmas.
use Prim.Native.Nat.{ℕ, suc}
use Prim.Native.String.{String}
use mathlib.Core.Path.{◌≡◌, refl, sym, subst, ap}
use mathlib.Core.Logic.{◌↔◌, ◌⊎◌, inl, inr}
use mathlib.Core.Bool.{Bool, true, false, ◌&&◌, ◌||◌}
use mathlib.Core.Option.{Option, none, some}
use mathlib.Core.List.{List, [], ◌∷◌, ◌++◌, map}
use native.Mathlib.Omega.{arith}
use text.Mathlib.TextEquality.{eq_iff}
use fine_grained_permissions.Base.Tests.{if◌then◌else◌, ◌==◌, text_le, Bool-cases, text_cases}

module _ {ℓ} {A : Type ℓ} where
  abbrev pub length : List A → ℕ
  length [] = 0
  length (x ∷ xs) = suc (length xs)

  -- The first item that passes the test.
  abbrev pub find_first : (A → Bool) → List A → Option A
  find_first p [] = none
  find_first p (x ∷ xs) = if p x then some x else find_first p xs

  abbrev pub any : (A → Bool) → List A → Bool
  any p [] = false
  any p (x ∷ xs) = p x || any p xs

  abbrev pub all : (A → Bool) → List A → Bool
  all p [] = true
  all p (x ∷ xs) = p x && all p xs

  -- The items that pass the test, in order.
  abbrev pub select : (A → Bool) → List A → List A
  select p [] = []
  select p (x ∷ xs) = let rest = select p xs in if p x then x ∷ rest else rest

  abbrev pub insert_by : (A → A → Bool) → A → List A → List A
  insert_by le a [] = a ∷ []
  insert_by le a (x ∷ xs) = let rest = insert_by le a xs in if le a x then a ∷ x ∷ xs else x ∷ rest

  -- A stable sort.
  abbrev pub sort_by : (A → A → Bool) → List A → List A
  sort_by le [] = []
  sort_by le (x ∷ xs) = insert_by le x (sort_by le xs)

module _ {A : Type 0} where
  -- `a` stands in the list.
  abbrev pub In : A → List A → Type 0
  In a [] = ⊥
  In a (x ∷ xs) = (a ≡ x) ⊎ In a xs

  pub find_first-In :
      (p : A → Bool) (xs : List A) {a : A} → find_first p xs ≡ some a → In a xs × (p a ≡ true)
  find_first-In p [] e = cc
  find_first-In p (x ∷ xs) e = elim (Bool-cases (p x)) [
    | inl yes_x ↦
        let same : x ≡ _ = ground arith in (inl (sym same), subst (λ y. p y ≡ true) same yes_x)
    | inr no_x ↦ let (h, k) = find_first-In p xs (rw no_x at e) in (inr h, k)
  ]

  pub all-In : (p : A → Bool) (xs : List A) (a : A) → all p xs ≡ true → In a xs → p a ≡ true
  all-In p [] a h m = absurd m
  all-In p (x ∷ xs) a h (inl e) = rw e (ground arith)
  all-In p (x ∷ xs) a h (inr m) = all-In p xs a (ground arith) m

  pub In-append_left : (a : A) (xs ys : List A) → In a xs → In a (xs ++ ys)
  In-append_left a [] ys h = absurd h
  In-append_left a (x ∷ xs) ys (inl e) = inl e
  In-append_left a (x ∷ xs) ys (inr h) = inr (In-append_left a xs ys h)

  pub In-append_right : (a : A) (xs ys : List A) → In a ys → In a (xs ++ ys)
  In-append_right a [] ys h = h
  In-append_right a (x ∷ xs) ys h = inr (In-append_right a xs ys h)

  pub In-append : (a : A) (xs ys : List A) → In a (xs ++ ys) → In a xs ⊎ In a ys
  In-append a [] ys h = inr h
  In-append a (x ∷ xs) ys (inl e) = inl (inl e)
  In-append a (x ∷ xs) ys (inr h) = elim (In-append a xs ys h) [
    | inl l ↦ inl (inr l)
    | inr r ↦ inr r
  ]

  pub In-select : (p : A → Bool) (a : A) (xs : List A) → In a xs → p a ≡ true → In a (select p xs)
  In-select p a [] h e = absurd h
  In-select p a (x ∷ xs) (inl same) e = rw (← same) (rw e (inl refl))
  In-select p a (x ∷ xs) (inr h) e = elim (Bool-cases (p x)) [
    | inl t ↦ rw t (inr (In-select p a xs h e))
    | inr f ↦ rw f (In-select p a xs h e)
  ]

  pub select-In : (p : A → Bool) (a : A) (xs : List A) → In a (select p xs) → In a xs × (p a ≡ true)
  select-In p a [] h = absurd h
  select-In p a (x ∷ xs) h = elim (Bool-cases (p x)) [
    | inl t ↦ elim (rw t at h) [
      | inl same ↦ (inl same, rw same t)
      | inr later ↦ let (m, e) = select-In p a xs later in (inr m, e)
    ]
    | inr f ↦ let (m, e) = select-In p a xs (rw f at h) in (inr m, e)
  ]

pub In-map : {A B : Type 0} (f : A → B) (a : A) (xs : List A) → In a xs → In (f a) (map f xs)
In-map f a [] h = absurd h
In-map f a (x ∷ xs) (inl e) = inl (ap f e)
In-map f a (x ∷ xs) (inr h) = inr (In-map f a xs h)

pub map-In :
    {A B : Type 0} (f : A → B) (b : B) (xs : List A)
    → In b (map f xs)
    → (a : A) × In a xs × (f a ≡ b)
map-In f b [] h = absurd h
map-In f b (x ∷ xs) (inl e) = (x, inl refl, sym e)
map-In f b (x ∷ xs) (inr h) = let (a, m, e) = map-In f b xs h in (a, inr m, e)

-- `slices.Contains` on strings, as the source's loops compute it.
abbrev pub contains : List String → String → Bool
contains [] a = false
contains (x ∷ xs) a = x == a || contains xs a

-- `sort.Strings`, and `ORDER BY` on one TEXT column.
abbrev pub sort_strings : List String → List String
sort_strings = sort_by text_le

contains-In : (xs : List String) (a : String) → contains xs a ≡ true → In a xs
contains-In [] a h = cc
contains-In (x ∷ xs) a h = elim (text_cases x a) [
  | inl e ↦ inl (sym e)
  | inr n ↦ inr (contains-In xs a (rw n at h))
]

In-contains : (xs : List String) (a : String) → In a xs → contains xs a ≡ true
In-contains [] a h = absurd h
In-contains (x ∷ xs) a (inl e) = ground (arith, eq_iff x a)
In-contains (x ∷ xs) a (inr m) = ground (arith, In-contains xs a m)

pub contains_iff : (xs : List String) (a : String) → (contains xs a ≡ true) ↔ In a xs
contains_iff xs a = (contains-In xs a, In-contains xs a)
