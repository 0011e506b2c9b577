-- ===== src/Base/Any.antt =====
-- How `any` and `select` meet the other functions on lists.
use mathlib.Core.Path.{◌≡◌, refl, ap, ◌∙◌}
use mathlib.Core.Logic.{inl, inr}
use mathlib.Core.Bool.{Bool, true, false, ◌&&◌, ◌||◌, not}
use mathlib.Core.List.{List, [], ◌∷◌, ◌++◌, map}
use native.Mathlib.Omega.{arith}
use fine_grained_permissions.Base.Tests.{Bool-cases}
use fine_grained_permissions.Base.Lists.{any, select, insert_by, sort_by}

module _ {ℓ} {A : Type ℓ} where
  pub any-append : (p : A → Bool) (xs ys : List A) → any p (xs ++ ys) ≡ (any p xs || any p ys)
  any-append p [] ys = refl
  any-append p (x ∷ xs) ys = ground (arith, any-append p xs ys)

  any-insert_by :
      (p : A → Bool) (le : A → A → Bool) (a : A) (xs : List A)
      → any p (insert_by le a xs) ≡ (p a || any p xs)
  any-insert_by p le a [] = refl
  any-insert_by p le a (x ∷ xs) = elim (Bool-cases (le a x)) [
    | inl first ↦ rw first refl
    | inr later ↦ rw (later, any-insert_by p le a xs) (swap (p x) (p a) (any p xs))
  ]
    where
      swap : (a b c : Bool) → (a || (b || c)) ≡ (b || (a || c))
      swap true true c = refl
      swap true false c = refl
      swap false b c = refl

  pub any-sort_by :
      (p : A → Bool) (le : A → A → Bool) (xs : List A) → any p (sort_by le xs) ≡ any p xs
  any-sort_by p le [] = refl
  any-sort_by p le (x ∷ xs) =
      any-insert_by p le x (sort_by le xs) ∙ ap (λ b. p x || b) (any-sort_by p le xs)

  pub select-append :
      (p : A → Bool) (xs ys : List A) → select p (xs ++ ys) ≡ select p xs ++ select p ys
  select-append p [] ys = refl
  select-append p (x ∷ xs) ys = elim (Bool-cases (p x)) [
    | inl t ↦ rw (t, select-append p xs ys) refl
    | inr f ↦ rw (f, select-append p xs ys) refl
  ]

  -- Nothing that was left out passes the test.
  pub select-select-not : (p : A → Bool) (xs : List A) → select p (select (λ x. not (p x)) xs) ≡ []
  select-select-not p [] = refl
  select-select-not p (x ∷ xs) = elim (Bool-cases (p x)) [
    | inl t ↦ rw t (select-select-not p xs)
    | inr f ↦ rw f (rw f (select-select-not p xs))
  ]

  pub any-select : (p q : A → Bool) (xs : List A) → any p (select q xs) ≡ any (λ x. q x && p x) xs
  any-select p q [] = refl
  any-select p q (x ∷ xs) = elim (Bool-cases (q x)) [
    | inl t ↦ rw t (ap (λ b. p x || b) (any-select p q xs))
    | inr f ↦ rw f (any-select p q xs)
  ]

module _ {ℓ κ} {A : Type ℓ} {B : Type κ} (f : A → B) where
  pub any-map : (p : B → Bool) (xs : List A) → any p (map f xs) ≡ any (λ x. p (f x)) xs
  any-map p [] = refl
  any-map p (x ∷ xs) = ap (λ b. p (f x) || b) (any-map p xs)

  pub select-map_all :
      (p : B → Bool) (xs : List A) → ((x : A) → p (f x) ≡ true) → select p (map f xs) ≡ map f xs
  select-map_all p [] h = refl
  select-map_all p (x ∷ xs) h = rw (h x) (ap (λ r. f x ∷ r) (select-map_all p xs h))
