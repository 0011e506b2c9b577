-- ===== src/Base/Members.antt =====
-- What stands in a sorted list, and in the results of a loop.
use mathlib.Core.Path.{◌≡◌, refl, subst}
use mathlib.Core.Logic.{◌⊎◌, inl, inr}
use mathlib.Core.Bool.{Bool}
use mathlib.Core.List.{List, [], ◌∷◌}
use fine_grained_permissions.Base.Tests.{Bool-cases}
use fine_grained_permissions.Base.Lists.{In, insert_by, sort_by}
use fine_grained_permissions.Base.Results.{Result, ok, traverse, >>=-eq-ok}

module _ {A : Type 0} (le : A → A → Bool) where
  insert_by-In : (a x : A) (xs : List A) → In x (insert_by le a xs) → (x ≡ a) ⊎ In x xs
  insert_by-In a x [] i = i
  insert_by-In a x (y ∷ xs) i = elim (Bool-cases (le a y)) [
    | inl before ↦ rw before at i
    | inr after ↦ elim (rw after at i) [
      | inl same ↦ inr (inl same)
      | inr later ↦ elim (insert_by-In a x xs later) [ inl new ↦ inl new | inr old ↦ inr (inr old) ]
    ]
  ]

  In-insert_by : (a x : A) (xs : List A) → (x ≡ a) ⊎ In x xs → In x (insert_by le a xs)
  In-insert_by a x [] i = i
  In-insert_by a x (y ∷ xs) i = elim (Bool-cases (le a y)) [
    | inl before ↦ rw before i
    | inr after ↦ rw after (elim i [
      | inl new ↦ inr (In-insert_by a x xs (inl new))
      | inr old ↦ elim old [
        | inl same ↦ inl same
        | inr later ↦ inr (In-insert_by a x xs (inr later))
      ]
    ])
  ]

  pub sort_by-In : (x : A) (xs : List A) → In x (sort_by le xs) → In x xs
  sort_by-In x [] i = i
  sort_by-In x (y ∷ xs) i = elim (insert_by-In y x (sort_by le xs) i) [
    | inl new ↦ inl new
    | inr old ↦ inr (sort_by-In x xs old)
  ]

  pub In-sort_by : (x : A) (xs : List A) → In x xs → In x (sort_by le xs)
  In-sort_by x [] i = i
  In-sort_by x (y ∷ xs) (inl new) = In-insert_by y x (sort_by le xs) (inl new)
  In-sort_by x (y ∷ xs) (inr old) = In-insert_by y x (sort_by le xs) (inr (In-sort_by x xs old))

module _ {A B : Type 0} (f : A → Result B) where
  traverse-cons :
      (x : A) (xs : List A) (out : List B)
      → traverse f (x ∷ xs) ≡ ok out
      → (y : B) × (ys : List B) × (f x ≡ ok y) × (traverse f xs ≡ ok ys) × (y ∷ ys ≡ out)
  traverse-cons x xs out h =
      let (y, e, h') = >>=-eq-ok (f x) _ h in
      let (ys, rest, same) = >>=-eq-ok (traverse f xs) _ h' in (y, ys, e, rest, cc same)

  -- Each result comes from an item.
  pub traverse-In :
      (xs : List A) (out : List B) (y : B)
      → traverse f xs ≡ ok out
      → In y out
      → (x : A) × In x xs × (f x ≡ ok y)
  traverse-In [] out y h i = let none_made : [] ≡ out = cc in absurd (rw (← none_made) at i)
  traverse-In (x ∷ xs) out y h i =
      let (z, zs, e, rest, same) = traverse-cons x xs out h in
      elim (rw (← same) at i) [
        | inl here ↦ (x, inl refl, rw here e)
        | inr later ↦ let (w, k, found) = traverse-In xs zs y rest later in (w, inr k, found)
      ]

  -- Each item has its result.
  pub In-traverse :
      (xs : List A) (out : List B) (x : A)
      → traverse f xs ≡ ok out
      → In x xs
      → (y : B) × (f x ≡ ok y) × In y out
  In-traverse [] out x h i = absurd i
  In-traverse (x ∷ xs) out w h i =
      let (z, zs, e, rest, same) = traverse-cons x xs out h in
      elim i [
        | inl here ↦ (z, rw here e, subst (λ l. In z l) same (inl refl))
        | inr later ↦
            let (y, found, k) = In-traverse xs zs w rest later in
            (y, found, subst (λ l. In y l) same (inr k))
      ]
