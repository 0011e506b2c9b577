-- ===== src/OpenFga/Failures.antt =====
-- When `PermissionTuples` fails.
use fine_grained_permissions.Base.{
  String, false, List, [], ◌∷◌, some, ◌≡◌, refl, inl, inr, In, Result, ok, err, Error, ◌>>=◌,
}
use fine_grained_permissions.Api.{ResourceRef, Binding, exact_match}
use fine_grained_permissions.Catalog.{supports}
use fine_grained_permissions.OpenFga.{
  targets_of, tuples_for, tuples_for_all, permission_tuples, grant_subject, require_matched,
}

abbrev pub Failed : {A : Type 0} → Result A → Type 0
Failed {A} r = (e : Error) × (r ≡ err e)

-- No target has a type on which the permission is checked.
abbrev pub Unsupported : String → List ResourceRef → Type 0
Unsupported p [] = Unit
Unsupported p (t ∷ ts) = (supports p t.type ≡ false) × Unsupported p ts

tuples_for-Unsupported :
    (user p : String) (targets : List ResourceRef)
    → Unsupported p targets
    → tuples_for user exact_match p targets ≡ ok []
unfolding tuples_for
tuples_for-Unsupported user p [] h = refl
tuples_for-Unsupported user p (t ∷ ts) (h, hs) = rw h (tuples_for-Unsupported user p ts hs)

pub >>=-Failed :
    {A B : Type 0} (m : Result A) (f : A → Result B)
    → ((a : A) → m ≡ ok a → Failed (f a))
    → Failed (m >>= f)
>>=-Failed (ok a) f h = h a refl
>>=-Failed (err e) f h = (e, refl)

tuples_for_all-Failed :
    (user : String) (targets : List ResourceRef) (p : String) (ps : List String)
    → Unsupported p targets
    → In p ps
    → Failed (tuples_for_all user exact_match targets ps)
unfolding tuples_for_all
tuples_for_all-Failed user targets p [] h i = absurd i
tuples_for_all-Failed user targets p (q ∷ ps) h (inl same) =
    rw (← same) (rw (tuples_for-Unsupported user p targets h) (_, refl))
tuples_for_all-Failed user targets p (q ∷ ps) h (inr later) =
    >>=-Failed (tuples_for user exact_match q targets) _ (λ found _.
      >>=-Failed (require_matched found) _ (λ matched _.
        >>=-Failed (tuples_for_all user exact_match targets ps) _
          (λ more e. let (f, k) = tuples_for_all-Failed user targets p ps h later in absurd (cc))))

-- An exact selector fails if one of the permissions is checked on none of the selected types.
pub permission_tuples-Unsupported :
    (binding : Binding) (ps : List String) (p : String) (targets : List ResourceRef)
    → binding.selector.match ≡ exact_match
    → binding.selector.resources ≡ some targets
    → In p ps
    → Unsupported p targets
    → Failed (permission_tuples binding ps)
unfolding permission_tuples targets_of
permission_tuples-Unsupported binding ps p [] m r i h = rw (m, r) (_, refl)
permission_tuples-Unsupported binding ps p (t ∷ ts) m r i h =
    rw (m, r) (tuples_for_all-Failed (grant_subject binding) (t ∷ ts) p ps h i)
