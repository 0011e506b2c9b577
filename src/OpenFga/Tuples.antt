-- ===== src/OpenFga/Tuples.antt =====
-- What `PermissionTuples` writes for a binding, on success.
use fine_grained_permissions.Base.{
  String, Bool, true, not, ◌&&◌, List, [], ◌∷◌, ◌++◌, ◌≡◌, refl, sym, ◌==◌, arith, ◌⊎◌, inl, inr,
  In, In-append, In-append_left, In-append_right, Bool-cases, text_cases, ok, >>=-eq-ok, ap, ◌∙◌,
  ◌↔◌,
}
use fine_grained_permissions.Api.{ResourceRef, SelectorMatch, Binding, exact_match, scope_match}
use fine_grained_permissions.Catalog.{supports, resource_object}
use fine_grained_permissions.OpenFga.{
  Tuple, relation_at_scope, targets_of, tuples_for, tuples_for_all, permission_tuples,
  grant_subject, require_matched,
}

abbrev pub tuple : String → String → ResourceRef → Tuple
tuple user relation target = record {
  user = user;
  relation = relation;
  object = resource_object target;
}

-- A selector that has targets is a scope or an exact one.
pub targets_of-match :
    (binding : Binding) (targets : List ResourceRef)
    → targets_of binding ≡ ok targets
    → (binding.selector.match ≡ scope_match) ⊎ (binding.selector.match ≡ exact_match)
unfolding targets_of
targets_of-match binding targets h = elim (text_cases binding.selector.match scope_match) [
  | inl scoped ↦ inl scoped
  | inr other ↦ elim (text_cases binding.selector.match exact_match) [
    | inl exact ↦ inr exact
    | inr unknown ↦ absurd (cc (rw (other, unknown) at h))
  ]
]

-- A tuple of one permission on one of the targets.
abbrev pub Made : String → SelectorMatch → String → List ResourceRef → Tuple → Type 0
Made user m p targets t =
    (r : String) × (target : ResourceRef) × In target targets
    × (relation_at_scope p target.type m ≡ ok r)
    × (t ≡ tuple user r target)

-- The test that skips a target of an exact selector.
abbrev skipped : SelectorMatch → String → ResourceRef → Bool
skipped m p target = m == exact_match && not (supports p target.type)

skipped_error :
    (m : SelectorMatch) (p : String) (target : ResourceRef) {r : String}
    → skipped m p target ≡ true
    → relation_at_scope p target.type m ≡ ok r
    → ⊥
unfolding relation_at_scope
skipped_error m p target h e = ground arith

module _ (user : String) (m : SelectorMatch) where
  -- The round of the inner loop on one target, when it succeeds.
  tuples_for_cons :
      (p : String) (target : ResourceRef) (targets : List ResourceRef) (out : List Tuple)
      → tuples_for user m p (target ∷ targets) ≡ ok out
      → ((skipped m p target ≡ true) × (tuples_for user m p targets ≡ ok out))
        ⊎ ((r : String) × (more : List Tuple) × (relation_at_scope p target.type m ≡ ok r)
            × (tuples_for user m p targets ≡ ok more)
            × (tuple user r target ∷ more ≡ out))
  unfolding tuples_for
  tuples_for_cons p target targets out e = elim (Bool-cases (skipped m p target)) [
    | inl skip ↦ inl (skip, rw skip at e)
    | inr keep ↦
        let (r, er, e') = >>=-eq-ok (relation_at_scope p target.type m) _ (rw keep at e) in
        let (more, em, same) = >>=-eq-ok (tuples_for user m p targets) _ e' in
        inr (r, more, er, em, cc same)
  ]

  tuples_for_sound :
      (p : String) (targets : List ResourceRef) (out : List Tuple)
      → tuples_for user m p targets ≡ ok out
      → (t : Tuple) → In t out
      → Made user m p targets t
  unfolding tuples_for
  tuples_for_sound p [] out e t i = let none_made : [] ≡ out = cc in absurd (rw (← none_made) at i)
  tuples_for_sound p (target ∷ targets) out e t i = elim (tuples_for_cons p target targets out e) [
    | inl (_, e') ↦ Made-cons (tuples_for_sound p targets out e' t i)
    | inr (r, more, er, em, same) ↦ elim (rw (← same) at i) [
      | inl here ↦ (r, target, inl refl, er, here)
      | inr later ↦ Made-cons (tuples_for_sound p targets more em t later)
    ]
  ]
    where
      Made-cons : Made user m p targets t → Made user m p (target ∷ targets) t
      Made-cons (r, s, k, h, same) = (r, s, inr k, h, same)

  tuples_for_complete :
      (p : String) (targets : List ResourceRef) (out : List Tuple)
      → tuples_for user m p targets ≡ ok out
      → (t : Tuple) → Made user m p targets t
      → In t out
  tuples_for_complete p [] out e t (r, s, k, h, same) = absurd k
  tuples_for_complete p (target ∷ targets) out e t (r, s, k, h, same) =
      elim (tuples_for_cons p target targets out e) [
        | inl (skip, e') ↦ elim k [
          | inl here ↦ absurd (skipped_error m p target skip (rw here at h))
          | inr later ↦ tuples_for_complete p targets out e' t (r, s, later, h, same)
        ]
        | inr (r', more, er, em, built) ↦ rw (← built) (elim k [
          | inl here ↦ inl (cc)
          | inr later ↦ inr (tuples_for_complete p targets more em t (r, s, later, h, same))
        ])
      ]

  -- The round of the outer loop on one permission, when it succeeds.
  tuples_for_all_cons :
      (targets : List ResourceRef) (p : String) (ps : List String) (out : List Tuple)
      → tuples_for_all user m targets (p ∷ ps) ≡ ok out
      → (found : List Tuple) × (more : List Tuple) × (tuples_for user m p targets ≡ ok found)
        × (tuples_for_all user m targets ps ≡ ok more)
        × (found ++ more ≡ out)
  unfolding tuples_for_all
  tuples_for_all_cons targets p ps out e =
      let (found, ef, e') = >>=-eq-ok (tuples_for user m p targets) _ e in
      let (matched, ematched, e'') = >>=-eq-ok (require_matched found) _ e' in
      let (more, em, same) = >>=-eq-ok (tuples_for_all user m targets ps) _ e'' in
      (
        found,
        more,
        ef,
        em,
        ap (λ x. x ++ more) (sym (matched_same found matched ematched)) ∙ cc same,
      )
    where
      matched_same : (a b : List Tuple) → require_matched a ≡ ok b → b ≡ a
      matched_same [] b h = cc
      matched_same (x ∷ xs) b h = cc

  tuples_for_all_first :
      (targets : List ResourceRef) (p : String) (ps : List String) (out : List Tuple)
      → tuples_for_all user m targets (p ∷ ps) ≡ ok out
      → (found : List Tuple) → tuples_for user m p targets ≡ ok found
      → (t : Tuple) × In t found
  unfolding tuples_for_all
  tuples_for_all_first targets p ps out e [] ef = absurd (cc (rw ef at e))
  tuples_for_all_first targets p ps out e (t ∷ ts) ef = (t, inl refl)

  tuples_for_all_sound :
      (targets : List ResourceRef) (ps : List String) (out : List Tuple)
      → tuples_for_all user m targets ps ≡ ok out
      → (t : Tuple) → In t out
      → (p : String) × In p ps × Made user m p targets t
  unfolding tuples_for_all
  tuples_for_all_sound targets [] out e t i =
      let none_made : [] ≡ out = cc in absurd (rw (← none_made) at i)
  tuples_for_all_sound targets (p ∷ ps) out e t i =
      let (found, more, ef, em, same) = tuples_for_all_cons targets p ps out e in
      elim (In-append t found more (rw (← same) at i)) [
        | inl here ↦ (p, inl refl, tuples_for_sound p targets found ef t here)
        | inr later ↦
            let (q, k, made) = tuples_for_all_sound targets ps more em t later in (q, inr k, made)
      ]

  tuples_for_all_complete :
      (targets : List ResourceRef) (ps : List String) (out : List Tuple)
      → tuples_for_all user m targets ps ≡ ok out
      → (t : Tuple) (p : String) → In p ps
      → Made user m p targets t
      → In t out
  tuples_for_all_complete targets [] out e t p k made = absurd k
  tuples_for_all_complete targets (q ∷ ps) out e t p k made =
      let (found, more, ef, em, same) = tuples_for_all_cons targets q ps out e in
      rw (← same) (elim k [
        | inl here ↦
            In-append_left t found more (tuples_for_complete q targets found ef t (rw here at made))
        | inr later ↦
            In-append_right t found more (tuples_for_all_complete targets ps more em t p later made)
      ])

  -- A permission that some target takes has a tuple: the test `matched` after the inner loop.
  tuples_for_all_each :
      (targets : List ResourceRef) (ps : List String) (out : List Tuple)
      → tuples_for_all user m targets ps ≡ ok out
      → (p : String) → In p ps
      → (t : Tuple) × In t out × Made user m p targets t
  tuples_for_all_each targets [] out e p k = absurd k
  tuples_for_all_each targets (q ∷ ps) out e p k =
      let (found, more, ef, em, same) = tuples_for_all_cons targets q ps out e in
      rw (← same) (elim k [
        | inl here ↦
            let (t, i) = tuples_for_all_first targets q ps out e found ef in
            (t, In-append_left t found more i, rw here (tuples_for_sound q targets found ef t i))
        | inr later ↦
            let (t, i, made) = tuples_for_all_each targets ps more em p later in
            (t, In-append_right t found more i, made)
      ])

-- The tuple states that the binding gives the permission `p` on the target: by the target's own
-- relation for `p`, or by the one through which `p` flows from a scope.
abbrev pub Grants : Binding → List String → List ResourceRef → Tuple → Type 0
Grants binding ps targets t =
    (p : String) × In p ps × Made (grant_subject binding) binding.selector.match p targets t

-- On success the tuples are those of the rounds of both loops, over the targets of the binding.
pub permission_tuples_iff :
    (binding : Binding) (ps : List String) (out : List Tuple)
    → permission_tuples binding ps ≡ ok out
    → (targets : List ResourceRef) × (targets_of binding ≡ ok targets)
      × ((t : Tuple) → In t out ↔ Grants binding ps targets t)
unfolding permission_tuples
permission_tuples_iff binding ps out e =
    let (targets, found, e') = >>=-eq-ok (targets_of binding) _ e in
    let user = grant_subject binding in
    let m = binding.selector.match in
    (
      targets,
      found,
      λ t. (
        tuples_for_all_sound user m targets ps out e' t,
        λ g. tuples_for_all_complete user m targets ps out e' t g.0 g.1 g.2,
      ),
    )

pub permission_tuples_each :
    (binding : Binding) (ps : List String) (targets : List ResourceRef) (out : List Tuple)
    → targets_of binding ≡ ok targets
    → permission_tuples binding ps ≡ ok out
    → (p : String) → In p ps
    → (t : Tuple) × In t out × Made (grant_subject binding) binding.selector.match p targets t
unfolding permission_tuples
permission_tuples_each binding ps targets out selected e =
    tuples_for_all_each (grant_subject binding) binding.selector.match targets ps out
      (rw selected at e)
