-- ===== src/Service/Bindings/Laws.antt =====
-- What `validateBinding` accepts.
use fine_grained_permissions.Base.{
  true, Option, none, some, List, [], ◌∷◌, ◌≡◌, ◌≢◌, ◌↔◌, ◌⊎◌, inl, inr, refl, ap, ◌∙◌, ==-false,
  eq_refl, text_cases, ok, not_found, guard-eq-ok, >>=-eq-ok, ◌>>=◌,
}
use fine_grained_permissions.Api.{
  ResourceRef, Resource, Role, CreateBinding, Selector, controller, exact_match, scope_match,
  subject_user, subject_group,
}
use fine_grained_permissions.Store.{Db}
use fine_grained_permissions.Store.Users.{user_exists, group_exists}
use fine_grained_permissions.Store.Roles.{get_role}
use fine_grained_permissions.Store.Resources.{get_resource}
use fine_grained_permissions.Service.Scopes.{is_within_scope}
use fine_grained_permissions.Service.Scopes.Hierarchy.{IsHierarchy}
use fine_grained_permissions.Service.Scopes.Laws.{Below, is_within_scope_iff}
use fine_grained_permissions.Service.Bindings.Validation.{
  validate_subject, validate_scope, validate_target, validate_targets, exact_targets, no_targets,
  validate_selector, validate_binding,
}

abbrev pub Stored : ResourceRef → Db → Type 0
Stored ref db = (item : Resource) × (get_resource ref.type ref.id db ≡ ok item)

-- The targets are stored, at the scope or below it.
abbrev pub Inside : Db → ResourceRef → List ResourceRef → Type 0
Inside db scope [] = Unit
Inside db scope (ref ∷ refs) = Stored ref db × Below db scope ref × Inside db scope refs

-- The selector is the scope and lists nothing, or lists one resource or more inside the scope.
abbrev pub Selects : Db → ResourceRef → Selector → Type 0
Selects db scope selector =
    ((selector.match ≡ scope_match) × (selector.resources ≡ none))
    ⊎ ((selector.match ≡ exact_match)
        × ((ref : ResourceRef) × (refs : List ResourceRef) × (selector.resources
              ≡ some (ref ∷ refs))
            × Inside db scope (ref ∷ refs)))

validate_targets-Inside :
    (scope : ResourceRef) (refs : List ResourceRef) (db : Db)
    → IsHierarchy db
    → validate_targets scope refs db ≡ ok tt
    → Inside db scope refs
unfolding validate_targets validate_target
validate_targets-Inside scope [] db t h = tt
validate_targets-Inside scope (ref ∷ refs) db t h =
    let (_, checked, rest) = >>=-eq-ok (validate_target scope ref db) _ h in
    let (item, found, h') = >>=-eq-ok (get_resource ref.type ref.id db) _ checked in
    let (b, within, passed) = >>=-eq-ok (is_within_scope ref scope db) _ h' in
    let inside : b ≡ true = guard-eq-ok b _ passed in
    (
      (item, found),
      (is_within_scope_iff ref scope db t).1.0 (within ∙ ap ok inside),
      validate_targets-Inside scope refs db t rest,
    )

Inside-validate_targets :
    (scope : ResourceRef) (refs : List ResourceRef) (db : Db)
    → IsHierarchy db
    → Inside db scope refs
    → validate_targets scope refs db ≡ ok tt
unfolding validate_targets validate_target
Inside-validate_targets scope [] db t h = refl
Inside-validate_targets scope (ref ∷ refs) db t ((item, found), below, rest) =
    rw (found, (is_within_scope_iff ref scope db t).1.1 below)
      (Inside-validate_targets scope refs db t rest)

exact_targets-Inside :
    (targets : Option (List ResourceRef)) (scope : ResourceRef) (db : Db)
    → IsHierarchy db
    → (exact_targets targets >>= λ refs. validate_targets scope refs db) ≡ ok tt
    → (ref : ResourceRef) × (refs : List ResourceRef) × (targets ≡ some (ref ∷ refs))
      × Inside db scope (ref ∷ refs)
exact_targets-Inside none scope db t h = cc
exact_targets-Inside (some []) scope db t h = cc
exact_targets-Inside (some (ref ∷ refs)) scope db t h =
    (ref, refs, refl, validate_targets-Inside scope (ref ∷ refs) db t h)

no_targets-none :
    (targets : Option (List ResourceRef)) → no_targets targets ≡ ok tt → targets ≡ none
no_targets-none none h = refl
no_targets-none (some _) h = cc

validate_selector-Selects :
    (input : CreateBinding) (db : Db)
    → IsHierarchy db
    → validate_selector input db ≡ ok tt
    → Selects db input.scope input.selector
unfolding validate_selector
validate_selector-Selects input db t h = elim (text_cases input.selector.match exact_match) [
  | inl exact ↦
      inr (exact, exact_targets-Inside input.selector.resources input.scope db t (rw exact at h))
  | inr other ↦ elim (text_cases input.selector.match scope_match) [
    | inl scoped ↦ inl (scoped, no_targets-none input.selector.resources (rw scoped at h))
    | inr unknown ↦ absurd (cc (rw (other, unknown) at h))
  ]
]

Selects-validate_selector :
    (input : CreateBinding) (db : Db)
    → IsHierarchy db
    → Selects db input.scope input.selector
    → validate_selector input db ≡ ok tt
unfolding validate_selector
Selects-validate_selector input db t (inl (scoped, unlisted)) = rw (scoped, unlisted) refl
Selects-validate_selector input db t (inr (exact, (ref, refs, listed, inside))) =
    rw (exact, listed) (Inside-validate_targets input.scope (ref ∷ refs) db t inside)

-- The subject is a user or a group that exists.
abbrev pub IsSubject : CreateBinding → Db → Type 0
IsSubject input db =
    ((input.subject_type ≡ subject_user) × (user_exists input.subject_id db ≡ true))
    ⊎ ((input.subject_type ≡ subject_group) × (group_exists input.subject_id db ≡ true))

validate_subject-IsSubject :
    (input : CreateBinding) (db : Db) → validate_subject input db ≡ ok tt → IsSubject input db
unfolding validate_subject
validate_subject-IsSubject input db h = elim (text_cases input.subject_type subject_user) [
  | inl user ↦ inl (user, guard-eq-ok (user_exists input.subject_id db) not_found (rw user at h))
  | inr other ↦ elim (text_cases input.subject_type subject_group) [
    | inl group ↦
        inr (group, guard-eq-ok (group_exists input.subject_id db) not_found (rw group at h))
    | inr unknown ↦ absurd (cc (rw (other, unknown) at h))
  ]
]

IsSubject-validate_subject :
    (input : CreateBinding) (db : Db) → IsSubject input db → validate_subject input db ≡ ok tt
unfolding validate_subject
IsSubject-validate_subject input db (inl (user, there)) = rw (user, there) refl
IsSubject-validate_subject input db (inr (group, there)) = rw (group, there) refl

-- The scope is a controller, or stored.
abbrev pub IsScope : ResourceRef → Db → Type 0
IsScope scope db = (scope.type ≡ controller) ⊎ ((scope.type ≢ controller) × Stored scope db)

validate_scope-IsScope :
    (scope : ResourceRef) (db : Db) → validate_scope scope db ≡ ok tt → IsScope scope db
unfolding validate_scope
validate_scope-IsScope scope db h = elim (text_cases scope.type controller) [
  | inl top ↦ inl top
  | inr other ↦
      let (item, found, _) =
        >>=-eq-ok (get_resource scope.type scope.id db) (λ _. ok tt) (rw other at h) in
      inr (λ top. cc (rw (top, eq_refl controller) at other), (item, found))
]

IsScope-validate_scope :
    (scope : ResourceRef) (db : Db) → IsScope scope db → validate_scope scope db ≡ ok tt
unfolding validate_scope
IsScope-validate_scope scope db (inl top) = rw top refl
IsScope-validate_scope scope db (inr (below, (item, found))) =
    rw (==-false scope.type controller below, found) refl

-- A binding that may be created.
pub record IsBindable (input : CreateBinding) (db : Db) : Type 0 where
  pub role : (r : Role) × (get_role input.role_id db ≡ ok r)
  pub subject : IsSubject input db
  pub scope : IsScope input.scope db
  pub selector : Selects db input.scope input.selector

-- In a hierarchy, `validateBinding` passes exactly when the role exists, the subject is a user or a
-- group that exists, the scope is a controller or a stored resource, and the selector either is the
-- scope, with no resources listed, or lists one resource or more, each stored at the scope or below.
pub validate_binding_iff :
    (input : CreateBinding) (db : Db)
    → IsHierarchy db
    → (validate_binding input db ≡ ok tt) ↔ IsBindable input db
unfolding validate_binding
validate_binding_iff input db t = (to, from)
  where
    to : validate_binding input db ≡ ok tt → IsBindable input db
    to h =
        let (r, found, h₁) = >>=-eq-ok (get_role input.role_id db) _ h in
        let (_, subject, h₂) = >>=-eq-ok (validate_subject input db) _ h₁ in
        let (_, scope, selector) = >>=-eq-ok (validate_scope input.scope db) _ h₂ in
        record {
          role = (r, found);
          subject = validate_subject-IsSubject input db subject;
          scope = validate_scope-IsScope input.scope db scope;
          selector = validate_selector-Selects input db t selector;
        }

    from : IsBindable input db → validate_binding input db ≡ ok tt
    from b =
        rw
          (
            b.role.1,
            IsSubject-validate_subject input db b.subject,
            IsScope-validate_scope input.scope db b.scope,
          )
          (Selects-validate_selector input db t b.selector)
