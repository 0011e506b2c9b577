-- ===== src/Service/Bindings/Validation.antt =====
-- `validateBinding` in service.go.
use fine_grained_permissions.Base.{
  Option, none, some, not, List, [], ◌∷◌, Result, ok, err, not_found, invalid, ◌>>=◌, ◌>>◌, guard,
  ◌==◌, if◌then◌else◌,
}
use fine_grained_permissions.Api.{
  ResourceRef, CreateBinding, controller, exact_match, scope_match, subject_group, subject_user,
}
use fine_grained_permissions.Store.{Db}
use fine_grained_permissions.Store.Users.{user_exists, group_exists}
use fine_grained_permissions.Store.Roles.{get_role}
use fine_grained_permissions.Store.Resources.{get_resource}
use fine_grained_permissions.Service.Scopes.{is_within_scope}

-- The `switch` on the type of the subject.
unfoldable pub validate_subject : CreateBinding → Db → Result (Unit {0})
validate_subject input db =
    if input.subject_type == subject_user
    then guard (user_exists input.subject_id db) not_found
    else if input.subject_type == subject_group
    then guard (group_exists input.subject_id db) not_found
    else err (invalid "invalid subject type")

-- The test on the scope: any identifier of a controller passes here.
unfoldable pub validate_scope : ResourceRef → Db → Result (Unit {0})
validate_scope scope db =
    if scope.type == controller then ok tt else get_resource scope.type scope.id db >> ok tt

-- One round of the loop over the exact resources.
unfoldable pub validate_target : ResourceRef → ResourceRef → Db → Result (Unit {0})
validate_target scope ref db = do
  get_resource ref.type ref.id db
  within ← is_within_scope ref scope db
  guard within (invalid "resource %s:%s is outside scope %s:%s")

unfoldable pub validate_targets : ResourceRef → List ResourceRef → Db → Result (Unit {0})
unfolding validate_target
validate_targets scope [] db = ok tt
validate_targets scope (ref ∷ refs) db =
    let rest = validate_targets scope refs db in validate_target scope ref db >> rest

abbrev pub exact_targets : Option (List ResourceRef) → Result (List ResourceRef)
exact_targets none = err (invalid "exact selector requires resources")
exact_targets (some []) = err (invalid "exact selector requires resources")
exact_targets (some (r ∷ rs)) = ok (r ∷ rs)

abbrev pub no_targets : Option (List ResourceRef) → Result (Unit {0})
no_targets none = ok tt
no_targets (some _) = err (invalid "scope selector cannot include exact resources")

-- The tests on the selector.
unfoldable pub validate_selector : CreateBinding → Db → Result (Unit {0})
unfolding validate_targets
validate_selector input db =
    if input.selector.match == exact_match
    then (exact_targets input.selector.resources >>= λ refs. validate_targets input.scope refs db)
    else if not (input.selector.match == scope_match)
    then err (invalid "invalid selector")
    else no_targets input.selector.resources

-- `validateBinding`.
unfoldable pub validate_binding : CreateBinding → Db → Result (Unit {0})
unfolding validate_subject validate_scope validate_selector
validate_binding input db = do
  get_role input.role_id db
  validate_subject input db
  validate_scope input.scope db
  validate_selector input db
