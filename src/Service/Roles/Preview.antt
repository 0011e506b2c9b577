-- ===== src/Service/Roles/Preview.antt =====
-- `validatePermissions` and `PreviewRoleUpdate` in service.go.
use fine_grained_permissions.Base.{
  ℕ, String, not, List, [], ◌∷◌, Result, ok, err, conflict, invalid, ◌>>=◌, ◌>>◌, guard, or_error,
  ◌==◌, nat_eq, if◌then◌else◌,
}
use fine_grained_permissions.Api.{Binding, RoleUpdatePreview, UpdateRole}
use fine_grained_permissions.Catalog
use fine_grained_permissions.OpenFga.{Client, Tuple, permission_tuples}
use fine_grained_permissions.Store.Roles.{get_role}
use fine_grained_permissions.Store.Bindings.{count_bindings, list_bindings}
use fine_grained_permissions.Service.{World}
use fine_grained_permissions.Service.Check.{require, controller_ref}
use fine_grained_permissions.Service.Diff.{diff}

-- The loop of `validatePermissions`.
unfoldable pub known_permissions : List String → Result (Unit {0})
known_permissions [] = ok tt
known_permissions (p ∷ ps) =
    let rest = known_permissions ps in
    or_error (Catalog.permission p) (invalid "unknown permission %q") >> rest

-- `validatePermissions`.
unfoldable pub validate_permissions : List String → Result (Unit {0})
unfolding known_permissions
validate_permissions [] = err (invalid "at least one permission is required")
validate_permissions (p ∷ ps) = known_permissions (p ∷ ps)

abbrev as_invalid : Result (List Tuple) → Result (Unit {0})
as_invalid (ok _) = ok tt
as_invalid (err _) = err (invalid "binding %s: %v")

-- The loop over the bindings of the role.
unfoldable pub compatible : String → List String → List Binding → Result (Unit {0})
compatible id permissions [] = ok tt
compatible id permissions (b ∷ bs) =
    let rest = compatible id permissions bs in
    if not (b.role_id == id) then rest else as_invalid (permission_tuples b permissions) >> rest

module _ {E : Type 0} (client : Client E) where
  -- `PreviewRoleUpdate`.
  unfoldable pub preview_role_update :
      String → String → ℕ → UpdateRole → World E → Result RoleUpdatePreview
  preview_role_update actor id expected input w = do
    require client actor "policy.manage" controller_ref w
    validate_permissions input.permissions
    role ← get_role id w.db
    guard (not role.built_in) (invalid "built-in roles cannot be changed")
    guard (nat_eq role.revision expected) conflict
    bindings ← list_bindings w.db
    compatible id input.permissions bindings
    ok (record {
      added_permissions = (diff role.permissions input.permissions).0;
      affected_bindings = count_bindings id w.db;
      current_revision = role.revision;
      removed_permissions = (diff role.permissions input.permissions).1;
      role_id = id;
    })
