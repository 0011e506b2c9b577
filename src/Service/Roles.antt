-- ===== src/Service/Roles.antt =====
-- Roles in service.go.
pub mod Preview
pub mod Catalogued
pub mod Checked
use Prim.Native.Char.{Char}
use fine_grained_permissions.Base.{ℕ, String, List, Action}
use fine_grained_permissions.Base.Actions.{◌>>=◌, ◌>>◌, pure, reading}
use fine_grained_permissions.Api.{Role, CreateRole, UpdateRole}
use fine_grained_permissions.OpenFga.{Client}
use fine_grained_permissions.Store.Roles
use fine_grained_permissions.Service.{World, storing}
use fine_grained_permissions.Service.Check.{require, controller_ref}
use fine_grained_permissions.Service.Sync.{sync}
use Preview.{validate_permissions, preview_role_update}

module _ {E : Type 0} (client : Client E) where
  -- `ListRoles`.
  unfoldable pub list_roles : String → Action (World E) (List Role)
  list_roles actor =
      reading (require client actor "policy.read" controller_ref)
      >> reading (λ w. Roles.list_roles w.db)

  -- `GetRole`.
  unfoldable pub get_role : String → String → Action (World E) Role
  get_role actor id =
      reading (require client actor "policy.read" controller_ref)
      >> reading (λ w. Roles.get_role id w.db)

  -- `CreateRole`.
  unfoldable pub create_role : (Char → Char) → String → CreateRole → Action (World E) Role
  create_role lower actor input = do
    reading (require client actor "policy.manage" controller_ref)
    reading (λ _. validate_permissions input.permissions)
    storing (Roles.create_role lower input)

  -- `UpdateRole`.
  unfoldable pub update_role : String → String → String → ℕ → UpdateRole → Action (World E) Role
  update_role now actor id expected input = do
    reading (preview_role_update client actor id expected input)
    updated ← storing (Roles.update_role actor now id expected input)
    sync client
    pure updated
