-- ===== src/Service/Bindings.antt =====
-- Bindings in service.go.
pub mod Validation
pub mod Laws
pub mod Orphans
use fine_grained_permissions.Base.{String, false, List, Action}
use fine_grained_permissions.Base.Actions.{◌>>=◌, ◌>>◌, pure, reading}
use fine_grained_permissions.Api.{Binding, CreateBinding}
use fine_grained_permissions.OpenFga.{Client}
use fine_grained_permissions.Store.Bindings
use fine_grained_permissions.Service.{World, storing}
use fine_grained_permissions.Service.Check.{require, controller_ref}
use fine_grained_permissions.Service.Sync.{sync}
use fine_grained_permissions.Service.Scopes.{management_scope}
use Validation.{validate_binding}

module _ {E : Type 0} (client : Client E) where
  -- `ListBindings`.
  unfoldable pub list_bindings : String → Action (World E) (List Binding)
  list_bindings actor =
      reading (require client actor "policy.read" controller_ref)
      >> reading (λ w. Bindings.list_bindings w.db)

  -- `CreateBinding`.
  unfoldable pub create_binding : String → String → CreateBinding → Action (World E) Binding
  create_binding uuid actor input = do
    reading (λ w. validate_binding input w.db)
    scope ← reading (λ w. management_scope input.scope w.db)
    reading (require client actor "policy.manage" scope)
    binding ← storing (Bindings.create_binding uuid input false)
    sync client
    pure binding

  -- `DeleteBinding`.
  unfoldable pub delete_binding : String → String → Action (World E) (Unit {0})
  delete_binding actor id = do
    binding ← reading (λ w. Bindings.get_binding id w.db)
    scope ← reading (λ w. management_scope binding.scope w.db)
    reading (require client actor "policy.manage" scope)
    storing (Bindings.delete_binding id)
    sync client
