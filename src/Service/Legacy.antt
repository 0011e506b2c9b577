-- ===== src/Service/Legacy.antt =====
-- The coarse access levels of models in service.go: `GrantLegacy`, `RevokeLegacy`.
use fine_grained_permissions.Base.{
  String, ◌&&◌, none, some, Result, ok, err, not_found, invalid, Action, guard, ◌==◌, if◌then◌else◌,
}
use fine_grained_permissions.Base.Actions.{◌>>=◌, ◌>>◌, pure, reading}
use fine_grained_permissions.Api.{
  ResourceRef, Binding, LegacyAccessLevel, LegacyAccessChange, LegacyRevokeResult, model,
  access_level_valid, read_level, write_level, admin_level,
}
use fine_grained_permissions.OpenFga.{Client}
use fine_grained_permissions.Store.Users.{user_exists}
use fine_grained_permissions.Store.Bindings.{
  get_compatibility_binding, upsert_compatibility_binding, delete_binding,
}
use fine_grained_permissions.Store.Resources.{get_resource}
use fine_grained_permissions.Service.{World, storing}
use fine_grained_permissions.Service.Check.{check, require}
use fine_grained_permissions.Service.Sync.{sync}

-- `compatibilityRole`.
unfoldable pub compatibility_role : LegacyAccessLevel → String
compatibility_role access =
    if access == read_level
    then "model-reader"
    else if access == write_level
    then "model-writer"
    else if access == admin_level
    then "model-admin"
    else ""

-- The `switch` of `RevokeLegacy`: the level below.
unfoldable pub next_level : LegacyAccessLevel → String
next_level access =
    if access == admin_level
    then "write"
    else if access == write_level
    then "read"
    else if access == read_level
    then ""
    else ""

abbrev pub model_ref : String → ResourceRef
model_ref id = record { id = id; type = model }

-- The error of `GetCompatibilityBinding` in `GrantLegacy`: only one that is not `ErrNotFound` ends it.
abbrev unless_missing : Result Binding → Result (Unit {0})
unless_missing (ok _) = ok tt
unless_missing (err not_found) = ok tt
unless_missing (err e) = err e

module _ {E : Type 0} (client : Client E) where
  -- `GrantLegacy`.
  unfoldable pub grant_legacy : String → String → LegacyAccessChange → Action (World E) Binding
  grant_legacy uuid actor input = do
    reading (λ _. guard (access_level_valid input.access) (invalid "invalid legacy access level"))
    reading (require client actor "policy.manage" (model_ref input.model_id))
    reading (λ w. guard (user_exists input.user_id w.db) not_found)
    reading (λ w. get_resource model input.model_id w.db)
    reading (λ w. unless_missing (get_compatibility_binding input.user_id input.model_id w.db))
    binding ← storing (
        upsert_compatibility_binding uuid input.user_id (compatibility_role input.access)
          input.model_id)
    sync client
    pure binding

  -- The part of `RevokeLegacy` for a level with none below.
  unfoldable pub revoke_last : LegacyAccessChange → Binding → Action (World E) LegacyRevokeResult
  revoke_last input binding = do
    storing (delete_binding binding.id)
    sync client
    decision ← reading (check client input.user_id "model.read" (model_ref input.model_id))
    pure (record { binding = none; effective_access = "none"; still_authorized = decision.allowed })

  -- The part of `RevokeLegacy` that goes down to the level `next`.
  unfoldable pub revoke_to :
      String → LegacyAccessChange → String → Action (World E) LegacyRevokeResult
  revoke_to uuid input next = do
    updated ←
        storing
          (upsert_compatibility_binding uuid input.user_id (compatibility_role next) input.model_id)
    sync client
    decision ← reading (check client input.user_id "model.read" (model_ref input.model_id))
    pure (record {
      binding = some updated;
      effective_access = next;
      still_authorized = decision.allowed;
    })

  -- `RevokeLegacy`.
  unfoldable pub revoke_legacy :
      String → String → LegacyAccessChange → Action (World E) LegacyRevokeResult
  unfolding revoke_last revoke_to
  revoke_legacy uuid actor input = do
    reading (require client actor "policy.manage" (model_ref input.model_id))
    binding ← reading (λ w. get_compatibility_binding input.user_id input.model_id w.db)
    reading (λ _.
        guard
          (access_level_valid input.access && binding.role_id == compatibility_role input.access)
          (invalid "revoke level must match current compatibility access"))
    if next_level input.access == ""
        then revoke_last input binding
        else revoke_to uuid input (next_level input.access)
