-- ===== src/Service/Check.antt =====
-- Decisions in service.go: `Check`, `CheckBatch`, `require`.
pub mod Laws
use fine_grained_permissions.Base.{
  String, Bool, true, false, not, ◌&&◌, List, Result, ok, err, forbidden, invalid, not_found, ◌>>=◌,
  ◌>>◌, guard, or_error, traverse, ◌==◌, if◌then◌else◌,
}
use fine_grained_permissions.Api.{
  ResourceRef, AuthorizationCheck, AuthorizationDecision, controller, resource_type_valid,
}
use fine_grained_permissions.Catalog
use fine_grained_permissions.Catalog.{controller_id}
use fine_grained_permissions.OpenFga
use fine_grained_permissions.OpenFga.{Client}
use fine_grained_permissions.Store.{Db}
use fine_grained_permissions.Store.Resources.{get_resource}
use fine_grained_permissions.Service.{World}

-- The resource stands in the store, or is the controller.
unfoldable pub locate : ResourceRef → Db → Result (Unit {0})
locate resource db =
    if not (resource.type == controller)
    then get_resource resource.type resource.id db >> ok tt
    else guard (resource.id == controller_id) not_found

-- The tests that `Check` makes before it asks the engine.
unfoldable pub validate_check : String → String → ResourceRef → Db → Result (Unit {0})
validate_check principal permission resource db = do
  guard (not (principal == "")) (invalid "principal is required")
  guard (resource_type_valid resource.type && not (resource.id == ""))
      (invalid "valid resource type and ID are required")
  or_error (Catalog.permission permission) (invalid "unknown permission %q")
  locate resource db

abbrev pub reason : Bool → String
reason allowed =
    if allowed
    then "allowed by an applicable direct or group role binding"
    else "no matching binding"

abbrev pub decision : Bool → String → ResourceRef → AuthorizationDecision
decision allowed permission resource = record {
  allowed = allowed;
  permission = permission;
  reason = reason allowed;
  resource = resource;
}

-- `controllerRef`.
abbrev pub controller_ref : ResourceRef
controller_ref = record { id = controller_id; type = controller }

module _ {E : Type 0} (client : Client E) where
  -- `Check`.
  unfoldable pub check : String → String → ResourceRef → World E → Result AuthorizationDecision
  unfolding validate_check
  check principal permission resource w = do
    validate_check principal permission resource w.db
    allowed ← OpenFga.check client principal permission resource w.engine
    ok (decision allowed permission resource)

  -- `CheckBatch`.
  unfoldable pub check_batch :
      List AuthorizationCheck → World E → Result (List AuthorizationDecision)
  check_batch checks w = traverse (λ c. check c.principal c.permission c.resource w) checks

  -- `require`.
  unfoldable pub require : String → String → ResourceRef → World E → Result (Unit {0})
  require actor permission resource w = do
    d ← check actor permission resource w
    guard d.allowed forbidden
