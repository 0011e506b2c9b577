-- ===== src/Tests/Operations.antt =====
-- The theorems on the operations that write, on the small deployment.
use fine_grained_permissions.Base.{
  String, true, false, not, none, some, [], ◌∷◌, ◌≡◌, ◌⊎◌, ◌↔◌, refl, ok, err,
}
use fine_grained_permissions.Api.{
  Resource, access_level_valid, ResourceRef, Selector, Binding, CreateBinding,
  AuthorizationDecision, exact_match, scope_match, controller, model, application, unit, machine,
}
use fine_grained_permissions.Api
use fine_grained_permissions.Store.{Db}
use fine_grained_permissions.Catalog.{delete_permission}
use fine_grained_permissions.Service.Check.{require}
use fine_grained_permissions.Service.Scopes.{management_scope}
use fine_grained_permissions.Service.Scopes.Hierarchy.{IsHierarchy}
use fine_grained_permissions.Service.Policy.{create_user}
use fine_grained_permissions.Service.Roles.{create_role, update_role}
use fine_grained_permissions.Service.Roles.Checked.{AreNamed, IsChangeable}
use fine_grained_permissions.Service.Bindings.{create_binding}
use fine_grained_permissions.Service.Bindings.Validation.{validate_binding}
use fine_grained_permissions.Service.Legacy.{grant_legacy, model_ref}
use fine_grained_permissions.Service.Resources.{delete_resource, or_empty}
use fine_grained_permissions.Service.Guards.{
  ManagesPolicy, policy_guarded, roles_guarded, bindings_guarded, legacy_guarded, resources_guarded,
}
use fine_grained_permissions.Base.Actions.{Refused}
use fine_grained_permissions.Store.Resources.{get_resource, has_children}
use fine_grained_permissions.Store.Roles.{get_role, find_role, role_of, role_permissions}
use fine_grained_permissions.Store.Users.{user_exists}
use fine_grained_permissions.Service.Resources.{create_resource}
use fine_grained_permissions.Service.Resources.Laws.{
  create_resource-IsHierarchy, delete_resource-IsHierarchy,
}
use fine_grained_permissions.Service.Bindings.Laws.{IsBindable, validate_binding_iff}
use fine_grained_permissions.Store.Roles
use fine_grained_permissions.Store.Roles.{write_role, replace_permissions}
use fine_grained_permissions.Store.Roles.Laws.{Updatable, update_role_iff, update_role_once}
use fine_grained_permissions.Store.Names.{unique, unique_from}
use fine_grained_permissions.Base.{contains, ◌+◌, conflict}
use fine_grained_permissions.Api.{Role, UpdateRole}
use fine_grained_permissions.Tests.Deployment.{
  demo, tables, start, the_model, the_app, synced, tables-IsHierarchy,
}
use fine_grained_permissions.Base.{refl, String}
use fine_grained_permissions.Store.Roles.{find_role, role_of, role_permissions}

policy_guarded_example :
    Refused (create_user demo (λ c. c) "ann" (record { name = "bob" })) synced
    ⊎ ManagesPolicy demo synced "ann"
policy_guarded_example =
    (policy_guarded demo synced "ann" (λ c. c) (record { name = "bob" }) "ops" "ann").0

abbrev auditor : Api.CreateRole
auditor = record { description = ""; name = "auditor"; permissions = "policy.read" ∷ [] }

abbrev narrower : UpdateRole
narrower = record { description = ""; permissions = "model.read" ∷ [] }

roles_guarded_example :
    (Refused (create_role demo (λ c. c) "ann" auditor) synced
      ⊎ (ManagesPolicy demo synced "ann" × AreNamed auditor.permissions))
    × (Refused (update_role demo "now" "ann" "viewer" 1 narrower) synced
        ⊎ (ManagesPolicy demo synced "ann"
            × AreNamed narrower.permissions
            × IsChangeable "viewer" 1 narrower.permissions synced))
roles_guarded_example = roles_guarded demo synced "ann" (λ c. c) auditor "now" "viewer" 1 narrower

abbrev wanted : CreateBinding
wanted = record {
  role_id = "viewer";
  scope = the_model;
  selector = record { match = scope_match; resources = none };
  subject_id = "ann";
  subject_type = "user";
}

bindings_guarded_example :
    Refused (create_binding demo "b3" "ann" wanted) synced
    ⊎ ((scope : ResourceRef) × (validate_binding wanted synced.db ≡ ok tt)
        × (management_scope the_model synced.db ≡ ok scope)
        × (require demo "ann" "policy.manage" scope synced ≡ ok tt))
bindings_guarded_example = (bindings_guarded demo synced "ann" "b3" "b1" wanted).0

legacy_guarded_example :
    Refused
      (grant_legacy demo "b4" "ann"
        (record { access = "read"; model_id = "prod"; user_id = "ann" }))
      synced
    ⊎ ((access_level_valid "read" ≡ true)
        × (require demo "ann" "policy.manage" (model_ref "prod") synced ≡ ok tt)
        × (user_exists "ann" synced.db ≡ true)
        × ((item : Resource) × (get_resource model "prod" synced.db ≡ ok item)))
legacy_guarded_example =
    (legacy_guarded demo synced "ann" "b4"
      (record { access = "read"; model_id = "prod"; user_id = "ann" })).0

resources_guarded_example :
    Refused (delete_resource demo "ann" the_app) synced
    ⊎ ((item : Resource) × (get_resource "application" "pay" synced.db ≡ ok item)
        × (require demo "ann" (or_empty (delete_permission "application")) the_app synced ≡ ok tt)
        × (not (has_children the_app synced.db) ≡ true))
resources_guarded_example =
    (resources_guarded demo synced "ann" "r1" "pay"
      (record { name = "new"; parent = some the_model; type = application }) the_app []).1

abbrev new_app : Api.CreateResource
new_app = record { name = "shop"; parent = some the_model; type = application }

create_resource-IsHierarchy_example :
    IsHierarchy (create_resource demo "r1" "ann" new_app start).1.db
create_resource-IsHierarchy_example =
    create_resource-IsHierarchy demo "r1" "ann" new_app start tables-IsHierarchy

delete_resource-IsHierarchy_example : IsHierarchy (delete_resource demo "ann" the_app start).1.db
delete_resource-IsHierarchy_example =
    delete_resource-IsHierarchy demo "ann" the_app start tables-IsHierarchy

validate_binding_iff_example : (validate_binding wanted tables ≡ ok tt) ↔ IsBindable wanted tables
validate_binding_iff_example = validate_binding_iff wanted tables tables-IsHierarchy

abbrev change : UpdateRole
change = record { description = "sees units"; permissions = "unit.read" ∷ "unit.read" ∷ [] }

update_role_iff_example :
    ((role : Role) × ((Roles.update_role "ann" "now" "viewer" 1 change tables).0 ≡ ok role))
    ↔ Updatable "viewer" 1 tables
update_role_iff_example = update_role_iff "ann" "now" "viewer" 1 change tables

abbrev changed_role : Role
changed_role = record {
  built_in = false;
  description = "sees units";
  id = "viewer";
  name = "viewer";
  permissions = "unit.read" ∷ [];
  revision = 2;
}

abbrev changed_tables : Db
changed_tables = (Roles.update_role "ann" "now" "viewer" 1 change tables).1

update_role_once_example :
    (Roles.get_role "viewer" changed_tables ≡ ok changed_role)
    × (changed_role.revision ≡ 1 + 1)
    × (changed_role.description ≡ change.description)
    × ((p : String) → contains changed_role.permissions p ≡ contains change.permissions p)
    × ((other later : String) (again : UpdateRole)
        → Roles.update_role other later "viewer" 1 again changed_tables
          ≡ (err conflict, changed_tables))
unfolding Roles.update_role Roles.get_role write_role find_role role_of role_permissions
    replace_permissions unique unique_from
update_role_once_example =
    update_role_once "ann" "now" "viewer" 1 change tables changed_tables changed_role refl
