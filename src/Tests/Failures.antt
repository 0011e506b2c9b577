-- ===== src/Tests/Failures.antt =====
-- The theorems on failures of `Sync`, at bindings that cause them.
use fine_grained_permissions.Base.{String, false, some, [], ◌∷◌, ◌≡◌, refl}
use fine_grained_permissions.Api.{ResourceRef}
use fine_grained_permissions.Base.Actions.{Refused}
use fine_grained_permissions.Store.Resources.{
  list_resources, get_resource, find_resource, resource_of, has_children,
}
use fine_grained_permissions.Store.Bindings.{list_bindings, get_binding, binding_permissions}
use fine_grained_permissions.Store.Roles.{get_role, find_role, role_of, role_permissions}
use fine_grained_permissions.Store.Users.{list_memberships}
use fine_grained_permissions.OpenFga.{
  tuples_for, tuples_for_all, relation_at_scope, inherits, parent_tuple, subject_tuple,
  membership_tuple,
}
use fine_grained_permissions.Catalog.{
  supports, permission, permissions, relation, relation_by_permission, resource_object,
}
use fine_grained_permissions.Store.Roles
use fine_grained_permissions.Store.Roles.{write_role, replace_permissions}
use fine_grained_permissions.Tests.Deployment.{demo, tables, the_app}
use fine_grained_permissions.Base.{refl, inr, inl, String, List}
use fine_grained_permissions.Service.Sync.Failures.{sync-Unsupported, sync-Repeats, sent}
use fine_grained_permissions.OpenFga.Failures.{Failed}
use fine_grained_permissions.Store.{BindingRow}
use fine_grained_permissions.Service.{World}
use fine_grained_permissions.OpenFga.{Tuple}
use fine_grained_permissions.Store.Bindings.{
  list_bindings, get_binding, find_binding, binding_of, binding_permissions,
}
use fine_grained_permissions.Store.Roles.{find_role, role_of, role_permissions}
use fine_grained_permissions.Store.Resources as Store_Resources
use fine_grained_permissions.Store.Resources.{find_resource, resource_of}
use fine_grained_permissions.Store.Users.{list_memberships}
use fine_grained_permissions.Store.Projection.{tuple_key}
use fine_grained_permissions.Service.Sync.{sync}
use fine_grained_permissions.Service.Desired.{desired_tuples, binding_tuples, parent_tuples}
use fine_grained_permissions.OpenFga.{
  permission_tuples, targets_of, tuples_for, tuples_for_all, relation_at_scope, inherits,
  parent_tuple, subject_tuple, membership_tuple,
}
use fine_grained_permissions.Catalog.{
  supports, permission, permissions, relation, relation_by_permission, resource_object,
}
use fine_grained_permissions.Base.{eq_iff}
use fine_grained_permissions.Base.Actions.{Refused}
use fine_grained_permissions.Service.Bindings.{delete_binding}
use fine_grained_permissions.Service.Bindings.Orphans.{delete_binding_orphan}
use fine_grained_permissions.Tests.Deployment.{binding_row}

-- A binding of ann to `role_id` on the application alone, listed `times`.
abbrev app_binding : String → List ResourceRef → BindingRow
app_binding role_id targets = record {
  id = "b2";
  subject_type = "user";
  subject_id = "ann";
  role_id = role_id;
  scope_type = "model";
  scope_id = "prod";
  selector_match = "exact";
  selector_resources = some targets;
  compatibility = 0;
}

-- The role may also open SSH sessions to units, and the binding selects the application only.
abbrev stuck : World (List Tuple)
stuck = record {
  db = record tables {
    role_permissions = ("viewer", "application.read") ∷ ("viewer", "unit.ssh") ∷ [];
    bindings = app_binding "viewer" (the_app ∷ []) ∷ [];
  };
  engine = [];
}

sync-Unsupported_example : Refused (sync demo) stuck
unfolding list_bindings get_binding find_binding binding_of Roles.get_role find_role role_of
    role_permissions supports permission permissions
sync-Unsupported_example =
    sync-Unsupported demo stuck (binding_of (app_binding "viewer" (the_app ∷ [])))
      (binding_of (app_binding "viewer" (the_app ∷ [])) ∷ [])
      (record {
        built_in = false;
        description = "";
        id = "viewer";
        name = "viewer";
        permissions = "application.read" ∷ "unit.ssh" ∷ [];
        revision = 1;
      })
      "unit.ssh" (the_app ∷ []) refl (inl refl) refl refl refl (inr (inl refl)) (refl, tt)

-- The binding selects the application twice.
abbrev twice : World (List Tuple)
twice = record {
  db = record tables { bindings = app_binding "viewer" (the_app ∷ the_app ∷ []) ∷ [] };
  engine = [];
}

abbrev parent_tuple_of : String → String → Tuple
parent_tuple_of parent child = record { user = parent; relation = "parent"; object = child }

abbrev reads_app : Tuple
reads_app = record { user = "grant:b2#subject"; relation = "read"; object = "application:pay" }

abbrev wanted_twice : List Tuple
wanted_twice =
    parent_tuple_of "model:prod" "application:pay"
    ∷ parent_tuple_of "controller:juju" "model:prod"
    ∷ reads_app
    ∷ reads_app
    ∷ record { user = "user:ann"; relation = "subject"; object = "grant:b2" }
    ∷ []

sync-Repeats_example :
    Failed (sync demo twice).0
    × ((sync demo twice).1.db ≡ twice.db)
    × ((sync demo twice).1.engine ≡ (sent demo wanted_twice twice).1)
unfolding desired_tuples binding_tuples parent_tuples Store_Resources.list_resources list_bindings
    get_binding find_binding binding_of get_resource find_resource resource_of Roles.get_role
    find_role role_of role_permissions list_memberships permission_tuples targets_of tuples_for_all
    tuples_for relation_at_scope inherits supports permission permissions relation
    relation_by_permission resource_object parent_tuple subject_tuple membership_tuple
    binding_permissions tuple_key
sync-Repeats_example = sync-Repeats demo twice wanted_twice refl (inr (inr (inl refl)))

-- The model of the binding is gone.
abbrev orphaned : World (List Tuple)
orphaned = record { db = record tables { resources = [] }; engine = [] }

delete_binding_orphan_example : Refused (delete_binding demo "ann" "b1") orphaned
unfolding get_binding find_binding binding_of get_resource find_resource
delete_binding_orphan_example =
    delete_binding_orphan demo "ann" "b1" orphaned (binding_of binding_row) refl
      (λ e. cc ((eq_iff "model" "controller").1 e)) refl
