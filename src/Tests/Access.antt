-- ===== src/Tests/Access.antt =====
-- The theorems on what the tables authorize, on the small deployment.
use fine_grained_permissions.Base.{
  Bool, true, ◌&&◌, List, ◌≡◌, ◌↔◌, refl, In, all-In, and-eq-true_iff, lacks, ok, contains_iff,
}
use fine_grained_permissions.Api.{model, resource_type_valid}
use fine_grained_permissions.Catalog.{
  supports, permission, permissions, relation, relation_by_permission, resource_object,
  open_fga_type,
}
use fine_grained_permissions.Catalog.Types.{all_names, all_types}
use fine_grained_permissions.OpenFga
use fine_grained_permissions.OpenFga.{Tuple, Client, permission_tuples, targets_of}
use fine_grained_permissions.Store.Projection.{tuple_key, list_synced_tuples}
use fine_grained_permissions.Service.Desired.{desired_tuples}
use fine_grained_permissions.Service.Sync.{sync, replace_tuples}
use fine_grained_permissions.Service.Desired.{binding_tuples, parent_tuples}
use fine_grained_permissions.Service.Diff.{tuple_diff}
use fine_grained_permissions.Store.Resources.{
  list_resources, get_resource, find_resource, resource_of,
}
use fine_grained_permissions.Store.Bindings.{list_bindings, get_binding, binding_permissions}
use fine_grained_permissions.Store.Roles.{get_role, find_role, role_of, role_permissions}
use fine_grained_permissions.Store.Users.{list_memberships}
use fine_grained_permissions.Store.Projection.{
  replace_synced_tuples, insert_tuples, tuple_row, tuple_of,
}
use fine_grained_permissions.OpenFga.{
  tuples_for, tuples_for_all, relation_at_scope, inherits, parent_tuple, subject_tuple,
  membership_tuple,
}
use fine_grained_permissions.OpenFga.Model.{Holds, stored_tuple}
use fine_grained_permissions.OpenFga.Model.Tables.{Line, relation_at_scope-Line}
use fine_grained_permissions.Store.Projection.Keys.{IsPlain}
use fine_grained_permissions.Service.{World}
use fine_grained_permissions.Service.Check.{check, decision, locate}
use fine_grained_permissions.Service.Desired.Laws.{Wanted, desired_tuples_iff}
use fine_grained_permissions.Service.Access.{Authorized}
use fine_grained_permissions.Service.Access.Decisions.{
  Holds-iff_Authorized, sync-check_iff_Authorized,
}
use fine_grained_permissions.Tests.Deployment.{
  tables, start, wanted, tables-desired, demo_with-sync, the_app,
}
use fine_grained_permissions.Tests.Decisions.{
  deciding, deciding_server, deciding-Evaluator, tables-IsSound,
}

abbrev plain : Tuple → Bool
plain t = lacks "|" t.user && (lacks "|" t.relation && lacks "|" t.object)

wanted-IsPlain : (t : Tuple) → In t wanted → IsPlain t
wanted-IsPlain t i =
    let (u, rest) = (and-eq-true_iff (lacks "|" t.user) _).0 (all-In plain wanted t refl i) in
    let (r, o) = (and-eq-true_iff (lacks "|" t.relation) (lacks "|" t.object)).0 rest in
    record { user = u; relation = r; object = o }

abbrev after : World (List Tuple)
after = (sync deciding start).1

ann_may_read :
    check deciding "ann" "application.read" the_app after
    ≡ ok (decision true "application.read" the_app)
unfolding check OpenFga.check sync replace_tuples OpenFga.write desired_tuples binding_tuples
    parent_tuples list_resources list_bindings get_binding get_resource find_resource resource_of
    get_role find_role role_of role_permissions list_memberships tuple_diff list_synced_tuples
    replace_synced_tuples insert_tuples permission_tuples targets_of tuples_for_all tuples_for
    relation_at_scope inherits supports permission permissions relation relation_by_permission
    resource_object parent_tuple subject_tuple membership_tuple tuple_key tuple_row tuple_of
    binding_permissions resource_type_valid locate
ann_may_read = refl

sync-check_iff_Authorized_example :
    (true ≡ true) ↔ Authorized tables "ann" "application.read" the_app
unfolding list_synced_tuples
sync-check_iff_Authorized_example =
    sync-check_iff_Authorized deciding deciding_server deciding-Evaluator start after wanted "ann"
      "application.read" the_app (decision true "application.read" the_app) tables-IsSound
      (λ k. refl) tables-desired wanted-IsPlain (demo_with-sync _) ann_may_read

application_read_known : In "application.read" all_names
unfolding all_names permissions
application_read_known = (contains_iff all_names "application.read").0 refl

Holds-iff_Authorized_example :
    Holds (λ t. In t wanted) "ann" "read" (open_fga_type the_app.type) the_app.id
    ↔ Authorized tables "ann" "application.read" the_app
unfolding supports permission permissions relation relation_by_permission
Holds-iff_Authorized_example =
    Holds-iff_Authorized tables wanted "ann" "application.read" the_app "read" tables-IsSound
      tables-desired application_read_known refl refl

desired_tuples_iff_example :
    In (stored_tuple "user:ann" "subject" "grant" "b1") wanted
    ↔ Wanted tables (stored_tuple "user:ann" "subject" "grant" "b1")
desired_tuples_iff_example =
    desired_tuples_iff tables wanted tables-desired (stored_tuple "user:ann" "subject" "grant" "b1")

relation_at_scope-Line_example : Line "application.read" model "application_read"
unfolding relation_at_scope inherits supports permission permissions relation relation_by_permission
relation_at_scope-Line_example =
    relation_at_scope-Line "application.read" model "application_read" application_read_known
      ((contains_iff all_types model).0 refl) refl
