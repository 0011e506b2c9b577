-- ===== src/Tests/Tables.antt =====
-- The theorems on decisions, tuples and tables, on the small deployment.
use fine_grained_permissions.Base.{
  String, true, false, not, ◌&&◌, none, some, List, [], ◌∷◌, ◌≡◌, ◌≢◌, ◌↔◌, refl, inl, inr, In, ok,
  err, diverged, failure,
}
use fine_grained_permissions.Api.{
  ResourceRef, Binding, exact_match, scope_match, model, application, machine,
}
use fine_grained_permissions.OpenFga.{Tuple, permission_tuples, targets_of}
use fine_grained_permissions.Store.Projection.{tuple_key, list_synced_tuples}
use fine_grained_permissions.Store.Projection.Laws.{has}
use fine_grained_permissions.Service.Desired.{desired_tuples}
use fine_grained_permissions.Service.Diff.Laws.{tuple_diff_exact, writes}
use fine_grained_permissions.Store.Projection.Laws.{list-replace, replace-Repeats}
use fine_grained_permissions.OpenFga.Grants.{Gives, permission_tuples-Gives}
use fine_grained_permissions.OpenFga.Failures.{Failed, permission_tuples-Unsupported}
use fine_grained_permissions.OpenFga.Relations.{relation_at_scope_injective}
use fine_grained_permissions.Catalog.{
  create_permission, read_permission, delete_permission, parent_rule,
}
use fine_grained_permissions.Catalog.Laws.{
  relation_total, relation_injective, create_permission_fits,
}
use fine_grained_permissions.Catalog.Laws
use fine_grained_permissions.Service.Check.{check, require, decision}
use fine_grained_permissions.Service.Check.Laws.{Answered, check_iff_Answered, require_iff}
use fine_grained_permissions.Service.Scopes.{is_within_scope, management_scope}
use fine_grained_permissions.Service.Scopes.Laws.{
  Below, IsPolicyScope, is_within_scope_iff, management_scope_sound,
}
use fine_grained_permissions.Store.Projection.{replace_synced_tuples, insert_tuples}
use fine_grained_permissions.OpenFga.{tuples_for, tuples_for_all, relation_at_scope, inherits}
use fine_grained_permissions.Catalog.{
  supports, permission, permissions, relation, relation_by_permission, resource_object,
}
use fine_grained_permissions.Service.Sync.Laws.{InStep, sync-InStep}
use fine_grained_permissions.Tests.Deployment.{
  demo, tables, start, the_model, the_app, synced, demo_server, start-sync, tables-IsHierarchy,
}

sync-InStep_example :
    InStep demo demo_server synced
    × ((desired : List Tuple) × (desired_tuples tables ≡ ok desired)
        × ((k : String) → demo_server.holds synced.engine k ≡ has k desired))
unfolding list_synced_tuples
sync-InStep_example = sync-InStep demo demo_server start synced (λ k. refl) start-sync

abbrev ann_reads : Binding
ann_reads = record {
  compatibility = false;
  id = "b1";
  role_id = "viewer";
  scope = the_model;
  selector = record { match = scope_match; resources = none };
  subject_id = "ann";
  subject_type = "user";
}

abbrev one_tuple : Tuple
one_tuple = record {
  user = "grant:b1#subject";
  relation = "application_read";
  object = "model:prod";
}

permission_tuples-Gives_example :
    ((t : Tuple)
      → In t (one_tuple ∷ [])
        ↔ ((p : String) × In p ("application.read" ∷ []) × Gives ann_reads p t))
    × ((p : String)
        → In p ("application.read" ∷ [])
        → (t : Tuple) × In t (one_tuple ∷ []) × Gives ann_reads p t)
unfolding permission_tuples targets_of tuples_for_all tuples_for relation_at_scope inherits supports
    permission permissions resource_object
permission_tuples-Gives_example =
    permission_tuples-Gives ann_reads ("application.read" ∷ []) (one_tuple ∷ []) refl

check_iff_Answered_example :
    (check demo "ann" "application.read" the_app synced
      ≡ ok (decision false "application.read" the_app))
    ↔ Answered demo "ann" "application.read" the_app synced
        (decision false "application.read" the_app)
check_iff_Answered_example =
    check_iff_Answered demo "ann" "application.read" the_app synced
      (decision false "application.read" the_app)

require_iff_example : (require demo "ann" "application.read" the_app synced ≡ ok tt) ↔ (
    check demo "ann" "application.read" the_app synced
    ≡ ok (decision true "application.read" the_app))
require_iff_example = require_iff demo "ann" "application.read" the_app synced

is_within_scope_iff_example :
    (is_within_scope the_app the_model tables ≢ err diverged)
    × ((is_within_scope the_app the_model tables ≡ ok true) ↔ Below tables the_model the_app)
is_within_scope_iff_example = is_within_scope_iff the_app the_model tables tables-IsHierarchy

management_scope_sound_example :
    (management_scope the_app tables ≢ err diverged)
    × ((top : ResourceRef)
        → management_scope the_app tables ≡ ok top
        → IsPolicyScope top × Below tables top the_app)
management_scope_sound_example = management_scope_sound the_app tables tables-IsHierarchy

abbrev other_tuple : Tuple
other_tuple = record { user = "user:ann"; relation = "member"; object = "group:ops" }

tuple_diff_exact_example :
    has "k" (writes (one_tuple ∷ []) (other_tuple ∷ []))
    ≡ (has "k" (other_tuple ∷ []) && not (has "k" (one_tuple ∷ [])))
tuple_diff_exact_example = (tuple_diff_exact (one_tuple ∷ []) (other_tuple ∷ [])).0 "k"

list-replace_example :
    has
      (tuple_key one_tuple)
      (list_synced_tuples "all|" (replace_synced_tuples "all|" (one_tuple ∷ []) tables).1)
    ≡ has (tuple_key one_tuple) (one_tuple ∷ [])
unfolding replace_synced_tuples insert_tuples
list-replace_example =
    list-replace (one_tuple ∷ []) tables (replace_synced_tuples "all|" (one_tuple ∷ []) tables).1
      refl (tuple_key one_tuple)

replace-Repeats_example :
    replace_synced_tuples "all|" (one_tuple ∷ other_tuple ∷ one_tuple ∷ []) tables
    ≡ (err (failure "UNIQUE constraint failed"), tables)
unfolding tuple_key
replace-Repeats_example =
    replace-Repeats "all|" (one_tuple ∷ other_tuple ∷ one_tuple ∷ []) tables (inl refl)

abbrev exact_app : Binding
exact_app = record {
  compatibility = false;
  id = "b2";
  role_id = "viewer";
  scope = the_model;
  selector = record { match = exact_match; resources = some (the_app ∷ []) };
  subject_id = "ann";
  subject_type = "user";
}

permission_tuples-Unsupported_example :
    Failed (permission_tuples exact_app ("application.read" ∷ "unit.ssh" ∷ []))
unfolding supports permission permissions
permission_tuples-Unsupported_example =
    permission_tuples-Unsupported exact_app ("application.read" ∷ "unit.ssh" ∷ []) "unit.ssh"
      (the_app ∷ []) refl refl (inr (inl refl)) (refl, tt)

abbrev ssh_name : String
ssh_name = "unit.ssh"

relation_at_scope_injective_example : ssh_name ≡ ssh_name
unfolding relation_at_scope inherits supports permission permissions
relation_at_scope_injective_example =
    relation_at_scope_injective scope_match model ssh_name ssh_name (inl refl) refl refl refl refl

relation_total_example : (r : String) × (relation "machine.ssh" ≡ ok r)
unfolding permission permissions
relation_total_example = relation_total "machine.ssh" refl

abbrev read_name : String
read_name = "application.read"

relation_injective_example : read_name ≡ read_name
unfolding supports permission permissions relation relation_by_permission
relation_injective_example = relation_injective application read_name read_name refl refl refl refl

create_permission_fits_example :
    ((u : String) → In u (parent_rule machine) → supports "machine.create" u ≡ true)
    × (supports (Laws.or_empty (read_permission machine)) machine ≡ true)
    × (supports (Laws.or_empty (delete_permission machine)) machine ≡ true)
unfolding create_permission
create_permission_fits_example = create_permission_fits machine refl
