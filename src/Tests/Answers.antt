-- ===== src/Tests/Answers.antt =====
-- The theorems on the answers of the handlers and on legacy levels, on the small deployment.
use fine_grained_permissions.Base.{none, some, [], ◌∷◌}
use fine_grained_permissions.Api.{CreateBinding, scope_match}
use fine_grained_permissions.Service.Bindings
use fine_grained_permissions.HttpApi.Handlers
use fine_grained_permissions.HttpApi.Statuses.{Reports, writes_reported}
use fine_grained_permissions.Tests.Deployment.{demo, start, the_model, the_app}
use fine_grained_permissions.Base.{true, inl, inr, ◌≡◌, refl, Result, ok}
use fine_grained_permissions.Api.{Binding}
use fine_grained_permissions.Store.{Db}
use fine_grained_permissions.Store.Bindings.{
  upsert_compatibility_binding, get_compatibility_binding, insert_binding, find_compatibility,
  compatibility_row, binding_taken, role_present, get_binding, find_binding, binding_of,
}
use fine_grained_permissions.Store.Bindings.Laws.{Keyed, upsert_compatibility_binding_get}
use fine_grained_permissions.Tests.Deployment.{tables}

abbrev asked_for : CreateBinding
asked_for = record {
  role_id = "viewer";
  scope = the_model;
  selector = record { match = scope_match; resources = none };
  subject_id = "ann";
  subject_type = "user";
}

writes_reported_example :
    Reports 201
      (Bindings.create_binding demo "b9" "ann" asked_for start)
      (Handlers.create_binding demo "b9" "ann" (some asked_for) start)
writes_reported_example =
    (writes_reported demo (λ c. c) "b9" "now" "ann" "b1" start (record { name = "bob" })
      (record { user_id = "ann" })
      (record { description = ""; name = "auditor"; permissions = "policy.read" ∷ [] }) 1
      (record { description = ""; permissions = [] }) asked_for
      (record { access = "read"; model_id = "prod"; user_id = "ann" })
      (record { name = "shop"; parent = some the_model; type = "application" }) the_app []).6

tables-Keyed : Keyed tables
unfolding find_binding
tables-Keyed row (inl same) = rw same refl
tables-Keyed row (inr none_left) = absurd none_left

abbrev ann_level : Result Binding × Db
ann_level = upsert_compatibility_binding "b7" "ann" "viewer" "prod" tables

abbrev level_binding : Binding
level_binding = record {
  compatibility = true;
  id = "b7";
  role_id = "viewer";
  scope = the_model;
  selector = record { match = scope_match; resources = none };
  subject_id = "ann";
  subject_type = "user";
}

upsert_compatibility_binding_get_example :
    (get_compatibility_binding "ann" "prod" ann_level.1 ≡ ok level_binding)
    × (level_binding.role_id ≡ "viewer")
unfolding upsert_compatibility_binding insert_binding find_compatibility compatibility_row
    binding_taken role_present get_binding find_binding binding_of
upsert_compatibility_binding_get_example =
    upsert_compatibility_binding_get "b7" "ann" "viewer" "prod" tables ann_level.1 level_binding
      tables-Keyed refl
