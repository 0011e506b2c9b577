-- ===== src/Tests/Deployment.antt =====
-- A small deployment: one model, one application in it, one user, and a binding that lets her read
-- the applications of the model; and a server whose state is the list of its tuples.
use fine_grained_permissions.Base.{
  Bool, Option, true, not, ◌&&◌, ◌||◌, some, List, [], ◌∷◌, ◌++◌, ◌≡◌, ◌≢◌, refl, sym, ap, ◌∙◌, inl,
  inr, ok, select, any-append, Bool-cases, eq_iff, and-eq-true_iff, ◌==◌,
}
use fine_grained_permissions.Api.{ResourceRef}
use fine_grained_permissions.OpenFga
use fine_grained_permissions.OpenFga.{Tuple, Client, permission_tuples, targets_of}
use fine_grained_permissions.OpenFga.Server.{Server}
use fine_grained_permissions.Store.{Db, BindingRow, ResourceRow}
use fine_grained_permissions.Store.Projection.{tuple_key, list_synced_tuples}
use fine_grained_permissions.Store.Projection.Laws.{has}
use fine_grained_permissions.Service.{World}
use fine_grained_permissions.Service.Desired.{desired_tuples}
use fine_grained_permissions.Service.Sync.{sync, replace_tuples}
use fine_grained_permissions.Service.Desired.{binding_tuples, parent_tuples}
use fine_grained_permissions.Service.Diff.{tuple_diff}
use fine_grained_permissions.Service.Diff.Laws.{has-absent}
use fine_grained_permissions.Catalog.{parent_rule}
use fine_grained_permissions.Service.Scopes.Hierarchy.{IsHierarchy}
use fine_grained_permissions.Store.Resources.{
  list_resources, get_resource, find_resource, resource_of,
}
use fine_grained_permissions.Store.Bindings.{list_bindings, get_binding, binding_permissions}
use fine_grained_permissions.Store.Roles.{get_role, find_role, role_of, role_permissions}
use fine_grained_permissions.Store.Users.{list_memberships}
use fine_grained_permissions.Store.Projection.{
  replace_synced_tuples, insert_tuples, tuple_row, tuple_of,
}
use fine_grained_permissions.OpenFga.{
  tuples_for, tuples_for_all, relation_at_scope, inherits, parent_tuple, subject_tuple,
  membership_tuple,
}
use fine_grained_permissions.Catalog.{
  supports, permission, permissions, relation, relation_by_permission, resource_object,
}

-- A server whose state is the list of its tuples, and which answers checks by `answer`.
abbrev pub demo_with : (Tuple → List Tuple → Option Bool) → Client (List Tuple)
demo_with answer = record {
  get_store = λ e. true;
  check = answer;
  write = λ ws ds e. (true, ws ++ select (λ t. not (has (tuple_key t) ds)) e);
}

-- One that knows the stored tuples only.
abbrev pub demo : Client (List Tuple)
demo = demo_with (λ t e. some (has (tuple_key t) e))

abbrev pub model_row : ResourceRow
model_row = record {
  type = "model";
  id = "prod";
  name = "prod";
  status = "active";
  parent_type = some "controller";
  parent_id = some "juju";
  config = [];
}

abbrev pub app_row : ResourceRow
app_row = record {
  type = "application";
  id = "pay";
  name = "pay";
  status = "active";
  parent_type = some "model";
  parent_id = some "prod";
  config = [];
}

abbrev pub binding_row : BindingRow
binding_row = record {
  id = "b1";
  subject_type = "user";
  subject_id = "ann";
  role_id = "viewer";
  scope_type = "model";
  scope_id = "prod";
  selector_match = "scope";
  selector_resources = some [];
  compatibility = 0;
}

abbrev pub tables : Db
tables = record {
  settings = [];
  synced_tuples = [];
  users = record { id = "ann"; name = "ann" } ∷ [];
  groups = [];
  group_members = [];
  roles =
      record { id = "viewer"; name = "viewer"; description = ""; revision = 1; built_in = 0 } ∷ [];
  role_permissions = ("viewer", "application.read") ∷ [];
  bindings = binding_row ∷ [];
  resources = model_row ∷ app_row ∷ [];
  audit = [];
}

abbrev pub start : World (List Tuple)
start = record { db = tables; engine = [] }

abbrev pub the_model : ResourceRef
the_model = record { id = "prod"; type = "model" }

abbrev pub the_app : ResourceRef
the_app = record { id = "pay"; type = "application" }

abbrev pub synced : World (List Tuple)
synced = (sync demo start).1

abbrev pub demo_server : Server demo
demo_server = record {
  holds = λ e k. has k e;
  write_law = λ ws ds e e' h _ _ _ k. rw (← ap (λ c. c.1) h) (
      any-append (λ u. k == tuple_key u) ws (select (λ t. not (has (tuple_key t) ds)) e)
      ∙ ap (λ b. has k ws || b) (has-absent k ds e));
}

-- The tuples that these tables stand for.
abbrev pub wanted : List Tuple
wanted =
    record { user = "model:prod"; relation = "parent"; object = "application:pay" }
    ∷ record { user = "controller:juju"; relation = "parent"; object = "model:prod" }
    ∷ record { user = "grant:b1#subject"; relation = "application_read"; object = "model:prod" }
    ∷ record { user = "user:ann"; relation = "subject"; object = "grant:b1" }
    ∷ []

pub tables-desired : desired_tuples tables ≡ ok wanted
unfolding desired_tuples binding_tuples parent_tuples list_resources list_bindings get_binding
    get_resource find_resource resource_of get_role find_role role_of role_permissions
    list_memberships tuple_diff list_synced_tuples replace_synced_tuples insert_tuples
    permission_tuples targets_of tuples_for_all tuples_for relation_at_scope inherits supports
    permission permissions relation relation_by_permission resource_object parent_tuple
    subject_tuple membership_tuple tuple_key tuple_row tuple_of binding_permissions
tables-desired = refl

pub demo_with-sync :
    (answer : Tuple → List Tuple → Option Bool)
    → sync (demo_with answer) start ≡ (ok tt, (sync (demo_with answer) start).1)
unfolding sync replace_tuples OpenFga.write desired_tuples binding_tuples parent_tuples
    list_resources list_bindings get_binding get_resource find_resource resource_of get_role
    find_role role_of role_permissions list_memberships tuple_diff list_synced_tuples
    replace_synced_tuples insert_tuples permission_tuples targets_of tuples_for_all tuples_for
    relation_at_scope inherits supports permission permissions relation relation_by_permission
    resource_object parent_tuple subject_tuple membership_tuple tuple_key tuple_row tuple_of
    binding_permissions
demo_with-sync answer = refl

pub start-sync : sync demo start ≡ (ok tt, synced)
start-sync = demo_with-sync (λ t e. some (has (tuple_key t) e))

pub tables-IsHierarchy : IsHierarchy tables
unfolding get_resource find_resource resource_of parent_rule
tables-IsHierarchy = record {
  parented = λ type id item h. elim (Bool-cases ("model" == type && "prod" == id)) [
    | inl m ↦
        let same : resource_of model_row ≡ item = cc (rw m at h) in
        let (typed, _) = (and-eq-true_iff ("model" == type) _).0 m in
        (
          record { id = "juju"; type = "controller" },
          sym (ap (λ r. r.parent) same),
          rw (← (eq_iff "model" type).0 typed) (inl refl),
          inl (refl, refl),
        )
    | inr n ↦ elim (Bool-cases ("application" == type && "pay" == id)) [
      | inl a ↦
          let same : resource_of app_row ≡ item = cc (rw (n, a) at h) in
          let (typed, _) = (and-eq-true_iff ("application" == type) _).0 a in
          (
            the_model,
            sym (ap (λ r. r.parent) same),
            rw (← (eq_iff "application" type).0 typed) (inl refl),
            inr ((λ e. ne_model e), (resource_of model_row, refl)),
          )
      | inr b ↦ absurd (cc (rw (n, b) at h))
    ]
  ];
}
  where
    ne_model : the_model.type ≢ "controller"
    ne_model e = cc ((eq_iff "model" "controller").1 e)
