-- ===== src/Tests/Starts.antt =====
-- The theorems on the start of the server, over an SDK with one store, which is the state of the demo's
-- server.
use fine_grained_permissions.Base.{String, true, none, some, List, [], ◌≡◌, refl, ok}
use fine_grained_permissions.OpenFga
use fine_grained_permissions.OpenFga.Bootstrap.{
  Sdk, Engine, bootstrap, find_store, find_model, store_id_key,
}
use fine_grained_permissions.OpenFga.Bootstrap.Laws.{bootstrap_again, bootstrap_once}
use fine_grained_permissions.OpenFga.{Tuple, Client, permission_tuples, targets_of}
use fine_grained_permissions.Store.Projection.{tuple_key, list_synced_tuples}
use fine_grained_permissions.Service.Desired.{desired_tuples}
use fine_grained_permissions.Service.Sync.{sync, replace_tuples}
use fine_grained_permissions.Service.Desired.{binding_tuples, parent_tuples}
use fine_grained_permissions.Service.Diff.{tuple_diff}
use fine_grained_permissions.Store.Resources.{
  list_resources, get_resource, find_resource, resource_of,
}
use fine_grained_permissions.Store.Bindings.{list_bindings, get_binding, binding_permissions}
use fine_grained_permissions.Store.Roles.{get_role, find_role, role_of, role_permissions}
use fine_grained_permissions.Store.Users.{list_memberships}
use fine_grained_permissions.Store.Projection.{
  replace_synced_tuples, insert_tuples, tuple_row, tuple_of,
}
use fine_grained_permissions.OpenFga.{
  tuples_for, tuples_for_all, relation_at_scope, inherits, parent_tuple, subject_tuple,
  membership_tuple,
}
use fine_grained_permissions.Catalog.{
  supports, permission, permissions, relation, relation_by_permission, resource_object,
}
use fine_grained_permissions.Store.Projection.{setting, set_setting}
use fine_grained_permissions.Store.Projection.Laws.{has}
use fine_grained_permissions.Service.{World}
use fine_grained_permissions.Service.Sync.Laws.{InStep}
use fine_grained_permissions.Startup
use fine_grained_permissions.Startup.{wait}
use fine_grained_permissions.Startup.Prepared.{Stores, IsPrepared}
use fine_grained_permissions.Startup.Laws.{start-InStep}
use fine_grained_permissions.Tests.Deployment.{demo, demo_server, start, tables}

abbrev one_store : Sdk (List Tuple)
one_store = record {
  connects = λ url. true;
  create_store = λ name e. (some "store", []);
  accepts = λ id. true;
  compiled = some "model";
  write_model = λ store_id model e. (some "model-1", e);
  client = λ engine. demo;
}

abbrev one_store-Stores : Stores one_store
one_store-Stores = record {
  holds = λ id e k. has k e;
  created_law = λ name id e h k. refl;
  model_law = λ store_id model id e k. refl;
  server = λ engine. demo_server;
  served_law = λ engine e k. refl;
}

abbrev the_engine : Engine
the_engine = record { store_id = "store"; model_id = "model-1" }

abbrev booted : World (List Tuple)
booted = (bootstrap one_store "http://localhost:8080" start).1

start-bootstrap : bootstrap one_store "http://localhost:8080" start ≡ (ok the_engine, booted)
unfolding bootstrap setting set_setting
start-bootstrap = refl

bootstrap_again_example :
    bootstrap one_store "http://localhost:8080" booted ≡ (ok the_engine, booted)
bootstrap_again_example =
    bootstrap_again one_store "http://localhost:8080" start booted the_engine start-bootstrap

bootstrap_once_example :
    bootstrap
      (record one_store { create_store = λ name e. (none, e) })
      "http://localhost:8080"
      booted
    ≡ bootstrap one_store "http://localhost:8080" booted
unfolding bootstrap find_store find_model setting set_setting
bootstrap_once_example =
    bootstrap_once one_store (λ name e. (none, e)) "http://localhost:8080" "store" booted
      ((store_id_key, "store"), refl, refl)

start-IsPrepared : IsPrepared one_store one_store-Stores start
unfolding setting list_synced_tuples
start-IsPrepared = record { matches = λ id (row, found, same) k. cc; fresh = λ h k. refl }

abbrev served : World (List Tuple)
served = (Startup.start one_store (λ name. "") 2 start).1

started : Startup.start one_store (λ name. "") 2 start ≡ (ok the_engine, served)
unfolding Startup.start bootstrap setting set_setting sync replace_tuples OpenFga.write
    desired_tuples binding_tuples parent_tuples list_resources list_bindings get_binding
    get_resource find_resource resource_of get_role find_role role_of role_permissions
    list_memberships tuple_diff list_synced_tuples replace_synced_tuples insert_tuples
    permission_tuples targets_of tuples_for_all tuples_for relation_at_scope inherits supports
    permission permissions relation relation_by_permission resource_object parent_tuple
    subject_tuple membership_tuple tuple_key tuple_row tuple_of binding_permissions
started = refl

start-InStep_example :
    InStep demo demo_server served
    × ((desired : List Tuple) × (desired_tuples tables ≡ ok desired)
        × ((k : String) → has k served.engine ≡ has k desired))
start-InStep_example =
    start-InStep one_store one_store-Stores (λ name. "") 2 start served the_engine start-IsPrepared
      started
