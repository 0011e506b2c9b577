-- ===== src/Startup/Tables.antt =====
-- Remembering an identifier changes the settings only: the tables stand for the same tuples.
use fine_grained_permissions.Base.{
  String, Option, none, some, ◌≡◌, inl, inr, refl, Bool-cases, Option-cases, ◌==◌, any,
}
use fine_grained_permissions.OpenFga.Bootstrap.{
  Sdk, find_store, find_model, remember, store_id_key, model_id_key,
}
use fine_grained_permissions.Store.{Db}
use fine_grained_permissions.Store.Projection.{setting, set_setting}
use fine_grained_permissions.Service.{World}
use fine_grained_permissions.Service.Desired.{desired_tuples}
use fine_grained_permissions.Store.Resources.{list_resources, get_resource, find_resource}
use fine_grained_permissions.Store.Bindings.{list_bindings, binding_permissions, get_binding}
use fine_grained_permissions.Store.Roles.{get_role, find_role, role_permissions}
use fine_grained_permissions.Store.Users.{list_memberships}

set_setting-desired :
    (key value : String) (db : Db) → desired_tuples (set_setting key value db) ≡ desired_tuples db
unfolding set_setting list_resources list_bindings binding_permissions list_memberships get_resource
    get_binding get_role find_resource find_role role_permissions
set_setting-desired key value db =
    elim (Bool-cases (any (λ (s : String × String). s.0 == key) db.settings)) [
      | inl there ↦ rw there (unfold desired_tuples in refl)
      | inr missing ↦ rw missing (unfold desired_tuples in refl)
    ]

remember-desired :
    {E : Type 0} (key failed : String) (db : Db) (answer : Option String × E)
    → desired_tuples (remember key failed db answer).1.db ≡ desired_tuples db
remember-desired key failed db (none, e) = refl
remember-desired key failed db (some id, e) = set_setting-desired key id db

pub find_store-desired :
    {E : Type 0} (sdk : Sdk E) (w : World E)
    → desired_tuples (find_store sdk w).1.db ≡ desired_tuples w.db
unfolding find_store
find_store-desired sdk w = elim (Option-cases (setting store_id_key w.db)) [
  | inl missing ↦
      rw missing
        (remember-desired store_id_key _ w.db (sdk.create_store "juju-permissions-demo" w.engine))
  | inr (row, found) ↦ rw found refl
]

pub find_model-desired :
    {E : Type 0} (sdk : Sdk E) (store_id : String) (w : World E)
    → desired_tuples (find_model sdk store_id w).1.db ≡ desired_tuples w.db
unfolding find_model
find_model-desired sdk store_id w = elim (Option-cases (setting model_id_key w.db)) [
  | inl missing ↦ elim (Option-cases sdk.compiled) [
    | inl bad ↦ rw (missing, bad) refl
    | inr (model, e) ↦
        rw (missing, e)
          (remember-desired model_id_key _ w.db (sdk.write_model store_id model w.engine))
  ]
  | inr (row, found) ↦ rw found refl
]
