-- ===== src/OpenFga/Bootstrap.antt =====
-- `Bootstrap` of openfga.go: the store and the model that the service uses, created once and remembered
-- in the settings of its database. The SDK is the parameter `Sdk`; the compiler from the model's text to
-- JSON, and its decoder, are its field `compiled`.
pub mod Laws
use fine_grained_permissions.Base.{
  String, Bool, Option, none, some, List, [], ◌∷◌, Result, ok, err, failure, guard, or_error,
  Action,
}
use fine_grained_permissions.Base.Actions.{◌>>=◌, ◌>>◌, reading}
use fine_grained_permissions.OpenFga.{Client}
use fine_grained_permissions.Store.{Db}
use fine_grained_permissions.Store.Projection.{setting, set_setting}
use fine_grained_permissions.Service.{World}

-- `Engine`: the client, with the store and the model that were selected.
pub record Engine : Type 0 where
  pub store_id : String
  pub model_id : String

-- What `Bootstrap` calls of the SDK. A call that fails may still have changed the server.
pub record Sdk (E : Type 0) : Type 0 where
  pub connects : String → Bool
  pub create_store : String → E → Option String × E
  pub accepts : String → Bool
  pub compiled : Option String
  pub write_model : String → String → E → Option String × E
  pub client : Engine → Client E

abbrev pub store_id_key : String
store_id_key = "openfga-store-id"

abbrev pub model_id_key : String
model_id_key = "openfga-model-id"

module _ {E : Type 0} where
  -- The answer of a call that creates, remembered under `key`.
  abbrev pub remember : String → String → Db → Option String × E → Result String × World E
  remember key failed db (none, e) = (err (failure failed), record { db = db; engine = e })
  remember key failed db (some id, e) = (ok id, record { db = set_setting key id db; engine = e })

  -- The identifier that is remembered, or else the one that `create` returns.
  abbrev pub remembered :
      Option (String × String) → Action (World E) String → Action (World E) String
  remembered (some (_, id)) create w = (ok id, w)
  remembered none create w = create w

module _ {E : Type 0} (sdk : Sdk E) where
  abbrev pub create_store : Action (World E) String
  create_store w =
      remember store_id_key "create OpenFGA store: %w" w.db
        (sdk.create_store "juju-permissions-demo" w.engine)

  abbrev pub write_model : String → String → Action (World E) String
  write_model store_id model w =
      remember model_id_key "write OpenFGA model: %w" w.db (sdk.write_model store_id model w.engine)

  unfoldable pub find_store : Action (World E) String
  find_store w = remembered (setting store_id_key w.db) create_store w

  unfoldable pub find_model : String → Action (World E) String
  find_model store_id w =
      remembered (setting model_id_key w.db)
        (do
          model ← reading (λ _. or_error sdk.compiled (failure "compile OpenFGA model: %w"))
          write_model store_id model)
        w

  -- The second part of `Bootstrap`, from `SetStoreId` on.
  unfoldable pub select : String → Action (World E) Engine
  unfolding find_model
  select store_id = do
    reading (λ _. guard (sdk.accepts store_id) (failure "select OpenFGA store: %w"))
    model_id ← find_model store_id
    reading (λ _. guard (sdk.accepts model_id) (failure "select OpenFGA model: %w"))
    reading (λ _. ok (record { store_id = store_id; model_id = model_id }))

  -- `Bootstrap`.
  unfoldable pub bootstrap : String → Action (World E) Engine
  unfolding find_store select
  bootstrap api_url = do
    reading (λ _. guard (sdk.connects api_url) (failure "create OpenFGA client: %w"))
    store_id ← find_store
    select store_id
