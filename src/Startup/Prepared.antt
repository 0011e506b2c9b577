-- ===== src/Startup/Prepared.antt =====
-- The store that is remembered and the projection stay in step while the server waits for its engine.
use fine_grained_permissions.Base.{
  String, Bool, false, Option, none, some, ◌≡◌, inl, inr, refl, sym, ap, ◌∙◌, Option-cases,
}
use fine_grained_permissions.OpenFga.Server.{Server}
use fine_grained_permissions.OpenFga.Bootstrap.{
  Sdk, Engine, find_store, find_model, remember, store_id_key, model_id_key,
}
use fine_grained_permissions.OpenFga.Bootstrap.Laws.{Remembers}
use fine_grained_permissions.Store.{Db}
use fine_grained_permissions.Store.Projection.{setting, set_setting, list_synced_tuples}
use fine_grained_permissions.Store.Projection.Laws.{has}
use fine_grained_permissions.Store.Projection.Settings.{
  setting-set_setting, set_setting-keeps, set_setting-apart, set_setting-tuples,
}
use fine_grained_permissions.Service.{World}

-- What the start relies on of the SDK: a store that is created holds no tuple, writing a model changes
-- no tuple, and the client of an engine writes to its store.
pub record Stores {E : Type 0} (sdk : Sdk E) : Type 0 where
  pub holds : String → E → String → Bool
  pub created_law :
      (name id : String) (e : E)
      → (sdk.create_store name e).0 ≡ some id
      → (k : String) → holds id (sdk.create_store name e).1 k ≡ false
  pub model_law :
      (store_id model id : String) (e : E) (k : String)
      → holds id (sdk.write_model store_id model e).1 k ≡ holds id e k
  pub server : (engine : Engine) → Server (sdk.client engine)
  pub served_law :
      (engine : Engine) (e : E) (k : String) → (server engine).holds e k ≡ holds engine.store_id e k

list-set_setting :
    (key value : String) (db : Db)
    → list_synced_tuples "all|" (set_setting key value db) ≡ list_synced_tuples "all|" db
unfolding list_synced_tuples
list-set_setting key value db = rw (set_setting-tuples key value db) refl

module _ {E : Type 0} (sdk : Sdk E) (stores : Stores sdk) where
  -- The store that is remembered holds the tuples of the last synchronised projection, which is empty as
  -- long as no store is remembered.
  pub record IsPrepared (w : World E) : Type 0 where
    pub matches :
        (id : String)
        → Remembers store_id_key id w.db
        → (k : String) → stores.holds id w.engine k ≡ has k (list_synced_tuples "all|" w.db)
    pub fresh :
        setting store_id_key w.db ≡ none
        → (k : String) → has k (list_synced_tuples "all|" w.db) ≡ false

  store-IsPrepared :
      (failed : String) (w : World E) (answer : Option String × E)
      → IsPrepared w
      → setting store_id_key w.db ≡ none
      → ((id : String) → answer.0 ≡ some id → (k : String) → stores.holds id answer.1 k ≡ false)
      → IsPrepared (remember store_id_key failed w.db answer).1
  store-IsPrepared failed w (none, e) p missing law = record {
    matches = λ id (row, found, same) k. absurd (cc (found, missing));
    fresh = p.fresh;
  }
  store-IsPrepared failed w (some new, e) p missing law =
      let stored = setting-set_setting store_id_key new w.db missing in
      record {
        matches = λ id (row, found, same) k.
            let rows : some (store_id_key, new) ≡ some row = sym stored ∙ found in
            let pair : (store_id_key, new) ≡ row = cc rows in
            let ids : new ≡ id = ap (λ q. q.1) pair ∙ same in
            law id (ap some ids) k
            ∙ sym (ap (has k) (list-set_setting store_id_key new w.db) ∙ p.fresh missing k);
        fresh = λ gone. absurd (cc (gone, stored));
      }

  pub find_store-IsPrepared : (w : World E) → IsPrepared w → IsPrepared (find_store sdk w).1
  unfolding find_store
  find_store-IsPrepared w p = elim (Option-cases (setting store_id_key w.db)) [
    | inl missing ↦ rw missing (
        store-IsPrepared _ w (sdk.create_store "juju-permissions-demo" w.engine) p missing
          (λ id e. stores.created_law "juju-permissions-demo" id w.engine e))
    | inr (row, found) ↦ rw found p
  ]

  model-IsPrepared :
      (failed : String) (w : World E) (answer : Option String × E)
      → IsPrepared w
      → setting model_id_key w.db ≡ none
      → ((id k : String) → stores.holds id answer.1 k ≡ stores.holds id w.engine k)
      → IsPrepared (remember model_id_key failed w.db answer).1
  model-IsPrepared failed w (none, e) p missing law = record {
    matches = λ id known k. law id k ∙ p.matches id known k;
    fresh = p.fresh;
  }
  model-IsPrepared failed w (some new, e) p missing law =
      let same_list = list-set_setting model_id_key new w.db in
      elim (Option-cases (setting store_id_key w.db)) [
        | inl unknown ↦
            let still = set_setting-apart model_id_key new w.db store_id_key refl missing unknown in
            record {
              matches = λ id (row, found, same) k. absurd (cc (found, still));
              fresh = λ _ k. ap (has k) same_list ∙ p.fresh unknown k;
            }
        | inr (row, known) ↦
            let still = set_setting-keeps model_id_key new w.db store_id_key row missing known in
            record {
              matches = λ id (other, found, same) k.
                  let rows : other ≡ row = cc (found, still) in
                  law id k
                  ∙ p.matches id (row, known, sym (ap (λ q. q.1) rows) ∙ same) k
                  ∙ sym (ap (has k) same_list);
              fresh = λ gone. absurd (cc (gone, still));
            }
      ]

  pub find_model-IsPrepared :
      (store_id : String) (w : World E) → IsPrepared w → IsPrepared (find_model sdk store_id w).1
  unfolding find_model
  find_model-IsPrepared store_id w p = elim (Option-cases (setting model_id_key w.db)) [
    | inl missing ↦ elim (Option-cases sdk.compiled) [
      | inl bad ↦ rw (missing, bad) p
      | inr (model, e) ↦
          rw (missing, e)
            (model-IsPrepared _ w (sdk.write_model store_id model w.engine) p missing
              (λ id k. stores.model_law store_id model id w.engine k))
    ]
    | inr (row, found) ↦ rw found p
  ]
