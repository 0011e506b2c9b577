-- ===== src/Startup/Laws.antt =====
-- A server that has started is in step with its tables, over the stores of the SDK.
use fine_grained_permissions.Base.{
  ℕ, zero, suc, String, List, ◌≡◌, refl, sym, ap, ◌∙◌, subst, arith, Result, ok, failure, Action,
  guard, on_result,
}
use fine_grained_permissions.Base.Actions.{◌>>=◌, ◌>>◌, >>=-keeps, reading}
use fine_grained_permissions.OpenFga.{Tuple}
use fine_grained_permissions.OpenFga.Bootstrap.{
  Sdk, Engine, find_store, find_model, select, bootstrap, store_id_key,
}
use fine_grained_permissions.OpenFga.Bootstrap.Laws.{Remembers, bootstrap-Remembers}
use fine_grained_permissions.Store.Projection.Laws.{has}
use fine_grained_permissions.Service.{World}
use fine_grained_permissions.Service.Desired.{desired_tuples}
use fine_grained_permissions.Service.Sync.{sync}
use fine_grained_permissions.Service.Sync.Laws.{InStep, sync-InStep}
use fine_grained_permissions.Startup.{wait, start, env}
use fine_grained_permissions.Startup.Tables.{find_store-desired, find_model-desired}
use fine_grained_permissions.Startup.Prepared.{
  Stores, IsPrepared, find_store-IsPrepared, find_model-IsPrepared,
}

module _ {E : Type 0} (sdk : Sdk E) (stores : Stores sdk) where
  -- And the tables stand for these tuples.
  abbrev Ready : Result (List Tuple) → World E → Type 0
  Ready wanted w = IsPrepared sdk stores w × (desired_tuples w.db ≡ wanted)

  module _ (wanted : Result (List Tuple)) where
    store-Ready : (w : World E) → Ready wanted w → Ready wanted (find_store sdk w).1
    store-Ready w (p, e) = (find_store-IsPrepared sdk stores w p, find_store-desired sdk w ∙ e)

    model-Ready :
        (store_id : String) (w : World E)
        → Ready wanted w
        → Ready wanted (find_model sdk store_id w).1
    model-Ready store_id w (p, e) =
        (find_model-IsPrepared sdk stores store_id w p, find_model-desired sdk store_id w ∙ e)

    select-Ready :
        (store_id : String) (w : World E) → Ready wanted w → Ready wanted (select sdk store_id w).1
    unfolding select
    select-Ready store_id w p =
        >>=-keeps (Ready wanted)
          (reading (λ _. guard (sdk.accepts store_id) (failure "select OpenFGA store: %w")))
          (λ _. find_model sdk store_id >>= named) w p
          (λ _.
            >>=-keeps (Ready wanted) (find_model sdk store_id) named w (model-Ready store_id w p)
              (λ model_id.
                >>=-keeps (Ready wanted)
                  (reading (λ _. guard (sdk.accepts model_id) (failure "select OpenFGA model: %w")))
                  (λ _. reading (λ _. ok (record { store_id = store_id; model_id = model_id }))) _
                  (model-Ready store_id w p) (λ _. model-Ready store_id w p)))
      where
        named : String → Action (World E) Engine
        named model_id =
            reading (λ _. guard (sdk.accepts model_id) (failure "select OpenFGA model: %w"))
            >> reading (λ _. ok (record { store_id = store_id; model_id = model_id }))

    -- Whatever `Bootstrap` answers.
    bootstrap-Ready :
        (api_url : String) (w : World E) → Ready wanted w → Ready wanted (bootstrap sdk api_url w).1
    unfolding bootstrap
    bootstrap-Ready api_url w p =
        >>=-keeps (Ready wanted)
          (reading (λ _. guard (sdk.connects api_url) (failure "create OpenFGA client: %w")))
          (λ _. find_store sdk >>= select sdk) w p
          (λ _.
            >>=-keeps (Ready wanted) (find_store sdk) (select sdk) w (store-Ready w p)
              (λ id. select-Ready id (find_store sdk w).1 (store-Ready w p)))

    -- However many attempts it takes.
    wait-Ready :
        (api_url : String) (attempts : ℕ) (w w' : World E) (engine : Engine)
        → wait sdk api_url attempts w ≡ (ok engine, w')
        → Ready wanted w
        → Ready wanted w' × Remembers store_id_key engine.store_id w'.db
    unfolding wait
    wait-Ready api_url zero w w' engine h p = absurd (cc (ap (λ q. q.0) h))
    wait-Ready api_url (suc n) w w' engine h p =
        on_result (bootstrap sdk api_url w).0
          (λ e failed.
            wait-Ready api_url n (bootstrap sdk api_url w).1 w' engine (rw (failed, wait) at h)
              (bootstrap-Ready api_url w p))
          (λ g done.
            let whole : bootstrap sdk api_url w ≡ (ok engine, w') = ground arith in
            (
              subst (Ready wanted) (ap (λ q. q.1) whole) (bootstrap-Ready api_url w p),
              (bootstrap-Remembers sdk api_url w w' engine whole).0,
            ))

  start-steps :
      (getenv : String → String) (attempts : ℕ) (w w' : World E) (engine : Engine)
      → start sdk getenv attempts w ≡ (ok engine, w')
      → (middle : World E) × (wait sdk
            (env getenv "OPENFGA_API_URL" "http://localhost:8080")
            attempts
            w
          ≡ (ok engine, middle))
        × (sync (sdk.client engine) middle ≡ (ok tt, w'))
  unfolding start
  start-steps getenv attempts w w' engine h = (
    (wait sdk (env getenv "OPENFGA_API_URL" "http://localhost:8080") attempts w).1,
    ground arith,
    ground arith,
  )

  -- Over an SDK whose stores are as they are documented: when the start succeeds, after however many
  -- attempts, from a database whose projection is that of the store it remembers, or is empty if it
  -- remembers none, then the server holds exactly the tuples that the tables stand for, by keys, in the
  -- store of the engine that will serve.
  pub start-InStep :
      (getenv : String → String) (attempts : ℕ) (w w' : World E) (engine : Engine)
      → IsPrepared sdk stores w
      → start sdk getenv attempts w ≡ (ok engine, w')
      → InStep (sdk.client engine) (stores.server engine) w'
        × ((desired : List Tuple) × (desired_tuples w.db ≡ ok desired)
            × ((k : String) → stores.holds engine.store_id w'.engine k ≡ has k desired))
  start-InStep getenv attempts w w' engine p h =
      let (middle, waited, synced) = start-steps getenv attempts w w' engine h in
      let ((prepared, same), known) =
        wait-Ready (desired_tuples w.db) _ attempts w middle engine waited (p, refl) in
      let step : InStep (sdk.client engine) (stores.server engine) middle =
        λ k. stores.served_law engine middle.engine k ∙ prepared.matches engine.store_id known k in
      let (after, (desired, found, held)) =
        sync-InStep (sdk.client engine) (stores.server engine) middle w' step synced in
      (after, (desired, sym same ∙ found, λ k. sym (stores.served_law engine w'.engine k) ∙ held k))
