-- ===== src/OpenFga/Bootstrap/Laws.antt =====
-- What `Bootstrap` leaves behind: the identifiers that it used are remembered, so that the next call uses
-- them again.
use fine_grained_permissions.Base.{
  String, Bool, true, false, Option, none, some, ◌≡◌, ◌⊎◌, inl, inr, refl, sym, ap, ◌∙◌,
  Option-cases, ok, err, guard, arith, Error,
}
use fine_grained_permissions.Store.{Db}
use fine_grained_permissions.Store.Projection.{setting}
use fine_grained_permissions.Store.Projection.Settings.{setting-set_setting, set_setting-keeps}
use fine_grained_permissions.OpenFga.Bootstrap.{
  Sdk, Engine, find_store, find_model, select, bootstrap, remember, store_id_key, model_id_key,
}
use fine_grained_permissions.Service.{World}

-- The setting is there, with this value.
abbrev pub Remembers : String → String → Db → Type 0
Remembers key id db = (row : String × String) × (setting key db ≡ some row) × (row.1 ≡ id)

module _ {E : Type 0} (sdk : Sdk E) where
  remember-Remembers :
      (key failed : String) (db : Db) (answer : Option String × E) (id : String) (w' : World E)
      → setting key db ≡ none
      → remember key failed db answer ≡ (ok id, w')
      → Remembers key id w'.db
  remember-Remembers key failed db (none, e) id w' missing h = absurd (cc (ap (λ p. p.0) h))
  remember-Remembers key failed db (some new, e) id w' missing h =
      let same : ok new ≡ ok id = ap (λ p. p.0) h in
      (
        (key, new),
        ap (λ p. setting key p.1.db) (sym h) ∙ setting-set_setting key new db missing,
        cc same,
      )

  remember-keeps :
      (key failed other : String) (db : Db) (answer : Option String × E) (row : String × String)
      → setting key db ≡ none
      → setting other db ≡ some row
      → setting other (remember key failed db answer).1.db ≡ some row
  remember-keeps key failed other db (none, e) row missing found = found
  remember-keeps key failed other db (some new, e) row missing found =
      set_setting-keeps key new db other row missing found

  find_store-Remembers :
      (w w' : World E) (id : String)
      → find_store sdk w ≡ (ok id, w')
      → Remembers store_id_key id w'.db
  unfolding find_store
  find_store-Remembers w w' id h = elim (Option-cases (setting store_id_key w.db)) [
    | inl missing ↦ remember-Remembers store_id_key _ w.db _ id w' missing (rw missing at h)
    | inr (row, found) ↦
        let same = rw found at h in
        let ids : ok row.1 ≡ ok id = ap (λ p. p.0) same in
        (row, ap (λ p. setting store_id_key p.1.db) (sym same) ∙ found, cc ids)
  ]

  find_model-Remembers :
      (store_id : String) (w w' : World E) (id : String)
      → find_model sdk store_id w ≡ (ok id, w')
      → Remembers model_id_key id w'.db
  unfolding find_model
  find_model-Remembers store_id w w' id h = elim (Option-cases (setting model_id_key w.db)) [
    | inl missing ↦ elim (Option-cases sdk.compiled) [
      | inl bad ↦ absurd (cc (ap (λ p. p.0) (rw (missing, bad) at h)))
      | inr (model, e) ↦
          remember-Remembers model_id_key _ w.db _ id w' missing (rw (missing, e) at h)
    ]
    | inr (row, found) ↦
        let same = rw found at h in
        let ids : ok row.1 ≡ ok id = ap (λ p. p.0) same in
        (row, ap (λ p. setting model_id_key p.1.db) (sym same) ∙ found, cc ids)
  ]

  -- Whatever it answers, the step on the model keeps the store that is remembered.
  find_model-keeps :
      (store_id : String) (w : World E) (row : String × String)
      → setting store_id_key w.db ≡ some row
      → setting store_id_key (find_model sdk store_id w).1.db ≡ some row
  unfolding find_model
  find_model-keeps store_id w row kept = elim (Option-cases (setting model_id_key w.db)) [
    | inl missing ↦ elim (Option-cases sdk.compiled) [
      | inl bad ↦ rw (missing, bad) kept
      | inr (model, e) ↦
          rw (missing, e) (remember-keeps model_id_key _ store_id_key w.db _ row missing kept)
    ]
    | inr (other, found) ↦ rw found kept
  ]

  -- The steps of a `Bootstrap` that succeeds.
  pub record Steps (api_url : String) (w w' : World E) (engine : Engine) : Type 0 where
    pub middle : World E
    pub connected : sdk.connects api_url ≡ true
    pub stored : find_store sdk w ≡ (ok engine.store_id, middle)
    pub accepted : sdk.accepts engine.store_id ≡ true
    pub modelled : find_model sdk engine.store_id middle ≡ (ok engine.model_id, w')
    pub model_accepted : sdk.accepts engine.model_id ≡ true

  guard-cases : (b : Bool) (e : Error) → (b ≡ true) ⊎ (guard b e ≡ err e)
  guard-cases true e = inl refl
  guard-cases false e = inr refl

  pub bootstrap-Steps :
      (api_url : String) (w w' : World E) (engine : Engine)
      → bootstrap sdk api_url w ≡ (ok engine, w')
      → Steps api_url w w' engine
  unfolding bootstrap select
  bootstrap-Steps api_url w w' engine h = record {
    middle = (find_store sdk w).1;
    connected = ground arith;
    stored = ground arith;
    accepted = ground arith;
    modelled = ground arith;
    model_accepted = ground arith;
  }

  find_store-again :
      (w : World E) (id : String) → Remembers store_id_key id w.db → find_store sdk w ≡ (ok id, w)
  unfolding find_store
  find_store-again w id (row, found, same) = rw found (λ i. (ok (same i), w))

  find_model-again :
      (store_id : String) (w : World E) (id : String)
      → Remembers model_id_key id w.db
      → find_model sdk store_id w ≡ (ok id, w)
  unfolding find_model
  find_model-again store_id w id (row, found, same) = rw found (λ i. (ok (same i), w))

  -- What a `Bootstrap` that succeeds has used is remembered.
  pub bootstrap-Remembers :
      (api_url : String) (w w' : World E) (engine : Engine)
      → bootstrap sdk api_url w ≡ (ok engine, w')
      → Remembers store_id_key engine.store_id w'.db × Remembers model_id_key engine.model_id w'.db
  bootstrap-Remembers api_url w w' engine h =
      let steps = bootstrap-Steps api_url w w' engine h in
      let (row, found, same) = find_store-Remembers w steps.middle engine.store_id steps.stored in
      (
        (
          row,
          ap (λ p. setting store_id_key p.1.db) (sym steps.modelled)
              ∙ find_model-keeps engine.store_id steps.middle row found,
          same,
        ),
        find_model-Remembers engine.store_id steps.middle w' engine.model_id steps.modelled,
      )

  -- After a `Bootstrap` that succeeds another one, at the next start, selects the same store and the same
  -- model, and changes neither the settings nor the server.
  pub bootstrap_again :
      (api_url : String) (w w' : World E) (engine : Engine)
      → bootstrap sdk api_url w ≡ (ok engine, w')
      → bootstrap sdk api_url w' ≡ (ok engine, w')
  unfolding bootstrap select
  bootstrap_again api_url w w' engine h =
      let steps = bootstrap-Steps api_url w w' engine h in
      let (store, model) = bootstrap-Remembers api_url w w' engine h in
      let same_store = find_store-again w' engine.store_id store in
      let same_model = find_model-again engine.store_id w' engine.model_id model in
      let c = steps.connected in
      let a = steps.accepted in let b = steps.model_accepted in ground arith

select-create :
    {E : Type 0} (sdk : Sdk E) (create : String → E → Option String × E) (store_id : String)
    (w : World E)
    → select (record sdk { create_store = create }) store_id w ≡ select sdk store_id w
unfolding select find_model
select-create sdk create store_id w = refl

-- Once a store is remembered, whether by an attempt that succeeded or by one that failed later on, no
-- `Bootstrap` creates another: it does the same whatever the creation of a store would do.
pub bootstrap_once :
    {E : Type 0} (sdk : Sdk E) (create : String → E → Option String × E) (api_url store_id : String)
    (w : World E)
    → Remembers store_id_key store_id w.db
    → bootstrap (record sdk { create_store = create }) api_url w ≡ bootstrap sdk api_url w
unfolding bootstrap
bootstrap_once sdk create api_url store_id w h =
    let other = find_store-again (record sdk { create_store = create }) w store_id h in
    let own = find_store-again sdk w store_id h in
    let same = select-create sdk create store_id w in ground arith
