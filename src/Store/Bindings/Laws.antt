-- ===== src/Store/Bindings/Laws.antt =====
-- What `UpsertCompatibilityBinding` leaves.
use fine_grained_permissions.Base.{
  String, Bool, false, not, ◌||◌, none, some, [], ◌∷◌, ◌++◌, map, ◌≡◌, refl, sym, ap, ◌∙◌, inl, inr,
  ◌==◌, eq_refl, Bool-cases, Option-cases, Result, ok, find_first-In, find_first-append-new,
  find_first-any, find_first-map, any_mono, any, select, In,
}
use fine_grained_permissions.Api.{Binding, model, subject_user}
use fine_grained_permissions.Store.{Db, BindingRow}
use fine_grained_permissions.Store.Bindings.{
  same_key, binding_taken, role_present, insert_binding, binding_of, find_binding, get_binding,
  is_compatibility, find_compatibility, get_compatibility_binding, compatibility_row, with_role,
  update_binding, upsert_compatibility_binding,
}

-- Each row is the one found by its identifier: the PRIMARY KEY of `bindings`.
abbrev pub Keyed : Db → Type 0
Keyed db = (row : BindingRow) → In row db.bindings → find_binding row.id db ≡ some row

-- The row that is found gives the binding.
found_compatibility :
    (user_id model_id : String) (db : Db) (row : BindingRow)
    → find_compatibility user_id model_id db ≡ some row
    → find_binding row.id db ≡ some row
    → get_compatibility_binding user_id model_id db ≡ ok (binding_of row)
unfolding get_compatibility_binding get_binding
found_compatibility user_id model_id db row compat keyed = rw (compat, keyed) refl

module _ (uuid user_id role_id model_id : String) (db : Db) where
  abbrev new_row : BindingRow
  new_row = record {
    id = uuid;
    subject_type = subject_user;
    subject_id = user_id;
    role_id = role_id;
    scope_type = model;
    scope_id = model_id;
    selector_match = "scope";
    selector_resources = some [];
    compatibility = 1;
  }

  abbrev inserted : Db
  inserted = record db { bindings = db.bindings ++ new_row ∷ [] }

  inserted_compatibility :
      find_compatibility user_id model_id db ≡ none
      → binding_taken db.bindings new_row ≡ false
      → (find_compatibility user_id model_id inserted ≡ some new_row)
        × (find_binding uuid inserted ≡ some new_row)
  unfolding find_compatibility find_binding binding_taken
  inserted_compatibility missing free = (
    find_first-append-new (is_compatibility user_id model_id) db.bindings new_row missing
        (rw (eq_refl user_id, eq_refl model_id) refl),
    find_first-append-new (λ b. b.id == uuid) db.bindings new_row
        (find_first-any (λ b. b.id == uuid) db.bindings
          (any_mono (λ b. b.id == uuid) (λ b. b.id == uuid || same_key b new_row) db.bindings
            (λ b h. rw h refl) free))
        (eq_refl uuid),
  )

  abbrev updated : BindingRow → Db
  updated row = record db { bindings = map (with_role row.id role_id) db.bindings }

  updated_compatibility :
      (row : BindingRow)
      → Keyed db
      → find_compatibility user_id model_id db ≡ some row
      → (find_compatibility user_id model_id (updated row)
          ≡ some (record row { role_id = role_id }))
        × (find_binding row.id (updated row) ≡ some (record row { role_id = role_id }))
  unfolding find_compatibility find_binding
  updated_compatibility row keyed found =
      let (i, _) = find_first-In (is_compatibility user_id model_id) db.bindings found in
      let own : with_role row.id role_id row ≡ record row { role_id = role_id } =
        rw (eq_refl row.id) refl in
      (
        find_first-map (is_compatibility user_id model_id) (with_role row.id role_id) db.bindings
              (λ b. kept row.id b (is_compatibility user_id model_id) (λ c r. refl)) found
            ∙ ap some own,
        find_first-map (λ (b : BindingRow). b.id == row.id) (with_role row.id role_id) db.bindings
              (λ b. kept row.id b (λ c. c.id == row.id) (λ c r. refl)) (keyed row i)
            ∙ ap some own,
      )
    where
      kept :
          (id : String) (b : BindingRow) (f : BindingRow → Bool)
          → ((c : BindingRow) (r : String) → f (record c { role_id = r }) ≡ f c)
          → f (with_role id role_id b) ≡ f b
      kept id b f same = elim (Bool-cases (b.id == id)) [
        | inl own ↦ rw own (same b role_id)
        | inr other ↦ rw other refl
      ]

abbrev returned : Result Binding → Db → Result Binding × Db
returned result db = (result, db)

-- The end of an upsert: the row that was written is read back.
read_back :
    (user_id role_id model_id : String) (db db' : Db) (row : BindingRow) (binding : Binding)
    → (find_compatibility user_id model_id db ≡ some row) × (find_binding row.id db ≡ some row)
    → row.role_id ≡ role_id
    → returned (get_binding row.id db) db ≡ (ok binding, db')
    → (get_compatibility_binding user_id model_id db' ≡ ok binding) × (binding.role_id ≡ role_id)
unfolding get_binding binding_of
read_back user_id role_id model_id db db' row binding (compat, keyed) role h =
    let got : get_binding row.id db ≡ ok (binding_of row) = rw keyed refl in
    let same : ok (binding_of row) ≡ ok binding = sym got ∙ ap (λ c. c.0) h in
    let built : binding_of row ≡ binding = cc same in
    let state : db ≡ db' = ap (λ c. c.1) h in
    (
      rw (← state) (found_compatibility user_id model_id db row compat keyed ∙ same),
      sym (ap (λ b. b.role_id) built) ∙ role,
    )

-- Where each binding is the one found by its identifier, after a successful upsert the compatibility
-- binding of the user on the model is the one that was returned, and gives the role asked for.
pub upsert_compatibility_binding_get :
    (uuid user_id role_id model_id : String) (db db' : Db) (binding : Binding)
    → Keyed db
    → upsert_compatibility_binding uuid user_id role_id model_id db ≡ (ok binding, db')
    → (get_compatibility_binding user_id model_id db' ≡ ok binding) × (binding.role_id ≡ role_id)
unfolding upsert_compatibility_binding insert_binding update_binding compatibility_row get_binding
upsert_compatibility_binding_get uuid user_id role_id model_id db db' binding keyed h =
    elim (Option-cases (find_compatibility user_id model_id db)) [
      | inl missing ↦
          elim (Bool-cases (binding_taken db.bindings (new_row uuid user_id role_id model_id db))) [
            | inl taken ↦ absurd (
                cc (
                  ap (λ c. c.0)
                    (rw (missing, taken, upsert_compatibility_binding, insert_binding) at h)))
            | inr free ↦ elim (Bool-cases (role_present role_id db)) [
              | inl there ↦
                  read_back user_id role_id model_id (inserted uuid user_id role_id model_id db) db'
                    (new_row uuid user_id role_id model_id db) binding
                    (inserted_compatibility uuid user_id role_id model_id db missing free) refl
                    (rw (missing, free, there, upsert_compatibility_binding, insert_binding) at h)
              | inr gone ↦ absurd (
                  cc (
                    ap (λ c. c.0)
                      (rw (missing, free, gone, upsert_compatibility_binding, insert_binding) at
                        h)))
            ]
          ]
      | inr (row, found) ↦
          let rest = select (λ b. not (b.id == row.id)) db.bindings in
          elim (Bool-cases (any (same_key (record row { role_id = role_id })) rest)) [
            | inl taken ↦ absurd (
                cc (
                  ap (λ c. c.0)
                    (rw (found, taken, upsert_compatibility_binding, update_binding) at h)))
            | inr free ↦ elim (Bool-cases (role_present role_id db)) [
              | inr gone ↦ absurd (
                  cc (
                    ap (λ c. c.0)
                      (rw (found, free, gone, upsert_compatibility_binding, update_binding) at h)))
              | inl there ↦
                  read_back user_id role_id model_id (updated uuid user_id role_id model_id db row)
                    db' (record row { role_id = role_id }) binding
                    (updated_compatibility uuid user_id role_id model_id db row keyed found) refl
                    (rw (found, free, there, upsert_compatibility_binding, update_binding) at h)
            ]
          ]
    ]
