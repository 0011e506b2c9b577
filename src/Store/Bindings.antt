-- ===== src/Store/Bindings.antt =====
-- Bindings in store.go. `uuid.NewString` is outside the repository: the identifier that it returned
-- is an argument.
pub mod Laws
use fine_grained_permissions.Base.{
  ℕ, String, Bool, not, ◌&&◌, ◌||◌, Option, none, some, List, [], ◌∷◌, ◌++◌, map, length, Result,
  ok, err, conflict, not_found, failure, Action, ◌>>=◌, or_error, ◌==◌, nat_eq, text_le, any,
  select, find_first, sort_by, traverse, if◌then◌else◌,
}
use fine_grained_permissions.Api.{
  ResourceRef, Binding, CreateBinding, model, scope_match, subject_user,
}
use fine_grained_permissions.Store.{Db, BindingRow}
use fine_grained_permissions.Store.Names.{bool_int}
use fine_grained_permissions.Store.Roles.{get_role}

-- `CountBindings`.
unfoldable pub count_bindings : String → Db → ℕ
count_bindings role_id db = length (select (λ b. b.role_id == role_id) db.bindings)

unfoldable pub row_of : String → CreateBinding → Bool → BindingRow
row_of uuid input compatibility = record {
  id = uuid;
  subject_type = input.subject_type;
  subject_id = input.subject_id;
  role_id = input.role_id;
  scope_type = input.scope.type;
  scope_id = input.scope.id;
  selector_match = input.selector.match;
  selector_resources = input.selector.resources;
  compatibility = bool_int compatibility;
}

-- UNIQUE (subject_type, subject_id, role_id, scope_type, scope_id, compatibility).
abbrev pub same_key : BindingRow → BindingRow → Bool
same_key a b =
    a.subject_type == b.subject_type
    && a.subject_id == b.subject_id
    && a.role_id == b.role_id
    && a.scope_type == b.scope_type
    && a.scope_id == b.scope_id
    && nat_eq a.compatibility b.compatibility

-- A row that breaks PRIMARY KEY (id) or the UNIQUE constraint of `bindings`.
unfoldable pub binding_taken : List BindingRow → BindingRow → Bool
binding_taken rows row = any (λ b. b.id == row.id || same_key b row) rows

-- FOREIGN KEY (role_id) REFERENCES roles(id).
unfoldable pub role_present : String → Db → Bool
role_present id db = any (λ r. r.id == id) db.roles

-- `INSERT INTO bindings`.
unfoldable pub insert_binding : BindingRow → Action Db (Unit {0})
unfolding binding_taken role_present
insert_binding row db =
    if binding_taken db.bindings row
    then (err conflict, db)
    else if not (role_present row.role_id db)
    then (err (failure "FOREIGN KEY constraint failed"), db)
    else (ok tt, record db { bindings = db.bindings ++ row ∷ [] })

unfoldable pub created : String → CreateBinding → Bool → Binding
created uuid input compatibility = record {
  compatibility = compatibility;
  id = uuid;
  role_id = input.role_id;
  scope = input.scope;
  selector = input.selector;
  subject_id = input.subject_id;
  subject_type = input.subject_type;
}

abbrev pub with_item : {A : Type 0} → A → Result (Unit {0}) × Db → Result A × Db
with_item item (ok _, db) = (ok item, db)
with_item item (err e, db) = (err e, db)

-- `CreateBinding`.
unfoldable pub create_binding : String → CreateBinding → Bool → Action Db Binding
unfolding insert_binding row_of created
create_binding uuid input compatibility db =
    with_item (created uuid input compatibility)
      (insert_binding (row_of uuid input compatibility) db)

-- `len(resources) > 0` after `json.Unmarshal`.
abbrev pub listed : Option (List ResourceRef) → Option (List ResourceRef)
listed none = none
listed (some []) = none
listed (some (r ∷ rs)) = some (r ∷ rs)

unfoldable pub binding_of : BindingRow → Binding
binding_of row = record {
  compatibility = not (nat_eq row.compatibility 0);
  id = row.id;
  role_id = row.role_id;
  scope = record { id = row.scope_id; type = row.scope_type };
  selector = record { match = row.selector_match; resources = listed row.selector_resources };
  subject_id = row.subject_id;
  subject_type = row.subject_type;
}

unfoldable pub find_binding : String → Db → Option BindingRow
find_binding id db = find_first (λ b. b.id == id) db.bindings

-- `GetBinding`.
unfoldable pub get_binding : String → Db → Result Binding
unfolding find_binding binding_of
get_binding id db = do row ← or_error (find_binding id db) not_found; ok (binding_of row)

-- `ListBindings`.
unfoldable pub list_bindings : Db → Result (List Binding)
list_bindings db =
    traverse (λ row. get_binding row.id db) (sort_by (λ a b. text_le a.id b.id) db.bindings)

-- `WHERE subject_type='user' AND subject_id=? AND scope_type='model' AND scope_id=? AND compatibility=1`.
abbrev pub is_compatibility : String → String → BindingRow → Bool
is_compatibility user_id model_id b =
    b.subject_type == subject_user
    && b.subject_id == user_id
    && b.scope_type == model
    && b.scope_id == model_id
    && nat_eq b.compatibility 1

unfoldable pub find_compatibility : String → String → Db → Option BindingRow
find_compatibility user_id model_id db = find_first (is_compatibility user_id model_id) db.bindings

-- `GetCompatibilityBinding`.
unfoldable pub get_compatibility_binding : String → String → Db → Result Binding
get_compatibility_binding user_id model_id db = do
  row ← or_error (find_compatibility user_id model_id db) not_found
  get_binding row.id db

unfoldable pub compatibility_row : String → String → String → String → BindingRow
compatibility_row uuid user_id role_id model_id = record {
  id = uuid;
  subject_type = subject_user;
  subject_id = user_id;
  role_id = role_id;
  scope_type = model;
  scope_id = model_id;
  selector_match = scope_match;
  selector_resources = some [];
  compatibility = 1;
}

abbrev pub with_role : String → String → BindingRow → BindingRow
with_role id role_id b = if b.id == id then record b { role_id = role_id } else b

-- `UPDATE bindings SET role_id=? WHERE id=?`, on the row that was found.
unfoldable pub update_binding : BindingRow → String → Action Db (Unit {0})
unfolding role_present
update_binding row role_id db =
    let rest = select (λ b. not (b.id == row.id)) db.bindings in
    if any (same_key (record row { role_id = role_id })) rest
    then (err (failure "UNIQUE constraint failed"), db)
    else if not (role_present role_id db)
    then (err (failure "FOREIGN KEY constraint failed"), db)
    else (ok tt, record db { bindings = map (with_role row.id role_id) db.bindings })

abbrev pub plain_error : Result (Unit {0}) × Db → Result (Unit {0}) × Db
plain_error (ok _, db) = (ok tt, db)
plain_error (err conflict, db) = (err (failure "UNIQUE constraint failed"), db)
plain_error (err e, db) = (err e, db)

abbrev pub then_get : String → Result (Unit {0}) × Db → Result Binding × Db
then_get id (ok _, db) = (get_binding id db, db)
then_get id (err e, db) = (err e, db)

-- `UpsertCompatibilityBinding`: a constraint that fails is returned as it is, not as a conflict.
unfoldable pub upsert_compatibility_binding : String → String → String → String → Action Db Binding
upsert_compatibility_binding uuid user_id role_id model_id db =
    elim (find_compatibility user_id model_id db) [
      | none ↦
          then_get uuid
            (plain_error (insert_binding (compatibility_row uuid user_id role_id model_id) db))
      | some row ↦ then_get row.id (update_binding row role_id db)
    ]

-- `DeleteBinding`.
unfoldable pub delete_binding : String → Action Db (Unit {0})
delete_binding id db =
    if any (λ b. b.id == id) db.bindings
    then (ok tt, record db { bindings = select (λ b. not (b.id == id)) db.bindings })
    else (err not_found, db)

-- `BindingPermissions`.
unfoldable pub binding_permissions : Binding → Db → Result (List String)
binding_permissions binding db = do role ← get_role binding.role_id db; ok role.permissions
