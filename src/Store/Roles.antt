-- ===== src/Store/Roles.antt =====
-- Roles and their permissions in store.go.
pub mod Laws
use Prim.Native.Char.{Char}
use fine_grained_permissions.Base.{
  ℕ, ◌+◌, String, Bool, not, ◌&&◌, ◌||◌, Option, none, some, List, [], ◌∷◌, ◌++◌, map, Result, ok,
  err, conflict, not_found, failure, Action, ◌>>=◌, or_error, ◌==◌, nat_eq, text_le, any, select,
  find_first, sort_by, sort_strings, traverse, if◌then◌else◌,
}
use fine_grained_permissions.Api.{Role, CreateRole, UpdateRole}
use fine_grained_permissions.Store.{Db, RoleRow}
use fine_grained_permissions.Store.Names.{slug, unique}

-- `SELECT permission FROM role_permissions WHERE role_id=? ORDER BY permission`.
unfoldable pub role_permissions : String → Db → List String
role_permissions id db = sort_strings (map (λ p. p.1) (select (λ p. p.0 == id) db.role_permissions))

unfoldable pub find_role : String → Db → Option RoleRow
find_role id db = find_first (λ r. r.id == id) db.roles

unfoldable pub role_of : RoleRow → List String → Role
role_of row permissions = record {
  built_in = not (nat_eq row.built_in 0);
  description = row.description;
  id = row.id;
  name = row.name;
  permissions = permissions;
  revision = row.revision;
}

-- `GetRole`.
unfoldable pub get_role : String → Db → Result Role
get_role id db = do
  row ← or_error (find_role id db) not_found
  ok (role_of row (role_permissions id db))

-- `ListRoles`.
unfoldable pub list_roles : Db → Result (List Role)
list_roles db =
    traverse (λ row. get_role row.id db) (sort_by (λ a b. text_le a.name b.name) db.roles)

abbrev pub pair_with : String → List String → List (String × String)
pair_with id ps = map (λ p. (id, p)) ps

-- `replacePermissions`. The names inserted are distinct and the old ones are gone, so no INSERT fails.
unfoldable pub replace_permissions : String → List String → Db → Db
replace_permissions id permissions db = record db {
  role_permissions =
      select (λ p. not (p.0 == id)) db.role_permissions ++ pair_with id (unique permissions);
}

-- The constraints of `roles`: PRIMARY KEY (id), UNIQUE (name).
abbrev pub role_taken : List RoleRow → RoleRow → Bool
role_taken rows row = any (λ r. r.id == row.id || r.name == row.name) rows

unfoldable pub new_role : (Char → Char) → CreateRole → RoleRow
new_role lower input = record {
  id = slug lower input.name;
  name = input.name;
  description = input.description;
  revision = 1;
  built_in = 0;
}

-- `CreateRole`.
unfoldable pub create_role : (Char → Char) → CreateRole → Action Db Role
create_role lower input db =
    let row = new_role lower input in
    let db' =
      replace_permissions row.id input.permissions (record db { roles = db.roles ++ row ∷ [] }) in
    if row.id == ""
    then (err (failure "name is required"), db)
    else if role_taken db.roles row
    then (err conflict, db)
    else (get_role row.id db', db')

-- `WHERE id=? AND revision=?`.
abbrev pub at_revision : String → ℕ → RoleRow → Bool
at_revision id expected row = row.id == id && nat_eq row.revision expected

abbrev pub bump_row : String → ℕ → UpdateRole → RoleRow → RoleRow
bump_row id expected input row =
    if at_revision id expected row
    then record row { description = input.description; revision = row.revision + 1 }
    else row

-- The transaction of `UpdateRole`, when a row was changed.
unfoldable pub write_role : String → String → String → ℕ → UpdateRole → List String → Db → Db
unfolding replace_permissions
write_role actor now id expected input old db =
    let db' =
      replace_permissions id input.permissions
        (record db { roles = map (bump_row id expected input) db.roles }) in
    record db' {
      audit =
          db'.audit
          ++ record {
            actor = actor;
            action = "role.update";
            object = id;
            old = old;
            new = input.permissions;
            revision = expected + 1;
            created_at = now;
          }
            ∷ [];
    }

-- `UpdateRole`; `now` is the time that the audit row records.
unfoldable pub update_role : String → String → String → ℕ → UpdateRole → Action Db Role
update_role actor now id expected input db = elim (get_role id db) [
  | err e ↦ (err e, db)
  | ok current ↦
      let db' = write_role actor now id expected input current.permissions db in
      if current.built_in
      then (err (failure "built-in roles cannot be changed"), db)
      else if not (nat_eq current.revision expected)
      then (err conflict, db)
      else if not (any (at_revision id expected) db.roles)
      then (err conflict, db)
      else (get_role id db', db')
]
