-- ===== src/Store/Seed.antt =====
-- The rows that every start inserts (`seed`), and `Reset`.
use fine_grained_permissions.Base.{
  String, Bool, not, ◌&&◌, some, List, [], ◌∷◌, ◌++◌, map, Result, ok, err, failure, Action, ◌==◌,
  any, if◌then◌else◌,
}
use fine_grained_permissions.Catalog.{controller_id, sorted_permissions}
use fine_grained_permissions.Store.{Db, NameRow, RoleRow, BindingRow, ResourceRow}
use fine_grained_permissions.Store.Users.{name_taken}
use fine_grained_permissions.Store.Roles.{role_taken}
use fine_grained_permissions.Store.Bindings.{binding_taken, role_present}
use fine_grained_permissions.Store.Resources.{resource_taken}

-- `permissionNames`.
unfoldable pub permission_names : List String
permission_names = map (λ p. p.name) sorted_permissions

pub record SeedRole : Type 0 where
  pub id : String
  pub description : String
  pub permissions : List String

unfoldable pub model_reader : List String
model_reader = "model.read" ∷ "application.read" ∷ "unit.read" ∷ "machine.read" ∷ []

unfoldable pub model_writer : List String
model_writer =
    "model.read" ∷ "application.read" ∷ "application.create" ∷ "application.delete"
    ∷ "application.config.read" ∷ "application.config.write" ∷ "unit.read" ∷ "unit.create"
    ∷ "unit.delete" ∷ "machine.read" ∷ "machine.create" ∷ "machine.delete" ∷ []

unfoldable pub model_admin : List String
model_admin =
    "model.read" ∷ "model.delete" ∷ "application.read" ∷ "application.create" ∷ "application.delete"
    ∷ "application.config.read" ∷ "application.config.write" ∷ "unit.read" ∷ "unit.create"
    ∷ "unit.delete" ∷ "unit.ssh" ∷ "machine.read" ∷ "machine.create" ∷ "machine.delete"
    ∷ "machine.ssh" ∷ "policy.read" ∷ "policy.manage" ∷ []

abbrev seed_role : String → String → List String → SeedRole
seed_role id description permissions = record {
  id = id;
  description = description;
  permissions = permissions;
}

-- The built-in roles; the identifier is the name too.
unfoldable pub seed_roles : List SeedRole
unfolding permission_names model_reader model_writer model_admin
seed_roles =
    seed_role "controller-superuser" "All demo administration and resource operations."
      permission_names
    ∷ seed_role "model-reader" "Legacy model read compatibility role." model_reader
    ∷ seed_role "model-writer" "Legacy model write compatibility role." model_writer
    ∷ seed_role "model-admin" "Legacy model admin compatibility role." model_admin
    ∷ seed_role "application-observer" "Read selected applications and their descendants."
        ("application.read" ∷ "unit.read" ∷ "machine.read" ∷ [])
    ∷ seed_role "application-config-editor" "Read and update selected application configuration."
        ("application.read" ∷ "application.config.read" ∷ "application.config.write" ∷ [])
    ∷ seed_role "ssh-operator" "Read and SSH to selected units or machines."
        ("unit.read" ∷ "unit.ssh" ∷ "machine.read" ∷ "machine.ssh" ∷ [])
    ∷ []

-- INSERT OR IGNORE leaves a row out when a UNIQUE constraint would fail.
unfoldable pub seed_user : Db → Db
seed_user db =
    let row : NameRow = record { id = "admin"; name = "admin" } in
    if name_taken db.users row then db else record db { users = db.users ++ row ∷ [] }

unfoldable pub builtin_row : SeedRole → RoleRow
builtin_row r = record {
  id = r.id;
  name = r.id;
  description = r.description;
  revision = 1;
  built_in = 1;
}

unfoldable pub add_role : SeedRole → Db → Db
unfolding builtin_row
add_role r db =
    if role_taken db.roles (builtin_row r)
    then db
    else record db { roles = db.roles ++ builtin_row r ∷ [] }

abbrev pub has_pair : String → String → String × String → Bool
has_pair a b p = p.0 == a && p.1 == b

-- A permission of a role; the foreign key is checked for a row that is inserted.
unfoldable pub add_permission : String → String → Action Db (Unit {0})
unfolding role_present
add_permission id permission db =
    if any (has_pair id permission) db.role_permissions
    then (ok tt, db)
    else if not (role_present id db)
    then (err (failure "FOREIGN KEY constraint failed"), db)
    else (ok tt, record db { role_permissions = db.role_permissions ++ (id, permission) ∷ [] })

infixl 5 ◌then◌
-- The next statement of the transaction, unless one has failed.
abbrev pub ◌then◌ : Result (Unit {0}) × Db → Action Db (Unit {0}) → Result (Unit {0}) × Db
(ok _, db) then f = f db
(err e, db) then f = (err e, db)

unfoldable pub add_permissions : String → List String → Action Db (Unit {0})
unfolding add_permission
add_permissions id [] db = (ok tt, db)
add_permissions id (p ∷ ps) db = add_permission id p db then add_permissions id ps

unfoldable pub add_roles : List SeedRole → Action Db (Unit {0})
unfolding add_role add_permissions
add_roles [] db = (ok tt, db)
add_roles (r ∷ rs) db = add_permissions r.id r.permissions (add_role r db) then add_roles rs

unfoldable pub bootstrap_row : BindingRow
bootstrap_row = record {
  id = "bootstrap-admin";
  subject_type = "user";
  subject_id = "admin";
  role_id = "controller-superuser";
  scope_type = "controller";
  scope_id = controller_id;
  selector_match = "scope";
  selector_resources = some [];
  compatibility = 1;
}

unfoldable pub seed_binding : Action Db (Unit {0})
unfolding bootstrap_row binding_taken role_present
seed_binding db =
    if binding_taken db.bindings bootstrap_row
    then (ok tt, db)
    else if not (role_present bootstrap_row.role_id db)
    then (err (failure "FOREIGN KEY constraint failed"), db)
    else (ok tt, record db { bindings = db.bindings ++ bootstrap_row ∷ [] })

abbrev seed_resource : String → String → String → String → String → ResourceRow
seed_resource type id name parent_type parent_id = record {
  type = type;
  id = id;
  name = name;
  status = "active";
  parent_type = some parent_type;
  parent_id = some parent_id;
  config = [];
}

unfoldable pub seed_resources : List ResourceRow
seed_resources =
    seed_resource "model" "production" "production" "controller" controller_id
    ∷ seed_resource "application" "payments" "payments" "model" "production"
    ∷ seed_resource "unit" "payments-0" "payments/0" "application" "payments"
    ∷ seed_resource "machine" "model-0" "0" "model" "production"
    ∷ seed_resource "machine" "payments-machine" "payments-machine" "application" "payments"
    ∷ seed_resource "cloud-credential" "aws-production" "aws-production" "controller" controller_id
    ∷ []

unfoldable pub add_resources : List ResourceRow → Db → Db
unfolding resource_taken
add_resources [] db = db
add_resources (r ∷ rs) db =
    add_resources rs (
      if resource_taken db.resources r
      then db
      else record db { resources = db.resources ++ r ∷ [] })

abbrev rollback : Db → Result (Unit {0}) × Db → Result (Unit {0}) × Db
rollback old (ok _, db) = (ok tt, db)
rollback old (err e, db) = (err e, old)

-- `seed`, one transaction.
unfoldable pub seed : Action Db (Unit {0})
unfolding seed_user add_roles seed_roles seed_binding seed_resources add_resources
seed db = rollback db (
    add_roles seed_roles (seed_user db) then seed_binding then λ db'.
    (ok tt, add_resources seed_resources db'))

abbrev pub empty : Db
empty = record {
  settings = [];
  synced_tuples = [];
  users = [];
  groups = [];
  group_members = [];
  roles = [];
  role_permissions = [];
  bindings = [];
  resources = [];
  audit = [];
}

-- `Reset`.
unfoldable pub reset : Action Db (Unit {0})
reset db = seed empty
