-- ===== src/Cli.antt =====
-- The command-line client, cmd/permissions-demo/main.go: what it takes from its arguments, which call of
-- the API it makes, and what it prints. The generated client sends a call; it is outside this module, as
-- is the JSON of package encoding/json, the parameter `indent`. An error of the model stands for the one
-- that `run` returns, with the format of its text.
pub mod Texts
pub mod Calls
pub mod Parsing
pub mod Commands
pub mod Values
pub mod Sent
pub mod Main
unfoldable pub use Calls.*
use Prim.Native.String.{◌++◌ as append}
use fine_grained_permissions.Base.{
  ℕ, String, Bool, true, false, not, ◌&&◌, ◌||◌, Option, none, some, List, [], ◌∷◌, Result, ok, err,
  failure, ◌>>=◌, or_error, traverse, ◌==◌, leb, if◌then◌else◌,
}
use fine_grained_permissions.Api.{
  ResourceType, ResourceRef, Selector, SelectorMatch, CreateNamed, GroupMemberChange, CreateRole,
  UpdateRole, CreateBinding, LegacyAccessChange, AuthorizationCheck, CreateResource,
  ApplicationConfig, resource_type_valid, exact_match,
}
use fine_grained_permissions.Store.Names.{trim_space}
use fine_grained_permissions.Cli.Texts.{cut, split, ℤ, atoi}

-- The branches of `run`, each on the arguments after the first.
unfoldable pub users : List String → Result Call
users [] = ok list_users
users (sub ∷ []) = if sub == "list" then ok list_users else invalid_command
users (sub ∷ name ∷ []) =
    if sub == "list"
    then ok list_users
    else if sub == "create"
    then ok (create_user (record { name = name }))
    else invalid_command
users (sub ∷ _ ∷ _ ∷ _) = if sub == "list" then ok list_users else invalid_command

unfoldable pub groups : List String → Result Call
groups [] = ok list_groups
groups (sub ∷ []) = if sub == "list" then ok list_groups else invalid_command
groups (sub ∷ name ∷ []) =
    if sub == "list"
    then ok list_groups
    else if sub == "create"
    then ok (create_group (record { name = name }))
    else invalid_command
groups (sub ∷ group ∷ user ∷ []) =
    if sub == "list"
    then ok list_groups
    else if sub == "add-member"
    then ok (add_group_member group (record { user_id = user }))
    else if sub == "remove-member"
    then ok (remove_group_member group (record { user_id = user }))
    else invalid_command
groups (sub ∷ _ ∷ _ ∷ _ ∷ _) = if sub == "list" then ok list_groups else invalid_command

-- `roles preview` and `roles update`.
unfoldable pub change_role : String → String → String → String → String → Result Call
unfolding atoi csv
change_role sub role revision description permissions = do
  n ← or_error (atoi revision) (failure "revision: %w")
  let body : UpdateRole = record { description = description; permissions = csv permissions }
  ok (if sub == "preview" then preview_role_update role n body else update_role role n body)

unfoldable pub roles : List String → Result Call
unfolding change_role csv
roles [] = ok list_roles
roles (sub ∷ []) = if sub == "list" then ok list_roles else invalid_command
roles (sub ∷ role ∷ []) =
    if sub == "list"
    then ok list_roles
    else if sub == "show"
    then ok (get_role role)
    else invalid_command
roles (sub ∷ name ∷ description ∷ permissions ∷ []) =
    if sub == "list"
    then ok list_roles
    else if sub == "create"
    then ok (
        create_role
          (record { description = description; name = name; permissions = csv permissions }))
    else invalid_command
roles (sub ∷ role ∷ revision ∷ description ∷ permissions ∷ []) =
    if sub == "list"
    then ok list_roles
    else if sub == "preview" || sub == "update"
    then change_role sub role revision description permissions
    else invalid_command
roles (sub ∷ _) = if sub == "list" then ok list_roles else invalid_command

unfoldable pub bind : List String → Result Call
unfolding parse_ref selector_of
bind (subject_type ∷ subject_id ∷ role_id ∷ scope ∷ match ∷ raws) = do
  ref ← parse_ref scope
  selector ← selector_of match raws
  ok (
      create_binding (record {
        role_id = role_id;
        scope = ref;
        selector = selector;
        subject_id = subject_id;
        subject_type = subject_type;
      }))
bind _ = invalid_command

abbrev unbind : List String → Result Call
unbind (id ∷ []) = ok (delete_binding id)
unbind _ = invalid_command

unfoldable pub bindings : List String → Result Call
unfolding bind
bindings [] = ok list_bindings
bindings (sub ∷ rest) =
    if sub == "list"
    then ok list_bindings
    else if sub == "delete"
    then unbind rest
    else if sub == "create"
    then bind rest
    else invalid_command

-- `grant` and `revoke`.
unfoldable pub legacy : Bool → List String → Result Call
legacy grants (user ∷ access ∷ model_id ∷ []) =
    let body : LegacyAccessChange = record {
      access = access;
      model_id = model_id;
      user_id = user;
    } in
    ok (if grants then grant_legacy_access body else revoke_legacy_access body)
legacy grants _ = invalid_command

unfoldable pub can : List String → Result Call
unfolding parse_ref
can (principal ∷ permission ∷ raw ∷ []) = do
  ref ← parse_ref raw
  ok (
      check_authorization
        (record { permission = permission; principal = principal; resource = ref }))
can _ = invalid_command

-- A third argument is a type only if it is the last.
abbrev listed_type : List String → Option ResourceType
listed_type (t ∷ []) = some t
listed_type _ = none

abbrev optional_parent : List String → Result (Option ResourceRef)
optional_parent (raw ∷ []) = do ref ← parse_ref raw; ok (some ref)
optional_parent _ = ok none

unfoldable pub create : List String → Result Call
unfolding parse_ref
create (type ∷ name ∷ rest) = do
  parent ← optional_parent rest
  ok (create_resource (record { name = name; parent = parent; type = type }))
create _ = invalid_command

abbrev remove : List String → Result Call
remove (type ∷ id ∷ []) = ok (delete_resource type id)
remove _ = invalid_command

unfoldable pub resources : List String → Result Call
unfolding create
resources [] = ok (list_resources none)
resources (sub ∷ rest) =
    if sub == "list"
    then ok (list_resources (listed_type rest))
    else if sub == "create"
    then create rest
    else if sub == "delete"
    then remove rest
    else invalid_command

abbrev configure : List String → Result Call
configure (id ∷ pair ∷ pairs) = do
  config ← assign_pairs [] (pair ∷ pairs)
  ok (update_application_config id config)
configure _ = invalid_command

abbrev read_config : List String → Result Call
read_config (id ∷ []) = ok (get_application_config id)
read_config _ = invalid_command

unfoldable pub config : List String → Result Call
unfolding assign_pairs
config [] = invalid_command
config (sub ∷ rest) =
    if sub == "get"
    then read_config rest
    else if sub == "set"
    then configure rest
    else invalid_command

unfoldable pub ssh : List String → Result Call
ssh (sub ∷ id ∷ []) =
    if sub == "unit"
    then ok (ssh_unit id)
    else if sub == "machine"
    then ok (ssh_machine id)
    else invalid_command
ssh _ = invalid_command

-- `run`, up to the call: `main` runs it with at least one argument.
unfoldable pub run : String → List String → Result Call
run command args =
    if command == "permissions"
    then ok list_permissions
    else if command == "users"
    then users args
    else if command == "groups"
    then groups args
    else if command == "roles"
    then roles args
    else if command == "bindings"
    then bindings args
    else if command == "grant" || command == "revoke"
    then legacy (command == "grant") args
    else if command == "can"
    then can args
    else if command == "resources"
    then resources args
    else if command == "config"
    then config args
    else if command == "ssh"
    then ssh args
    else invalid_command

-- What the generated client answers of a response.
pub record Response : Type 0 where
  pub status_code : ℕ
  pub body : String

-- `printResponse`: the text that is printed. `indent` decodes the JSON of a body and writes it with two
-- spaces a level.
unfoldable pub print_response : (String → Result String) → Result Response → Result String
print_response indent (err e) = err e
print_response indent (ok response) =
    if leb 400 response.status_code
    then err (failure "%s: %s")
    else if response.body == ""
    then ok "ok"
    else indent response.body
