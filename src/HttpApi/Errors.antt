-- ===== src/HttpApi/Errors.antt =====
-- The functions of server.go that turn an error into a response, one for each operation.
use fine_grained_permissions.Base.{
  Bool, true, false, Error, forbidden, not_found, conflict, if◌then◌else◌,
}
use fine_grained_permissions.HttpApi.{Response, problem, nothing}

-- `is(err, service.ErrForbidden)` and the like.
abbrev pub is_forbidden : Error → Bool
is_forbidden forbidden = true
is_forbidden _ = false

abbrev pub is_not_found : Error → Bool
is_not_found not_found = true
is_not_found _ = false

abbrev pub is_conflict : Error → Bool
is_conflict conflict = true
is_conflict _ = false

-- The tests come in one order everywhere: forbidden, not found, conflict, and what is left.
abbrev pub if_forbidden : {A : Type 0} → Error → Response A → Response A
if_forbidden e rest = if is_forbidden e then problem 403 "forbidden" e else rest

abbrev pub if_not_found : {A : Type 0} → Error → Response A → Response A
if_not_found e rest = if is_not_found e then problem 404 "not_found" e else rest

abbrev pub if_conflict : {A : Type 0} → Error → Response A → Response A
if_conflict e rest = if is_conflict e then problem 409 "conflict" e else rest

module _ {A : Type 0} (e : Error) where
  abbrev pub bad_request : Response A
  bad_request = problem 400 "bad_request" e

  abbrev pub missing : Response A
  missing = problem 404 "not_found" e

  unfoldable pub list_users_error : Response A
  list_users_error = if_forbidden e nothing

  unfoldable pub create_user_error : Response A
  create_user_error = if_forbidden e (if_conflict e bad_request)

  unfoldable pub list_groups_error : Response A
  list_groups_error = if_forbidden e nothing

  unfoldable pub create_group_error : Response A
  create_group_error = if_forbidden e (if_conflict e bad_request)

  unfoldable pub add_group_member_error : Response A
  add_group_member_error = if_forbidden e (if_not_found e bad_request)

  unfoldable pub remove_group_member_error : Response A
  remove_group_member_error = if_forbidden e (if_not_found e bad_request)

  unfoldable pub list_roles_error : Response A
  list_roles_error = if_forbidden e nothing

  unfoldable pub create_role_error : Response A
  create_role_error = if_forbidden e (if_conflict e bad_request)

  unfoldable pub get_role_error : Response A
  get_role_error = if_forbidden e missing

  unfoldable pub preview_role_error : Response A
  preview_role_error = if_forbidden e (if_not_found e (if_conflict e bad_request))

  unfoldable pub update_role_error : Response A
  update_role_error = if_forbidden e (if_not_found e (if_conflict e bad_request))

  unfoldable pub list_bindings_error : Response A
  list_bindings_error = if_forbidden e nothing

  unfoldable pub create_binding_error : Response A
  create_binding_error = if_forbidden e (if_not_found e (if_conflict e bad_request))

  unfoldable pub delete_binding_error : Response A
  delete_binding_error = if_forbidden e missing

  unfoldable pub grant_legacy_error : Response A
  grant_legacy_error = if_forbidden e (if_not_found e bad_request)

  unfoldable pub revoke_legacy_error : Response A
  revoke_legacy_error = if_forbidden e (if_not_found e bad_request)

  unfoldable pub create_resource_error : Response A
  create_resource_error = if_forbidden e (if_not_found e (if_conflict e bad_request))

  unfoldable pub get_resource_error : Response A
  get_resource_error = if_forbidden e missing

  unfoldable pub delete_resource_error : Response A
  delete_resource_error = if_forbidden e (if_conflict e missing)

  unfoldable pub get_config_error : Response A
  get_config_error = if_forbidden e missing

  unfoldable pub update_config_error : Response A
  update_config_error = if_forbidden e missing

  unfoldable pub ssh_unit_error : Response A
  ssh_unit_error = if_forbidden e missing

  unfoldable pub ssh_machine_error : Response A
  ssh_machine_error = if_forbidden e missing
