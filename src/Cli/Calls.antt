-- ===== src/Cli/Calls.antt =====
-- The calls that the client makes, and what it reads from one argument or from a list of them:
-- `parseRef`, `csv`, and the loops of `run`.
use fine_grained_permissions.Base.{
  String, not, Option, none, some, List, [], ◌∷◌, Result, ok, err, failure, ◌>>=◌, traverse, ◌==◌,
  if◌then◌else◌,
}
use fine_grained_permissions.Api.{
  ResourceType, ResourceRef, Selector, SelectorMatch, CreateNamed, GroupMemberChange, CreateRole,
  UpdateRole, CreateBinding, LegacyAccessChange, AuthorizationCheck, CreateResource,
  ApplicationConfig, resource_type_valid, exact_match,
}
use fine_grained_permissions.Store.Names.{trim_space}
use fine_grained_permissions.Cli.Texts.{cut, split, ℤ}

-- A call of the generated client.
pub data Call : Type 0 where
  list_permissions list_users list_groups list_roles list_bindings : Call
  create_user create_group : CreateNamed → Call
  add_group_member remove_group_member : String → GroupMemberChange → Call
  get_role : String → Call
  create_role : CreateRole → Call
  preview_role_update update_role : String → ℤ → UpdateRole → Call
  delete_binding : String → Call
  create_binding : CreateBinding → Call
  grant_legacy_access revoke_legacy_access : LegacyAccessChange → Call
  check_authorization : AuthorizationCheck → Call
  list_resources : Option ResourceType → Call
  create_resource : CreateResource → Call
  delete_resource : ResourceType → String → Call
  get_application_config : String → Call
  update_application_config : String → ApplicationConfig → Call
  ssh_unit ssh_machine : String → Call

-- After `usage()`.
abbrev pub invalid_command : Result Call
invalid_command = err (failure "invalid command")

-- `parseRef`.
unfoldable pub parse_ref : String → Result ResourceRef
unfolding cut
parse_ref raw = elim (cut ":" raw) [
  | none ↦ err (failure "resource must be TYPE:ID")
  | some (typ, id) ↦
      if id == ""
      then err (failure "resource must be TYPE:ID")
      else if not (resource_type_valid typ)
      then err (failure "unknown resource type %q")
      else ok (record { id = id; type = typ })
]

unfoldable pub trimmed : List String → List String
trimmed [] = []
trimmed (v ∷ vs) =
    let rest = trimmed vs in if not (trim_space v == "") then trim_space v ∷ rest else rest

-- `csv`.
unfoldable pub csv : String → List String
unfolding trimmed split
csv raw = trimmed (split "," raw)

-- The selector of `bindings create`.
unfoldable pub selector_of : SelectorMatch → List String → Result Selector
unfolding parse_ref
selector_of match raws =
    if match == exact_match
    then (do refs ← traverse parse_ref raws; ok (record { match = match; resources = some refs }))
    else ok (record { match = match; resources = none })

-- `config[key] = value`.
unfoldable pub assign : String → String → ApplicationConfig → ApplicationConfig
assign key value [] = (key, value) ∷ []
assign key value ((k, v) ∷ config) =
    let rest = assign key value config in if k == key then (k, value) ∷ config else (k, v) ∷ rest

unfoldable pub assign_pairs : ApplicationConfig → List String → Result ApplicationConfig
unfolding cut assign
assign_pairs config [] = ok config
assign_pairs config (pair ∷ pairs) = elim (cut "=" pair) [
  | none ↦ err (failure "config must be key=value")
  | some (key, value) ↦ assign_pairs (assign key value config) pairs
]
