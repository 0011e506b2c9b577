-- ===== src/HttpApi/Handlers.antt =====
-- The handlers of server.go. `actor` is what the middleware put into the context.
use Prim.Native.Char.{Char}
use fine_grained_permissions.Base.{ℕ, String, Option, none, some, List, failure, Error, Result}
use fine_grained_permissions.Api
use fine_grained_permissions.Api.{
  ResourceType, ResourceRef, AuthorizationCheck, AuthorizationDecision, ApplicationConfig,
  Permission, LegacyAccessChange, LegacyRevokeResult, GroupMemberChange, CreateNamed, Binding,
  Resource, Role, RoleUpdatePreview, UpdateRole, User, Group, machine, unit,
}
use fine_grained_permissions.Catalog.{sorted_permissions}
use fine_grained_permissions.OpenFga.{Client, health}
use fine_grained_permissions.Service.{World}
use fine_grained_permissions.Service.Check.{check, check_batch}
use fine_grained_permissions.Service.Policy
use fine_grained_permissions.Service.Roles
use fine_grained_permissions.Service.Roles.Preview.{preview_role_update}
use fine_grained_permissions.Service.Bindings
use fine_grained_permissions.Service.Legacy.{grant_legacy, revoke_legacy}
use fine_grained_permissions.Service.Resources
use fine_grained_permissions.Service.Resources.{SshSession}
use fine_grained_permissions.HttpApi.{Response, json, bare, problem, answer}
use fine_grained_permissions.HttpApi.Errors

-- A handler's result: the response, and the state that the call left.
abbrev pub Handler : Type 0 → Type 0 → Type 0
Handler E A = World E → Response A × World E

-- `if request.Body == nil` answers 400.
abbrev pub with_body : {E A B : Type 0} → Option B → (B → Handler E A) → Handler E A
with_body none h w = (problem 400 "bad_request" (failure "body is required"), w)
with_body (some b) h w = h b w

abbrev pub unavailable : {A : Type 0} → String → Error → Response A
unavailable code e = problem 503 code e

abbrev no_body : {A : Type 0} → Unit {0} → Response A
no_body _ = bare 204

abbrev pair : {E A : Type 0} → Result A → World E → Result A × World E
pair r w = (r, w)

module _ {E : Type 0} (client : Client E) where
  unfoldable pub get_health : Handler E String
  get_health w =
      answer (λ _. json 200 "ok") (unavailable "openfga_unavailable") (health client w.engine, w)

  unfoldable pub list_permissions : Handler E (List Permission)
  list_permissions w = (json 200 sorted_permissions, w)

  unfoldable pub list_users : String → Handler E (List User)
  list_users actor w = answer (json 200) Errors.list_users_error (Policy.list_users client actor w)

  unfoldable pub create_user : (Char → Char) → String → Option CreateNamed → Handler E User
  create_user lower actor body =
      with_body body λ b w.
        answer (json 201) Errors.create_user_error (Policy.create_user client lower actor b w)

  unfoldable pub list_groups : String → Handler E (List Group)
  list_groups actor w =
      answer (json 200) Errors.list_groups_error (Policy.list_groups client actor w)

  unfoldable pub create_group : (Char → Char) → String → Option CreateNamed → Handler E Group
  create_group lower actor body = with_body body λ b w.
      answer (json 201) Errors.create_group_error (Policy.create_group client lower actor b w)

  unfoldable pub add_group_member :
      String → String → Option GroupMemberChange → Handler E (Unit {0})
  add_group_member actor group_id body = with_body body λ b w.
      answer no_body Errors.add_group_member_error
        (Policy.add_group_member client actor group_id b.user_id w)

  unfoldable pub remove_group_member :
      String → String → Option GroupMemberChange → Handler E (Unit {0})
  remove_group_member actor group_id body = with_body body λ b w.
      answer no_body Errors.remove_group_member_error
        (Policy.remove_group_member client actor group_id b.user_id w)

  unfoldable pub list_roles : String → Handler E (List Role)
  list_roles actor w = answer (json 200) Errors.list_roles_error (Roles.list_roles client actor w)

  unfoldable pub create_role : (Char → Char) → String → Option Api.CreateRole → Handler E Role
  create_role lower actor body =
      with_body body
        λ b w. answer (json 201) Errors.create_role_error (Roles.create_role client lower actor b w)

  unfoldable pub get_role : String → String → Handler E Role
  get_role actor id w = answer (json 200) Errors.get_role_error (Roles.get_role client actor id w)

  unfoldable pub preview_role :
      String → String → ℕ → Option UpdateRole → Handler E RoleUpdatePreview
  preview_role actor id if_match body = with_body body λ b w.
      answer (json 200) Errors.preview_role_error
        (preview_role_update client actor id if_match b w, w)

  unfoldable pub update_role : String → String → String → ℕ → Option UpdateRole → Handler E Role
  update_role now actor id if_match body = with_body body λ b w.
      answer (json 200) Errors.update_role_error
        (Roles.update_role client now actor id if_match b w)

  unfoldable pub list_bindings : String → Handler E (List Binding)
  list_bindings actor w =
      answer (json 200) Errors.list_bindings_error (Bindings.list_bindings client actor w)

  unfoldable pub create_binding : String → String → Option Api.CreateBinding → Handler E Binding
  create_binding uuid actor body = with_body body λ b w.
      answer (json 201) Errors.create_binding_error (Bindings.create_binding client uuid actor b w)

  unfoldable pub delete_binding : String → String → Handler E (Unit {0})
  delete_binding actor id w =
      answer no_body Errors.delete_binding_error (Bindings.delete_binding client actor id w)

  unfoldable pub check_authorization : Option AuthorizationCheck → Handler E AuthorizationDecision
  check_authorization body = with_body body λ b w.
      answer (json 200) (unavailable "authorization_error")
        (pair (check client b.principal b.permission b.resource w) w)

  unfoldable pub check_authorization_batch :
      Option (List AuthorizationCheck) → Handler E (List AuthorizationDecision)
  check_authorization_batch body = with_body body λ checks w.
      answer (json 200) (unavailable "authorization_error") (pair (check_batch client checks w) w)

  unfoldable pub grant_legacy_access :
      String → String → Option LegacyAccessChange → Handler E Binding
  grant_legacy_access uuid actor body =
      with_body body
        λ b w. answer (json 200) Errors.grant_legacy_error (grant_legacy client uuid actor b w)

  unfoldable pub revoke_legacy_access :
      String → String → Option LegacyAccessChange → Handler E LegacyRevokeResult
  revoke_legacy_access uuid actor body =
      with_body body
        λ b w. answer (json 200) Errors.revoke_legacy_error (revoke_legacy client uuid actor b w)

  unfoldable pub list_resources : String → Option ResourceType → Handler E (List Resource)
  list_resources actor filter w =
      answer (json 200) (unavailable "authorization_error")
        (Resources.list_resources client actor filter w)

  unfoldable pub create_resource : String → String → Option Api.CreateResource → Handler E Resource
  create_resource uuid actor body = with_body body λ b w.
      answer (json 201) Errors.create_resource_error
        (Resources.create_resource client uuid actor b w)

  unfoldable pub get_resource : String → ResourceRef → Handler E Resource
  get_resource actor ref w =
      answer (json 200) Errors.get_resource_error (Resources.get_resource client actor ref w)

  unfoldable pub delete_resource : String → ResourceRef → Handler E (Unit {0})
  delete_resource actor ref w =
      answer no_body Errors.delete_resource_error (Resources.delete_resource client actor ref w)

  unfoldable pub get_application_config : String → String → Handler E ApplicationConfig
  get_application_config actor id w =
      answer (json 200) Errors.get_config_error (Resources.get_application_config client actor id w)

  unfoldable pub update_application_config :
      String → String → Option ApplicationConfig → Handler E ApplicationConfig
  update_application_config actor id body = with_body body λ config w.
      answer (json 200) Errors.update_config_error
        (Resources.update_application_config client actor id config w)

  unfoldable pub ssh_unit : String → String → Handler E SshSession
  ssh_unit actor id w =
      answer (json 200) Errors.ssh_unit_error (Resources.ssh client actor unit id w)

  unfoldable pub ssh_machine : String → String → Handler E SshSession
  ssh_machine actor id w =
      answer (json 200) Errors.ssh_machine_error (Resources.ssh client actor machine id w)
