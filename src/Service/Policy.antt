-- ===== src/Service/Policy.antt =====
-- Users, groups and memberships in service.go.
use Prim.Native.Char.{Char}
use fine_grained_permissions.Base.{String, List, Action}
use fine_grained_permissions.Base.Actions.{◌>>◌, reading}
use fine_grained_permissions.Api.{User, Group, CreateNamed}
use fine_grained_permissions.OpenFga.{Client}
use fine_grained_permissions.Store.Users
use fine_grained_permissions.Service.{World, storing}
use fine_grained_permissions.Service.Check.{require, controller_ref}
use fine_grained_permissions.Service.Sync.{sync}

module _ {E : Type 0} (client : Client E) where
  -- `ListUsers`.
  unfoldable pub list_users : String → Action (World E) (List User)
  list_users actor =
      reading (require client actor "policy.read" controller_ref)
      >> reading (λ w. Users.list_users w.db)

  -- `CreateUser`.
  unfoldable pub create_user : (Char → Char) → String → CreateNamed → Action (World E) User
  create_user lower actor input =
      reading (require client actor "policy.manage" controller_ref)
      >> storing (Users.create_user lower input.name)

  -- `ListGroups`.
  unfoldable pub list_groups : String → Action (World E) (List Group)
  list_groups actor =
      reading (require client actor "policy.read" controller_ref)
      >> reading (λ w. Users.list_groups w.db)

  -- `CreateGroup`.
  unfoldable pub create_group : (Char → Char) → String → CreateNamed → Action (World E) Group
  create_group lower actor input =
      reading (require client actor "policy.manage" controller_ref)
      >> storing (Users.create_group lower input.name)

  -- `AddGroupMember`.
  unfoldable pub add_group_member : String → String → String → Action (World E) (Unit {0})
  add_group_member actor group_id user_id = do
    reading (require client actor "policy.manage" controller_ref)
    storing (Users.add_group_member group_id user_id)
    sync client

  -- `RemoveGroupMember`.
  unfoldable pub remove_group_member : String → String → String → Action (World E) (Unit {0})
  remove_group_member actor group_id user_id = do
    reading (require client actor "policy.manage" controller_ref)
    storing (Users.remove_group_member group_id user_id)
    sync client
