-- ===== src/Service/Access.antt =====
-- What the service promises, said of the tables alone: who has which permission on which resource. The
-- tuples and the engine are its implementation.
pub mod Tuples
pub mod Words
pub mod Subjects
pub mod Says
pub mod Sound
pub mod Complete
pub mod Decisions
use fine_grained_permissions.Base.{String, true, List, ◌≡◌, ◌⊎◌, In, ok}
use fine_grained_permissions.Api.{
  ResourceRef, Role, Binding, exact_match, subject_user, subject_group,
}
use fine_grained_permissions.Catalog.{supports}
use fine_grained_permissions.Catalog.Types.{all_names}
use fine_grained_permissions.OpenFga.Compiled.{Applies}
use fine_grained_permissions.OpenFga.Grants.{IsTarget}
use fine_grained_permissions.Store.{Db}
use fine_grained_permissions.Store.Roles.{get_role}
use fine_grained_permissions.Store.Bindings.{list_bindings}
use fine_grained_permissions.Service.Scopes.Hierarchy.{IsHierarchy}
use fine_grained_permissions.Service.Scopes.Laws.{Below}

-- The binding is for the user, or for a group that the user is a member of.
abbrev pub IsFor : Db → Binding → String → Type 0
IsFor db binding user_id =
    ((binding.subject_type ≡ subject_user) × (binding.subject_id ≡ user_id))
    ⊎ ((binding.subject_type ≡ subject_group) × In (binding.subject_id, user_id) db.group_members)

-- The binding reaches the resource with the permission: the resource is, or lies below, one of the
-- targets, which for an exact selector is of a type that the permission is checked on.
abbrev pub Reaches : Db → Binding → String → ResourceRef → Type 0
Reaches db binding p resource =
    (target : ResourceRef) × IsTarget binding target
    × (binding.selector.match ≡ exact_match → Applies p target.type)
    × Below db target resource

-- A binding for the user, whose role has the permission, reaches the resource.
pub record Authorized (db : Db) (user_id p : String) (resource : ResourceRef) : Type 0 where
  pub bindings : List Binding
  pub binding : Binding
  pub role : Role
  pub listed : list_bindings db ≡ ok bindings
  pub stands : In binding bindings
  pub for_user : IsFor db binding user_id
  pub has_role : get_role binding.role_id db ≡ ok role
  pub permitted : In p role.permissions
  pub reaches : Reaches db binding p resource

-- The tables are a hierarchy, the roles name permissions of the catalogue only, and the bindings are for
-- users and groups only.
pub record IsSound (db : Db) : Type 0 where
  pub hierarchy : IsHierarchy db
  pub known :
      (id p : String) (role : Role)
      → get_role id db ≡ ok role
      → In p role.permissions
      → In p all_names
  pub subjects :
      (bindings : List Binding) (binding : Binding)
      → list_bindings db ≡ ok bindings
      → In binding bindings
      → (binding.subject_type ≡ subject_user) ⊎ (binding.subject_type ≡ subject_group)
