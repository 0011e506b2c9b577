-- ===== src/Service/Scopes/Hierarchy.antt =====
-- The hierarchy of resources: each has a parent of a type that `ParentRule` allows, which exists.
use fine_grained_permissions.Base.{
  leb-le, ℕ, suc, ◌≤◌, ◌<◌, String, Bool, true, ◌||◌, some, ◌≡◌, refl, ◌==◌, leb, arith, eq_iff, In,
  all, all-In, ok, if◌then◌else◌,
}
use fine_grained_permissions.Api.{
  ResourceType, ResourceRef, Resource, application, cloud_credential, controller, machine, model,
  unit,
}
use fine_grained_permissions.Catalog.{parent_rule}
use fine_grained_permissions.Catalog.Types.{all_types}
use fine_grained_permissions.Store.{Db}
use fine_grained_permissions.Store.Resources.{get_resource}
use fine_grained_permissions.Service.Check.Laws.{Located}

-- Every stored resource has a parent, of an allowed type, that is stored or is the controller.
pub record IsHierarchy (db : Db) : Type 0 where
  pub parented :
      (type id : String) (item : Resource)
      → get_resource type id db ≡ ok item
      → (p : ResourceRef) × (item.parent ≡ some p) × In p.type (parent_rule type) × Located p db

-- How far below the controller a type stands.
pub depth : ResourceType → ℕ
depth t =
    if t == controller
    then 0
    else if t == model || t == cloud_credential
    then 1
    else if t == application
    then 2
    else 3

pub depth-le : (t : ResourceType) → depth t ≤ 3
unfolding depth
depth-le t = ground arith

pub parent_rule-In : (t u : ResourceType) → In u (parent_rule t) → In t all_types
unfolding parent_rule
parent_rule-In t u h = ground (
  arith,
  eq_iff t model,
  eq_iff t cloud_credential,
  eq_iff t application,
  eq_iff t unit,
  eq_iff t machine,
)

falls : ResourceType → Bool
falls t = all (λ u. leb (suc (depth u)) (depth t)) (parent_rule t)

all_fall : all falls all_types ≡ true
unfolding falls depth parent_rule
all_fall = refl

-- A parent of an allowed type stands nearer to the controller.
pub depth-parent : (t u : ResourceType) → In u (parent_rule t) → depth u < depth t
unfolding falls
depth-parent t u h = leb-le (suc (depth u)) (depth t) (
    all-In (λ v. leb (suc (depth v)) (depth t)) (parent_rule t) u
      (all-In falls all_types t all_fall (parent_rule-In t u h)) h)
