-- ===== src/Service/Scopes.antt =====
-- The walks up the hierarchy in service.go: `managementScope`, `isWithinScope`. Each loop runs on
-- fuel, and ends with the error `diverged` when there is none left. The depth of the hierarchy is
-- four, so `scope_fuel` is enough wherever each resource has a parent of an allowed type.
pub mod Hierarchy
pub mod Laws
use fine_grained_permissions.Base.{
  ℕ, zero, suc, Bool, true, false, ◌||◌, none, some, Result, ok, err, invalid, diverged, ◌>>=◌,
  ◌==◌, if◌then◌else◌,
}
use fine_grained_permissions.Api.{ResourceRef, Resource, controller, model, ref_eq}
use fine_grained_permissions.Store.{Db}
use fine_grained_permissions.Store.Resources.{get_resource}

abbrev pub scope_fuel : ℕ
scope_fuel = 4

-- The loop of `managementScope`.
unfoldable pub management_scope_from : ℕ → ResourceRef → Db → Result ResourceRef
management_scope_from zero ref db = err diverged
management_scope_from (suc fuel) ref db =
    let step = get_resource ref.type ref.id db >>= λ resource. elim resource.parent [
      | none ↦ err (invalid "resource has no policy scope")
      | some parent ↦ management_scope_from fuel parent db
    ] in
    if ref.type == controller || ref.type == model then ok ref else step

-- `managementScope`.
unfoldable pub management_scope : ResourceRef → Db → Result ResourceRef
unfolding management_scope_from
management_scope ref db = management_scope_from scope_fuel ref db

-- The loop of `isWithinScope`.
unfoldable pub is_within_scope_from : ℕ → ResourceRef → ResourceRef → Db → Result Bool
is_within_scope_from zero ref scope db = err diverged
is_within_scope_from (suc fuel) ref scope db =
    let step = get_resource ref.type ref.id db >>= λ resource. elim resource.parent [
      | none ↦ ok false
      | some parent ↦ is_within_scope_from fuel parent scope db
    ] in
    if ref_eq ref scope then ok true else if ref.type == controller then ok false else step

-- `isWithinScope`.
unfoldable pub is_within_scope : ResourceRef → ResourceRef → Db → Result Bool
unfolding is_within_scope_from
is_within_scope ref scope db = is_within_scope_from scope_fuel ref scope db
