-- ===== src/Service/Desired.antt =====
-- What `Sync` in service.go computes from the tables before it writes: the tuples they stand for.
pub mod Items
pub mod Laws
use fine_grained_permissions.Base.{
  Option, none, some, List, [], ◌∷◌, ◌++◌, map, Result, ok, ◌>>=◌, traverse,
}
use fine_grained_permissions.Api.{Resource, Binding}
use fine_grained_permissions.OpenFga.{
  Tuple, parent_tuple, membership_tuple, subject_tuple, permission_tuples,
}
use fine_grained_permissions.Store.{Db}
use fine_grained_permissions.Store.Users.{list_memberships}
use fine_grained_permissions.Store.Bindings.{list_bindings, binding_permissions}
use fine_grained_permissions.Store.Resources.{list_resources}

abbrev pub cons_some : Option Tuple → List Tuple → List Tuple
cons_some none ts = ts
cons_some (some t) ts = t ∷ ts

unfoldable pub parent_tuples : List Resource → List Tuple
parent_tuples [] = []
parent_tuples (r ∷ rs) = cons_some (parent_tuple r) (parent_tuples rs)

-- The tuples of one binding: those of its permissions, then that of its subject.
unfoldable pub binding_tuples : Db → Binding → Result (List Tuple)
binding_tuples db binding = do
  permissions ← binding_permissions binding db
  tuples ← permission_tuples binding permissions
  ok (tuples ++ subject_tuple binding ∷ [])

abbrev pub concat : List (List Tuple) → List Tuple
concat [] = []
concat (ts ∷ tss) = ts ++ concat tss

-- The loops of `Sync`: the tuples that the tables stand for.
unfoldable pub desired_tuples : Db → Result (List Tuple)
unfolding parent_tuples binding_tuples
desired_tuples db = do
  resources ← list_resources none db
  bindings ← list_bindings db
  granted ← traverse (binding_tuples db) bindings
  ok (
      parent_tuples resources
      ++ (map (λ m. membership_tuple m.0 m.1) (list_memberships db) ++ concat granted))
