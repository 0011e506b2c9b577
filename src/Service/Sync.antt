-- ===== src/Service/Sync.antt =====
-- `Sync` and `replaceTuples` in service.go.
pub mod Laws
pub mod Failures
use fine_grained_permissions.Base.{String, List, Action}
use fine_grained_permissions.Base.Actions.{◌>>=◌, ◌>>◌, reading}
use fine_grained_permissions.OpenFga
use fine_grained_permissions.OpenFga.{Tuple, Client}
use fine_grained_permissions.Store.Projection.{list_synced_tuples, replace_synced_tuples}
use fine_grained_permissions.Service.{World, storing, engaging}
use fine_grained_permissions.Service.Desired.{desired_tuples}
use fine_grained_permissions.Service.Diff.{tuple_diff}

module _ {E : Type 0} (client : Client E) where
  -- `replaceTuples`.
  unfoldable pub replace_tuples : String → List Tuple → Action (World E) (Unit {0})
  unfolding tuple_diff
  replace_tuples prefix desired w =
      let (writes, deletes) = tuple_diff (list_synced_tuples prefix w.db) desired in
      (engaging (OpenFga.write client writes deletes)
          >> storing (replace_synced_tuples prefix desired))
        w

  -- `Sync`.
  unfoldable pub sync : Action (World E) (Unit {0})
  sync = do desired ← reading (λ w. desired_tuples w.db); replace_tuples "all|" desired
