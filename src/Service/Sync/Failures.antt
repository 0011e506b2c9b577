-- ===== src/Service/Sync/Failures.antt =====
-- When `Sync` fails: a binding that cannot be compiled stops every one, and a tuple that is wanted
-- twice leaves the server ahead of the projection.
use fine_grained_permissions.Base.{
  String, List, [], ◌∷◌, some, none, ◌≡◌, refl, ap, inl, inr, In, Result, ok, traverse, on_result,
}
use fine_grained_permissions.Base.Actions.{◌>>=◌ as ◌>>>=◌, Refused}
use fine_grained_permissions.Api.{ResourceRef, Binding, Role, exact_match}
use fine_grained_permissions.OpenFga
use fine_grained_permissions.OpenFga.{Client, Tuple, permission_tuples}
use fine_grained_permissions.OpenFga.Failures.{
  Failed, Unsupported, >>=-Failed, permission_tuples-Unsupported,
}
use fine_grained_permissions.Store.{Db}
use fine_grained_permissions.Store.Bindings.{list_bindings, binding_permissions}
use fine_grained_permissions.Store.Roles.{get_role}
use fine_grained_permissions.Store.Resources.{list_resources}
use fine_grained_permissions.Store.Projection.{list_synced_tuples}
use fine_grained_permissions.Store.Projection.Laws.{Repeats, replace-Repeats}
use fine_grained_permissions.Service.{World}
use fine_grained_permissions.Service.Desired.{desired_tuples, binding_tuples}
use fine_grained_permissions.Service.Diff.{tuple_diff}
use fine_grained_permissions.Service.Diff.Laws.{writes, deletes}
use fine_grained_permissions.Service.Sync.{sync, replace_tuples}

traverse-Failed :
    {A B : Type 0} (f : A → Result B) (x : A) (xs : List A)
    → In x xs
    → Failed (f x)
    → Failed (traverse f xs)
traverse-Failed f x [] i h = absurd i
traverse-Failed f x (y ∷ xs) (inl same) (e, h) = (e, rw (← same) (rw h refl))
traverse-Failed f x (y ∷ xs) (inr later) h =
    let (e, rest) = traverse-Failed f x xs later h in >>=-Failed (f y) _ (λ b _. (e, rw rest refl))

binding_tuples-Failed :
    (db : Db) (binding : Binding) (role : Role) (p : String) (targets : List ResourceRef)
    → get_role binding.role_id db ≡ ok role
    → binding.selector.match ≡ exact_match
    → binding.selector.resources ≡ some targets
    → In p role.permissions
    → Unsupported p targets
    → Failed (binding_tuples db binding)
unfolding binding_tuples binding_permissions
binding_tuples-Failed db binding role p targets found m r i h =
    let (e, failed) = permission_tuples-Unsupported binding role.permissions p targets m r i h in
    (e, rw (found, failed) refl)

desired_tuples-Failed :
    (db : Db) (binding : Binding) (bindings : List Binding)
    → list_bindings db ≡ ok bindings
    → In binding bindings
    → Failed (binding_tuples db binding)
    → Failed (desired_tuples db)
unfolding desired_tuples
desired_tuples-Failed db binding bindings listed i h =
    let (e, failed) = traverse-Failed (binding_tuples db) binding bindings i h in
    >>=-Failed (list_resources none db) _ (λ resources _. (e, rw (listed, failed) refl))

module _ {E : Type 0} (client : Client E) where
  -- Once a stored binding has an exact selector, and its role a permission that is checked on none of
  -- the selected types, every `Sync` fails and changes neither the tables nor the server.
  pub sync-Unsupported :
      (w : World E) (binding : Binding) (bindings : List Binding) (role : Role) (p : String)
      (targets : List ResourceRef)
      → list_bindings w.db ≡ ok bindings
      → In binding bindings
      → get_role binding.role_id w.db ≡ ok role
      → binding.selector.match ≡ exact_match
      → binding.selector.resources ≡ some targets
      → In p role.permissions
      → Unsupported p targets
      → Refused (sync client) w
  unfolding sync
  sync-Unsupported w binding bindings role p targets listed i found m r ip h =
      let (e, failed) =
        desired_tuples-Failed w.db binding bindings listed i
          (binding_tuples-Failed w.db binding role p targets found m r ip h) in
      (e, rw (failed, ◌>>>=◌) refl)

  -- What the server is left with, when the tables want a tuple twice.
  abbrev pub sent : List Tuple → World E → Result (Unit {0}) × E
  sent desired w =
      let current = list_synced_tuples "all|" w.db in
      OpenFga.write client (writes current desired) (deletes current desired) w.engine

  -- When the tables stand for two tuples with one key, `Sync` fails: the server is left as the write
  -- of the difference left it, and the tables, with the projection, as they were.
  pub sync-Repeats :
      (w : World E) (desired : List Tuple)
      → desired_tuples w.db ≡ ok desired
      → Repeats desired
      → Failed (sync client w).0
        × ((sync client w).1.db ≡ w.db)
        × ((sync client w).1.engine ≡ (sent desired w).1)
  unfolding sync replace_tuples tuple_diff
  sync-Repeats w desired found again =
      let broken = replace-Repeats "all|" desired w.db again in
      on_result (sent desired w).0
        (λ e failed. rw (found, ◌>>>=◌, failed, ◌>>>=◌) ((e, refl), refl, refl))
        (λ _ written.
          rw (found, ◌>>>=◌, written, ◌>>>=◌)
            ((_, ap (λ c. c.0) broken), ap (λ c. c.1) broken, refl))
