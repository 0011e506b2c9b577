-- ===== src/Service/Resources/Laws.antt =====
-- The hierarchy of resources is kept by the operations that change it, whatever they answer.
use fine_grained_permissions.Base.{
  String, true, not, Option, none, some, List, [], ◌≡◌, ◌≢◌, inl, inr, refl, sym, ap, ◌==◌, arith,
  Bool-cases, Option-cases, ok, Action, In, contains_iff, on_result, contains, select,
}
use fine_grained_permissions.Base.Actions.{◌>>=◌, ◌>>◌, pure}
use fine_grained_permissions.Api
use fine_grained_permissions.Api.{
  Permission, ResourceType, ResourceRef, Resource, controller, model, application, unit, machine,
  cloud_credential,
}
use fine_grained_permissions.Catalog.{
  parent_rule, create_permission, delete_permission, permission, permissions,
}
use fine_grained_permissions.OpenFga
use fine_grained_permissions.OpenFga.{Client, Tuple}
use fine_grained_permissions.Store.{Db}
use fine_grained_permissions.Store.Projection.{
  list_synced_tuples, replace_synced_tuples, insert_tuples, like_prefix,
}
use fine_grained_permissions.Store.Resources
use fine_grained_permissions.Store.Resources.{
  get_resource, resource_of, new_resource, row_of, resource_taken, has_children, row_at,
}
use fine_grained_permissions.Service.{World, storing}
use fine_grained_permissions.Service.Check.{require, controller_ref}
use fine_grained_permissions.Service.Check.Laws.{Located, check_iff_Answered, require_iff}
use fine_grained_permissions.Service.Sync.{sync, replace_tuples}
use fine_grained_permissions.Service.Diff.{tuple_diff}
use fine_grained_permissions.Service.Diff.Laws.{writes, deletes}
use fine_grained_permissions.Service.Desired.{desired_tuples}
use fine_grained_permissions.Service.Scopes.Hierarchy.{IsHierarchy}
use fine_grained_permissions.Service.Guards.{resources_guarded}
use fine_grained_permissions.Service.Resources.{
  create_resource, delete_resource, or_empty, validate_parent, creation_target, contains_type,
}
use fine_grained_permissions.Service.Resources.Rows.{
  IsHierarchy-same, stored-IsHierarchy, removed-IsHierarchy,
}

replace-resources :
    (ts : List Tuple) (db : Db) → (replace_synced_tuples "all|" ts db).1.resources ≡ db.resources
unfolding replace_synced_tuples
replace-resources ts db =
    elim (Option-cases (
      insert_tuples "all|" ts
        (select (λ row. not (like_prefix "all|" row.tuple_key)) db.synced_tuples))) [
          | inl broken ↦ rw (broken, replace_synced_tuples) refl
          | inr (rows, done) ↦ rw (done, replace_synced_tuples) refl
        ]

no_rule :
    (type : ResourceType) (db : Db)
    → validate_parent (parent_rule type) none db ≡ ok tt
    → create_permission type ≡ none
unfolding validate_parent parent_rule create_permission
no_rule type db h = ground arith

no_empty : (p : Permission) → permission "" ≢ some p
unfolding permission permissions
no_empty p h = cc

module _ {E : Type 0} (client : Client E) where
  replace_tuples-resources :
      (desired : List Tuple) (w : World E)
      → (replace_tuples client "all|" desired w).1.db.resources ≡ w.db.resources
  unfolding replace_tuples tuple_diff
  replace_tuples-resources desired w =
      let current = list_synced_tuples "all|" w.db in
      on_result (OpenFga.write client (writes current desired) (deletes current desired) w.engine).0
        (λ e failed. rw (failed, ◌>>=◌) refl)
        (λ _ written. rw (written, ◌>>=◌) (replace-resources desired w.db))

  -- `Sync` changes no resource.
  sync-resources : (w : World E) → (sync client w).1.db.resources ≡ w.db.resources
  unfolding sync
  sync-resources w =
      on_result (desired_tuples w.db) (λ e failed. rw (failed, ◌>>=◌) refl)
        (λ desired found. rw (found, ◌>>=◌) (replace_tuples-resources desired w))

  sync-pure-resources :
      {B : Type 0} (b : B) (w : World E)
      → ((sync client >> pure b) w).1.db.resources ≡ w.db.resources
  sync-pure-resources b w =
      on_result (sync client w).0 (λ e failed. rw (failed, ◌>>=◌) (sync-resources w))
        (λ _ synced. rw (synced, ◌>>=◌) (sync-resources w))

  -- A call of the store, then one that changes no resource.
  stored-resources :
      {A B : Type 0} (m : Action Db A) (k : A → Action (World E) B) (w : World E)
      → ((a : A) (v : World E) → (k a v).1.db.resources ≡ v.db.resources)
      → ((storing m >>= k) w).1.db.resources ≡ (m w.db).1.resources
  stored-resources m k w keeps =
      on_result (m w.db).0 (λ e failed. rw (failed, ◌>>=◌) refl)
        (λ a done. rw (done, ◌>>=◌) (keeps a (storing m w).1))

  -- What `CreateResource` has checked makes the new row's parent allowed and stored.
  created_parent :
      (actor : String) (type : ResourceType) (parent : Option ResourceRef) (w : World E)
      → validate_parent (parent_rule type) parent w.db ≡ ok tt
      → require client actor (or_empty (create_permission type)) (creation_target parent) w ≡ ok tt
      → (p : ResourceRef) × (parent ≡ some p) × In p.type (parent_rule type) × Located p w.db
  unfolding validate_parent contains_type
  created_parent actor type none w v r =
      let (q, _, _) =
        (check_iff_Answered client actor "" controller_ref w _).0
          ((require_iff client actor "" controller_ref w).0 (rw (no_rule type w.db v) at r)) in
      absurd (no_empty q.listed.0 q.listed.1)
  created_parent actor type (some p) w v r =
      let (q, _, _) =
        (check_iff_Answered client actor (or_empty (create_permission type)) p w _).0
          ((require_iff client actor (or_empty (create_permission type)) p w).0 r) in
      elim (Bool-cases (contains (parent_rule type) p.type)) [
        | inl allowed ↦ (p, refl, (contains_iff (parent_rule type) p.type).0 allowed, q.located)
        | inr other ↦ absurd (cc (rw other at v))
      ]

  -- `CreateResource` keeps the hierarchy, whatever it answers.
  pub create_resource-IsHierarchy :
      (uuid actor : String) (input : Api.CreateResource) (w : World E)
      → IsHierarchy w.db
      → IsHierarchy (create_resource client uuid actor input w).1.db
  unfolding create_resource
  create_resource-IsHierarchy uuid actor input w t =
      elim (resources_guarded client w actor uuid uuid input controller_ref []).0 [
        | inl (e, refused) ↦
            IsHierarchy-same w.db (create_resource client uuid actor input w).1.db
              (ap (λ c. c.1.db.resources) (sym refused)) t
        | inr (typed, valid, granted) ↦
            let (p, e, allowed, located) =
              created_parent actor input.type input.parent w valid granted in
            IsHierarchy-same (Resources.create_resource uuid input w.db).1
              (create_resource client uuid actor input w).1.db (sym (left_by typed valid granted))
              (stored-IsHierarchy uuid input w.db p t e allowed located)
      ]
    where
      left_by :
          not (input.type == controller) ≡ true
          → validate_parent (parent_rule input.type) input.parent w.db ≡ ok tt
          → require client actor
              (or_empty (create_permission input.type))
              (creation_target input.parent)
              w
            ≡ ok tt
          → (create_resource client uuid actor input w).1.db.resources
            ≡ (Resources.create_resource uuid input w.db).1.resources
      left_by typed valid granted =
          rw (typed, valid, granted, ◌>>=◌)
            (stored-resources (Resources.create_resource uuid input)
              (λ resource. sync client >> pure resource) w (λ r. sync-pure-resources r))

  -- `DeleteResource` keeps the hierarchy, whatever it answers.
  pub delete_resource-IsHierarchy :
      (actor : String) (ref : ResourceRef) (w : World E)
      → IsHierarchy w.db
      → IsHierarchy (delete_resource client actor ref w).1.db
  unfolding delete_resource
  delete_resource-IsHierarchy actor ref w t =
      elim (resources_guarded client w actor "" "" (record { name = ""; parent = none; type = "" })
        ref []).1 [
          | inl (e, refused) ↦
              IsHierarchy-same w.db (delete_resource client actor ref w).1.db
                (ap (λ c. c.1.db.resources) (sym refused)) t
          | inr (item, found, granted, leaf) ↦
              let (q, _, _) =
                (check_iff_Answered client actor (or_empty (delete_permission ref.type)) ref w _).0
                  ((require_iff client actor (or_empty (delete_permission ref.type)) ref w).0
                    granted) in
              IsHierarchy-same (Resources.delete_resource ref w.db).1
                (delete_resource client actor ref w).1.db (sym (left_by item found granted leaf))
                (removed-IsHierarchy ref w.db t (ground arith) q.identified)
        ]
    where
      left_by :
          (item : Resource)
          → get_resource ref.type ref.id w.db ≡ ok item
          → require client actor (or_empty (delete_permission ref.type)) ref w ≡ ok tt
          → not (has_children ref w.db) ≡ true
          → (delete_resource client actor ref w).1.db.resources
            ≡ (Resources.delete_resource ref w.db).1.resources
      left_by item found granted leaf =
          rw (found, granted, leaf, ◌>>=◌)
            (stored-resources (Resources.delete_resource ref) (λ _. sync client) w
              (λ _ v. sync-resources v))
