-- ===== src/Service/Resources/Rows.antt =====
-- The hierarchy of resources under the changes of rows that the service makes.
use fine_grained_permissions.Base.{
  String, false, some, [], ◌∷◌, ◌++◌, ◌≡◌, ◌≢◌, inl, inr, refl, sym, ap, ◌∙◌, Bool-cases, ok, In,
  any,
}
use fine_grained_permissions.Api
use fine_grained_permissions.Api.{
  Permission, ResourceType, ResourceRef, Resource, controller, model, application, unit, machine,
  cloud_credential,
}
use fine_grained_permissions.Catalog.{parent_rule}
use fine_grained_permissions.Store.{Db, ResourceRow}
use fine_grained_permissions.Store.Resources
use fine_grained_permissions.Store.Resources.{
  get_resource, resource_of, new_resource, row_of, resource_taken, has_children, row_at,
}
use fine_grained_permissions.Store.Resources.Laws.{
  get_resource-same, get_resource-append, get_resource-append_left, get_resource-without,
  has_children-parent, without,
}
use fine_grained_permissions.Service.Check.Laws.{Located}
use fine_grained_permissions.Service.Scopes.Hierarchy.{IsHierarchy}

Located-mono :
    (p : ResourceRef) (db db' : Db)
    → ((item : Resource)
        → get_resource p.type p.id db ≡ ok item
        → get_resource p.type p.id db' ≡ ok item)
    → Located p db
    → Located p db'
Located-mono p db db' h (inl top) = inl top
Located-mono p db db' h (inr (below, (item, found))) = inr (below, (item, h item found))

-- The same resources are the same hierarchy.
pub IsHierarchy-same :
    (db db' : Db) → db.resources ≡ db'.resources → IsHierarchy db → IsHierarchy db'
IsHierarchy-same db db' h t = record {
  parented = λ type id item found.
      let (p, e, allowed, located) =
        t.parented type id item (get_resource-same type id db db' h ∙ found) in
      (
        p,
        e,
        allowed,
        Located-mono p db db' (λ i there. sym (get_resource-same p.type p.id db db' h) ∙ there)
            located,
      );
}

-- A row with a parent that is allowed and stored may be added.
IsHierarchy-append :
    (db : Db) (row : ResourceRow) (p : ResourceRef)
    → IsHierarchy db
    → (resource_of row).parent ≡ some p
    → In p.type (parent_rule row.type)
    → Located p db
    → IsHierarchy (record db { resources = db.resources ++ row ∷ [] })
IsHierarchy-append db row p t e allowed located = record {
  parented = λ type id item found. elim (get_resource-append type id db row found) [
    | inl old ↦ let (q, f, fits, there) = t.parented type id item old in (q, f, fits, moved q there)
    | inr (typed, _, same) ↦
        (p, sym (ap (λ r. r.parent) same) ∙ e, rw (← typed) allowed, moved p located)
  ];
}
  where
    moved :
        (q : ResourceRef)
        → Located q db
        → Located q (record db { resources = db.resources ++ row ∷ [] })
    moved q there =
        Located-mono q db (record db { resources = db.resources ++ row ∷ [] })
          (λ i. get_resource-append_left q.type q.id db row) there

-- A resource without children may be removed.
IsHierarchy-without :
    (db : Db) (ref : ResourceRef)
    → IsHierarchy db
    → has_children ref db ≡ false
    → ref.id ≢ ""
    → IsHierarchy (without ref db)
IsHierarchy-without db ref t childless named = record {
  parented = λ type id item found. elim (get_resource-without ref db type id) [
    | inl (_, _, gone) ↦ absurd (gone item found)
    | inr same ↦
        let old = sym same ∙ found in
        let (p, e, allowed, located) = t.parented type id item old in
        (p, e, allowed, stays type id item old p e located)
  ];
}
  where
    stays :
        (type id : String) (item : Resource)
        → get_resource type id db ≡ ok item
        → (p : ResourceRef) → item.parent ≡ some p
        → Located p db
        → Located p (without ref db)
    stays type id item old p e (inl top) = inl top
    stays type id item old p e (inr (below, (parent, there))) =
        elim (get_resource-without ref db p.type p.id) [
          | inl (t, i, _) ↦
              let same : p ≡ ref = record_eq p ref t i in
              absurd (
                cc
                  (childless, has_children-parent ref db type id item old (e ∙ ap some same) named))
          | inr same ↦ inr (below, (parent, same ∙ there))
        ]
      where
        record_eq : (a b : ResourceRef) → a.type ≡ b.type → a.id ≡ b.id → a ≡ b
        record_eq a b t i = λ j. record { id = i j; type = t j }

-- The row that the store adds keeps the hierarchy.
pub stored-IsHierarchy :
    (uuid : String) (input : Api.CreateResource) (db : Db) (p : ResourceRef)
    → IsHierarchy db
    → input.parent ≡ some p
    → In p.type (parent_rule input.type)
    → Located p db
    → IsHierarchy (Resources.create_resource uuid input db).1
unfolding Resources.create_resource resource_of new_resource row_of
stored-IsHierarchy uuid input db p t e allowed located =
    let row = row_of (new_resource uuid input) in
    elim (Bool-cases (resource_taken db.resources row)) [
      | inl taken ↦ rw taken t
      | inr free ↦ rw free (IsHierarchy-append db row p t (rw e refl) allowed located)
    ]

pub removed-IsHierarchy :
    (ref : ResourceRef) (db : Db)
    → IsHierarchy db
    → has_children ref db ≡ false
    → ref.id ≢ ""
    → IsHierarchy (Resources.delete_resource ref db).1
unfolding Resources.delete_resource
removed-IsHierarchy ref db t childless named =
    elim (Bool-cases (any (row_at ref.type ref.id) db.resources)) [
      | inl there ↦ rw there (IsHierarchy-without db ref t childless named)
      | inr missing ↦ rw missing t
    ]
