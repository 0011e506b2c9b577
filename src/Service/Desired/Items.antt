-- ===== src/Service/Desired/Items.antt =====
-- The parts of what `Sync` computes, item by item: the listed resources, the edges of the hierarchy and
-- the tuples of a list of lists.
use fine_grained_permissions.Base.{
  String, ◌==◌, none, some, List, [], ◌∷◌, ◌≡◌, inl, inr, refl, sym, ap, ◌∙◌, subst, In, In-append,
  In-append_left, In-append_right, sort_by, In-sort_by, traverse-In, In-traverse, ok, find_first-In,
  eq_iff, and-eq-true_iff, Option-cases,
}
use fine_grained_permissions.Api.{Resource, ResourceRef}
use fine_grained_permissions.Catalog.{resource_object}
use fine_grained_permissions.OpenFga.{Tuple, parent_tuple}
use fine_grained_permissions.Store.{Db, ResourceRow}
use fine_grained_permissions.Store.Resources.{
  list_resources, get_resource, find_resource, resource_of, row_at, by_type_and_name,
}
use fine_grained_permissions.Store.Resources.Laws.{get_resource-row}
use fine_grained_permissions.Service.Desired.{parent_tuples, concat}

-- The tuple states that the resource has the parent.
abbrev pub parent_edge : Resource → ResourceRef → Tuple
parent_edge item parent = record {
  user = resource_object parent;
  relation = "parent";
  object = resource_object (record { id = item.id; type = item.type });
}

-- What is found has the names it was looked up by.
pub get_resource-names :
    (type id : String) (db : Db) (item : Resource)
    → get_resource type id db ≡ ok item
    → (item.type ≡ type) × (item.id ≡ id)
unfolding find_resource resource_of
get_resource-names type id db item h =
    let (row, found, same) = get_resource-row type id db h in
    let (_, at) = find_first-In (row_at type id) db.resources found in
    let (t, i) = (and-eq-true_iff (row.type == type) (row.id == id)).0 at in
    (
      sym (ap (λ r. r.type) same) ∙ (eq_iff row.type type).0 t,
      sym (ap (λ r. r.id) same) ∙ (eq_iff row.id id).0 i,
    )

pub listed_resource :
    (db : Db) (items : List Resource) (item : Resource)
    → list_resources none db ≡ ok items
    → In item items
    → get_resource item.type item.id db ≡ ok item
unfolding list_resources
listed_resource db items item h i =
    let (row, _, found) =
      traverse-In (λ (row : ResourceRow). get_resource row.type row.id db)
        (sort_by by_type_and_name db.resources) items item h i in
    let (t, n) = get_resource-names row.type row.id db item found in
    ap (λ s. get_resource s item.id db) t ∙ ap (λ s. get_resource row.type s db) n ∙ found

pub resource_listed :
    (db : Db) (items : List Resource) (item : Resource)
    → list_resources none db ≡ ok items
    → get_resource item.type item.id db ≡ ok item
    → In item items
unfolding list_resources find_resource
resource_listed db items item h found =
    let (row, e, _) = get_resource-row item.type item.id db found in
    let (k, at) = find_first-In (row_at item.type item.id) db.resources e in
    let (t, n) = (and-eq-true_iff (row.type == item.type) (row.id == item.id)).0 at in
    let (other, e', i) =
      In-traverse (λ (row : ResourceRow). get_resource row.type row.id db)
        (sort_by by_type_and_name db.resources) items row h
        (In-sort_by by_type_and_name row db.resources k) in
    let same : ok other ≡ ok item =
      sym e' ∙ rw ((eq_iff row.type item.type).0 t, (eq_iff row.id item.id).0 n) found in
    let item_same : other ≡ item = cc same in subst (λ r. In r items) item_same i

pub parent_tuples-In :
    (items : List Resource) (t : Tuple)
    → In t (parent_tuples items)
    → (item : Resource) × (above : ResourceRef) × In item items
      × (item.parent ≡ some above)
      × (t ≡ parent_edge item above)
unfolding parent_tuples parent_tuple
parent_tuples-In [] t i = absurd i
parent_tuples-In (r ∷ rs) t i = elim (Option-cases r.parent) [
  | inl top ↦
      let (item, above, k, e, same) = parent_tuples-In rs t (rw top at i) in
      (item, above, inr k, e, same)
  | inr (p, e) ↦ elim (rw e at i) [
    | inl here ↦ (r, p, inl refl, e, here)
    | inr later ↦
        let (item, above, k, e', same) = parent_tuples-In rs t later in
        (item, above, inr k, e', same)
  ]
]

pub In-parent_tuples :
    (items : List Resource) (item : Resource) (above : ResourceRef)
    → In item items
    → item.parent ≡ some above
    → In (parent_edge item above) (parent_tuples items)
unfolding parent_tuples parent_tuple
In-parent_tuples [] item above i e = absurd i
In-parent_tuples (r ∷ rs) item above (inl same) e = rw (← same) (rw e (inl refl))
In-parent_tuples (r ∷ rs) item above (inr later) e = elim (Option-cases r.parent) [
  | inl top ↦ rw top (In-parent_tuples rs item above later e)
  | inr (p, e') ↦ rw e' (inr (In-parent_tuples rs item above later e))
]

pub concat-In :
    (tss : List (List Tuple)) (t : Tuple)
    → In t (concat tss)
    → (ts : List Tuple) × In ts tss × In t ts
concat-In [] t i = absurd i
concat-In (ts ∷ tss) t i = elim (In-append t ts (concat tss) i) [
  | inl here ↦ (ts, inl refl, here)
  | inr later ↦ let (us, k, found) = concat-In tss t later in (us, inr k, found)
]

pub In-concat :
    (tss : List (List Tuple)) (ts : List Tuple) (t : Tuple)
    → In ts tss
    → In t ts
    → In t (concat tss)
In-concat [] ts t k i = absurd k
In-concat (us ∷ tss) ts t (inl same) i =
    In-append_left t us (concat tss) (subst (λ l. In t l) same i)
In-concat (us ∷ tss) ts t (inr later) i =
    In-append_right t us (concat tss) (In-concat tss ts t later i)
