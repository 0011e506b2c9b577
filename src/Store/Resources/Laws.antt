-- ===== src/Store/Resources/Laws.antt =====
-- What a lookup of a resource finds after a row is added or removed.
use fine_grained_permissions.Base.{
  find_first-append_left, find_first-append, find_first-select, find_first-select-none, any-In,
  String, Bool, true, not, ◌&&◌, Option, none, some, [], ◌∷◌, ◌++◌, ◌≡◌, ◌≢◌, ◌⊎◌, inl, inr, refl,
  sym, ap, ◌∙◌, ◌==◌, arith, eq_iff, eq_refl, find_first, find_first-In, select, Bool-cases,
  Option-cases, ok, ◌>>=◌, or_error, not_found, and-eq-true_iff,
}
use fine_grained_permissions.Api.{ResourceRef, Resource}
use fine_grained_permissions.Store.{Db, ResourceRow}
use fine_grained_permissions.Store.Resources.{
  row_at, is_text, parent_ref, has_children, find_resource, get_resource, resource_of,
}

abbrev is_child : ResourceRef → ResourceRow → Bool
is_child ref r = is_text r.parent_type ref.type && is_text r.parent_id ref.id

-- The tables hold the same resources.
pub get_resource-same :
    (type id : String) (db db' : Db)
    → db.resources ≡ db'.resources
    → get_resource type id db ≡ get_resource type id db'
unfolding get_resource find_resource
get_resource-same type id db db' h =
    ap
      (λ rows.
        or_error (find_first (row_at type id) rows) not_found >>= λ row. ok (resource_of row))
      h

pub get_resource-row :
    (type id : String) (db : Db) {item : Resource}
    → get_resource type id db ≡ ok item
    → (row : ResourceRow) × (find_resource type id db ≡ some row) × (resource_of row ≡ item)
unfolding get_resource
get_resource-row type id db h = elim (Option-cases (find_resource type id db)) [
  | inl missing ↦ absurd (cc (rw missing at h))
  | inr (row, found) ↦ (row, found, cc (rw found at h))
]

-- What is found when a row is added at the end.
pub get_resource-append :
    (type id : String) (db : Db) (row : ResourceRow) {item : Resource}
    → get_resource type id (record db { resources = db.resources ++ row ∷ [] }) ≡ ok item
    → (get_resource type id db ≡ ok item)
      ⊎ ((row.type ≡ type) × (row.id ≡ id) × (resource_of row ≡ item))
unfolding get_resource find_resource
get_resource-append type id db row h =
    let (found, e, same) =
      get_resource-row type id (record db { resources = db.resources ++ row ∷ [] }) h in
    elim (find_first-append (row_at type id) db.resources row e) [
      | inl old ↦ inl (rw old (ap ok same))
      | inr (at, new) ↦
          let (t, i) = (and-eq-true_iff (row.type == type) (row.id == id)).0 at in
          inr ((eq_iff row.type type).0 t, (eq_iff row.id id).0 i, ap resource_of new ∙ same)
    ]

-- What was found before is found after.
pub get_resource-append_left :
    (type id : String) (db : Db) (row : ResourceRow) {item : Resource}
    → get_resource type id db ≡ ok item
    → get_resource type id (record db { resources = db.resources ++ row ∷ [] }) ≡ ok item
unfolding get_resource find_resource
get_resource-append_left type id db row h =
    let (found, e, same) = get_resource-row type id db h in
    rw (find_first-append_left (row_at type id) db.resources (row ∷ []) e) (ap ok same)

abbrev pub without : ResourceRef → Db → Db
without ref db = record db { resources = select (λ r. not (row_at ref.type ref.id r)) db.resources }

-- Whether the names are those of the reference.
at_ref :
    (ref : ResourceRef) (type id : String)
    → ((type ≡ ref.type) × (id ≡ ref.id))
      ⊎ ((r : ResourceRow) → row_at type id r ≡ true → not (row_at ref.type ref.id r) ≡ true)
at_ref ref type id = elim (Bool-cases (type == ref.type && id == ref.id)) [
  | inl same ↦ inl (ground (arith, eq_iff type ref.type, eq_iff id ref.id))
  | inr other ↦ inr (λ r h. ground (
    arith,
    eq_iff type ref.type,
    eq_iff id ref.id,
    eq_iff r.type type,
    eq_iff r.id id,
    eq_iff r.type ref.type,
    eq_iff r.id ref.id,
  ))
]

-- What is found when the rows of `ref` are removed: never `ref`, and every other resource as before.
pub get_resource-without :
    (ref : ResourceRef) (db : Db) (type id : String)
    → ((type ≡ ref.type)
        × (id ≡ ref.id)
        × ((item : Resource) → get_resource type id (without ref db) ≢ ok item))
      ⊎ (get_resource type id (without ref db) ≡ get_resource type id db)
unfolding get_resource find_resource
get_resource-without ref db type id = elim (at_ref ref type id) [
  | inl (t, i) ↦ inl (
    t,
    i,
    λ item e.
        let gone =
          find_first-select-none (row_at type id) (λ r. not (row_at ref.type ref.id r)) db.resources
            (λ r h. rw (← t, ← i) (rw h refl)) in
        cc (rw gone at e),
  )
  | inr apart ↦ inr (
      ap (λ o. or_error o not_found >>= λ row. ok (resource_of row))
        (find_first-select (row_at type id) (λ r. not (row_at ref.type ref.id r)) db.resources
          apart))
]

abbrev reference : Option ResourceRef → ResourceRef → ResourceRef
reference none other = other
reference (some p) other = p

parent_ref-text :
    (pt pi : Option String) (ref : ResourceRef)
    → parent_ref pt pi ≡ some ref
    → ref.id ≢ ""
    → (is_text pt ref.type && is_text pi ref.id) ≡ true
parent_ref-text none pi ref h named = cc
parent_ref-text (some t) none ref h named = absurd (named (sym (ap (λ o. (reference o ref).id) h)))
parent_ref-text (some t) (some s) ref h named =
    rw
      (
        ap (λ o. (reference o ref).type) h,
        ap (λ o. (reference o ref).id) h,
        eq_refl ref.type,
        eq_refl ref.id,
      )
      refl

-- The parent of a stored resource has children, if its identifier is not empty.
pub has_children-parent :
    (ref : ResourceRef) (db : Db) (type id : String) (item : Resource)
    → get_resource type id db ≡ ok item
    → item.parent ≡ some ref
    → ref.id ≢ ""
    → has_children ref db ≡ true
unfolding has_children find_resource resource_of
has_children-parent ref db type id item h e named =
    let (row, found, same) = get_resource-row type id db h in
    let (i, _) = find_first-In (row_at type id) db.resources found in
    let texts =
      parent_ref-text row.parent_type row.parent_id ref (ap (λ r. r.parent) same ∙ e) named in
    elim (Bool-cases (has_children ref db)) [
      | inl some_child ↦ some_child
      | inr childless ↦ absurd (cc (texts, any-In (is_child ref) db.resources row childless i))
    ]
