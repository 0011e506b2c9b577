-- ===== src/Service/Scopes/Laws.antt =====
-- The walks up the hierarchy answer what they mean to, and end.
use fine_grained_permissions.Base.{
  ℕ, zero, suc, ◌<◌, String, Bool, true, false, ◌||◌, none, some, ◌≡◌, ◌≢◌, ◌↔◌, ◌⊎◌, inl, inr,
  refl, ◌==◌, arith, eq_iff, eq_refl, Bool-cases, Option-cases, Result, ok, err, diverged, ◌>>=◌,
  >>=-eq-ok, on_result, ==-false, ◌∙◌,
}
use fine_grained_permissions.Api.{ResourceRef, Resource, controller, model, ref_eq}
use fine_grained_permissions.Store.{Db}
use fine_grained_permissions.Store.Resources.{get_resource, find_resource}
use fine_grained_permissions.Service.Scopes.{
  scope_fuel, management_scope_from, management_scope, is_within_scope_from, is_within_scope,
}
use fine_grained_permissions.Service.Scopes.Hierarchy.{IsHierarchy, depth, depth-le, depth-parent}

-- `ref` is the scope itself, or a stored resource whose parent lies within the scope.
pub data Below (db : Db) (scope : ResourceRef) : ResourceRef → Type 0 where
  here : (ref : ResourceRef) → ref ≡ scope → Below db scope ref
  up :
      (ref parent : ResourceRef) (item : Resource)
      → ref.type ≢ controller
      → get_resource ref.type ref.id db ≡ ok item
      → item.parent ≡ some parent
      → Below db scope parent
      → Below db scope ref

pub ref_eq_iff : (a b : ResourceRef) → (ref_eq a b ≡ true) ↔ (a ≡ b)
ref_eq_iff a b = (
  λ h. ground (arith, eq_iff a.id b.id, eq_iff a.type b.type),
  λ e. rw e (ground (arith, eq_refl b.id, eq_refl b.type)),
)

-- The round of the loop of `isWithinScope` at a resource that is neither the scope nor a controller.
abbrev climb : ℕ → ResourceRef → ResourceRef → Db → Result Bool
climb fuel ref scope db = get_resource ref.type ref.id db >>= λ resource. elim resource.parent [
  | none ↦ ok false
  | some parent ↦ is_within_scope_from fuel parent scope db
]

is_within_scope-Below :
    (fuel : ℕ) (ref scope : ResourceRef) (db : Db)
    → is_within_scope_from fuel ref scope db ≡ ok true
    → Below db scope ref
unfolding is_within_scope_from
is_within_scope-Below zero ref scope db h = cc
is_within_scope-Below (suc fuel) ref scope db h = elim (Bool-cases (ref_eq ref scope)) [
  | inl same ↦ here ref ((ref_eq_iff ref scope).0 same)
  | inr other ↦ elim (Bool-cases (ref.type == controller)) [
    | inl top ↦ absurd (cc (rw (other, top) at h))
    | inr below ↦
        let (item, found, h') =
          >>=-eq-ok (get_resource ref.type ref.id db) _ (rw (other, below) at h) in
        elim (Option-cases item.parent) [
          | inl none_left ↦ absurd (cc (rw none_left at h'))
          | inr (parent, e) ↦
              up ref parent item (λ top. cc (rw (top, eq_refl controller) at below)) found e
                (is_within_scope-Below fuel parent scope db (rw e at h'))
        ]
  ]
]

get_resource-ne-diverged : (type id : String) (db : Db) → get_resource type id db ≢ err diverged
unfolding get_resource
get_resource-ne-diverged type id db h = elim (Option-cases (find_resource type id db)) [
  | inl missing ↦ cc (rw missing at h)
  | inr (row, found) ↦ cc (rw found at h)
]

-- The parent of a stored resource stands nearer to the controller.
parent-depth :
    {db : Db} (h : IsHierarchy db) (ref parent : ResourceRef) (item : Resource)
    → get_resource ref.type ref.id db ≡ ok item
    → item.parent ≡ some parent
    → depth parent.type < depth ref.type
parent-depth h ref parent item found e =
    let (p, same, allowed, _) = h.parented ref.type ref.id item found in
    let equal : p ≡ parent = cc (same, e) in depth-parent ref.type parent.type (rw equal at allowed)

-- In a hierarchy the loop ends before its fuel does.
is_within_scope-ends :
    (fuel : ℕ) (ref scope : ResourceRef) (db : Db)
    → IsHierarchy db
    → depth ref.type < fuel
    → is_within_scope_from fuel ref scope db ≢ err diverged
unfolding is_within_scope_from
is_within_scope-ends zero ref scope db t lt h = elim lt [ ]
is_within_scope-ends (suc fuel) ref scope db t lt h = elim (Bool-cases (ref_eq ref scope)) [
  | inl same ↦ cc (rw same at h)
  | inr other ↦ elim (Bool-cases (ref.type == controller)) [
    | inl top ↦ cc (rw (other, top) at h)
    | inr below ↦
        let h' : climb fuel ref scope db ≡ err diverged = rw (other, below) at h in
        on_result (get_resource ref.type ref.id db)
          (λ e failed. get_resource-ne-diverged ref.type ref.id db (failed ∙ cc (rw failed at h')))
          (λ item found. elim (Option-cases item.parent) [
            | inl none_left ↦ cc (rw none_left at (rw found at h'))
            | inr (parent, e) ↦
                let nearer = parent-depth t ref parent item found e in
                is_within_scope-ends fuel parent scope db t (omega arith) (rw e at (rw found at h'))
          ])
  ]
]

Below-is_within_scope :
    (db : Db) (scope ref : ResourceRef)
    → IsHierarchy db
    → Below db scope ref
    → (fuel : ℕ) → depth ref.type < fuel
    → is_within_scope_from fuel ref scope db ≡ ok true
unfolding is_within_scope_from
Below-is_within_scope db scope ref t w zero lt = elim lt [ ]
Below-is_within_scope db scope ref t (here _ same) (suc fuel) lt =
    rw ((ref_eq_iff ref scope).1 same) refl
Below-is_within_scope db scope ref t (up _ parent item below found e w) (suc fuel) lt =
    elim (Bool-cases (ref_eq ref scope)) [
      | inl same ↦ rw same refl
      | inr other ↦
          let nearer = parent-depth t ref parent item found e in
          rw (other, ==-false ref.type controller below)
            (rw found (rw e (Below-is_within_scope db scope parent t w fuel (omega arith))))
    ]

-- In a hierarchy, `isWithinScope` ends, and answers true exactly for the scope and what is stored
-- below it.
pub is_within_scope_iff :
    (ref scope : ResourceRef) (db : Db)
    → IsHierarchy db
    → (is_within_scope ref scope db ≢ err diverged)
      × ((is_within_scope ref scope db ≡ ok true) ↔ Below db scope ref)
unfolding is_within_scope
is_within_scope_iff ref scope db t =
    let enough = depth-le ref.type in
    (
      is_within_scope-ends scope_fuel ref scope db t (omega arith),
      (
        is_within_scope-Below scope_fuel ref scope db,
        λ w. Below-is_within_scope db scope ref t w scope_fuel (omega arith),
      ),
    )

-- Where policy is managed: the controller or a model.
abbrev pub IsPolicyScope : ResourceRef → Type 0
IsPolicyScope ref = (ref.type ≡ controller) ⊎ (ref.type ≡ model)

abbrev ends_walk : ResourceRef → Bool
ends_walk ref = ref.type == controller || ref.type == model

management_scope-Below :
    (fuel : ℕ) (ref top : ResourceRef) (db : Db)
    → management_scope_from fuel ref db ≡ ok top
    → IsPolicyScope top × Below db top ref
unfolding management_scope_from
management_scope-Below zero ref top db h = cc
management_scope-Below (suc fuel) ref top db h = elim (Bool-cases (ends_walk ref)) [
  | inl stop ↦
      let same : ref ≡ top = cc (rw stop at h) in
      (
        rw (← same) (ground (arith, eq_iff ref.type controller, eq_iff ref.type model)),
        here ref same,
      )
  | inr go ↦
      let (item, found, h') = >>=-eq-ok (get_resource ref.type ref.id db) _ (rw go at h) in
      elim (Option-cases item.parent) [
        | inl none_left ↦ absurd (cc (rw none_left at h'))
        | inr (parent, e) ↦
            let (scoped, within) = management_scope-Below fuel parent top db (rw e at h') in
            (scoped, up ref parent item (λ t. cc (rw (t, eq_refl controller) at go)) found e within)
      ]
]

management_scope-ends :
    (fuel : ℕ) (ref : ResourceRef) (db : Db)
    → IsHierarchy db
    → depth ref.type < fuel
    → management_scope_from fuel ref db ≢ err diverged
unfolding management_scope_from
management_scope-ends zero ref db t lt h = elim lt [ ]
management_scope-ends (suc fuel) ref db t lt h = elim (Bool-cases (ends_walk ref)) [
  | inl stop ↦ cc (rw stop at h)
  | inr go ↦
      on_result (get_resource ref.type ref.id db)
        (λ e failed.
          get_resource-ne-diverged ref.type ref.id db (failed ∙ cc (rw failed at (rw go at h))))
        (λ item found. elim (Option-cases item.parent) [
          | inl none_left ↦ cc (rw none_left at (rw found at (rw go at h)))
          | inr (parent, e) ↦
              let nearer = parent-depth t ref parent item found e in
              management_scope-ends fuel parent db t (omega arith)
                (rw e at (rw found at (rw go at h)))
        ])
]

-- In a hierarchy, `managementScope` ends, and what it returns is the controller or a model, and lies
-- at the given resource or above it.
pub management_scope_sound :
    (ref : ResourceRef) (db : Db)
    → IsHierarchy db
    → (management_scope ref db ≢ err diverged)
      × ((top : ResourceRef)
          → management_scope ref db ≡ ok top
          → IsPolicyScope top × Below db top ref)
unfolding management_scope
management_scope_sound ref db t =
    let enough = depth-le ref.type in
    (
      management_scope-ends scope_fuel ref db t (omega arith),
      λ top. management_scope-Below scope_fuel ref top db,
    )
