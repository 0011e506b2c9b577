-- ===== src/OpenFga/Compiled.antt =====
-- The relation that `relationAtScope` compiles a permission to, told from the catalogue and the name of
-- the permission.
use fine_grained_permissions.Base.{
  String, Bool, true, List, [], ◌∷◌, some, ◌≡◌, ◌↔◌, ◌⊎◌, inl, inr, refl, sym, ap, eq_iff, eq_refl,
  In, all, all-In, Bool-cases, Option-cases, Result, ok, err, contains_iff, text_cases,
}
use fine_grained_permissions.Api.{ResourceType, SelectorMatch, Permission, exact_match, scope_match}
use fine_grained_permissions.Catalog.{
  permissions, permission, relation_by_permission, relation, supports, supported_by, lookup,
}
use fine_grained_permissions.Catalog.Laws.{same_result}
use fine_grained_permissions.Catalog.Types.{permission-In}
use fine_grained_permissions.OpenFga.{prefix, inherits, relation_at_scope}
use fine_grained_permissions.OpenFga.Spelled.{Spelled, relation_name_iff}
use fine_grained_permissions.OpenFga.Flows.{Flows, inherits-Flows, Flows-inherits}

-- The permission is checked on the type, by its entry in the catalogue.
abbrev pub Applies : String → ResourceType → Type 0
Applies p t =
    (entry : Permission) × In entry permissions × (entry.name ≡ p) × In t entry.resource_types

-- The relation under which the permission is written on a type: that of the catalogue where the
-- permission is checked, and for a scope selector its own name where it flows down.
abbrev pub Compiled : SelectorMatch → String → ResourceType → String → Type 0
Compiled m p t r =
    (Applies p t × In (p, r) relation_by_permission)
    ⊎ ((m ≡ scope_match) × (¬ Applies p t) × Flows t p × Spelled p r)

all_supported : all (λ e. all (supports e.name) e.resource_types) permissions ≡ true
unfolding supports permission permissions
all_supported = refl

supported_by-In :
    (p : String) (t : ResourceType) → supported_by (permission p) t ≡ true → Applies p t
supported_by-In p t h = elim (Option-cases (permission p)) [
  | inl missing ↦ absurd (cc (rw missing at h))
  | inr (entry, e) ↦
      let (listed, name) = permission-In p e in
      (entry, listed, name, (contains_iff entry.resource_types t).0 (rw e at h))
]

pub supports_iff : (p : String) (t : ResourceType) → (supports p t ≡ true) ↔ Applies p t
unfolding supports
supports_iff p t = (to, from)
  where
    to : supports p t ≡ true → Applies p t
    to h = supported_by-In p t h

    from : Applies p t → supports p t ≡ true
    from (entry, listed, name, on) = rw (← name) (
        all-In (supports entry.name) entry.resource_types t
          (all-In (λ e. all (supports e.name) e.resource_types) permissions entry all_supported
            listed)
          on)

lookup-In :
    (p : String) (table : List (String × String)) {r : String}
    → lookup p table ≡ some r
    → In (p, r) table
lookup-In p [] h = cc
lookup-In p ((q, s) ∷ table) h = elim (text_cases q p) [
  | inl here ↦ inl (cc (rw (here, eq_refl p) at h))
  | inr other ↦ inr (lookup-In p table (rw other at h))
]

named_so : String × String → Bool
named_so row = same_result (relation row.0) (ok row.1)

all-named_so : all named_so relation_by_permission ≡ true
unfolding named_so relation relation_by_permission
all-named_so = refl

same_result-ok : (a : Result String) (r : String) → same_result a (ok r) ≡ true → a ≡ ok r
same_result-ok (ok s) r h = ap ok ((eq_iff s r).0 h)
same_result-ok (err e) r h = cc

relation_iff : (p r : String) → (relation p ≡ ok r) ↔ In (p, r) relation_by_permission
unfolding relation named_so
relation_iff p r = (to, from)
  where
    to : relation p ≡ ok r → In (p, r) relation_by_permission
    to h = elim (Option-cases (lookup p relation_by_permission)) [
      | inl missing ↦ absurd (cc (rw missing at h))
      | inr (s, e) ↦ lookup-In p relation_by_permission (cc (rw e at h))
    ]

    from : In (p, r) relation_by_permission → relation p ≡ ok r
    from i =
        same_result-ok (relation p) r (all-In named_so relation_by_permission (p, r) all-named_so i)

pub relation_at_scope-Compiled :
    (p : String) (t : ResourceType) (m : SelectorMatch) {r : String}
    → (m ≡ scope_match) ⊎ (m ≡ exact_match)
    → relation_at_scope p t m ≡ ok r
    → Compiled m p t r
unfolding relation_at_scope
relation_at_scope-Compiled p t m {r} known h = elim (Bool-cases (supports p t)) [
  | inl s ↦ inl ((supports_iff p t).0 s, (relation_iff p r).0 (rw s at h))
  | inr n ↦ elim known [
    | inr exact ↦ absurd (cc (rw (n, exact) at h))
    | inl scoped ↦ elim (Bool-cases (inherits t (prefix p))) [
      | inr kept ↦ absurd (cc (rw (n, scoped, kept) at h))
      | inl down ↦ inr (
        scoped,
        λ a. cc (n, (supports_iff p t).1 a),
        inherits-Flows t p down,
        (relation_name_iff p r).0 (cc (rw (n, scoped, down) at h)),
      )
    ]
  ]
]

pub Compiled-relation_at_scope :
    (p : String) (t : ResourceType) (m : SelectorMatch) {r : String}
    → Compiled m p t r
    → relation_at_scope p t m ≡ ok r
unfolding relation_at_scope
Compiled-relation_at_scope p t m {r} (inl (on, row)) =
    rw ((supports_iff p t).1 on) ((relation_iff p r).1 row)
Compiled-relation_at_scope p t m {r} (inr (scoped, off, flows, spelled)) =
    elim (Bool-cases (supports p t)) [
      | inl s ↦ absurd (off ((supports_iff p t).0 s))
      | inr n ↦
          rw (n, scoped, Flows-inherits t p flows) (ap ok (sym ((relation_name_iff p r).1 spelled)))
    ]
