-- ===== src/Catalog/Laws.antt =====
-- The catalogue's tables agree with one another.
use fine_grained_permissions.Base.{
  String, Bool, true, false, not, ◌&&◌, ◌||◌, Option, some, none, ◌≡◌, refl, ◌==◌, arith, In,
  eq_iff, contains_iff, eq_refl, all, all-In, Result, ok, err,
}
use fine_grained_permissions.Api.{
  ResourceType, Permission, application, cloud_credential, machine, model, unit,
}
use fine_grained_permissions.Catalog.{
  permissions, permission, supports, supported_by, has_type, relation, relation_by_permission,
  parent_rule, create_permission, read_permission, delete_permission,
}
use fine_grained_permissions.Catalog.Types.{all_types, all_names, permission-name-In, permission-In}

abbrev is_ok : {A : Type 0} → Result A → Bool
is_ok (ok _) = true
is_ok (err _) = false

abbrev is_some : {A : Type 0} → Option A → Bool
is_some (some _) = true
is_some none = false

is_ok-ok : {A : Type 0} (r : Result A) → is_ok r ≡ true → (a : A) × (r ≡ ok a)
is_ok-ok (ok a) h = (a, refl)
is_ok-ok (err e) h = cc

all_related : all (λ n. is_ok (relation n)) all_names ≡ true
unfolding all_names relation relation_by_permission
all_related = refl

-- Every permission of the catalogue has a relation.
pub relation_total :
    (name : String) {p : Permission}
    → permission name ≡ some p
    → (r : String) × (relation name ≡ ok r)
relation_total name e =
    is_ok-ok (relation name)
      (all-In (λ n. is_ok (relation n)) all_names name all_related (permission-name-In name e))

typed : Permission → Bool
typed q = all (has_type all_types) q.resource_types

all_typed : all typed permissions ≡ true
unfolding permissions typed
all_typed = refl

supported_by-In :
    (name : String) (t : ResourceType) (o : Option Permission)
    → permission name ≡ o
    → supported_by o t ≡ true
    → In name all_names × In t all_types
unfolding typed
supported_by-In name t none e h = cc
supported_by-In name t (some q) e h = (
  permission-name-In name e,
  (contains_iff all_types t).0 (
      all-In (has_type all_types) q.resource_types t
        (all-In typed permissions q all_typed (permission-In name e).0)
        ((contains_iff q.resource_types t).0 h)),
)

-- Only a permission of the catalogue is supported, and only on one of the six types.
pub supports-In :
    (name : String) (t : ResourceType) → supports name t ≡ true → In name all_names × In t all_types
unfolding supports
supports-In name t h = supported_by-In name t (permission name) refl h

abbrev pub same_result : Result String → Result String → Bool
same_result (ok r) (ok s) = r == s
same_result _ _ = false

pub same_result_of :
    (a b : Result String) (r : String) → a ≡ ok r → b ≡ ok r → same_result a b ≡ true
same_result_of a b r e k = rw (e, k) (eq_refl r)

-- Whether `q` is `p` or has another relation than `p` on resources of type `t`.
apart : ResourceType → String → String → Bool
apart t p q = not (supports p t && supports q t && same_result (relation p) (relation q)) || p == q

all-apart : all (λ t. all (λ p. all (apart t p) all_names) all_names) all_types ≡ true
unfolding apart all_names supports permission relation relation_by_permission
all-apart = refl

-- Two permissions checked on one type of resource have different relations: no decision about one
-- permission can be read as a decision about another.
pub relation_injective :
    (t : ResourceType) (p q : String) {r : String}
    → supports p t ≡ true
    → supports q t ≡ true
    → relation p ≡ ok r
    → relation q ≡ ok r
    → p ≡ q
unfolding apart
relation_injective t p q {r} hp hq ep eq =
    let (np, mt) = supports-In p t hp in
    let (nq, _) = supports-In q t hq in
    let table : apart t p q ≡ true =
      all-In (apart t p) all_names q
        (all-In (λ n. all (apart t n) all_names) all_names p
          (all-In (λ s. all (λ n. all (apart s n) all_names) all_names) all_types t all-apart mt)
          np)
        nq in
    (eq_iff p q).0 (ground (arith, same_result_of (relation p) (relation q) r ep eq))

abbrev pub or_empty : Option String → String
or_empty none = ""
or_empty (some s) = s

-- On the types that have such permissions: the permission to create is checked on every allowed
-- parent, those to read and delete on the resource itself.
fits : ResourceType → Bool
fits t =
    not (is_some (create_permission t))
    || all (supports (or_empty (create_permission t))) (parent_rule t)
      && supports (or_empty (read_permission t)) t
      && supports (or_empty (delete_permission t)) t

all_fit : all fits all_types ≡ true
unfolding fits supports permission permissions create_permission read_permission delete_permission
    parent_rule
all_fit = refl

create_permission-In :
    (t : ResourceType) {p : String} → create_permission t ≡ some p → In t all_types
unfolding create_permission
create_permission-In t e = ground (
  arith,
  eq_iff t model,
  eq_iff t application,
  eq_iff t unit,
  eq_iff t machine,
  eq_iff t cloud_credential,
)

-- Where a resource of type `t` can be created, the permission to create it is one that the engine
-- checks on every type that `ParentRule` allows as its parent, and the permissions to read and to
-- delete it are ones that the engine checks on `t` itself.
pub create_permission_fits :
    (t : ResourceType) {p : String}
    → create_permission t ≡ some p
    → ((u : ResourceType) → In u (parent_rule t) → supports p u ≡ true)
      × (supports (or_empty (read_permission t)) t ≡ true)
      × (supports (or_empty (delete_permission t)) t ≡ true)
unfolding fits
create_permission_fits t {p} e =
    let table : fits t ≡ true = all-In fits all_types t all_fit (create_permission-In t e) in
    let parts : (all (supports p) (parent_rule t) ≡ true)
        × (supports (or_empty (read_permission t)) t ≡ true)
        × (supports (or_empty (delete_permission t)) t ≡ true) =
      ground arith in
    (λ u m. all-In (supports p) (parent_rule t) u parts.0 m, parts.1, parts.2)
