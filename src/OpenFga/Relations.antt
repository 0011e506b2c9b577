-- ===== src/OpenFga/Relations.antt =====
-- `relationAtScope`: different permissions never meet in one relation.
use fine_grained_permissions.Base.{
  String, Bool, true, not, ◌||◌, some, ◌≡◌, refl, ◌==◌, arith, ◌⊎◌, inl, inr, In, eq_iff,
  Bool-cases, all, all-In, ok,
}
use fine_grained_permissions.Api.{
  ResourceType, SelectorMatch, Permission, application, controller, model, exact_match, scope_match,
}
use fine_grained_permissions.Catalog.{
  permissions, permission, supports, relation, relation_by_permission,
}
use fine_grained_permissions.Catalog.Types.{all_types, all_names, permission-name-In}
use fine_grained_permissions.Catalog.Laws.{supports-In, same_result, same_result_of}
use fine_grained_permissions.OpenFga.{inherits, prefix, relation_at_scope}

-- For an exact selector only a permission that is checked on the target's type is accepted.
pub relation_at_scope_exact :
    (p : String) (t : ResourceType) {r : String}
    → relation_at_scope p t exact_match ≡ ok r
    → (supports p t ≡ true) × (relation p ≡ ok r)
unfolding relation_at_scope
relation_at_scope_exact p t e = elim (Bool-cases (supports p t)) [
  | inl s ↦ (s, rw s at e)
  | inr n ↦ absurd (ground arith)
]

inherits-In : (t : ResourceType) (p : String) → inherits t p ≡ true → In t all_types
unfolding inherits
inherits-In t p h = ground (arith, eq_iff t controller, eq_iff t model, eq_iff t application)

pub relation_at_scope-In :
    (p : String) (t : ResourceType) (m : SelectorMatch) {r : String}
    → relation_at_scope p t m ≡ ok r
    → In t all_types
unfolding relation_at_scope
relation_at_scope-In p t m e = elim (Bool-cases (supports p t)) [
  | inl s ↦ (supports-In p t s).1
  | inr n ↦ inherits-In t (prefix p) (ground arith)
]

pub apart : SelectorMatch → ResourceType → String → String → Bool
apart m t p q = not (same_result (relation_at_scope p t m) (relation_at_scope q t m)) || p == q

pub all-apart_scope :
    all (λ t. all (λ p. all (apart scope_match t p) all_names) all_names) all_types ≡ true
unfolding apart all_names supports permission permissions relation relation_by_permission
    relation_at_scope inherits
all-apart_scope = refl

all-apart_exact :
    all (λ t. all (λ p. all (apart exact_match t p) all_names) all_names) all_types ≡ true
unfolding apart all_names supports permission permissions relation relation_by_permission
    relation_at_scope inherits
all-apart_exact = refl

pub relation_at_scope_injective_for :
    (m : SelectorMatch)
    → all (λ t. all (λ p. all (apart m t p) all_names) all_names) all_types ≡ true
    → (t : ResourceType) (p q : String) {r : String} → In p all_names
    → In q all_names
    → relation_at_scope p t m ≡ ok r
    → relation_at_scope q t m ≡ ok r
    → p ≡ q
unfolding apart
relation_at_scope_injective_for m table t p q {r} np nq ep eq =
    let found : apart m t p q ≡ true =
      all-In (apart m t p) all_names q
        (all-In (λ n. all (apart m t n) all_names) all_names p
          (all-In (λ s. all (λ n. all (apart m s n) all_names) all_names) all_types t table
            (relation_at_scope-In p t m ep))
          np)
        nq in
    (eq_iff p q).0
      (ground (arith, same_result_of (relation_at_scope p t m) (relation_at_scope q t m) r ep eq))

-- Two permissions of the catalogue that a binding compiles to one relation on a type of target are
-- the same permission, for a scope selector and for an exact one: no role grants, through the
-- relation of one of its permissions, a permission that it does not hold.
pub relation_at_scope_injective :
    (m : SelectorMatch) (t : ResourceType) (p q : String) {a b : Permission} {r : String}
    → (m ≡ scope_match) ⊎ (m ≡ exact_match)
    → permission p ≡ some a
    → permission q ≡ some b
    → relation_at_scope p t m ≡ ok r
    → relation_at_scope q t m ≡ ok r
    → p ≡ q
relation_at_scope_injective m t p q (inl e) hp hq ep eq =
    relation_at_scope_injective_for scope_match all-apart_scope t p q (permission-name-In p hp)
      (permission-name-In q hq) (rw e at ep) (rw e at eq)
relation_at_scope_injective m t p q (inr e) hp hq ep eq =
    relation_at_scope_injective_for exact_match all-apart_exact t p q (permission-name-In p hp)
      (permission-name-In q hq) (rw e at ep) (rw e at eq)
