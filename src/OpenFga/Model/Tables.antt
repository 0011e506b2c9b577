-- ===== src/OpenFga/Model/Tables.antt =====
-- The model and the catalogue agree: facts that hold of the whole tables.
use fine_grained_permissions.Base.{
  String, Bool, true, false, not, ◌&&◌, ◌||◌, Option, none, some, List, [], ◌∷◌, ◌≡◌, ◌≢◌, ◌⊎◌, inl,
  inr, refl, sym, ap, ◌==◌, arith, eq_iff, eq_refl, In, all, all-In, Option-cases, Result, ok, err,
  no_colon, colon_inj, and-eq-true_iff, find_first-In, contains_iff,
}
use fine_grained_permissions.Api.{
  ResourceType, ResourceRef, SelectorMatch, scope_match, exact_match,
}
use fine_grained_permissions.Catalog.{
  parent_rule, permissions, permission, supports, relation, relation_by_permission, open_fga_type,
  resource_object, has_type,
}
use fine_grained_permissions.Catalog.Types.{all_types, all_names}
use fine_grained_permissions.Catalog.Laws.{same_result}
use fine_grained_permissions.OpenFga.{relation_at_scope, inherits}
use fine_grained_permissions.OpenFga.Relations.{relation_at_scope_exact}
use fine_grained_permissions.OpenFga.Model.{Define, definition, lines}

-- The usersets that a resource's relation may name.
abbrev pub grantees : List (String × String)
grantees = ("group", "member") ∷ ("grant", "subject") ∷ []

-- The line of the model for the relation `r` of the permission `p` on the type `t`: it takes groups
-- and grants, and on every type of parent it goes on to the relation of the same permission there.
pub record Line (p : String) (t : ResourceType) (r : String) : Type 0 where
  pub line : Define
  pub defined : definition (open_fga_type t) r ≡ some line
  pub usersets : line.usersets ≡ grantees
  pub above :
      (u : ResourceType)
      → In u (parent_rule t)
      → (s : String) × (line.from_parent ≡ some s) × (relation_at_scope p u scope_match ≡ ok s)
  pub own : (r ≢ "parent") × (r ≢ "member") × (r ≢ "subject")

abbrev takes_grantees : List (String × String) → Bool
takes_grantees ((a, b) ∷ (c, d) ∷ []) =
    a == "group" && b == "member" && c == "grant" && d == "subject"
takes_grantees _ = false

abbrev goes_on : String → Option String → ResourceType → Bool
goes_on p none u = false
goes_on p (some s) u = same_result (relation_at_scope p u scope_match) (ok s)

abbrev line_fits : String → ResourceType → Option Define → Bool
line_fits p t none = false
line_fits p t (some d) = takes_grantees d.usersets && all (goes_on p d.from_parent) (parent_rule t)

abbrev own_name : String → Bool
own_name r = not (r == "parent") && not (r == "member") && not (r == "subject")

abbrev result_fits : String → ResourceType → Result String → Bool
result_fits p t (err _) = true
result_fits p t (ok r) = own_name r && line_fits p t (definition (open_fga_type t) r)

fits : ResourceType → String → Bool
fits t p = result_fits p t (relation_at_scope p t scope_match)

all_fit : all (λ t. all (fits t) all_names) all_types ≡ true
unfolding fits all_names supports permission permissions relation relation_by_permission
    relation_at_scope inherits definition lines parent_rule open_fga_type
all_fit = refl

takes_grantees-eq : (us : List (String × String)) → takes_grantees us ≡ true → us ≡ grantees
takes_grantees-eq [] h = cc
takes_grantees-eq (_ ∷ []) h = cc
takes_grantees-eq ((a, b) ∷ (c, d) ∷ []) h =
    ground (arith, eq_iff a "group", eq_iff b "member", eq_iff c "grant", eq_iff d "subject")
takes_grantees-eq (_ ∷ _ ∷ _ ∷ _) h = cc

same_result-eq : (a : Result String) (s : String) → same_result a (ok s) ≡ true → a ≡ ok s
same_result-eq (ok r) s h = ap ok ((eq_iff r s).0 h)
same_result-eq (err e) s h = cc

goes_on-eq :
    (p : String) (o : Option String) (u : ResourceType)
    → goes_on p o u ≡ true
    → (s : String) × (o ≡ some s) × (relation_at_scope p u scope_match ≡ ok s)
goes_on-eq p none u h = cc
goes_on-eq p (some s) u h = (s, refl, same_result-eq (relation_at_scope p u scope_match) s h)

own_name-ne : (r s : String) → not (r == s) ≡ true → r ≢ s
own_name-ne r s h e = cc (rw (e, eq_refl s) at h)

-- Each permission of the catalogue has its line on each type that it is granted on.
pub relation_at_scope-Line :
    (p : String) (t : ResourceType) (r : String)
    → In p all_names
    → In t all_types
    → relation_at_scope p t scope_match ≡ ok r
    → Line p t r
unfolding fits
relation_at_scope-Line p t r ip it h =
    let table : fits t p ≡ true =
      all-In (fits t) all_names p (all-In (λ u. all (fits u) all_names) all_types t all_fit it)
        ip in
    let (own, rest) = (and-eq-true_iff (own_name r) _).0 (rw h at table) in
    elim (Option-cases (definition (open_fga_type t) r)) [
      | inl missing ↦ absurd (cc (rw missing at rest))
      | inr (d, defined) ↦
          let (us, ups) = (and-eq-true_iff (takes_grantees d.usersets) _).0 (rw defined at rest) in
          let (both, n₃) = (and-eq-true_iff _ (not (r == "subject"))).0 own in
          let (n₁, n₂) = (and-eq-true_iff (not (r == "parent")) (not (r == "member"))).0 both in
          record {
            line = d;
            defined = defined;
            usersets = takes_grantees-eq d.usersets us;
            above = λ u i.
                goes_on-eq p d.from_parent u
                  (all-In (goes_on p d.from_parent) (parent_rule t) u ups i);
            own =
                (own_name-ne r "parent" n₁, own_name-ne r "member" n₂, own_name-ne r "subject" n₃);
          }
    ]

-- An exact selector compiles a permission as a scope selector does, where it compiles it at all.
pub relation_at_scope-either :
    (p : String) (t : ResourceType) (m : SelectorMatch) (r : String)
    → (m ≡ scope_match) ⊎ (m ≡ exact_match)
    → relation_at_scope p t m ≡ ok r
    → relation_at_scope p t scope_match ≡ ok r
unfolding relation_at_scope
relation_at_scope-either p t m r (inl scoped) h = rw scoped at h
relation_at_scope-either p t m r (inr exact) h =
    let (s, e) = relation_at_scope_exact p t (rw exact at h) in rw s e

pub supports-relation_at_scope :
    (p : String) (t : ResourceType) (r : String)
    → supports p t ≡ true
    → relation p ≡ ok r
    → relation_at_scope p t scope_match ≡ ok r
unfolding relation_at_scope
supports-relation_at_scope p t r s e = rw s e

one_word : ResourceType → Bool
one_word t =
    no_colon (open_fga_type t)
    && not (open_fga_type t == "group")
    && not (open_fga_type t == "grant")

all-one_word : all one_word all_types ≡ true
unfolding one_word open_fga_type
all-one_word = refl

all_types_differ :
    all (λ t. all (λ u. not (open_fga_type t == open_fga_type u) || t == u) all_types) all_types
    ≡ true
unfolding open_fga_type
all_types_differ = refl

pub open_fga_type-no_colon : (t : ResourceType) → In t all_types → no_colon (open_fga_type t) ≡ true
unfolding one_word
open_fga_type-no_colon t i =
    let table : one_word t ≡ true = all-In one_word all_types t all-one_word i in
    ((and-eq-true_iff (no_colon (open_fga_type t)) _).0
      ((and-eq-true_iff _ (not (open_fga_type t == "grant"))).0 table).0).0

open_fga_type_inj :
    (t u : ResourceType)
    → In t all_types
    → In u all_types
    → open_fga_type t ≡ open_fga_type u
    → t ≡ u
open_fga_type_inj t u it iu e =
    let table =
      all-In (λ w. not (open_fga_type t == open_fga_type w) || t == w) all_types u
        (all-In (λ v. all (λ w. not (open_fga_type v == open_fga_type w) || v == w) all_types)
          all_types t all_types_differ it)
        iu in
    (eq_iff t u).0 (rw (e, eq_refl (open_fga_type u)) at table)

-- Two resources of the six types have one object only if they are the same.
pub resource_object_inj :
    (a b : ResourceRef)
    → In a.type all_types
    → In b.type all_types
    → resource_object a ≡ resource_object b
    → a ≡ b
unfolding resource_object
resource_object_inj a b ia ib e =
    let (types, ids) =
      colon_inj (open_fga_type a.type) (open_fga_type b.type) a.id b.id
        (open_fga_type-no_colon a.type ia) (open_fga_type-no_colon b.type ib) e in
    let same = open_fga_type_inj a.type b.type ia ib types in
    λ i. record { id = ids i; type = same i }

all_line_words : all (λ d. no_colon d.type) lines ≡ true
unfolding lines
all_line_words = refl

-- A type with a relation is one word.
pub definition-no_colon :
    (type relation : String) (d : Define) → definition type relation ≡ some d → no_colon type ≡ true
unfolding definition
definition-no_colon type relation d h =
    let (i, at) =
      find_first-In (λ (l : Define). l.type == type && l.relation == relation) lines h in
    let (same, _) = (and-eq-true_iff (d.type == type) (d.relation == relation)).0 at in
    rw (← (eq_iff d.type type).0 same)
      (all-In (λ (l : Define). no_colon l.type) lines d all_line_words i)

abbrev line_of : Option Define → Define → Define
line_of none d = d
line_of (some l) d = l

-- The lines of the two types that are no resources.
pub definition-member :
    (d : Define) → definition "group" "member" ≡ some d → (d.usersets ≡ []) × (d.from_parent ≡ none)
unfolding definition lines
definition-member d h =
    let same = ap (λ o. line_of o d) h in
    (sym (ap (λ l. l.usersets) same), sym (ap (λ l. l.from_parent) same))

pub definition-subject :
    (d : Define)
    → definition "grant" "subject" ≡ some d
    → (d.usersets ≡ ("group", "member") ∷ []) × (d.from_parent ≡ none)
unfolding definition lines
definition-subject d h =
    let same = ap (λ o. line_of o d) h in
    (sym (ap (λ l. l.usersets) same), sym (ap (λ l. l.from_parent) same))

all_parents : all (λ t. all (has_type all_types) (parent_rule t)) all_types ≡ true
unfolding parent_rule
all_parents = refl

-- The types of parents are of the six.
pub parent_rule-all_types :
    (t u : ResourceType) → In t all_types → In u (parent_rule t) → In u all_types
parent_rule-all_types t u it iu = (contains_iff all_types u).0 (
    all-In (has_type all_types) (parent_rule t) u
      (all-In (λ v. all (has_type all_types) (parent_rule v)) all_types t all_parents it) iu)
