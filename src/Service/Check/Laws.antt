-- ===== src/Service/Check/Laws.antt =====
-- What a decision of `Check` rests on.
use fine_grained_permissions.Base.{
  String, true, not, ◌&&◌, Option, some, none, ◌≡◌, ◌≢◌, ◌↔◌, ◌⊎◌, inl, inr, refl, sym, ap, ◌==◌,
  eq_iff, eq_refl, Bool-cases, ==-false, ok, Error, forbidden, not_found, guard, or_error,
  >>=-eq-ok, guard-eq-ok, and-eq-true_iff,
}
use fine_grained_permissions.Api.{
  ResourceRef, Resource, AuthorizationDecision, Permission, controller, resource_type_valid,
}
use fine_grained_permissions.Catalog.{controller_id, permission}
use fine_grained_permissions.OpenFga
use fine_grained_permissions.OpenFga.{Client}
use fine_grained_permissions.OpenFga.Decisions.{Asked, check_iff}
use fine_grained_permissions.Store.{Db}
use fine_grained_permissions.Store.Resources.{get_resource}
use fine_grained_permissions.Service.{World}
use fine_grained_permissions.Service.Check.{locate, validate_check, check, require, decision}

-- The resource is the controller, or has a row in the store.
abbrev pub Located : ResourceRef → Db → Type 0
Located resource db =
    ((resource.type ≡ controller) × (resource.id ≡ controller_id))
    ⊎ ((resource.type ≢ controller)
        × ((item : Resource) × (get_resource resource.type resource.id db ≡ ok item)))

locate-Located :
    (resource : ResourceRef) (db : Db) → locate resource db ≡ ok tt → Located resource db
unfolding locate
locate-Located resource db h = elim (Bool-cases (resource.type == controller)) [
  | inl same ↦ inl (
    (eq_iff resource.type controller).0 same,
    (eq_iff resource.id controller_id).0 (guard-eq-ok _ not_found (rw same at h)),
  )
  | inr other ↦
      let (item, found, _) =
        >>=-eq-ok (get_resource resource.type resource.id db) (λ _. ok tt) (rw other at h) in
      inr (λ same. cc (rw (same, eq_refl controller) at other), (item, found))
]

Located-locate :
    (resource : ResourceRef) (db : Db) → Located resource db → locate resource db ≡ ok tt
unfolding locate
Located-locate resource db (inl (t, i)) = rw (t, i) refl
Located-locate resource db (inr (t, (item, found))) =
    rw (==-false resource.type controller t, found) refl

-- The request is well formed, and its resource exists.
pub record IsQuestion (principal name : String) (resource : ResourceRef) (db : Db) : Type 0 where
  pub named : principal ≢ ""
  pub typed : resource_type_valid resource.type ≡ true
  pub identified : resource.id ≢ ""
  pub listed : (p : Permission) × (permission name ≡ some p)
  pub located : Located resource db

not-eq : (s t : String) → not (s == t) ≡ true → s ≢ t
not-eq s t h e = cc (rw (e, eq_refl t) at h)

or_error-eq-ok : {A : Type 0} (o : Option A) (e : Error) {a : A} → or_error o e ≡ ok a → o ≡ some a
or_error-eq-ok none e h = cc
or_error-eq-ok (some a) e h = cc

validate_check-IsQuestion :
    (principal name : String) (resource : ResourceRef) (db : Db)
    → validate_check principal name resource db ≡ ok tt
    → IsQuestion principal name resource db
unfolding validate_check
validate_check-IsQuestion principal name resource db h =
    let (_, h₁, k₁) = >>=-eq-ok (guard (not (principal == "")) _) _ h in
    let (_, h₂, k₂) =
      >>=-eq-ok (guard (resource_type_valid resource.type && not (resource.id == "")) _) _ k₁ in
    let (p, h₃, k₃) = >>=-eq-ok (or_error (permission name) _) _ k₂ in
    let both = guard-eq-ok (resource_type_valid resource.type && not (resource.id == "")) _ h₂ in
    record {
      named = not-eq principal "" (guard-eq-ok _ _ h₁);
      typed = ((and-eq-true_iff _ _).0 both).0;
      identified = not-eq resource.id "" ((and-eq-true_iff _ _).0 both).1;
      listed = (p, or_error-eq-ok (permission name) _ h₃);
      located = locate-Located resource db k₃;
    }

IsQuestion-validate_check :
    (principal name : String) (resource : ResourceRef) (db : Db)
    → IsQuestion principal name resource db
    → validate_check principal name resource db ≡ ok tt
unfolding validate_check
IsQuestion-validate_check principal name resource db q =
    rw (==-false principal "" q.named, q.typed, ==-false resource.id "" q.identified, q.listed.1)
      (Located-locate resource db q.located)

module _ {E : Type 0} (client : Client E) where
  -- What the decision `d` rests on.
  abbrev pub Answered : String → String → ResourceRef → World E → AuthorizationDecision → Type 0
  Answered principal name resource w d =
      IsQuestion principal name resource w.db
      × Asked client principal name resource w.engine d.allowed
      × (d ≡ decision d.allowed name resource)

  -- `Check` decides exactly when the principal and the resource's identifier are not empty, the type
  -- is valid, the permission is in the catalogue and applies to the type, the resource exists, and
  -- the server answers about the permission's relation. The decision is then the server's answer, for
  -- that permission and that resource.
  pub check_iff_Answered :
      (principal name : String) (resource : ResourceRef) (w : World E) (d : AuthorizationDecision)
      → (check client principal name resource w ≡ ok d) ↔ Answered principal name resource w d
  unfolding check
  check_iff_Answered principal name resource w d = (to, from)
    where
      to : check client principal name resource w ≡ ok d → Answered principal name resource w d
      to h =
          let (_, valid, h') = >>=-eq-ok (validate_check principal name resource w.db) _ h in
          let (b, answered, same) =
            >>=-eq-ok (OpenFga.check client principal name resource w.engine) _ h' in
          let built : decision b name resource ≡ d = cc same in
          rw (← built) (
            validate_check-IsQuestion principal name resource w.db valid,
            (check_iff client principal name resource w.engine b).0 answered,
            refl,
          )

      from : Answered principal name resource w d → check client principal name resource w ≡ ok d
      from (q, a, same) =
          rw
            (
              IsQuestion-validate_check principal name resource w.db q,
              (check_iff client principal name resource w.engine d.allowed).1 a,
            )
            (ap ok (sym same))

  -- `require` passes exactly on a positive decision.
  pub require_iff :
      (actor name : String) (resource : ResourceRef) (w : World E)
      → (require client actor name resource w ≡ ok tt)
        ↔ (check client actor name resource w ≡ ok (decision true name resource))
  unfolding require
  require_iff actor name resource w = (to, λ e. rw e refl)
    where
      to :
          require client actor name resource w ≡ ok tt
          → check client actor name resource w ≡ ok (decision true name resource)
      to h =
          let (d, checked, passed) = >>=-eq-ok (check client actor name resource w) _ h in
          let positive : d.allowed ≡ true = guard-eq-ok d.allowed forbidden passed in
          let (_, _, same) = (check_iff_Answered actor name resource w d).0 checked in
          rw checked (ap ok (rw positive at same))
