-- ===== src/Service/Access/Decisions.antt =====
-- The decisions of `Check` implement what the tables authorize.
use fine_grained_permissions.Base.{
  String, true, ◌≡◌, ◌↔◌, List, In, refl, sym, ap, ◌∙◌, subst, ok, any-passes, In-any, eq_iff,
  eq_refl, ◌==◌,
}
use fine_grained_permissions.Api.{ResourceRef, AuthorizationDecision, scope_match}
use fine_grained_permissions.Catalog.{relation, supports, open_fga_type, resource_object}
use fine_grained_permissions.Catalog.Types.{all_names, permission-name-In}
use fine_grained_permissions.OpenFga.{Tuple, Client}
use fine_grained_permissions.OpenFga.Relations.{relation_at_scope-In}
use fine_grained_permissions.OpenFga.Model.{Holds}
use fine_grained_permissions.OpenFga.Model.Tables.{
  supports-relation_at_scope, open_fga_type-no_colon,
}
use fine_grained_permissions.OpenFga.Server.{Server, Evaluator, Stored}
use fine_grained_permissions.Store.{Db}
use fine_grained_permissions.Store.Projection.{tuple_key}
use fine_grained_permissions.Store.Projection.Laws.{has}
use fine_grained_permissions.Store.Projection.Keys.{IsPlain, tuple_key_inj}
use fine_grained_permissions.Service.{World}
use fine_grained_permissions.Service.Check.{check}
use fine_grained_permissions.Service.Check.Laws.{check_iff_Answered}
use fine_grained_permissions.Service.Desired.{desired_tuples}
use fine_grained_permissions.Service.Desired.Laws.{Wanted, desired_tuples_iff}
use fine_grained_permissions.Service.Sync.{sync}
use fine_grained_permissions.Service.Sync.Laws.{InStep, sync-InStep}
use fine_grained_permissions.Service.Access.{IsSound, Authorized}
use fine_grained_permissions.Service.Access.Sound.{Holds-Authorized}
use fine_grained_permissions.Service.Access.Says.{Says}
use fine_grained_permissions.Service.Access.Complete.{Authorized-Holds}

-- The relation of a permission that applies to the resource's type.
Says-supported :
    (p : String) (ref : ResourceRef) (r : String)
    → In p all_names
    → supports p ref.type ≡ true
    → relation p ≡ ok r
    → Says p ref r (open_fga_type ref.type) ref.id
Says-supported p ref r known s e =
    let compiled = supports-relation_at_scope p ref.type r s e in
    record {
      known = known;
      typed = relation_at_scope-In p ref.type scope_match compiled;
      of_type = refl;
      of_id = refl;
      compiled = compiled;
    }

-- By the model in internal/openfga/model.fga, the tuples that `Sync` computes from sound tables give a
-- user the relation of a permission of the catalogue to a resource of a type it applies to, exactly
-- when the tables authorize it: a binding for the user, or for a group she is a member of, has a role
-- with that permission and reaches the resource.
pub Holds-iff_Authorized :
    (db : Db) (ts : List Tuple) (user_id p : String) (ref : ResourceRef) (r : String)
    → IsSound db
    → desired_tuples db ≡ ok ts
    → In p all_names
    → supports p ref.type ≡ true
    → relation p ≡ ok r
    → Holds (λ t. In t ts) user_id r (open_fga_type ref.type) ref.id ↔ Authorized db user_id p ref
Holds-iff_Authorized db ts user_id p ref r sound h known s e =
    let says = Says-supported p ref r known s e in
    let each = desired_tuples_iff db ts h in
    (
      λ holds. Holds-Authorized db sound _ (λ t. (each t).0) user_id r _ _ holds p ref says,
      Authorized-Holds db sound _ (λ t. (each t).1) user_id p ref r _ _ says,
    )

module _ {E : Type 0} (client : Client E) (server : Server client)
    (evaluator : Evaluator server) where
  -- The server holds the tuples that the tables stand for, and these are plain.
  record IsSettled (db : Db) (e : E) : Type 0 where
    desired : List Tuple
    computed : desired_tuples db ≡ ok desired
    plain : (t : Tuple) → In t desired → IsPlain t
    held : (k : String) → server.holds e k ≡ has k desired

  Stored-Wanted : (db : Db) (e : E) → IsSettled db e → (t : Tuple) → Stored server e t → Wanted db t
  Stored-Wanted db e settled t s =
      let (u, i, same) =
        any-passes (λ v. tuple_key t == tuple_key v) settled.desired
          (sym (settled.held (tuple_key t)) ∙ s) in
      let equal =
        tuple_key_inj t u (settled.plain u i) ((eq_iff (tuple_key t) (tuple_key u)).0 same) in
      subst (Wanted db) (sym equal) ((desired_tuples_iff db settled.desired settled.computed u).0 i)

  Wanted-Stored : (db : Db) (e : E) → IsSettled db e → (t : Tuple) → Wanted db t → Stored server e t
  Wanted-Stored db e settled t w =
      settled.held (tuple_key t)
      ∙ In-any (λ v. tuple_key t == tuple_key v) settled.desired t
          ((desired_tuples_iff db settled.desired settled.computed t).1 w) (eq_refl (tuple_key t))

  check-settled :
      (db : Db) (w : World E) (principal p : String) (ref : ResourceRef) (d : AuthorizationDecision)
      → IsSound db
      → IsSettled db w.engine
      → check client principal p ref w ≡ ok d
      → (d.allowed ≡ true) ↔ Authorized db principal p ref
  unfolding resource_object
  check-settled db w principal p ref d sound settled h =
      let (question, (r, e, s, answered), _) =
        (check_iff_Answered client principal p ref w d).0 h in
      let says = Says-supported p ref r (permission-name-In p question.listed.1) s e in
      let law =
        evaluator.check_law principal r (open_fga_type ref.type) ref.id w.engine d.allowed
          (open_fga_type-no_colon ref.type says.typed) answered in
      (
        λ yes_answer.
            Holds-Authorized db sound _ (Stored-Wanted db w.engine settled) principal r _ _
              (law.0 yes_answer) p ref says,
        λ a. law.1 (
            Authorized-Holds db sound _ (Wanted-Stored db w.engine settled) principal p ref r _ _
              says a),
      )

  -- End to end, over a server that makes the changes of the writes it accepts and answers checks by the
  -- model: after a `Sync` that succeeds from a state where the server is in step with the projection,
  -- on sound tables that stand for tuples with no bar in their fields, each decision of `Check` is
  -- positive exactly when the tables authorize the principal.
  pub sync-check_iff_Authorized :
      (w w' : World E) (ts : List Tuple) (principal p : String) (ref : ResourceRef)
      (d : AuthorizationDecision)
      → IsSound w.db
      → InStep client server w
      → desired_tuples w.db ≡ ok ts
      → ((t : Tuple) → In t ts → IsPlain t)
      → sync client w ≡ (ok tt, w')
      → check client principal p ref w' ≡ ok d
      → (d.allowed ≡ true) ↔ Authorized w.db principal p ref
  sync-check_iff_Authorized w w' ts principal p ref d sound step computed plain synced answered =
      let (_, (desired, found, held)) = sync-InStep client server w w' step synced in
      let same : desired ≡ ts = cc (found, computed) in
      check-settled w.db w' principal p ref d sound
        (record {
          desired = ts;
          computed = computed;
          plain = plain;
          held = λ k. held k ∙ ap (has k) same;
        })
        answered
