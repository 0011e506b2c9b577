-- ===== src/Tests/Decisions.antt =====
-- The small deployment under a server that answers one question, by the model: whether Ann may read the
-- application. It answers when it holds the three tuples that give her the relation.
use Prim.Native.String.{◌++◌ as append}
use text.Mathlib.TextLemmas.{append_cancel_left}
use fine_grained_permissions.Base.{
  String, Bool, true, ◌&&◌, ◌==◌, none, some, List, [], ◌∷◌, ◌≡◌, refl, sym, ap, inl, inr, In,
  subst, if◌then◌else◌, Bool-cases, eq_iff, contains_iff, and-eq-true_iff, colon_inj,
}
use fine_grained_permissions.Catalog.{permissions}
use fine_grained_permissions.Catalog.Types.{all_names}
use fine_grained_permissions.OpenFga.{Tuple, Client}
use fine_grained_permissions.OpenFga.Model.{
  Holds, named, belongs, inherited, definition, lines, object, stored_tuple,
}
use fine_grained_permissions.OpenFga.Server.{Server, Evaluator, Stored}
use fine_grained_permissions.Store.{RoleRow}
use fine_grained_permissions.Store.Projection.{tuple_key}
use fine_grained_permissions.Store.Projection.Laws.{has}
use fine_grained_permissions.Store.Roles.{get_role, find_role, role_of, role_permissions}
use fine_grained_permissions.Store.Bindings.{list_bindings, get_binding, binding_of, find_binding}
use fine_grained_permissions.Service.Access.{IsSound}
use fine_grained_permissions.Tests.Deployment.{
  demo_with, demo_server, tables, tables-IsHierarchy, binding_row,
}

abbrev edge_tuple : Tuple
edge_tuple = stored_tuple "model:prod" "parent" "application" "pay"

abbrev grant_tuple : Tuple
grant_tuple = stored_tuple "grant:b1#subject" "application_read" "model" "prod"

abbrev subject_of_grant : Tuple
subject_of_grant = stored_tuple "user:ann" "subject" "grant" "b1"

abbrev gives : List Tuple → Bool
gives e =
    has (tuple_key edge_tuple) e
    && (has (tuple_key grant_tuple) e && has (tuple_key subject_of_grant) e)

abbrev asks : Tuple → Bool
asks t = t.user == "user:ann" && (t.relation == "read" && t.object == "application:pay")

abbrev pub deciding : Client (List Tuple)
deciding = demo_with (λ t e. if asks t && gives e then some true else none)

abbrev pub deciding_server : Server deciding
deciding_server = record { holds = demo_server.holds; write_law = demo_server.write_law }

gives-Holds :
    (e : List Tuple)
    → gives e ≡ true
    → Holds (Stored deciding_server e) "ann" "read" "application" "pay"
unfolding definition lines
gives-Holds e h =
    let (edge, rest) = (and-eq-true_iff (has (tuple_key edge_tuple) e) _).0 h in
    let (grant, subject) = (and-eq-true_iff (has (tuple_key grant_tuple) e) _).0 rest in
    inherited "read" "application" "pay" "application_read" "model" "prod" _ refl refl edge (
      belongs "application_read" "model" "prod" "grant" "subject" "b1" _ refl (inr (inl refl)) grant
        (named "subject" "grant" "b1" _ refl refl subject))

pub deciding-Evaluator : Evaluator deciding_server
deciding-Evaluator = record {
  check_law = λ user_id relation type id e b plain h.
      elim (Bool-cases (asks (stored_tuple (append "user:" user_id) relation type id) && gives e)) [
        | inr other ↦ absurd (cc (rw other at h))
        | inl answered ↦
            let (asked, given) =
              (and-eq-true_iff (asks (stored_tuple (append "user:" user_id) relation type id))
                  (gives e)).0
                answered in
            let (u, rest) = (and-eq-true_iff (append "user:" user_id == "user:ann") _).0 asked in
            let (r, o) =
              (and-eq-true_iff (relation == "read") (object type id == "application:pay")).0 rest in
            let users =
              append_cancel_left "user:" user_id "ann"
                ((eq_iff (append "user:" user_id) "user:ann").0 u) in
            let (types, ids) =
              colon_inj type "application" id "pay" plain refl
                ((eq_iff (object type id) "application:pay").0 o) in
            let positive : true ≡ b = cc (rw answered at h) in
            (
              λ _. rw (users, (eq_iff relation "read").0 r, types, ids) (gives-Holds e given),
              λ _. sym positive,
            )
      ];
}

abbrev viewer_row : RoleRow
viewer_row = record { id = "viewer"; name = "viewer"; description = ""; revision = 1; built_in = 0 }

pub reads : (p : String) → In p ("application.read" ∷ []) → In p all_names
unfolding all_names permissions
reads p (inl e) =
    subst (λ q. In q all_names) (sym e) ((contains_iff all_names "application.read").0 refl)
reads p (inr other) = absurd other

pub tables-IsSound : IsSound tables
unfolding get_role find_role role_of role_permissions all_names permissions list_bindings
    get_binding find_binding binding_of
tables-IsSound = record {
  hierarchy = tables-IsHierarchy;
  known = λ id p role h i. elim (Bool-cases ("viewer" == id)) [
    | inl viewer ↦
        let same : role_of viewer_row ("application.read" ∷ []) ≡ role = cc (rw viewer at h) in
        reads p (subst (λ r. In p r.permissions) (sym same) i)
    | inr other ↦ absurd (cc (rw other at h))
  ];
  subjects = λ bindings binding h i.
      let same : binding_of binding_row ∷ [] ≡ bindings = cc h in
      elim (subst (λ l. In binding l) (sym same) i) [
        | inl one ↦ inl (ap (λ b. b.subject_type) one)
        | inr other ↦ absurd other
      ];
}
