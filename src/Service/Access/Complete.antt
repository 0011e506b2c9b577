-- ===== src/Service/Access/Complete.antt =====
-- Whoever the tables authorize has the relation of the model by the tuples of the tables.
use Prim.Native.String.{◌++◌ as append}
use text.Mathlib.TextLemmas.{append_assoc}
use fine_grained_permissions.Base.{
  String, true, List, [], ◌∷◌, some, ◌≡◌, inl, inr, refl, sym, ap, ◌∙◌, subst, In, ok,
}
use fine_grained_permissions.Api.{ResourceRef, Binding, scope_match, exact_match}
use fine_grained_permissions.Catalog.{parent_rule, supports, resource_object, open_fga_type}
use fine_grained_permissions.OpenFga.{
  Tuple, relation_at_scope, membership_tuple, subject_tuple, targets_of,
}
use fine_grained_permissions.OpenFga.Model.{
  Define, definition, lines, object, Holds, named, belongs, inherited,
}
use fine_grained_permissions.OpenFga.Model.Tables.{parent_rule-all_types}
use fine_grained_permissions.Store.{Db}
use fine_grained_permissions.Store.Bindings.{list_bindings}
use fine_grained_permissions.Store.Resources.{get_resource}
use fine_grained_permissions.Service.Scopes.Laws.{Below, here, up}
use fine_grained_permissions.Service.Desired.Items.{get_resource-names}
use fine_grained_permissions.Service.Desired.Laws.{Wanted, parent, member, subject, granted}
use fine_grained_permissions.Service.Access.{IsSound, IsFor, Authorized}
use fine_grained_permissions.OpenFga.Compiled.{supports_iff}
use fine_grained_permissions.OpenFga.Grants.{IsTarget-targets_of}
use fine_grained_permissions.OpenFga.Tuples.{targets_of-match}
use fine_grained_permissions.Service.Access.Words.{
  user_word, group_word, grant_word, userset_word, subject_user-tuple, subject_group-tuple,
}
use fine_grained_permissions.Service.Access.Says.{Says, Says-Line, Says-object}

member_line : (d : Define) × (definition "group" "member" ≡ some d) × (d.users ≡ true)
unfolding definition lines
member_line = (_, refl, refl)

subject_line :
    (d : Define) × (definition "grant" "subject" ≡ some d)
    × (d.users ≡ true)
    × (d.usersets ≡ ("group", "member") ∷ [])
unfolding definition lines
subject_line = (_, refl, refl, refl)

-- A permission that is compiled for a scope is compiled alike for a resource that is named exactly and
-- takes it.
compiled_either :
    (binding : Binding) (targets : List ResourceRef) (p r : String) (target : ResourceRef)
    → targets_of binding ≡ ok targets
    → (binding.selector.match ≡ exact_match → supports p target.type ≡ true)
    → relation_at_scope p target.type scope_match ≡ ok r
    → relation_at_scope p target.type binding.selector.match ≡ ok r
unfolding relation_at_scope
compiled_either binding targets p r target selected takes e =
    elim (targets_of-match binding targets selected) [
      | inl scoped ↦ rw scoped e
      | inr exact ↦ rw (takes exact) (rw (takes exact) at e)
    ]

grant_user :
    (id : String)
    → append (object "grant" id) (append "#" "subject") ≡ append "grant:" (append id "#subject")
grant_user id =
    ap (λ w. append w "#subject") (sym (grant_word id)) ∙ append_assoc "grant:" id "#subject"

same_tuple :
    {u v o q : String} (r : String)
    → u ≡ v
    → o ≡ q
    → ◌≡◌ {A = Tuple}
        (record { user = u; relation = r; object = o })
        (record { user = v; relation = r; object = q })
same_tuple r users objects = λ i. record { user = users i; relation = r; object = objects i }

Says-definition :
    {p : String} {ref : ResourceRef} {r type id : String} (says : Says p ref r type id)
    → definition type r ≡ some (Says-Line says).line
Says-definition {r = r} says =
    ap (λ t. definition t r) (sym says.of_type) ∙ (Says-Line says).defined

module _ (db : Db) (sound : IsSound db) (S : Tuple → Type 0)
    (kept : (t : Tuple) → Wanted db t → S t) (user_id : String) where
  member-Holds :
      (id : String) → In (id, user_id) db.group_members → Holds S user_id "member" "group" id
  unfolding membership_tuple
  member-Holds id i =
      let (d, defined, users) = member_line in
      named "member" "group" id d defined users
        (kept _ (member id user_id i (same_tuple "member" refl (sym (group_word id)))))

  subject-Holds :
      (bindings : List Binding) (binding : Binding)
      → list_bindings db ≡ ok bindings
      → In binding bindings
      → IsFor db binding user_id
      → Holds S user_id "subject" "grant" binding.id
  unfolding subject_tuple
  subject-Holds bindings binding e i (inl (kind, own)) =
      let (d, defined, users, _) = subject_line in
      named "subject" "grant" binding.id d defined users (
        kept _ (
          subject bindings binding e i (
            same_tuple "subject"
              (user_word user_id
                ∙ ap (λ u. append "user" (append ":" u)) (sym own)
                ∙ sym (subject_user-tuple binding kind))
              (sym (grant_word binding.id)))))
  subject-Holds bindings binding e i (inr (kind, inside)) =
      let (d, defined, _, groups) = subject_line in
      belongs "subject" "grant" binding.id "group" "member" binding.subject_id d defined
        (subst (λ l. In {A = String × String} ("group", "member") l) (sym groups) (inl refl))
        (kept _ (
          subject bindings binding e i (
            same_tuple "subject"
              (sym (userset_word "group" "member" binding.subject_id refl refl)
                ∙ sym (subject_group-tuple binding kind))
              (sym (grant_word binding.id)))))
        (member-Holds binding.subject_id inside)

  -- A binding for the user whose role has the permission.
  module _ (p : String) (resource : ResourceRef) (a : Authorized db user_id p resource)
      (targets : List ResourceRef) (target : ResourceRef)
      (selected : targets_of a.binding ≡ ok targets) (chosen : In target targets)
      (takes : a.binding.selector.match ≡ exact_match → supports p target.type ≡ true) where
    granted-Holds : (r type id : String) → Says p target r type id → Holds S user_id r type id
    granted-Holds r type id says =
        let line = Says-Line says in
        let compiled = compiled_either a.binding targets p r target selected takes says.compiled in
        belongs r type id "grant" "subject" a.binding.id line.line (Says-definition says)
          (subst (λ l. In {A = String × String} ("grant", "subject") l) (sym line.usersets)
            (inr (inl refl)))
          (kept _ (
            granted a.bindings a.binding a.role targets a.listed a.stands a.has_role selected (
              p,
              a.permitted,
              (
                r,
                target,
                chosen,
                compiled,
                same_tuple r (grant_user a.binding.id) (sym (Says-object says)),
              ),
            )))
          (subject-Holds a.bindings a.binding a.listed a.stands a.for_user)

    Below-Holds :
        (ref : ResourceRef)
        → Below db target ref
        → (r type id : String) → Says p ref r type id
        → Holds S user_id r type id
    unfolding resource_object
    Below-Holds ref (here _ same) r type id says =
        granted-Holds r type id (subst (λ t. Says p t r type id) same says)
    Below-Holds ref (up _ above item below found e w) r type id says =
        let (other, e', parent_ok, _) = sound.hierarchy.parented ref.type ref.id item found in
        let one : other ≡ above = cc (e, e') in
        let allowed = subst (λ o. In o.type (parent_rule ref.type)) one parent_ok in
        let (s, goes, compiled) = (Says-Line says).above above.type allowed in
        let (types, ids) = get_resource-names ref.type ref.id db item found in
        let refs : ref ≡ record { id = item.id; type = item.type } =
          λ i. record { id = sym ids i; type = sym types i } in
        inherited r type id s (open_fga_type above.type) above.id (Says-Line says).line
          (Says-definition says) goes
          (kept _ (
            parent item above (ap (λ q. get_resource q.type q.id db) (sym refs) ∙ found) e
              (same_tuple "parent" refl (sym (Says-object says) ∙ ap resource_object refs))))
          (Below-Holds above w s (open_fga_type above.type) above.id (record {
            known = says.known;
            typed = parent_rule-all_types ref.type above.type says.typed allowed;
            of_type = refl;
            of_id = refl;
            compiled = compiled;
          }))

  pub Authorized-Holds :
      (p : String) (ref : ResourceRef) (r type id : String)
      → Says p ref r type id
      → Authorized db user_id p ref
      → Holds S user_id r type id
  Authorized-Holds p ref r type id says a =
      let (target, is_target, takes, under) = a.reaches in
      let (targets, selected, chosen) = IsTarget-targets_of a.binding target is_target in
      Below-Holds p ref a targets target selected chosen
        (λ exact. (supports_iff p target.type).1 (takes exact)) ref under r type id says
