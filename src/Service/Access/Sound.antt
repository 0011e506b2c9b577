-- ===== src/Service/Access/Sound.antt =====
-- Whoever the model gives a relation by the tuples of the tables, the tables authorize.
use Prim.Native.String.{◌++◌ as append}
use fine_grained_permissions.Base.{
  String, true, some, ◌≡◌, inl, inr, refl, sym, ap, ◌∙◌, subst, In, ok, no_colon, colon_inj,
}
use fine_grained_permissions.Api.{Resource, ResourceRef, scope_match}
use fine_grained_permissions.Catalog.{supports, open_fga_type, resource_object, parent_rule}
use fine_grained_permissions.Catalog.Types.{all_types}
use fine_grained_permissions.OpenFga.Compiled.{supports_iff}
use fine_grained_permissions.OpenFga.Grants.{targets_of-IsTarget}
use fine_grained_permissions.OpenFga.{Tuple, relation_at_scope}
use fine_grained_permissions.OpenFga.Relations.{
  relation_at_scope_exact, relation_at_scope_injective_for, all-apart_scope,
}
use fine_grained_permissions.OpenFga.Model.{object, stored_tuple, Holds, named, belongs, inherited}
use fine_grained_permissions.OpenFga.Model.Tables.{
  resource_object_inj, parent_rule-all_types, open_fga_type-no_colon,
}
use fine_grained_permissions.Store.{Db}
use fine_grained_permissions.Store.Resources.{get_resource}
use fine_grained_permissions.Service.Scopes.Hierarchy.{parent_rule-In}
use fine_grained_permissions.Service.Scopes.Laws.{here}
use fine_grained_permissions.Service.Desired.Laws.{Wanted}
use fine_grained_permissions.Service.Access.{IsSound, IsFor, Authorized}
use fine_grained_permissions.Service.Access.Tuples.{Granted, Wanted-parent, Wanted-Granted}
use fine_grained_permissions.Service.Access.Subjects.{GrantFor, Holds-subject}
use fine_grained_permissions.Service.Access.Words.{
  listed_binding-same, words_differ, user_word, group_member_word, grant_word, userset_word,
}
use fine_grained_permissions.Service.Access.Says.{
  grant_set, Says, Says-Line, Says-object, Says-defined, Authorized-up, parent_rule-ne, grant_ids,
  Holds-no_colon, from_some,
}

module _ (db : Db) (sound : IsSound db) (S : Tuple → Type 0)
    (wanted : (t : Tuple) → S t → Wanted db t) (user_id : String) where
  -- The tuple of a permission comes from a binding that grants it on the resource itself.
  record Source (p : String) (ref : ResourceRef) (user : String) : Type 0 where
    g_tuple : Tuple
    g : Granted db g_tuple
    of_user : user ≡ append "grant:" (append g.binding.id "#subject")
    of_permission : g.permission ≡ p
    of_target : g.target ≡ ref

  stored-Source :
      (p : String) (ref : ResourceRef) (relation type id user : String)
      → Says p ref relation type id
      → S (stored_tuple user relation type id)
      → Source p ref user
  stored-Source p ref relation type id user says s =
      let g = Wanted-Granted db sound _ (wanted _ s) (Says-Line says).own in
      let targets : g.target ≡ ref =
        resource_object_inj g.target ref g.typed says.typed
          (sym (ap (λ t. t.object) g.made) ∙ sym (Says-object says)) in
      record {
        g_tuple = stored_tuple user relation type id;
        g = g;
        of_user = ap (λ t. t.user) g.made;
        of_permission =
            relation_at_scope_injective_for scope_match all-apart_scope ref.type g.permission p
              (sound.known g.binding.role_id g.permission g.role g.has_role g.permitted) says.known
              (ap (λ t. relation_at_scope g.permission t.type scope_match) (sym targets) ∙ g.scoped)
              says.compiled;
        of_target = targets;
      }

  Source-Authorized :
      (p : String) (ref : ResourceRef) (id user : String) (source : Source p ref user)
      → GrantFor db sound S wanted user_id id
      → source.g.binding.id ≡ id
      → Authorized db user_id p ref
  Source-Authorized p ref id user source f e =
      let g = source.g in
      let same : f.binding ≡ g.binding =
        listed_binding-same db f.bindings g.bindings f.binding g.binding f.listed g.listed f.stands
          g.stands (f.own ∙ sym e) in
      record {
        bindings = g.bindings;
        binding = g.binding;
        role = g.role;
        listed = g.listed;
        stands = g.stands;
        for_user = subst (λ b. IsFor db b user_id) same f.for_user;
        has_role = g.has_role;
        permitted = subst (λ q. In q g.role.permissions) source.of_permission g.permitted;
        reaches = (
          g.target,
          (targets_of-IsTarget g.binding g.targets g.selected g.target).0 g.chosen,
          λ exact. (supports_iff p g.target.type).0 (
              ap (λ q. supports q g.target.type) (sym source.of_permission)
              ∙ (relation_at_scope_exact g.permission g.target.type (
                  ap (λ m. relation_at_scope g.permission g.target.type m) (sym exact)
                  ∙ g.compiled)).0),
          here ref (sym source.of_target),
        );
      }

  -- An edge of the hierarchy, from the object that says the permission.
  record Edge (ref : ResourceRef) (type id : String) : Type 0 where
    item : Resource
    above : ResourceRef
    found : get_resource ref.type ref.id db ≡ ok item
    parent : item.parent ≡ some above
    allowed : In above.type (parent_rule ref.type)
    typed : In above.type all_types
    of_type : open_fga_type above.type ≡ type
    of_id : above.id ≡ id

  stored-Edge :
      (p : String) (ref : ResourceRef) (relation type id parent_type parent_id : String)
      → Says p ref relation type id
      → no_colon parent_type ≡ true
      → S (stored_tuple (object parent_type parent_id) "parent" type id)
      → Edge ref parent_type parent_id
  unfolding resource_object
  stored-Edge p ref relation type id parent_type parent_id says plain s =
      let (item, above, found, e, same) = Wanted-parent db sound _ (wanted _ s) refl in
      let (other, e', ok_parent, _) = sound.hierarchy.parented item.type item.id item found in
      let one : other ≡ above = cc (e, e') in
      let allowed = subst (λ o. In o.type (parent_rule item.type)) one ok_parent in
      let item_typed = parent_rule-In item.type above.type allowed in
      let above_typed = parent_rule-all_types item.type above.type item_typed allowed in
      let refs : ref ≡ record { id = item.id; type = item.type } =
        resource_object_inj ref (record { id = item.id; type = item.type }) says.typed item_typed
          (Says-object says ∙ ap (λ t. t.object) same) in
      let (types, ids) =
        colon_inj parent_type (open_fga_type above.type) parent_id above.id plain
          (open_fga_type-no_colon above.type above_typed) (ap (λ t. t.user) same) in
      record {
        item = item;
        above = above;
        found = ap (λ r. get_resource r.type r.id db) refs ∙ found;
        parent = e;
        allowed = subst (λ t. In above.type (parent_rule t)) (sym (ap (λ r. r.type) refs)) allowed;
        typed = above_typed;
        of_type = sym types;
        of_id = sym ids;
      }

  pub Holds-Authorized :
      (relation type id : String)
      → Holds S user_id relation type id
      → (p : String) (ref : ResourceRef) → Says p ref relation type id
      → Authorized db user_id p ref
  Holds-Authorized relation type id (named _ _ _ d defined users s) p ref says =
      let source = stored-Source p ref relation type id (append "user:" user_id) says s in
      absurd (
        words_differ "user" "grant" user_id (append source.g.binding.id "#subject") refl refl refl (
          sym (user_word user_id)
          ∙ source.of_user
          ∙ grant_word (append source.g.binding.id "#subject")))
  Holds-Authorized relation type id (belongs _ _ _ st sr si d defined k s h) p ref says =
      let source = stored-Source p ref relation type id _ says s in
      elim (subst (λ l. In (st, sr) l)
        (ap (λ d. d.usersets) (Says-defined says d defined) ∙ (Says-Line says).usersets) k) [
          | inl group ↦ absurd (
              words_differ "group" "grant" (append si "#member")
                (append source.g.binding.id "#subject") refl refl refl
                (sym (group_member_word si)
                  ∙ userset_word st sr si (ap (λ q. q.0) group) (ap (λ q. q.1) group)
                  ∙ source.of_user
                  ∙ grant_word (append source.g.binding.id "#subject")))
          | inr rest ↦ elim rest [
            | inl grant ↦
                Source-Authorized p ref si _ source
                  (Holds-subject db sound S wanted user_id sr st si h (ap (λ q. q.1) grant)
                    (ap (λ q. q.0) grant))
                  (sym (
                    grant_ids si source.g.binding.id (
                      grant_set st sr si (ap (λ q. q.0) grant) (ap (λ q. q.1) grant)
                      ∙ source.of_user)))
            | inr other ↦ absurd other
          ]
        ]
  Holds-Authorized relation type id (inherited _ _ _ above pt pi d defined ups s h) p ref says =
      let edge =
        stored-Edge p ref relation type id pt pi says (Holds-no_colon S user_id above pt pi h) s in
      let (r, goes, compiled) = (Says-Line says).above edge.above.type edge.allowed in
      let same : some r ≡ some above =
        sym goes ∙ sym (ap (λ l. l.from_parent) (Says-defined says d defined)) ∙ ups in
      Authorized-up db user_id p ref edge.above edge.item
        (parent_rule-ne ref.type edge.above.type edge.allowed) edge.found edge.parent
        (Holds-Authorized above pt pi h p edge.above (record {
          known = says.known;
          typed = edge.typed;
          of_type = edge.of_type;
          of_id = edge.of_id;
          compiled = compiled ∙ ap (λ o. ok (from_some o r)) same;
        }))
