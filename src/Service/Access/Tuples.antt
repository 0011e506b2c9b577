-- ===== src/Service/Access/Tuples.antt =====
-- Which row a tuple comes from, by its relation.
use fine_grained_permissions.Base.{
  String, false, ◌==◌, eq_refl, List, some, ◌≡◌, ◌≢◌, refl, sym, ap, ◌∙◌, In, ok,
}
use fine_grained_permissions.Api.{ResourceRef, Resource, Role, Binding, scope_match}
use fine_grained_permissions.Catalog.Types.{all_types}
use fine_grained_permissions.OpenFga.{
  Tuple, targets_of, relation_at_scope, grant_subject, membership_tuple, subject_tuple,
}
use fine_grained_permissions.OpenFga.Relations.{relation_at_scope-In}
use fine_grained_permissions.OpenFga.Tuples.{Grants, tuple, targets_of-match}
use fine_grained_permissions.OpenFga.Model.Tables.{
  Line, relation_at_scope-Line, relation_at_scope-either,
}
use fine_grained_permissions.Store.{Db}
use fine_grained_permissions.Store.Roles.{get_role}
use fine_grained_permissions.Store.Bindings.{list_bindings}
use fine_grained_permissions.Store.Resources.{get_resource}
use fine_grained_permissions.Service.Desired.Items.{parent_edge}
use fine_grained_permissions.Service.Desired.Laws.{Wanted, parent, member, subject, granted}
use fine_grained_permissions.Service.Access.{IsSound}

pub differ : (s t : String) → (s == t) ≡ false → s ≢ t
differ s t h e = cc (h, ap (λ u. u == t) e ∙ eq_refl t)

-- A tuple that gives a permission of a role on a target.
pub record Granted (db : Db) (t : Tuple) : Type 0 where
  pub bindings : List Binding
  pub binding : Binding
  pub role : Role
  pub targets : List ResourceRef
  pub permission : String
  pub target : ResourceRef
  pub listed : list_bindings db ≡ ok bindings
  pub stands : In binding bindings
  pub has_role : get_role binding.role_id db ≡ ok role
  pub selected : targets_of binding ≡ ok targets
  pub permitted : In permission role.permissions
  pub chosen : In target targets
  pub typed : In target.type all_types
  pub compiled : relation_at_scope permission target.type binding.selector.match ≡ ok t.relation
  pub scoped : relation_at_scope permission target.type scope_match ≡ ok t.relation
  pub line : Line permission target.type t.relation
  pub made : t ≡ tuple (grant_subject binding) t.relation target

module _ (db : Db) (sound : IsSound db) where
  Granted-parts :
      (t : Tuple) (bindings : List Binding) (binding : Binding) (role : Role)
      (targets : List ResourceRef)
      → list_bindings db ≡ ok bindings
      → In binding bindings
      → get_role binding.role_id db ≡ ok role
      → targets_of binding ≡ ok targets
      → Grants binding role.permissions targets t
      → Granted db t
  Granted-parts t bindings binding role targets e k found te
        (p, ip, (r, target, it, compiled, same)) =
      let named : r ≡ t.relation = sym (ap (λ u. u.relation) same) in
      let own = compiled ∙ ap ok named in
      let typed = relation_at_scope-In p target.type binding.selector.match own in
      let scoped =
        relation_at_scope-either p target.type binding.selector.match t.relation
          (targets_of-match binding targets te) own in
      record {
        bindings = bindings;
        binding = binding;
        role = role;
        targets = targets;
        permission = p;
        target = target;
        listed = e;
        stands = k;
        has_role = found;
        selected = te;
        permitted = ip;
        chosen = it;
        typed = typed;
        compiled = own;
        scoped = scoped;
        line =
            relation_at_scope-Line p target.type t.relation
              (sound.known binding.role_id p role found ip) typed scoped;
        made = same ∙ ap (λ s. tuple (grant_subject binding) s target) named;
      }

  -- An edge of the hierarchy.
  pub Wanted-parent :
      (t : Tuple)
      → Wanted db t
      → t.relation ≡ "parent"
      → (item : Resource) × (above : ResourceRef) × (get_resource item.type item.id db ≡ ok item)
        × (item.parent ≡ some above)
        × (t ≡ parent_edge item above)
  unfolding membership_tuple subject_tuple
  Wanted-parent t (parent item above found e same) r = (item, above, found, e, same)
  Wanted-parent t (member g u k same) r =
      absurd (differ "member" "parent" refl (sym (ap (λ u. u.relation) same) ∙ r))
  Wanted-parent t (subject bs b e k same) r =
      absurd (differ "subject" "parent" refl (sym (ap (λ u. u.relation) same) ∙ r))
  Wanted-parent t (granted bs b role targets e k found te g) r =
      absurd ((Granted-parts t bs b role targets e k found te g).line.own.0 r)

  -- A membership.
  pub Wanted-member :
      (t : Tuple)
      → Wanted db t
      → t.relation ≡ "member"
      → (group_id : String) × (user_id : String) × In (group_id, user_id) db.group_members
        × (t ≡ membership_tuple group_id user_id)
  unfolding subject_tuple
  Wanted-member t (parent item above found e same) r =
      absurd (differ "parent" "member" refl (sym (ap (λ u. u.relation) same) ∙ r))
  Wanted-member t (member g u k same) r = (g, u, k, same)
  Wanted-member t (subject bs b e k same) r =
      absurd (differ "subject" "member" refl (sym (ap (λ u. u.relation) same) ∙ r))
  Wanted-member t (granted bs b role targets e k found te g) r =
      absurd ((Granted-parts t bs b role targets e k found te g).line.own.1 r)

  -- The subject of a binding.
  pub Wanted-subject :
      (t : Tuple)
      → Wanted db t
      → t.relation ≡ "subject"
      → (bindings : List Binding) × (binding : Binding) × (list_bindings db ≡ ok bindings)
        × In binding bindings
        × (t ≡ subject_tuple binding)
  unfolding membership_tuple
  Wanted-subject t (parent item above found e same) r =
      absurd (differ "parent" "subject" refl (sym (ap (λ u. u.relation) same) ∙ r))
  Wanted-subject t (member g u k same) r =
      absurd (differ "member" "subject" refl (sym (ap (λ u. u.relation) same) ∙ r))
  Wanted-subject t (subject bs b e k same) r = (bs, b, e, k, same)
  Wanted-subject t (granted bs b role targets e k found te g) r =
      absurd ((Granted-parts t bs b role targets e k found te g).line.own.2 r)

  -- Any other relation is one of a permission.
  pub Wanted-Granted :
      (t : Tuple)
      → Wanted db t
      → (t.relation ≢ "parent") × (t.relation ≢ "member") × (t.relation ≢ "subject")
      → Granted db t
  unfolding membership_tuple subject_tuple
  Wanted-Granted t (parent item above found e same) own = absurd (own.0 (ap (λ u. u.relation) same))
  Wanted-Granted t (member g u k same) own = absurd (own.1 (ap (λ u. u.relation) same))
  Wanted-Granted t (subject bs b e k same) own = absurd (own.2 (ap (λ u. u.relation) same))
  Wanted-Granted t (granted bs b role targets e k found te g) own =
      Granted-parts t bs b role targets e k found te g
