-- ===== src/Service/Desired/Laws.antt =====
-- The tuples that the tables stand for, one by one.
use fine_grained_permissions.Base.{
  String, none, some, List, [], ◌∷◌, ◌++◌, map, ◌≡◌, ◌↔◌, inl, inr, sym, ap, subst, In, In-append,
  In-append_left, In-append_right, In-map, map-In, sort_by-In, In-sort_by, traverse, traverse-In,
  In-traverse, ok, >>=-eq-ok,
}
use fine_grained_permissions.Api.{Resource, ResourceRef, Binding, Role}
use fine_grained_permissions.OpenFga.{
  Tuple, membership_tuple, subject_tuple, permission_tuples, targets_of,
}
use fine_grained_permissions.OpenFga.Tuples.{Grants, permission_tuples_iff}
use fine_grained_permissions.Store.{Db}
use fine_grained_permissions.Store.Users.{list_memberships}
use fine_grained_permissions.Store.Roles.{get_role}
use fine_grained_permissions.Store.Bindings.{list_bindings, binding_permissions}
use fine_grained_permissions.Store.Resources.{list_resources, get_resource}
use fine_grained_permissions.Service.Desired.{parent_tuples, binding_tuples, concat, desired_tuples}
use fine_grained_permissions.Service.Desired.Items.{
  parent_edge, listed_resource, resource_listed, parent_tuples-In, In-parent_tuples, concat-In,
  In-concat,
}

-- A tuple for a row of the tables.
pub data Wanted (db : Db) (t : Tuple) : Type 0 where
  parent :
      (item : Resource) (above : ResourceRef)
      → get_resource item.type item.id db ≡ ok item
      → item.parent ≡ some above
      → t ≡ parent_edge item above
      → Wanted db t
  member :
      (group_id user_id : String)
      → In (group_id, user_id) db.group_members
      → t ≡ membership_tuple group_id user_id
      → Wanted db t
  subject :
      (bindings : List Binding) (binding : Binding)
      → list_bindings db ≡ ok bindings
      → In binding bindings
      → t ≡ subject_tuple binding
      → Wanted db t
  granted :
      (bindings : List Binding) (binding : Binding) (role : Role) (targets : List ResourceRef)
      → list_bindings db ≡ ok bindings
      → In binding bindings
      → get_role binding.role_id db ≡ ok role
      → targets_of binding ≡ ok targets
      → Grants binding role.permissions targets t
      → Wanted db t

-- The parts of the list that `Sync` builds.
record Parts (db : Db) (ts : List Tuple) : Type 0 where
  resources : List Resource
  bindings : List Binding
  grants : List (List Tuple)
  resources_listed : list_resources none db ≡ ok resources
  bindings_listed : list_bindings db ≡ ok bindings
  compiled : traverse (binding_tuples db) bindings ≡ ok grants
  whole :
      parent_tuples resources
        ++ (map (λ m. membership_tuple m.0 m.1) (list_memberships db) ++ concat grants)
      ≡ ts

parts : (db : Db) (ts : List Tuple) → desired_tuples db ≡ ok ts → Parts db ts
unfolding desired_tuples
parts db ts h =
    let (resources, e₁, h₁) = >>=-eq-ok (list_resources none db) _ h in
    let (bindings, e₂, h₂) = >>=-eq-ok (list_bindings db) _ h₁ in
    let (grants, e₃, same) = >>=-eq-ok (traverse (binding_tuples db) bindings) _ h₂ in
    record {
      resources = resources;
      bindings = bindings;
      grants = grants;
      resources_listed = e₁;
      bindings_listed = e₂;
      compiled = e₃;
      whole = cc same;
    }

-- The tuples of one binding.
binding_tuples-parts :
    (db : Db) (binding : Binding) (ts : List Tuple)
    → binding_tuples db binding ≡ ok ts
    → (role : Role) × (targets : List ResourceRef) × (out : List Tuple) × (get_role binding.role_id
          db
        ≡ ok role)
      × (targets_of binding ≡ ok targets)
      × ((t : Tuple) → In t out ↔ Grants binding role.permissions targets t)
      × (out ++ subject_tuple binding ∷ [] ≡ ts)
unfolding binding_tuples binding_permissions
binding_tuples-parts db binding ts h =
    let (permissions, read, h₁) = >>=-eq-ok (binding_permissions binding db) _ h in
    let (role, found, named) = >>=-eq-ok (get_role binding.role_id db) _ read in
    let (out, made, same) = >>=-eq-ok (permission_tuples binding permissions) _ h₁ in
    let ps : role.permissions ≡ permissions = cc named in
    let (targets, e, each) = permission_tuples_iff binding permissions out made in
    (
      role,
      targets,
      out,
      found,
      e,
      λ t. subst (λ l. In t out ↔ Grants binding l targets t) (sym ps) (each t),
      cc same,
    )

same_bindings :
    (db : Db) (bs cs : List Binding) → list_bindings db ≡ ok bs → list_bindings db ≡ ok cs → bs ≡ cs
same_bindings db bs cs e f = cc (e, f)

module _ (db : Db) (ts : List Tuple) (ps : Parts db ts) (t : Tuple) where
  open ps use {resources, bindings, grants, resources_listed, bindings_listed, compiled, whole}

  abbrev memberships : List Tuple
  memberships = map (λ m. membership_tuple m.0 m.1) (list_memberships db)

  binding-Wanted : In t (concat grants) → Wanted db t
  binding-Wanted grant =
      let (own, k, j) = concat-In grants t grant in
      let (binding, kb, e) = traverse-In (binding_tuples db) bindings grants own compiled k in
      let (role, targets, out, found, te, each, same) = binding_tuples-parts db binding own e in
      elim (In-append t out (subject_tuple binding ∷ []) (subst (λ l. In t l) (sym same) j)) [
        | inl made ↦
            granted bindings binding role targets bindings_listed kb found te ((each t).0 made)
        | inr last ↦ elim last [
          | inl here ↦ subject bindings binding bindings_listed kb here
          | inr none_left ↦ absurd none_left
        ]
      ]

  In-Wanted : In t ts → Wanted db t
  unfolding list_memberships
  In-Wanted i = elim (In-append t (parent_tuples resources) _ (subst (λ l. In t l) (sym whole) i)) [
    | inl edge ↦
        let (item, above, k, e, same) = parent_tuples-In resources t edge in
        parent item above (listed_resource db resources item resources_listed k) e same
    | inr rest ↦ elim (In-append t memberships _ rest) [
      | inl membership ↦
          let (m, k, same) =
            map-In (λ m. membership_tuple m.0 m.1) t (list_memberships db) membership in
          member m.0 m.1 (sort_by-In _ m db.group_members k) (sym same)
      | inr grant ↦ binding-Wanted grant
    ]
  ]

  -- The tuples of one binding are among them.
  binding-In :
      (bs : List Binding) (binding : Binding)
      → list_bindings db ≡ ok bs
      → In binding bs
      → ((own : List Tuple) → binding_tuples db binding ≡ ok own → In t own)
      → In t ts
  binding-In bs binding e k here =
      let (own, made, kg) =
        In-traverse (binding_tuples db) bindings grants binding compiled
          (subst (λ l. In binding l) (same_bindings db bs bindings e bindings_listed) k) in
      subst (λ l. In t l) whole
        (In-append_right t (parent_tuples resources) _ (
          In-append_right t memberships (concat grants)
            (In-concat grants own t kg (here own made))))

  Wanted-In : Wanted db t → In t ts
  unfolding list_memberships
  Wanted-In (parent item above found e same) =
      subst (λ l. In t l) whole
        (In-append_left t (parent_tuples resources) _ (
          subst (λ u. In u (parent_tuples resources)) (sym same)
            (In-parent_tuples resources item above
              (resource_listed db resources item resources_listed found) e)))
  Wanted-In (member group_id user_id k same) =
      subst (λ l. In t l) whole
        (In-append_right t (parent_tuples resources) _ (
          In-append_left t memberships (concat grants) (
            subst (λ u. In u memberships) (sym same)
              (In-map (λ m. membership_tuple m.0 m.1) (group_id, user_id) (list_memberships db)
                (In-sort_by _ (group_id, user_id) db.group_members k)))))
  Wanted-In (subject bs binding e k same) = binding-In bs binding e k (λ own made.
      let (role, targets, out, found, te, each, joined) =
        binding_tuples-parts db binding own made in
      subst (λ l. In t l) joined (In-append_right t out (subject_tuple binding ∷ []) (inl same)))
  Wanted-In (granted bs binding role targets e k found te grants_t) =
      binding-In bs binding e k (λ own made.
        let (role', targets', out, found', te', each, joined) =
          binding_tuples-parts db binding own made in
        let same_role : role ≡ role' = cc (found, found') in
        let same_targets : targets ≡ targets' = cc (te, te') in
        subst (λ l. In t l) joined
          (In-append_left t out (subject_tuple binding ∷ []) (
            (each t).1 (
              subst (λ l. Grants binding l targets' t) (ap (λ r. r.permissions) same_role)
                (subst (λ l. Grants binding role.permissions l t) same_targets grants_t)))))

-- What `Sync` computes from the tables is exactly: an edge for each stored resource with a parent, a
-- tuple for each membership and for each binding's subject, and those that give a binding's role's
-- permissions on its targets.
pub desired_tuples_iff :
    (db : Db) (ts : List Tuple) → desired_tuples db ≡ ok ts → (t : Tuple) → In t ts ↔ Wanted db t
desired_tuples_iff db ts h t =
    let ps = parts db ts h in (In-Wanted db ts ps t, Wanted-In db ts ps t)
