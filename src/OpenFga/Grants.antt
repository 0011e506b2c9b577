-- ===== src/OpenFga/Grants.antt =====
-- What the tuples of `PermissionTuples` are, told from the binding, the catalogue and the names of
-- the permissions alone.
use Prim.Native.String.{◌++◌ as append}
use fine_grained_permissions.Base.{
  String, Option, none, some, List, [], ◌∷◌, ◌≡◌, ◌↔◌, ◌⊎◌, inl, inr, refl, sym, ap, ◌∙◌, ◌==◌, In,
  ok, err, failure, text_cases,
}
use fine_grained_permissions.Api.{SelectorMatch, ResourceRef, Binding, exact_match, scope_match}
use fine_grained_permissions.Catalog.{resource_object}
use fine_grained_permissions.OpenFga.{Tuple, targets_of, grant_subject, permission_tuples}
use fine_grained_permissions.OpenFga.Tuples.{
  Made, targets_of-match, permission_tuples_iff, permission_tuples_each,
}
use fine_grained_permissions.OpenFga.Compiled.{
  Compiled, relation_at_scope-Compiled, Compiled-relation_at_scope,
}

-- A scope selector is about the scope, an exact one about each resource that it lists.
abbrev pub IsTarget : Binding → ResourceRef → Type 0
IsTarget binding target =
    ((binding.selector.match ≡ scope_match) × (target ≡ binding.scope))
    ⊎ ((binding.selector.match ≡ exact_match)
        × ((listed : List ResourceRef) × (binding.selector.resources ≡ some listed)
            × In target listed))

-- The tuple gives the permission to the subjects of the grant, on a target.
abbrev pub Gives : Binding → String → Tuple → Type 0
Gives binding p t =
    (target : ResourceRef) × (r : String) × IsTarget binding target
    × Compiled binding.selector.match p target.type r
    × (t ≡ record {
      user = append "grant:" (append binding.id "#subject");
      relation = r;
      object = resource_object target;
    })

scope-ne-exact : (m : SelectorMatch) → m ≡ scope_match → m ≡ exact_match → ⊥
scope-ne-exact m scoped exact = cc (ap (λ u. u == exact_match) (sym scoped ∙ exact))

-- The targets are the scope, or what an exact selector lists.
Selected : Binding → List ResourceRef → Type 0
Selected binding targets =
    ((binding.selector.match ≡ scope_match) × (targets ≡ binding.scope ∷ []))
    ⊎ ((binding.selector.match ≡ exact_match) × (binding.selector.resources ≡ some targets))

targets_of-Selected :
    (binding : Binding) (targets : List ResourceRef)
    → targets_of binding ≡ ok targets
    → Selected binding targets
unfolding targets_of Selected
targets_of-Selected binding targets h = elim (text_cases binding.selector.match scope_match) [
  | inl scoped ↦ inl (scoped, cc (rw scoped at h))
  | inr other ↦ elim (text_cases binding.selector.match exact_match) [
    | inr unknown ↦ absurd (cc (rw (other, unknown) at h))
    | inl exact ↦ inr (exact, listed binding.selector.resources (rw (other, exact) at h))
  ]
]
  where
    listed :
        (resources : Option (List ResourceRef))
        → elim resources [
          | none ↦ err (failure "exact selector requires resources")
          | some [] ↦ err (failure "exact selector requires resources")
          | some (t ∷ ts) ↦ ok (t ∷ ts)
        ]
          ≡ ok targets
        → resources ≡ some targets
    listed none e = cc
    listed (some []) e = cc
    listed (some (t ∷ ts)) e = cc

pub IsTarget-targets_of :
    (binding : Binding) (target : ResourceRef)
    → IsTarget binding target
    → (targets : List ResourceRef) × (targets_of binding ≡ ok targets) × In target targets
unfolding targets_of
IsTarget-targets_of binding target (inl (scoped, same)) =
    (binding.scope ∷ [], rw scoped refl, inl same)
IsTarget-targets_of binding target (inr (exact, ([], e, i))) = absurd i
IsTarget-targets_of binding target (inr (exact, (t ∷ ts, e, i))) = (t ∷ ts, rw (exact, e) refl, i)

Selected-IsTarget :
    (binding : Binding) (targets : List ResourceRef)
    → Selected binding targets
    → (target : ResourceRef) → In target targets ↔ IsTarget binding target
unfolding Selected
Selected-IsTarget binding targets (inl (scoped, one)) target = (to, from)
  where
    to : In target targets → IsTarget binding target
    to i = elim (rw one at i) [ inl here ↦ inl (scoped, here) | inr later ↦ absurd later ]

    from : IsTarget binding target → In target targets
    from (inl (_, same)) = rw one (inl same)
    from (inr (exact, _)) = absurd (scope-ne-exact _ scoped exact)
Selected-IsTarget binding targets (inr (exact, all_listed)) target = (to, from)
  where
    to : In target targets → IsTarget binding target
    to i = inr (exact, (targets, all_listed, i))

    from : IsTarget binding target → In target targets
    from (inl (scoped, _)) = absurd (scope-ne-exact _ scoped exact)
    from (inr (_, (listed, e, i))) =
        let same : listed ≡ targets = cc (e, all_listed) in rw (← same) i

-- The targets are those that the selector of the binding is about.
pub targets_of-IsTarget :
    (binding : Binding) (targets : List ResourceRef)
    → targets_of binding ≡ ok targets
    → (target : ResourceRef) → In target targets ↔ IsTarget binding target
targets_of-IsTarget binding targets h =
    Selected-IsTarget binding targets (targets_of-Selected binding targets h)

-- When `PermissionTuples` succeeds, its tuples are exactly those that give one of the permissions to
-- the subjects of the grant on one of the binding's targets: the scope for a scope selector, each
-- resource that an exact one lists. The relation is the catalogue's where the permission is checked
-- on the type of the target, and for a scope selector the permission's own name, its dots and dashes
-- written as underscores, where it flows down from that type. Each of the permissions is given by one of the tuples at least.
pub permission_tuples-Gives :
    (binding : Binding) (ps : List String) (out : List Tuple)
    → permission_tuples binding ps ≡ ok out
    → ((t : Tuple) → In t out ↔ ((p : String) × In p ps × Gives binding p t))
      × ((p : String) → In p ps → (t : Tuple) × In t out × Gives binding p t)
permission_tuples-Gives binding ps out made =
    let (targets, selected, each) = permission_tuples_iff binding ps out made in
    let chosen = targets_of-IsTarget binding targets selected in
    (
      λ t. (
        λ i. let (p, k, by) = (each t).0 i in (p, k, Made-Gives targets selected chosen p t by),
        λ g.
            let (p, k, (target, r, j, c, same)) = g in
            (each t).1 (
              p,
              k,
              (
                r,
                target,
                (chosen target).1 j,
                Compiled-relation_at_scope p target.type binding.selector.match c,
                same,
              ),
            ),
      ),
      λ p k.
          let (t, i, by) = permission_tuples_each binding ps targets out selected made p k in
          (t, i, Made-Gives targets selected chosen p t by),
    )
  where
    Made-Gives :
        (targets : List ResourceRef)
        → targets_of binding ≡ ok targets
        → ((target : ResourceRef) → In target targets ↔ IsTarget binding target)
        → (p : String) (t : Tuple) → Made (grant_subject binding) binding.selector.match p targets t
        → Gives binding p t
    Made-Gives targets selected chosen p t (r, target, j, e, same) = (
      target,
      r,
      (chosen target).0 j,
      relation_at_scope-Compiled p target.type binding.selector.match
          (targets_of-match binding targets selected) e,
      same,
    )
