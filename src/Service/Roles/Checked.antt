-- ===== src/Service/Roles/Checked.antt =====
-- What `validatePermissions` and `PreviewRoleUpdate` have tested when they succeed.
use fine_grained_permissions.Base.{
  ℕ, String, not, true, false, List, [], ◌∷◌, ◌≡◌, ◌≢◌, inl, inr, sym, subst, ◌==◌, eq_refl, nat_eq,
  arith, In, Bool-cases, ok, Result-cases, conflict, invalid, guard, guard-eq-ok, >>=-eq-ok,
}
use fine_grained_permissions.Api.{Role, Binding, UpdateRole, RoleUpdatePreview}
use fine_grained_permissions.Catalog.Types.{all_names}
use fine_grained_permissions.OpenFga.{Client, Tuple, permission_tuples}
use fine_grained_permissions.Store.Bindings.{list_bindings}
use fine_grained_permissions.Store.Roles.{get_role}
use fine_grained_permissions.Service.{World}
use fine_grained_permissions.Service.Check.{require, controller_ref}
use fine_grained_permissions.Service.Roles.Catalogued.{validate-In}
use fine_grained_permissions.Service.Roles.Preview.{
  validate_permissions, compatible, preview_role_update,
}

-- There is a permission, and each is in the catalogue.
abbrev pub AreNamed : List String → Type 0
AreNamed ps = (ps ≢ []) × ((p : String) → In p ps → In p all_names)

pub validate-AreNamed : (ps : List String) → validate_permissions ps ≡ ok tt → AreNamed ps
unfolding validate_permissions
validate-AreNamed [] h = cc
validate-AreNamed (p ∷ ps) h = (λ e. cc e, validate-In (p ∷ ps) h)

-- Every binding of the role compiles to tuples with these permissions.
abbrev pub Compiles : String → List String → List Binding → Type 0
Compiles id permissions bindings =
    (b : Binding)
    → In b bindings
    → b.role_id ≡ id
    → (tuples : List Tuple) × (permission_tuples b permissions ≡ ok tuples)

compatible-Compiles :
    (id : String) (permissions : List String) (bindings : List Binding)
    → compatible id permissions bindings ≡ ok tt
    → Compiles id permissions bindings
unfolding compatible
compatible-Compiles id permissions [] h b i own = absurd i
compatible-Compiles id permissions (a ∷ bindings) h b i own =
    elim (Bool-cases (not (a.role_id == id))) [
      | inl other ↦ elim i [
        | inl here ↦
            absurd
              (cc (subst (λ c. not (c.role_id == id) ≡ true) (sym here) other, own, eq_refl id))
        | inr later ↦ compatible-Compiles id permissions bindings (rw other at h) b later own
      ]
      | inr same ↦ elim (Result-cases (permission_tuples a permissions)) [
        | inr (tuples, made) ↦ elim i [
          | inl here ↦ (tuples, rw here made)
          | inr later ↦
              compatible-Compiles id permissions bindings (rw made at (rw same at h)) b later own
        ]
        | inl (e, failed) ↦ absurd (cc (rw failed at (rw same at h)))
      ]
    ]

-- The role may be given these permissions: it is stored, not built in, at the expected revision, and
-- each of its bindings compiles to tuples with them.
abbrev pub IsChangeable : {E : Type 0} → String → ℕ → List String → World E → Type 0
IsChangeable id expected permissions w =
    (role : Role) × (bindings : List Binding) × (get_role id w.db ≡ ok role)
    × (role.built_in ≡ false)
    × (role.revision ≡ expected)
    × (list_bindings w.db ≡ ok bindings)
    × Compiles id permissions bindings

pub preview-IsChangeable :
    {E : Type 0} (client : Client E) (actor id : String) (expected : ℕ) (input : UpdateRole)
    (w : World E) {preview : RoleUpdatePreview}
    → preview_role_update client actor id expected input w ≡ ok preview
    → (require client actor "policy.manage" controller_ref w ≡ ok tt)
      × AreNamed input.permissions
      × IsChangeable id expected input.permissions w
unfolding preview_role_update
preview-IsChangeable client actor id expected input w h =
    let (_, granted, h1) = >>=-eq-ok (require client actor "policy.manage" controller_ref w) _ h in
    let (_, valid, h2) = >>=-eq-ok (validate_permissions input.permissions) _ h1 in
    let (role, stored, h3) = >>=-eq-ok (get_role id w.db) _ h2 in
    let (_, custom, h4) =
      >>=-eq-ok (guard (not role.built_in) (invalid "built-in roles cannot be changed")) _ h3 in
    let (_, fresh, h5) = >>=-eq-ok (guard (nat_eq role.revision expected) conflict) _ h4 in
    let (bindings, listed, h6) = >>=-eq-ok (list_bindings w.db) _ h5 in
    let (_, fit, _) = >>=-eq-ok (compatible id input.permissions bindings) _ h6 in
    let free = guard-eq-ok (not role.built_in) _ custom in
    let same = guard-eq-ok (nat_eq role.revision expected) _ fresh in
    (
      granted,
      validate-AreNamed input.permissions valid,
      (
        role,
        bindings,
        stored,
        ground (arith, free),
        ground (arith, same),
        listed,
        compatible-Compiles id input.permissions bindings fit,
      ),
    )
