-- ===== src/Service/Guards.antt =====
-- What each operation of the service that writes has checked before it writes anything.
use Prim.Native.Char.{Char}
use fine_grained_permissions.Base.{
  ℕ, String, true, not, ◌&&◌, ◌==◌, ◌≡◌, ◌⊎◌, inl, inr, refl, ok, conflict, invalid, not_found,
  guard, guard-eq-ok, and-eq-true_iff, eq_iff, on_result,
}
use fine_grained_permissions.Base.Actions.{Refused, ◌>>=◌}
use fine_grained_permissions.Api
use fine_grained_permissions.Api.{
  ResourceRef, Resource, Binding, LegacyAccessChange, ApplicationConfig, UpdateRole, CreateNamed,
  application, controller, model, access_level_valid,
}
use fine_grained_permissions.Catalog.{parent_rule, create_permission, delete_permission}
use fine_grained_permissions.OpenFga.{Client}
use fine_grained_permissions.Store.Bindings.{get_binding, get_compatibility_binding}
use fine_grained_permissions.Store.Resources.{get_resource, has_children}
use fine_grained_permissions.Store.Users.{user_exists}
use fine_grained_permissions.Service.{World}
use fine_grained_permissions.Service.Check.{require, controller_ref}
use fine_grained_permissions.Service.Policy.{
  create_user, create_group, add_group_member, remove_group_member,
}
use fine_grained_permissions.Service.Roles.{create_role, update_role}
use fine_grained_permissions.Service.Roles.Preview.{preview_role_update, validate_permissions}
use fine_grained_permissions.Service.Roles.Checked.{
  AreNamed, IsChangeable, validate-AreNamed, preview-IsChangeable,
}
use fine_grained_permissions.Service.Scopes.{management_scope}
use fine_grained_permissions.Service.Bindings.{create_binding, delete_binding}
use fine_grained_permissions.Service.Bindings.Validation.{validate_binding}
use fine_grained_permissions.Service.Legacy.{
  grant_legacy, revoke_legacy, compatibility_role, model_ref,
}
use fine_grained_permissions.Service.Resources.{
  create_resource, delete_resource, update_application_config, or_empty, validate_parent,
  creation_target,
}

module _ {E : Type 0} (client : Client E) (w : World E) (actor : String) where
  -- The actor may manage policy on the controller.
  abbrev pub ManagesPolicy : Type 0
  ManagesPolicy = require client actor "policy.manage" controller_ref w ≡ ok tt

  -- Creating a user or a group and changing a membership fails and changes nothing, unless the actor
  -- may manage policy on the controller.
  pub policy_guarded :
      (lower : Char → Char) (named : CreateNamed) (group_id user_id : String)
      → (Refused (create_user client lower actor named) w ⊎ ManagesPolicy)
        × (Refused (create_group client lower actor named) w ⊎ ManagesPolicy)
        × (Refused (add_group_member client actor group_id user_id) w ⊎ ManagesPolicy)
        × (Refused (remove_group_member client actor group_id user_id) w ⊎ ManagesPolicy)
  unfolding create_user create_group add_group_member remove_group_member
  policy_guarded lower named group_id user_id =
      on_result (require client actor "policy.manage" controller_ref w)
        (λ e failed. (
          inl (e, rw (failed, ◌>>=◌) refl),
          inl (e, rw (failed, ◌>>=◌) refl),
          inl (e, rw (failed, ◌>>=◌) refl),
          inl (e, rw (failed, ◌>>=◌) refl),
        ))
        (λ _ granted. (inr granted, inr granted, inr granted, inr granted))

  -- Creating a role fails and changes nothing, unless the actor may manage policy on the controller
  -- and the permissions named are of the catalogue, with at least one. Changing a role fails and
  -- changes nothing, unless the actor may manage policy on the controller, the permissions named are
  -- of the catalogue, with at least one, the role is stored, is not built in and has the expected
  -- revision, and every stored binding of the role compiles to tuples with the new permissions.
  pub roles_guarded :
      (lower : Char → Char) (input : Api.CreateRole) (now id : String) (expected : ℕ)
      (change : UpdateRole)
      → (Refused (create_role client lower actor input) w
          ⊎ (ManagesPolicy × AreNamed input.permissions))
        × (Refused (update_role client now actor id expected change) w
            ⊎ (ManagesPolicy
                × AreNamed change.permissions
                × IsChangeable id expected change.permissions w))
  unfolding create_role update_role
  roles_guarded lower input now id expected change = (
    on_result (require client actor "policy.manage" controller_ref w)
        (λ e h. inl (e, rw (h, ◌>>=◌) refl))
        (λ _ granted.
          on_result (validate_permissions input.permissions)
            (λ e h. inl (e, rw (granted, h, ◌>>=◌) refl))
            (λ _ valid. inr (granted, validate-AreNamed input.permissions valid))),
    on_result (preview_role_update client actor id expected change w)
        (λ e h. inl (e, rw (h, ◌>>=◌) refl))
        (λ preview previewed.
          inr (preview-IsChangeable client actor id expected change w previewed)),
  )

  -- Creating a binding fails and changes nothing, unless the binding passes validation and the actor
  -- may manage policy at the controller or model that encloses its scope; deleting one, unless it
  -- exists and the actor may manage policy there.
  pub bindings_guarded :
      (uuid id : String) (input : Api.CreateBinding)
      → (Refused (create_binding client uuid actor input) w
          ⊎ ((scope : ResourceRef) × (validate_binding input w.db ≡ ok tt)
              × (management_scope input.scope w.db ≡ ok scope)
              × (require client actor "policy.manage" scope w ≡ ok tt)))
        × (Refused (delete_binding client actor id) w
            ⊎ ((binding : Binding) × (scope : ResourceRef) × (get_binding id w.db ≡ ok binding)
                × (management_scope binding.scope w.db ≡ ok scope)
                × (require client actor "policy.manage" scope w ≡ ok tt)))
  unfolding create_binding delete_binding
  bindings_guarded uuid id input = (
    on_result (validate_binding input w.db) (λ e h. inl (e, rw (h, ◌>>=◌) refl))
        (λ _ valid.
          on_result (management_scope input.scope w.db) (λ e h. inl (e, rw (valid, h, ◌>>=◌) refl))
            (λ scope found.
              on_result (require client actor "policy.manage" scope w)
                (λ e h. inl (e, rw (valid, found, h, ◌>>=◌) refl))
                (λ _ granted. inr (scope, valid, found, granted)))),
    on_result (get_binding id w.db) (λ e h. inl (e, rw (h, ◌>>=◌) refl))
        (λ binding stored.
          on_result (management_scope binding.scope w.db)
            (λ e h. inl (e, rw (stored, h, ◌>>=◌) refl))
            (λ scope found.
              on_result (require client actor "policy.manage" scope w)
                (λ e h. inl (e, rw (stored, found, h, ◌>>=◌) refl))
                (λ _ granted. inr (binding, scope, stored, found, granted)))),
  )

  -- Granting or revoking a legacy level fails and changes nothing, unless the actor may manage policy
  -- on the model; granting also needs one of the three levels, a user and a model that exist, and
  -- revoking the level that the user's compatibility binding now gives.
  pub legacy_guarded :
      (uuid : String) (input : LegacyAccessChange)
      → (Refused (grant_legacy client uuid actor input) w
          ⊎ ((access_level_valid input.access ≡ true)
              × (require client actor "policy.manage" (model_ref input.model_id) w ≡ ok tt)
              × (user_exists input.user_id w.db ≡ true)
              × ((item : Resource) × (get_resource model input.model_id w.db ≡ ok item))))
        × (Refused (revoke_legacy client uuid actor input) w
            ⊎ ((require client actor "policy.manage" (model_ref input.model_id) w ≡ ok tt)
                × ((binding : Binding) × (get_compatibility_binding input.user_id input.model_id
                        w.db
                      ≡ ok binding)
                    × (access_level_valid input.access ≡ true)
                    × (binding.role_id ≡ compatibility_role input.access))))
  unfolding grant_legacy revoke_legacy
  legacy_guarded uuid input = (
    on_result (guard (access_level_valid input.access) (invalid "invalid legacy access level"))
        (λ e h. inl (e, rw (h, ◌>>=◌) refl))
        (λ _ valid.
          on_result (require client actor "policy.manage" (model_ref input.model_id) w)
            (λ e h. inl (e, rw (valid, h, ◌>>=◌) refl))
            (λ _ granted.
              on_result (guard (user_exists input.user_id w.db) not_found)
                (λ e h. inl (e, rw (valid, granted, h, ◌>>=◌) refl))
                (λ _ user.
                  on_result (get_resource model input.model_id w.db)
                    (λ e h. inl (e, rw (valid, granted, user, h, ◌>>=◌) refl))
                    (λ item found.
                      inr (guard-eq-ok _ _ valid, granted, guard-eq-ok _ _ user, (item, found)))))),
    on_result (require client actor "policy.manage" (model_ref input.model_id) w)
        (λ e h. inl (e, rw (h, ◌>>=◌) refl))
        (λ _ granted.
          on_result (get_compatibility_binding input.user_id input.model_id w.db)
            (λ e h. inl (e, rw (granted, h, ◌>>=◌) refl))
            (λ binding found.
              on_result
                (guard
                  (access_level_valid input.access
                    && binding.role_id == compatibility_role input.access)
                  (invalid "revoke level must match current compatibility access"))
                (λ e h. inl (e, rw (granted, found, h, ◌>>=◌) refl))
                (λ _ same.
                  let (valid, role) = (and-eq-true_iff _ _).0 (guard-eq-ok _ _ same) in
                  inr (granted, (binding, found, valid, (eq_iff _ _).0 role))))),
  )

  -- Creating a resource fails and changes nothing, unless its type is not the controller's, its
  -- parent passes the tests on parents, and the actor has the permission to create the type on that
  -- parent, or on the controller without one; deleting one, unless it exists, has no children, and the actor has the permission to
  -- delete it; writing an application's configuration, unless the actor has that permission on it.
  pub resources_guarded :
      (uuid id : String) (input : Api.CreateResource) (ref : ResourceRef)
      (config : ApplicationConfig)
      → (Refused (create_resource client uuid actor input) w
          ⊎ ((not (input.type == controller) ≡ true)
              × (validate_parent (parent_rule input.type) input.parent w.db ≡ ok tt)
              × (require client actor
                    (or_empty (create_permission input.type))
                    (creation_target input.parent)
                    w
                  ≡ ok tt)))
        × (Refused (delete_resource client actor ref) w
            ⊎ ((item : Resource) × (get_resource ref.type ref.id w.db ≡ ok item)
                × (require client actor (or_empty (delete_permission ref.type)) ref w ≡ ok tt)
                × (not (has_children ref w.db) ≡ true)))
        × (Refused (update_application_config client actor id config) w
            ⊎ ((item : Resource) × (get_resource application id w.db ≡ ok item)
                × (require client actor "application.config.write"
                      (record { id = id; type = application })
                      w
                    ≡ ok tt)))
  unfolding create_resource delete_resource update_application_config
  resources_guarded uuid id input ref config = (
    on_result (guard (not (input.type == controller)) (invalid "controller is implicit"))
        (λ e h. inl (e, rw (h, ◌>>=◌) refl))
        (λ _ typed.
          on_result (validate_parent (parent_rule input.type) input.parent w.db)
            (λ e h. inl (e, rw (typed, h, ◌>>=◌) refl))
            (λ _ parent.
              on_result
                (require client actor (or_empty (create_permission input.type))
                  (creation_target input.parent) w)
                (λ e h. inl (e, rw (typed, parent, h, ◌>>=◌) refl))
                (λ _ granted. inr (guard-eq-ok _ _ typed, parent, granted)))),
    on_result (get_resource ref.type ref.id w.db) (λ e h. inl (e, rw (h, ◌>>=◌) refl))
        (λ item found.
          on_result (require client actor (or_empty (delete_permission ref.type)) ref w)
            (λ e h. inl (e, rw (found, h, ◌>>=◌) refl))
            (λ _ granted.
              on_result (guard (not (has_children ref w.db)) conflict)
                (λ e h. inl (e, rw (found, granted, h, ◌>>=◌) refl))
                (λ _ leaf. inr (item, found, granted, guard-eq-ok _ _ leaf)))),
    on_result (get_resource application id w.db) (λ e h. inl (e, rw (h, ◌>>=◌) refl))
        (λ item found.
          on_result
            (require client actor "application.config.write"
              (record { id = id; type = application }) w)
            (λ e h. inl (e, rw (found, h, ◌>>=◌) refl)) (λ _ granted. inr (item, found, granted))),
  )
