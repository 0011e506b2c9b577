-- ===== src/HttpApi/Statuses.antt =====
-- What the handlers that write answer: a status that tells whether the service's call succeeded.
use Prim.Native.Char.{Char}
use fine_grained_permissions.Base.{
  ℕ, ◌≤◌, String, some, ◌≡◌, ◌⊎◌, inl, inr, refl, arith, Error, Result, ok, err,
}
use fine_grained_permissions.Api
use fine_grained_permissions.Api.{
  CreateNamed, GroupMemberChange, UpdateRole, LegacyAccessChange, ApplicationConfig, ResourceRef,
}
use fine_grained_permissions.OpenFga.{Client}
use fine_grained_permissions.Service.{World}
use fine_grained_permissions.Service.Policy
use fine_grained_permissions.Service.Roles
use fine_grained_permissions.Service.Bindings
use fine_grained_permissions.Service.Legacy
use fine_grained_permissions.Service.Resources
use fine_grained_permissions.HttpApi.{Response, json, bare, status, answer}
use fine_grained_permissions.HttpApi.Errors
use fine_grained_permissions.HttpApi.Errors.{if_forbidden, if_not_found, if_conflict}
use fine_grained_permissions.HttpApi.Handlers

-- The handler leaves the state that the call left, and answers `code` if the call succeeded and a
-- status from 400 on if it failed.
abbrev pub Reports : {E A B : Type 0} → ℕ → Result A × World E → Response B × World E → Type 0
Reports {A = A} code call answered =
    (answered.1 ≡ call.1)
    × (((a : A) × (call.0 ≡ ok a) × (status answered.0 ≡ code))
        ⊎ ((e : Error) × (call.0 ≡ err e) × (400 ≤ status answered.0)))

answer-Reports :
    {E A B : Type 0} (code : ℕ) (on_ok : A → Response B) (on_error : Error → Response B)
    → ((a : A) → status (on_ok a) ≡ code)
    → ((e : Error) → 400 ≤ status (on_error e))
    → (call : Result A × World E) → Reports code call (answer on_ok on_error call)
answer-Reports code on_ok on_error good bad (ok a, w) = (refl, inl (a, refl, good a))
answer-Reports code on_ok on_error good bad (err e, w) = (refl, inr (e, refl, bad e))

-- The tests of the error keep the bound.
if_forbidden-le :
    {A : Type 0} (e : Error) (rest : Response A)
    → 400 ≤ status rest
    → 400 ≤ status (if_forbidden e rest)
if_forbidden-le e rest h = ground arith

if_not_found-le :
    {A : Type 0} (e : Error) (rest : Response A)
    → 400 ≤ status rest
    → 400 ≤ status (if_not_found e rest)
if_not_found-le e rest h = ground arith

if_conflict-le :
    {A : Type 0} (e : Error) (rest : Response A)
    → 400 ≤ status rest
    → 400 ≤ status (if_conflict e rest)
if_conflict-le e rest h = ground arith

module _ {E : Type 0} (client : Client E) (lower : Char → Char) (uuid now actor id : String)
    (w : World E) where
  -- With a body, each handler that writes leaves the state that the service's call leaves. It answers
  -- its own 200, 201 or 204 when that call succeeds, and a status from 400 on when it fails. These are
  -- the handlers of users, groups and memberships, of roles, bindings and legacy levels, and of
  -- resources and configurations.
  pub writes_reported :
      (named : CreateNamed) (member : GroupMemberChange) (role : Api.CreateRole) (if_match : ℕ)
      (change : UpdateRole) (binding : Api.CreateBinding) (level : LegacyAccessChange)
      (resource : Api.CreateResource) (ref : ResourceRef) (config : ApplicationConfig)
      → Reports 201
          (Policy.create_user client lower actor named w)
          (Handlers.create_user client lower actor (some named) w)
        × Reports 201
            (Policy.create_group client lower actor named w)
            (Handlers.create_group client lower actor (some named) w)
        × Reports 204
            (Policy.add_group_member client actor id member.user_id w)
            (Handlers.add_group_member client actor id (some member) w)
        × Reports 204
            (Policy.remove_group_member client actor id member.user_id w)
            (Handlers.remove_group_member client actor id (some member) w)
        × Reports 201
            (Roles.create_role client lower actor role w)
            (Handlers.create_role client lower actor (some role) w)
        × Reports 200
            (Roles.update_role client now actor id if_match change w)
            (Handlers.update_role client now actor id if_match (some change) w)
        × Reports 201
            (Bindings.create_binding client uuid actor binding w)
            (Handlers.create_binding client uuid actor (some binding) w)
        × Reports 204
            (Bindings.delete_binding client actor id w)
            (Handlers.delete_binding client actor id w)
        × Reports 200
            (Legacy.grant_legacy client uuid actor level w)
            (Handlers.grant_legacy_access client uuid actor (some level) w)
        × Reports 200
            (Legacy.revoke_legacy client uuid actor level w)
            (Handlers.revoke_legacy_access client uuid actor (some level) w)
        × Reports 201
            (Resources.create_resource client uuid actor resource w)
            (Handlers.create_resource client uuid actor (some resource) w)
        × Reports 204
            (Resources.delete_resource client actor ref w)
            (Handlers.delete_resource client actor ref w)
        × Reports 200
            (Resources.update_application_config client actor id config w)
            (Handlers.update_application_config client actor id (some config) w)
  unfolding Handlers.create_user Handlers.create_group Handlers.add_group_member
      Handlers.remove_group_member Handlers.create_role Handlers.update_role Handlers.create_binding
      Handlers.delete_binding Handlers.grant_legacy_access Handlers.revoke_legacy_access
      Handlers.create_resource Handlers.delete_resource Handlers.update_application_config
      Errors.create_user_error Errors.create_group_error Errors.add_group_member_error
      Errors.remove_group_member_error Errors.create_role_error Errors.update_role_error
      Errors.create_binding_error Errors.delete_binding_error Errors.grant_legacy_error
      Errors.revoke_legacy_error Errors.create_resource_error Errors.delete_resource_error
      Errors.update_config_error
  writes_reported named member role if_match change binding level resource ref config = (
    answer-Reports 201 (json 201) Errors.create_user_error (λ a. refl)
        (λ e. if_forbidden-le e _ (if_conflict-le e _ bad)) _,
    answer-Reports 201 (json 201) Errors.create_group_error (λ a. refl)
        (λ e. if_forbidden-le e _ (if_conflict-le e _ bad)) _,
    answer-Reports 204 (λ _. bare 204) Errors.add_group_member_error (λ a. refl)
        (λ e. if_forbidden-le e _ (if_not_found-le e _ bad)) _,
    answer-Reports 204 (λ _. bare 204) Errors.remove_group_member_error (λ a. refl)
        (λ e. if_forbidden-le e _ (if_not_found-le e _ bad)) _,
    answer-Reports 201 (json 201) Errors.create_role_error (λ a. refl)
        (λ e. if_forbidden-le e _ (if_conflict-le e _ bad)) _,
    answer-Reports 200 (json 200) Errors.update_role_error (λ a. refl)
        (λ e. if_forbidden-le e _ (if_not_found-le e _ (if_conflict-le e _ bad))) _,
    answer-Reports 201 (json 201) Errors.create_binding_error (λ a. refl)
        (λ e. if_forbidden-le e _ (if_not_found-le e _ (if_conflict-le e _ bad))) _,
    answer-Reports 204 (λ _. bare 204) Errors.delete_binding_error (λ a. refl)
        (λ e. if_forbidden-le e _ lost) _,
    answer-Reports 200 (json 200) Errors.grant_legacy_error (λ a. refl)
        (λ e. if_forbidden-le e _ (if_not_found-le e _ bad)) _,
    answer-Reports 200 (json 200) Errors.revoke_legacy_error (λ a. refl)
        (λ e. if_forbidden-le e _ (if_not_found-le e _ bad)) _,
    answer-Reports 201 (json 201) Errors.create_resource_error (λ a. refl)
        (λ e. if_forbidden-le e _ (if_not_found-le e _ (if_conflict-le e _ bad))) _,
    answer-Reports 204 (λ _. bare 204) Errors.delete_resource_error (λ a. refl)
        (λ e. if_forbidden-le e _ (if_conflict-le e _ lost)) _,
    answer-Reports 200 (json 200) Errors.update_config_error (λ a. refl)
        (λ e. if_forbidden-le e _ lost) _,
  )
    where
      bad : 400 ≤ 400
      bad = omega arith

      lost : 400 ≤ 404
      lost = omega arith
