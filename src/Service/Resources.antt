-- ===== src/Service/Resources.antt =====
-- Resources, application configuration and simulated SSH in service.go.
pub mod Rows
pub mod Laws
use fine_grained_permissions.Base.{
  String, Bool, true, false, not, ◌&&◌, Option, none, some, List, [], ◌∷◌, Result, ok, err,
  conflict, invalid, Action, guard, ◌==◌, if◌then◌else◌,
}
use fine_grained_permissions.Base
use fine_grained_permissions.Base.Actions.{◌>>=◌, ◌>>◌, pure, reading}
use fine_grained_permissions.Api.{
  ResourceType, ResourceRef, Resource, CreateResource, ApplicationConfig, AuthorizationDecision,
  application, controller, machine,
}
use fine_grained_permissions.Catalog.{
  has_type, parent_rule, create_permission, read_permission, delete_permission,
}
use fine_grained_permissions.OpenFga.{Client}
use fine_grained_permissions.Store.{Db}
use fine_grained_permissions.Store.Resources
use fine_grained_permissions.Service.{World, storing}
use fine_grained_permissions.Service.Check.{check, require, controller_ref}
use fine_grained_permissions.Service.Sync.{sync}

-- The text of `permission, _ := …`.
abbrev pub or_empty : Option String → String
or_empty none = ""
or_empty (some s) = s

-- `containsType`.
unfoldable pub contains_type : List ResourceType → ResourceType → Bool
contains_type values target = has_type values target

-- The tests on the parent that `CreateResource` makes first.
unfoldable pub validate_parent : List ResourceType → Option ResourceRef → Db → Result (Unit {0})
unfolding contains_type
validate_parent [] none db = ok tt
validate_parent (_ ∷ _) none db = err (invalid "parent is required")
validate_parent allowed (some parent) db =
    if not (contains_type allowed parent.type)
    then err (invalid "invalid parent type")
    else if not (parent.type == controller)
    then elim (Resources.get_resource parent.type parent.id db) [ ok _ ↦ ok tt | err e ↦ err e ]
    else ok tt

-- Where the permission to create is checked.
abbrev pub creation_target : Option ResourceRef → ResourceRef
creation_target none = controller_ref
creation_target (some parent) = parent

-- What the message of `SSH` names: the type, the resource's name and the actor.
pub record SshSession : Type 0 where
  pub type : ResourceType
  pub name : String
  pub actor : String

abbrev pub keep_if : Bool → Resource → List Resource → List Resource
keep_if allowed item rest = if allowed then item ∷ rest else rest

module _ {E : Type 0} (client : Client E) where
  -- The loop of `ListResources`.
  unfoldable pub readable : String → List Resource → World E → Result (List Resource)
  readable actor [] w = ok []
  readable actor (item ∷ items) w =
      let rest = readable actor items w in
      elim (read_permission item.type) [
        | none ↦ rest
        | some permission ↦
            elim (check client actor permission (record { id = item.id; type = item.type }) w) [
              | err e ↦ err e
              | ok decision ↦ elim rest [
                | err e ↦ err e
                | ok kept ↦ ok (keep_if decision.allowed item kept)
              ]
            ]
      ]

  -- `ListResources`.
  unfoldable pub list_resources : String → Option ResourceType → Action (World E) (List Resource)
  unfolding readable
  list_resources actor filter = do
    items ← reading (λ w. Resources.list_resources filter w.db)
    reading (readable actor items)

  -- `GetResource`.
  unfoldable pub get_resource : String → ResourceRef → Action (World E) Resource
  get_resource actor ref = do
    item ← reading (λ w. Resources.get_resource ref.type ref.id w.db)
    reading (require client actor (or_empty (read_permission ref.type)) ref)
    pure item

  -- `CreateResource`.
  unfoldable pub create_resource : String → String → CreateResource → Action (World E) Resource
  unfolding validate_parent
  create_resource uuid actor input = do
    reading (λ _. guard (not (input.type == controller)) (invalid "controller is implicit"))
    reading (λ w. validate_parent (parent_rule input.type) input.parent w.db)
    reading (
        require client actor (or_empty (create_permission input.type))
          (creation_target input.parent))
    resource ← storing (Resources.create_resource uuid input)
    sync client
    pure resource

  -- `DeleteResource`.
  unfoldable pub delete_resource : String → ResourceRef → Action (World E) (Unit {0})
  delete_resource actor ref = do
    reading (λ w. Resources.get_resource ref.type ref.id w.db)
    reading (require client actor (or_empty (delete_permission ref.type)) ref)
    reading (λ w. guard (not (Resources.has_children ref w.db)) conflict)
    storing (Resources.delete_resource ref)
    sync client

  abbrev application_ref : String → ResourceRef
  application_ref id = record { id = id; type = application }

  -- `GetApplicationConfig`.
  unfoldable pub get_application_config : String → String → Action (World E) ApplicationConfig
  get_application_config actor id = do
    reading (λ w. Resources.get_resource application id w.db)
    reading (require client actor "application.config.read" (application_ref id))
    reading (λ w. Resources.get_application_config id w.db)

  -- `UpdateApplicationConfig`.
  unfoldable pub update_application_config :
      String → String → ApplicationConfig → Action (World E) ApplicationConfig
  update_application_config actor id config = do
    reading (λ w. Resources.get_resource application id w.db)
    reading (require client actor "application.config.write" (application_ref id))
    storing (Resources.set_application_config id config)
    pure config

  -- `SSH`.
  unfoldable pub ssh : String → ResourceType → String → Action (World E) SshSession
  ssh actor type id = do
    resource ← reading (λ w. Resources.get_resource type id w.db)
    reading (
        require client actor (if type == machine then "machine.ssh" else "unit.ssh")
          (record { id = id; type = type }))
    pure (record { type = type; name = resource.name; actor = actor })
