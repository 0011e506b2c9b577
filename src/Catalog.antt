-- ===== src/Catalog.antt =====
-- The permission catalogue, internal/catalog/catalog.go: which permissions there are, on which types
-- of resource each is checked, and the relation of the OpenFGA model that stands for it.
pub mod Types
pub mod Laws
use Prim.Native.String.{◌++◌ as append}
use fine_grained_permissions.Base.{
  String, Bool, true, false, ◌||◌, Option, none, some, List, [], ◌∷◌, map, Result, ok, err, failure,
  or_error, ◌==◌, text_le, sort_by, find_first, contains, if◌then◌else◌,
}
use fine_grained_permissions.Api.{
  ResourceType, Permission, ResourceRef, application, cloud_credential, controller, machine, model,
  unit,
}

abbrev pub controller_id : String
controller_id = "juju"

abbrev item : String → List ResourceType → String → Permission
item name types description = record {
  description = description;
  name = name;
  resource_types = types;
}

-- `var permissions`, in the order of the source.
unfoldable pub permissions : List Permission
permissions =
    item "policy.read" (controller ∷ model ∷ []) "Inspect roles, groups and bindings."
    ∷ item "policy.manage" (controller ∷ model ∷ []) "Manage roles, groups and bindings."
    ∷ item "model.read" (model ∷ []) "Read model status and metadata."
    ∷ item "model.create" (controller ∷ []) "Create a model under the controller."
    ∷ item "model.delete" (model ∷ []) "Delete a model."
    ∷ item "application.read" (application ∷ []) "Read application status and metadata."
    ∷ item "application.create" (model ∷ []) "Create an application in a model."
    ∷ item "application.delete" (application ∷ []) "Delete an application."
    ∷ item "application.config.read" (application ∷ []) "Read application configuration."
    ∷ item "application.config.write" (application ∷ []) "Update application configuration."
    ∷ item "unit.read" (unit ∷ []) "Read unit status and metadata."
    ∷ item "unit.create" (application ∷ []) "Create a unit under an application."
    ∷ item "unit.delete" (unit ∷ []) "Delete a unit."
    ∷ item "unit.ssh" (unit ∷ []) "Open a simulated SSH session to a unit."
    ∷ item "machine.read" (machine ∷ []) "Read machine status and metadata."
    ∷ item "machine.create" (model ∷ application ∷ [])
        "Create a machine under a model or application."
    ∷ item "machine.delete" (machine ∷ []) "Delete a machine."
    ∷ item "machine.ssh" (machine ∷ []) "Open a simulated SSH session to a machine."
    ∷ item "cloud-credential.read" (cloud_credential ∷ []) "Read cloud credential metadata."
    ∷ item "cloud-credential.create" (controller ∷ []) "Create a cloud credential."
    ∷ item "cloud-credential.delete" (cloud_credential ∷ []) "Delete a cloud credential."
    ∷ []

-- The map `relationByPermission`.
unfoldable pub relation_by_permission : List (String × String)
relation_by_permission =
    ("policy.read", "policy_read")
    ∷ ("policy.manage", "policy_manage")
    ∷ ("model.read", "read")
    ∷ ("model.create", "model_create")
    ∷ ("model.delete", "delete")
    ∷ ("application.read", "read")
    ∷ ("application.create", "application_create")
    ∷ ("application.delete", "delete")
    ∷ ("application.config.read", "config_read")
    ∷ ("application.config.write", "config_write")
    ∷ ("unit.read", "read")
    ∷ ("unit.create", "unit_create")
    ∷ ("unit.delete", "delete")
    ∷ ("unit.ssh", "ssh")
    ∷ ("machine.read", "read")
    ∷ ("machine.create", "machine_create")
    ∷ ("machine.delete", "delete")
    ∷ ("machine.ssh", "ssh")
    ∷ ("cloud-credential.read", "read")
    ∷ ("cloud-credential.create", "cloud_credential_create")
    ∷ ("cloud-credential.delete", "delete")
    ∷ []

-- `m[key]` on a map written as a list of pairs with distinct keys.
abbrev pub lookup : String → List (String × String) → Option String
lookup key [] = none
lookup key ((k, v) ∷ m) = if k == key then some v else lookup key m

-- `Permissions`: a copy of the catalogue, sorted by name.
unfoldable pub sorted_permissions : List Permission
unfolding permissions
sorted_permissions = sort_by (λ a b. text_le a.name b.name) permissions

-- `Permission`.
unfoldable pub permission : String → Option Permission
permission name = find_first (λ p. p.name == name) permissions

-- `Relation`.
unfoldable pub relation : String → Result String
relation name = or_error (lookup name relation_by_permission) (failure "unknown permission %q")

-- The loop over the types of a permission.
abbrev pub has_type : List ResourceType → ResourceType → Bool
has_type = contains

abbrev pub supported_by : Option Permission → ResourceType → Bool
supported_by none t = false
supported_by (some p) t = has_type p.resource_types t

-- `Supports`.
unfoldable pub supports : String → ResourceType → Bool
supports name t = supported_by (permission name) t

-- `strings.ReplaceAll(s, "-", "_")`, character by character.
abbrev pub underscore : String → String
underscore String.[] = ""
underscore (String.◌∷◌ c s) =
    let rest = underscore s in if String.◌∷◌ c "" == "-" then append "_" rest else String.◌∷◌ c rest

-- `OpenFGAType`.
unfoldable pub open_fga_type : ResourceType → String
open_fga_type t = underscore t

-- `ResourceObject`.
unfoldable pub resource_object : ResourceRef → String
unfolding open_fga_type
resource_object ref = append (open_fga_type ref.type) (append ":" ref.id)

-- `ParentRule`.
unfoldable pub parent_rule : ResourceType → List ResourceType
parent_rule t =
    if t == model || t == cloud_credential
    then controller ∷ []
    else if t == application
    then model ∷ []
    else if t == unit
    then application ∷ []
    else if t == machine
    then model ∷ application ∷ []
    else []

-- `CreatePermission`; `none` is the pair of "" and false.
unfoldable pub create_permission : ResourceType → Option String
create_permission t =
    if t == model
    then some "model.create"
    else if t == application
    then some "application.create"
    else if t == unit
    then some "unit.create"
    else if t == machine
    then some "machine.create"
    else if t == cloud_credential
    then some "cloud-credential.create"
    else none

-- `ReadPermission`.
unfoldable pub read_permission : ResourceType → Option String
read_permission t =
    if t == model
    then some "model.read"
    else if t == application
    then some "application.read"
    else if t == unit
    then some "unit.read"
    else if t == machine
    then some "machine.read"
    else if t == cloud_credential
    then some "cloud-credential.read"
    else none

-- `DeletePermission`.
unfoldable pub delete_permission : ResourceType → Option String
delete_permission t =
    if t == model
    then some "model.delete"
    else if t == application
    then some "application.delete"
    else if t == unit
    then some "unit.delete"
    else if t == machine
    then some "machine.delete"
    else if t == cloud_credential
    then some "cloud-credential.delete"
    else none
