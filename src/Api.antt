-- ===== src/Api.antt =====
-- The types of the HTTP contract, api/api.gen.go. A Go string type with named constants
-- (ResourceType, SelectorMatch, SubjectType, LegacyAccessLevel) stays a text: a request may hold any.
-- A pointer with `omitempty` is an `Option`, a slice a list, and `map[string]string` a list of pairs.
use fine_grained_permissions.Base.{
  ℕ, String, Bool, true, false, ◌&&◌, Option, List, ◌==◌, if◌then◌else◌,
}

abbrev pub ResourceType : Type 0
ResourceType = String

abbrev pub application : ResourceType
application = "application"

abbrev pub cloud_credential : ResourceType
cloud_credential = "cloud-credential"

abbrev pub controller : ResourceType
controller = "controller"

abbrev pub machine : ResourceType
machine = "machine"

abbrev pub model : ResourceType
model = "model"

abbrev pub unit : ResourceType
unit = "unit"

-- `ResourceType.Valid`.
unfoldable pub resource_type_valid : ResourceType → Bool
resource_type_valid e =
    if e == application
    then true
    else if e == cloud_credential
    then true
    else if e == controller
    then true
    else if e == machine
    then true
    else if e == model
    then true
    else if e == unit
    then true
    else false

abbrev pub LegacyAccessLevel : Type 0
LegacyAccessLevel = String

abbrev pub admin_level : LegacyAccessLevel
admin_level = "admin"

abbrev pub read_level : LegacyAccessLevel
read_level = "read"

abbrev pub write_level : LegacyAccessLevel
write_level = "write"

-- `LegacyAccessLevel.Valid`.
unfoldable pub access_level_valid : LegacyAccessLevel → Bool
access_level_valid e =
    if e == admin_level
    then true
    else if e == read_level
    then true
    else if e == write_level
    then true
    else false

abbrev pub SelectorMatch : Type 0
SelectorMatch = String

abbrev pub exact_match : SelectorMatch
exact_match = "exact"

abbrev pub scope_match : SelectorMatch
scope_match = "scope"

abbrev pub SubjectType : Type 0
SubjectType = String

abbrev pub subject_group : SubjectType
subject_group = "group"

abbrev pub subject_user : SubjectType
subject_user = "user"

pub record ResourceRef : Type 0 where
  pub id : String
  pub type : ResourceType

-- Go's `==` on the struct.
abbrev pub ref_eq : ResourceRef → ResourceRef → Bool
ref_eq a b = a.id == b.id && a.type == b.type

abbrev pub ApplicationConfig : Type 0
ApplicationConfig = List (String × String)

pub record AuthorizationCheck : Type 0 where
  pub permission : String
  pub principal : String
  pub resource : ResourceRef

pub record AuthorizationDecision : Type 0 where
  pub allowed : Bool
  pub permission : String
  pub reason : String
  pub resource : ResourceRef

pub record Selector : Type 0 where
  pub match : SelectorMatch
  pub resources : Option (List ResourceRef)

pub record Binding : Type 0 where
  pub compatibility : Bool
  pub id : String
  pub role_id : String
  pub scope : ResourceRef
  pub selector : Selector
  pub subject_id : String
  pub subject_type : SubjectType

pub record CreateBinding : Type 0 where
  pub role_id : String
  pub scope : ResourceRef
  pub selector : Selector
  pub subject_id : String
  pub subject_type : SubjectType

-- `CreateGroup` and `CreateUser` hold a name only.
pub record CreateNamed : Type 0 where
  pub name : String

pub record CreateResource : Type 0 where
  pub name : String
  pub parent : Option ResourceRef
  pub type : ResourceType

pub record CreateRole : Type 0 where
  pub description : String
  pub name : String
  pub permissions : List String

pub record Group : Type 0 where
  pub id : String
  pub members : List String
  pub name : String

pub record GroupMemberChange : Type 0 where
  pub user_id : String

pub record LegacyAccessChange : Type 0 where
  pub access : LegacyAccessLevel
  pub model_id : String
  pub user_id : String

pub record LegacyRevokeResult : Type 0 where
  pub binding : Option Binding
  pub effective_access : String
  pub still_authorized : Bool

pub record Permission : Type 0 where
  pub description : String
  pub name : String
  pub resource_types : List ResourceType

pub record Problem : Type 0 where
  pub code : String
  pub message : String

pub record Resource : Type 0 where
  pub id : String
  pub name : String
  pub parent : Option ResourceRef
  pub status : String
  pub type : ResourceType

pub record Role : Type 0 where
  pub built_in : Bool
  pub description : String
  pub id : String
  pub name : String
  pub permissions : List String
  pub revision : ℕ

pub record RoleUpdatePreview : Type 0 where
  pub added_permissions : List String
  pub affected_bindings : ℕ
  pub current_revision : ℕ
  pub removed_permissions : List String
  pub role_id : String

pub record UpdateRole : Type 0 where
  pub description : String
  pub permissions : List String

pub record User : Type 0 where
  pub id : String
  pub name : String
