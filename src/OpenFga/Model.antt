-- ===== src/OpenFga/Model.antt =====
-- The authorization model that the engine runs, internal/openfga/model.fga, and what the language of
-- such models says that a set of tuples gives a user: the meaning of a type restriction such as
-- `[user, group#member]` and of `read from parent`, as OpenFGA documents them.
pub mod Tables
use Prim.Native.String.{◌++◌ as append}
use fine_grained_permissions.Base.{
  String, Bool, true, false, ◌&&◌, Option, none, some, List, [], ◌∷◌, ◌++◌, map, ◌≡◌, ◌==◌, In,
  find_first,
}
use fine_grained_permissions.OpenFga.{Tuple}

-- A `define` line: whether a user may stand in a tuple of the relation, which usersets may, objects
-- of which types may, and the relation of the parent that gives this one too.
pub record Define : Type 0 where
  pub type : String
  pub relation : String
  pub users : Bool
  pub usersets : List (String × String)
  pub objects : List String
  pub from_parent : Option String

abbrev parent_line : String → List String → Define
parent_line type parents = record {
  type = type;
  relation = "parent";
  users = false;
  usersets = [];
  objects = parents;
  from_parent = none;
}

-- `[user, group#member, grant#subject]`, with `or … from parent` if one is given.
abbrev grant_line : String → String → Option String → Define
grant_line type relation above = record {
  type = type;
  relation = relation;
  users = true;
  usersets = ("group", "member") ∷ ("grant", "subject") ∷ [];
  objects = [];
  from_parent = above;
}

abbrev own_line : String → String → Define
own_line type relation = grant_line type relation none

abbrev same_line : String → String → Define
same_line type relation = grant_line type relation (some relation)

abbrev line_from : String → String × String → Define
line_from type (relation, above) = grant_line type relation (some above)

unfoldable pub identity_lines : List Define
identity_lines =
    record {
      type = "group";
      relation = "member";
      users = true;
      usersets = [];
      objects = [];
      from_parent = none;
    }
    ∷ record {
      type = "grant";
      relation = "subject";
      users = true;
      usersets = ("group", "member") ∷ [];
      objects = [];
      from_parent = none;
    }
    ∷ []

unfoldable pub controller_lines : List Define
controller_lines = map (own_line "controller") (
    "policy_read" ∷ "policy_manage" ∷ "model_read" ∷ "model_create" ∷ "model_delete"
    ∷ "application_read" ∷ "application_create" ∷ "application_delete" ∷ "application_config_read"
    ∷ "application_config_write" ∷ "unit_read" ∷ "unit_create" ∷ "unit_delete" ∷ "unit_ssh"
    ∷ "machine_read" ∷ "machine_create" ∷ "machine_delete" ∷ "machine_ssh" ∷ "cloud_credential_read"
    ∷ "cloud_credential_create" ∷ "cloud_credential_delete" ∷ [])

unfoldable pub model_lines : List Define
model_lines =
    parent_line "model" ("controller" ∷ [])
    ∷ line_from "model" ("read", "model_read")
    ∷ line_from "model" ("delete", "model_delete")
    ∷ map (same_line "model") (
        "application_read" ∷ "application_create" ∷ "application_delete" ∷ "application_config_read"
        ∷ "application_config_write" ∷ "unit_read" ∷ "unit_create" ∷ "unit_delete" ∷ "unit_ssh"
        ∷ "machine_read" ∷ "machine_create" ∷ "machine_delete" ∷ "machine_ssh" ∷ "policy_read"
        ∷ "policy_manage" ∷ [])

unfoldable pub application_lines : List Define
application_lines =
    parent_line "application" ("model" ∷ [])
    ∷ line_from "application" ("read", "application_read")
    ∷ line_from "application" ("delete", "application_delete")
    ∷ line_from "application" ("config_read", "application_config_read")
    ∷ line_from "application" ("config_write", "application_config_write")
    ∷ map (same_line "application") (
        "unit_read" ∷ "unit_create" ∷ "unit_delete" ∷ "unit_ssh" ∷ "machine_read" ∷ "machine_create"
        ∷ "machine_delete" ∷ "machine_ssh" ∷ [])

unfoldable pub leaf_lines : List Define
leaf_lines =
    parent_line "unit" ("application" ∷ [])
      ∷ map (line_from "unit")
          (("read", "unit_read") ∷ ("delete", "unit_delete") ∷ ("ssh", "unit_ssh") ∷ [])
    ++ parent_line "machine" ("model" ∷ "application" ∷ [])
      ∷ map (line_from "machine")
          (("read", "machine_read") ∷ ("delete", "machine_delete") ∷ ("ssh", "machine_ssh") ∷ [])
    ++ parent_line "cloud_credential" ("controller" ∷ [])
      ∷ map (line_from "cloud_credential")
          (("read", "cloud_credential_read") ∷ ("delete", "cloud_credential_delete") ∷ [])

-- The whole model.
unfoldable pub lines : List Define
unfolding identity_lines controller_lines model_lines application_lines leaf_lines
lines = identity_lines ++ (controller_lines ++ (model_lines ++ (application_lines ++ leaf_lines)))

unfoldable pub definition : String → String → Option Define
definition type relation = find_first (λ d. d.type == type && d.relation == relation) lines

abbrev pub object : String → String → String
object type id = append type (append ":" id)

abbrev pub stored_tuple : String → String → String → String → Tuple
stored_tuple user relation type id = record {
  user = user;
  relation = relation;
  object = object type id;
}

-- The user has the relation to the object of the type, by the tuples that are stored.
pub data Holds (Stored : Tuple → Type 0) (user_id : String)
    : String → String → String → Type 0 where
  -- A tuple names the user.
  named :
      (relation type id : String) (d : Define)
      → definition type relation ≡ some d
      → d.users ≡ true
      → Stored (stored_tuple (append "user:" user_id) relation type id)
      → Holds Stored user_id relation type id
  -- A tuple names a userset, to which the user belongs.
  belongs :
      (relation type id set_type set_relation set_id : String) (d : Define)
      → definition type relation ≡ some d
      → In (set_type, set_relation) d.usersets
      → Stored (
          stored_tuple (append (object set_type set_id) (append "#" set_relation)) relation type id)
      → Holds Stored user_id set_relation set_type set_id
      → Holds Stored user_id relation type id
  -- The user has the relation to the parent from which this one comes.
  inherited :
      (relation type id above parent_type parent_id : String) (d : Define)
      → definition type relation ≡ some d
      → d.from_parent ≡ some above
      → Stored (stored_tuple (object parent_type parent_id) "parent" type id)
      → Holds Stored user_id above parent_type parent_id
      → Holds Stored user_id relation type id
