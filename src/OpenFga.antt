-- ===== src/OpenFga.antt =====
-- The adapter of the permission engine, internal/openfga/openfga.go: the tuples that stand for the
-- hierarchy, the memberships and the bindings, and the calls of the OpenFGA client. The client and the
-- server behind it are not part of the repository: they are the parameter `Client`, over a type `E`
-- of states of the server. `Bootstrap` is in OpenFga/Bootstrap.
pub mod Relations
pub mod Server
pub mod Tuples
pub mod Flows
pub mod Spelled
pub mod Compiled
pub mod Grants
pub mod Failures
pub mod Decisions
pub mod Model
pub mod Bootstrap
use Prim.Native.String.{◌++◌ as append}
use fine_grained_permissions.Base.{
  String, Bool, true, false, not, ◌&&◌, ◌||◌, Option, none, some, List, [], ◌∷◌, ◌++◌, Error,
  Result, ok, err, failure, Action, ◌>>=◌, ◌>>◌, guard, ◌==◌, if◌then◌else◌,
}
use fine_grained_permissions.Api.{
  ResourceType, SelectorMatch, ResourceRef, Resource, Binding, application, controller, model,
  exact_match, scope_match, subject_group,
}
use fine_grained_permissions.Catalog.{relation, supports, resource_object}

pub record Tuple : Type 0 where
  pub user : String
  pub relation : String
  pub object : String

-- What the adapter calls of the OpenFGA SDK; `none` and `false` are errors. A write that fails may
-- still have changed the server.
pub record Client (E : Type 0) : Type 0 where
  pub get_store : E → Bool
  pub check : Tuple → E → Option Bool
  pub write : List Tuple → List Tuple → E → Bool × E

module _ {E : Type 0} (client : Client E) where
  -- `Engine.Health`.
  unfoldable pub health : E → Result (Unit {0})
  health e = guard (client.get_store e) (failure "get store")

  abbrev pub allowed : Option Bool → Result Bool
  allowed none = err (failure "OpenFGA check: %w")
  allowed (some b) = ok b

  -- `Engine.Check`.
  unfoldable pub check : String → String → ResourceRef → E → Result Bool
  check principal permission resource e = do
    r ← relation permission
    guard (supports permission resource.type) (failure "permission %q does not apply to %q")
    allowed (
        client.check
          (record {
            user = append "user:" principal;
            relation = r;
            object = resource_object resource;
          })
          e)

  abbrev written : Bool × E → Result (Unit {0}) × E
  written (sent, e) = (guard sent (failure "write OpenFGA tuples: %w"), e)

  -- `Engine.Write`: with nothing to write or delete there is no call.
  unfoldable pub write : List Tuple → List Tuple → Action E (Unit {0})
  write [] [] e = (ok tt, e)
  write (w ∷ writes) deletes e = written (client.write (w ∷ writes) deletes e)
  write [] (d ∷ deletes) e = written (client.write [] (d ∷ deletes) e)

-- `SubjectTuple`.
unfoldable pub subject_tuple : Binding → Tuple
subject_tuple binding =
    let user = append binding.subject_type (append ":" binding.subject_id) in
    record {
      user = if binding.subject_type == subject_group then append user "#member" else user;
      relation = "subject";
      object = append "grant:" binding.id;
    }

-- `MembershipTuple`.
unfoldable pub membership_tuple : String → String → Tuple
membership_tuple group_id user_id = record {
  user = append "user:" user_id;
  relation = "member";
  object = append "group:" group_id;
}

abbrev parent_of : Resource → Option ResourceRef → Option Tuple
parent_of resource none = none
parent_of resource (some parent) = some (record {
  user = resource_object parent;
  relation = "parent";
  object = resource_object (record { id = resource.id; type = resource.type });
})

-- `ParentTuple`.
unfoldable pub parent_tuple : Resource → Option Tuple
parent_tuple resource = parent_of resource resource.parent

-- `strings.SplitN(permission, ".", 2)[0]`: what stands before the first dot.
abbrev pub prefix : String → String
prefix String.[] = ""
prefix (String.◌∷◌ c s) =
    let rest = prefix s in if String.◌∷◌ c "" == "." then "" else String.◌∷◌ c rest

-- `strings.NewReplacer(".", "_", "-", "_").Replace(permission)`.
abbrev pub relation_name : String → String
relation_name String.[] = ""
relation_name (String.◌∷◌ c s) =
    let rest = relation_name s in
    if String.◌∷◌ c "" == "." || String.◌∷◌ c "" == "-" then append "_" rest else String.◌∷◌ c rest

-- The `switch` of `relationAtScope`: whether permissions with this prefix flow from the target's type.
unfoldable pub inherits : ResourceType → String → Bool
inherits target p =
    if target == controller
    then true
    else if target == model
    then p == "application" || p == "unit" || p == "machine" || p == "policy"
    else if target == application
    then p == "unit" || p == "machine"
    else false

-- `relationAtScope`.
unfoldable pub relation_at_scope : String → ResourceType → SelectorMatch → Result String
relation_at_scope permission target match =
    if supports permission target
    then relation permission
    else if match == exact_match
    then err (failure "permission %q does not apply to exact %q resource")
    else if inherits target (prefix permission)
    then ok (relation_name permission)
    else err (failure "permission %q cannot be inherited from %q")

-- The first part of `PermissionTuples`: the resources that the binding names.
unfoldable pub targets_of : Binding → Result (List ResourceRef)
targets_of binding =
    if binding.selector.match == scope_match
    then ok (binding.scope ∷ [])
    else if binding.selector.match == exact_match
    then elim binding.selector.resources [
      | none ↦ err (failure "exact selector requires resources")
      | some [] ↦ err (failure "exact selector requires resources")
      | some (t ∷ ts) ↦ ok (t ∷ ts)
    ]
    else err (failure "unknown selector %q")

-- The inner loop of `PermissionTuples`. `matched` is true exactly when a tuple was appended.
unfoldable pub tuples_for : String → SelectorMatch → String → List ResourceRef → Result (List Tuple)
tuples_for principal match permission [] = ok []
tuples_for principal match permission (target ∷ targets) =
    let rest = tuples_for principal match permission targets in
    if match == exact_match && not (supports permission target.type) then rest else do
      r ← relation_at_scope permission target.type match
      more ← rest
      ok (record { user = principal; relation = r; object = resource_object target } ∷ more)

abbrev require_matched : List Tuple → Result (List Tuple)
require_matched [] = err (failure "permission %q has no matching exact resource")
require_matched (t ∷ ts) = ok (t ∷ ts)

-- The outer loop of `PermissionTuples`.
unfoldable pub tuples_for_all :
    String → SelectorMatch → List ResourceRef → List String → Result (List Tuple)
tuples_for_all principal match targets [] = ok []
tuples_for_all principal match targets (permission ∷ permissions) =
    let rest = tuples_for_all principal match targets permissions in
    do
      found ← tuples_for principal match permission targets
      matched ← require_matched found
      more ← rest
      ok (matched ++ more)

abbrev pub grant_subject : Binding → String
grant_subject binding = append "grant:" (append binding.id "#subject")

-- `PermissionTuples`.
unfoldable pub permission_tuples : Binding → List String → Result (List Tuple)
permission_tuples binding permissions = do
  targets ← targets_of binding
  tuples_for_all (grant_subject binding) binding.selector.match targets permissions
