-- ===== src/Catalog/Types.antt =====
-- The catalogue as finite lists of names and types, over which its laws are checked.
use fine_grained_permissions.Base.{
  String, true, List, [], ◌∷◌, some, ◌≡◌, subst, ◌==◌, arith, In, In-map, map, eq_iff,
  find_first-In,
}
use fine_grained_permissions.Api.{
  ResourceType, Permission, application, cloud_credential, controller, machine, model, unit,
  resource_type_valid,
}
use fine_grained_permissions.Catalog.{permissions, permission}

abbrev pub all_types : List ResourceType
all_types = application ∷ cloud_credential ∷ controller ∷ machine ∷ model ∷ unit ∷ []

abbrev pub name_of : Permission → String
name_of p = p.name

unfoldable pub all_names : List String
unfolding permissions
all_names = map name_of permissions

-- `Valid` accepts the six types and no other.
pub resource_type_valid_iff_left :
    (t : ResourceType) → resource_type_valid t ≡ true → In t all_types
unfolding resource_type_valid
resource_type_valid_iff_left t h = ground (
  arith,
  eq_iff t application,
  eq_iff t cloud_credential,
  eq_iff t controller,
  eq_iff t machine,
  eq_iff t model,
  eq_iff t unit,
)

-- A permission that is found stands in the catalogue under its own name.
pub permission-In :
    (name : String) {p : Permission} → permission name ≡ some p → In p permissions × (p.name ≡ name)
unfolding permission
permission-In name {p} e =
    let (m, same) = find_first-In (λ q. q.name == name) permissions e in
    (m, (eq_iff p.name name).0 same)

pub permission-name-In :
    (name : String) {p : Permission} → permission name ≡ some p → In name all_names
unfolding all_names
permission-name-In name {p} e =
    let (m, same) = permission-In name e in
    subst (λ s. In s (map name_of permissions)) same (In-map name_of p permissions m)
