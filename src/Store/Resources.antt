-- ===== src/Store/Resources.antt =====
-- Resources and application configuration in store.go.
pub mod Laws
use fine_grained_permissions.Base.{
  String, Bool, false, not, ◌&&◌, ◌||◌, Option, none, some, List, [], ◌∷◌, ◌++◌, map, Result, ok,
  err, conflict, not_found, Action, ◌>>=◌, or_error, ◌==◌, text_le, any, select, find_first,
  sort_by, traverse, if◌then◌else◌,
}
use fine_grained_permissions.Api.{
  ResourceType, ResourceRef, Resource, CreateResource, ApplicationConfig, application,
}
use fine_grained_permissions.Store.{Db, ResourceRow}
use fine_grained_permissions.Store.Names.{trim_space}

-- `WHERE type=? AND id=?`.
abbrev pub row_at : ResourceType → String → ResourceRow → Bool
row_at type id r = r.type == type && r.id == id

-- The constraints of `resources`: PRIMARY KEY (type, id), UNIQUE (type, name).
unfoldable pub resource_taken : List ResourceRow → ResourceRow → Bool
resource_taken rows row =
    any (λ r. row_at row.type row.id r || r.type == row.type && r.name == row.name) rows

abbrev pub parent_type_of : Option ResourceRef → Option String
parent_type_of none = none
parent_type_of (some p) = some p.type

abbrev pub parent_id_of : Option ResourceRef → Option String
parent_id_of none = none
parent_id_of (some p) = some p.id

unfoldable pub new_resource : String → CreateResource → Resource
new_resource uuid input = record {
  id = uuid;
  name = trim_space input.name;
  parent = input.parent;
  status = "active";
  type = input.type;
}

unfoldable pub row_of : Resource → ResourceRow
row_of item = record {
  type = item.type;
  id = item.id;
  name = item.name;
  status = item.status;
  parent_type = parent_type_of item.parent;
  parent_id = parent_id_of item.parent;
  config = [];
}

-- `CreateResource`, with the identifier that `uuid.NewString` returned.
unfoldable pub create_resource : String → CreateResource → Action Db Resource
unfolding new_resource row_of resource_taken
create_resource uuid input db =
    let item = new_resource uuid input in
    if resource_taken db.resources (row_of item)
    then (err conflict, db)
    else (ok item, record db { resources = db.resources ++ row_of item ∷ [] })

-- `pi.String` of a NULL is "".
abbrev pub text_of : Option String → String
text_of none = ""
text_of (some s) = s

abbrev pub parent_ref : Option String → Option String → Option ResourceRef
parent_ref none pi = none
parent_ref (some pt) pi = some (record { id = text_of pi; type = pt })

unfoldable pub resource_of : ResourceRow → Resource
resource_of row = record {
  id = row.id;
  name = row.name;
  parent = parent_ref row.parent_type row.parent_id;
  status = row.status;
  type = row.type;
}

unfoldable pub find_resource : ResourceType → String → Db → Option ResourceRow
find_resource type id db = find_first (row_at type id) db.resources

-- `GetResource`.
unfoldable pub get_resource : ResourceType → String → Db → Result Resource
get_resource type id db = do
  row ← or_error (find_resource type id db) not_found
  ok (resource_of row)

abbrev pub by_type_and_name : ResourceRow → ResourceRow → Bool
by_type_and_name a b = if a.type == b.type then text_le a.name b.name else text_le a.type b.type

abbrev pub filtered : Option ResourceType → List ResourceRow → List ResourceRow
filtered none rows = rows
filtered (some t) rows = select (λ r. r.type == t) rows

-- `ListResources`.
unfoldable pub list_resources : Option ResourceType → Db → Result (List Resource)
list_resources filter db =
    traverse (λ row. get_resource row.type row.id db)
      (sort_by by_type_and_name (filtered filter db.resources))

abbrev pub is_text : Option String → String → Bool
is_text none s = false
is_text (some t) s = t == s

-- `HasChildren`.
unfoldable pub has_children : ResourceRef → Db → Bool
has_children ref db =
    any (λ r. is_text r.parent_type ref.type && is_text r.parent_id ref.id) db.resources

-- `DeleteResource`.
unfoldable pub delete_resource : ResourceRef → Action Db (Unit {0})
delete_resource ref db =
    if any (row_at ref.type ref.id) db.resources
    then (
      ok tt,
      record db { resources = select (λ r. not (row_at ref.type ref.id r)) db.resources },
    )
    else (err not_found, db)

-- `GetApplicationConfig`.
unfoldable pub get_application_config : String → Db → Result ApplicationConfig
get_application_config id db = do
  row ← or_error (find_resource application id db) not_found
  ok row.config

abbrev pub with_config : String → ApplicationConfig → ResourceRow → ResourceRow
with_config id config r = if row_at application id r then record r { config = config } else r

-- `SetApplicationConfig`.
unfoldable pub set_application_config : String → ApplicationConfig → Action Db (Unit {0})
set_application_config id config db =
    if any (row_at application id) db.resources
    then (ok tt, record db { resources = map (with_config id config) db.resources })
    else (err not_found, db)
