-- ===== src/Store/Users.antt =====
-- Users, groups and memberships in store.go.
use Prim.Native.Char.{Char}
use fine_grained_permissions.Base.{
  String, Bool, not, ◌&&◌, ◌||◌, List, [], ◌∷◌, ◌++◌, map, Result, ok, err, conflict, not_found,
  failure, Action, ◌==◌, text_le, any, select, sort_by, sort_strings, if◌then◌else◌,
}
use fine_grained_permissions.Api.{User, Group}
use fine_grained_permissions.Store.{Db, NameRow}
use fine_grained_permissions.Store.Names.{trim_space, slug}

-- The constraints of `users` and `groups`: PRIMARY KEY (id), UNIQUE (name).
abbrev pub name_taken : List NameRow → NameRow → Bool
name_taken rows row = any (λ r. r.id == row.id || r.name == row.name) rows

unfoldable pub user_of : NameRow → User
user_of row = record { id = row.id; name = row.name }

-- `CreateUser`.
unfoldable pub create_user : (Char → Char) → String → Action Db User
unfolding user_of
create_user lower raw db =
    let name = trim_space raw in
    let row : NameRow = record { id = slug lower name; name = name } in
    if name == ""
    then (err (failure "name is required"), db)
    else if name_taken db.users row
    then (err conflict, db)
    else (ok (user_of row), record db { users = db.users ++ row ∷ [] })

abbrev by_name : NameRow → NameRow → Bool
by_name a b = text_le a.name b.name

-- `ListUsers`.
unfoldable pub list_users : Db → Result (List User)
list_users db = ok (map user_of (sort_by by_name db.users))

-- `UserExists`.
unfoldable pub user_exists : String → Db → Bool
user_exists id db = any (λ r. r.id == id) db.users

-- `GroupExists`.
unfoldable pub group_exists : String → Db → Bool
group_exists id db = any (λ r. r.id == id) db.groups

-- `CreateGroup`.
unfoldable pub create_group : (Char → Char) → String → Action Db Group
create_group lower raw db =
    let name = trim_space raw in
    let row : NameRow = record { id = slug lower name; name = name } in
    if name == ""
    then (err (failure "name is required"), db)
    else if name_taken db.groups row
    then (err conflict, db)
    else (
      ok (record { id = row.id; members = []; name = row.name }),
      record db { groups = db.groups ++ row ∷ [] },
    )

abbrev pub second : String × String → String
second p = p.1

-- `groupMembers`.
unfoldable pub group_members : String → Db → List String
group_members id db = sort_strings (map second (select (λ m. m.0 == id) db.group_members))

-- `ListGroups`.
unfoldable pub list_groups : Db → Result (List Group)
list_groups db = ok (
    map (λ row. record { id = row.id; members = group_members row.id db; name = row.name })
      (sort_by by_name db.groups))

abbrev pub is_member : String → String → String × String → Bool
is_member group_id user_id m = m.0 == group_id && m.1 == user_id

-- `AddGroupMember`; the INSERT OR IGNORE leaves a pair that is there.
unfoldable pub add_group_member : String → String → Action Db (Unit {0})
add_group_member group_id user_id db =
    if not (group_exists group_id db)
    then (err not_found, db)
    else if not (user_exists user_id db)
    then (err not_found, db)
    else if any (is_member group_id user_id) db.group_members
    then (ok tt, db)
    else (ok tt, record db { group_members = db.group_members ++ (group_id, user_id) ∷ [] })

-- `RemoveGroupMember`.
unfoldable pub remove_group_member : String → String → Action Db (Unit {0})
remove_group_member group_id user_id db =
    if any (is_member group_id user_id) db.group_members
    then (
      ok tt,
      record db {
        group_members = select (λ m. not (is_member group_id user_id m)) db.group_members;
      },
    )
    else (err not_found, db)

abbrev by_pair : String × String → String × String → Bool
by_pair a b = if a.0 == b.0 then text_le a.1 b.1 else text_le a.0 b.0

-- `ListMemberships`.
unfoldable pub list_memberships : Db → List (String × String)
list_memberships db = sort_by by_pair db.group_members
