-- ===== src/Store.antt =====
-- The metadata store, internal/store/store.go, over its SQLite schema (`Store.init`). A table is the
-- list of its rows; a statement is a function on the tables, and a constraint that it breaks is its
-- only error: a driver's or a disk's errors are not modelled. Each method that writes in a
-- transaction returns the old tables when it fails.
pub mod Names
pub mod Users
pub mod Roles
pub mod Bindings
pub mod Resources
pub mod Projection
pub mod Seed
use fine_grained_permissions.Base.{ℕ, String, Option, List}
use fine_grained_permissions.Api.{ResourceRef, ApplicationConfig}

-- A row of `users` or `groups`.
pub record NameRow : Type 0 where
  pub id : String
  pub name : String

pub record RoleRow : Type 0 where
  pub id : String
  pub name : String
  pub description : String
  pub revision : ℕ
  pub built_in : ℕ

-- `selector_resources` holds JSON: `null`, or an array of references.
pub record BindingRow : Type 0 where
  pub id : String
  pub subject_type : String
  pub subject_id : String
  pub role_id : String
  pub scope_type : String
  pub scope_id : String
  pub selector_match : String
  pub selector_resources : Option (List ResourceRef)
  pub compatibility : ℕ

-- `config` holds JSON: an object of texts.
pub record ResourceRow : Type 0 where
  pub type : String
  pub id : String
  pub name : String
  pub status : String
  pub parent_type : Option String
  pub parent_id : Option String
  pub config : ApplicationConfig

pub record TupleRow : Type 0 where
  pub tuple_key : String
  pub user : String
  pub relation : String
  pub object : String

-- `detail` is a JSON object with these three entries; the row's number is left out.
pub record AuditRow : Type 0 where
  pub actor : String
  pub action : String
  pub object : String
  pub old : List String
  pub new : List String
  pub revision : ℕ
  pub created_at : String

pub record Db : Type 0 where
  pub settings : List (String × String)
  pub synced_tuples : List TupleRow
  pub users : List NameRow
  pub groups : List NameRow
  pub group_members : List (String × String)
  pub roles : List RoleRow
  pub role_permissions : List (String × String)
  pub bindings : List BindingRow
  pub resources : List ResourceRow
  pub audit : List AuditRow
