-- ===== src/Service.antt =====
-- The authorization service, internal/service/service.go: its state is the store's tables and the
-- state of the OpenFGA server, which `World` holds. What only reads is a function into `Result`, what
-- writes an `Action`.
pub mod Check
pub mod Desired
pub mod Diff
pub mod Sync
pub mod Policy
pub mod Roles
pub mod Scopes
pub mod Bindings
pub mod Legacy
pub mod Resources
pub mod Access
pub mod Guards
use fine_grained_permissions.Base.{Result, Action}
use fine_grained_permissions.Store.{Db}

pub record World (E : Type 0) : Type 0 where
  pub db : Db
  pub engine : E

-- A call of the store.
abbrev pub storing : {E A : Type 0} → Action Db A → Action (World E) A
storing m w = let (r, db') = m w.db in (r, record w { db = db' })

-- A call of the engine.
abbrev pub engaging : {E A : Type 0} → Action E A → Action (World E) A
engaging m w = let (r, e) = m w.engine in (r, record w { engine = e })
