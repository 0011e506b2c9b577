-- ===== src/Lib.antt =====
-- A service that decides who may do what to which resource of a Juju-like controller, for users and
-- groups that hold roles through bindings. It keeps its metadata in SQLite and asks an OpenFGA server
-- for each decision; whatever changes the metadata then brings the server's tuples in step with it.
--
-- The parts, and the files that model them:
-- * api/api.gen.go, the types of the HTTP contract: Api. Only the types and the `Valid` functions that
--   the core uses.
-- * internal/catalog/catalog.go, the permissions, their relations, the parent rules: Catalog.
--   Catalog/Types lists the types and names for checks over the whole table.
-- * internal/openfga/openfga.go, the tuples and the calls of the engine: OpenFga. The SDK's client and
--   the server behind it are the parameter `Client E`, over a type `E` of states of the server.
--   OpenFga/Bootstrap has `Bootstrap`, over the SDK as the parameter `Sdk E`.
--   OpenFga/Server says what the service relies on of a write and of a check. OpenFga/Flows,
--   OpenFga/Spelled, OpenFga/Compiled and OpenFga/Grants describe the relations and the targets of a
--   binding without the code of `relationAtScope` and `PermissionTuples`, from the names and the
--   catalogue.
-- * internal/openfga/model.fga, the authorization model: OpenFga/Model, each `define` line as data, and
--   `Holds`, what the language of models says that stored tuples give a user. OpenFga/Model/Tables has
--   the facts that hold of the whole model and the whole catalogue.
-- * internal/store/store.go, the tables and the statements on them: Store, with Store/Names (TrimSpace,
--   slug, unique), Store/Users, Store/Roles, Store/Bindings, Store/Resources, Store/Projection (the
--   settings and the last synchronised tuples), Store/Seed (seed, Reset). The state is the record `Db`,
--   a list of rows for each table of `Store.init`.
-- * internal/service/service.go, the operations: Service, over `World`, the tables and the server's
--   state, with Service/Check (Check, CheckBatch, require), Service/Desired, Service/Diff and
--   Service/Sync (Sync, replaceTuples, tupleDiff, diff), Service/Policy (users, groups),
--   Service/Roles with its Preview (PreviewRoleUpdate, validatePermissions), Service/Scopes
--   (managementScope, isWithinScope), Service/Bindings with its Validation, Service/Legacy
--   (GrantLegacy, RevokeLegacy), Service/Resources (resources, the configuration, SSH).
-- * internal/httpapi/server.go, the handlers and what they answer: HttpApi, with HttpApi/Errors,
--   HttpApi/Identity (the middleware) and HttpApi/Handlers.
-- * cmd/permissions-demo/main.go, the command-line client: Cli, from the arguments to the call of the
--   generated client, with Cli/Calls (the calls, parseRef, csv), Cli/Texts (what it uses of strings and
--   strconv) and Cli/Main (flags, environment). Cli/Commands writes out the command of each call, as the
--   usage text has it.
-- * cmd/server/main.go, the start of the server: Startup, from the wait for the engine to the first Sync.
-- Service/Access is the abstract view of all this: who has which permission on which resource, said of
-- the tables alone. Its children take the way from there to the decisions and back: from the rows to
-- the tuples (Tuples, Words, Subjects), through the model up and down the hierarchy (Says, Sound,
-- Complete), to the answers of `Check` after a `Sync` (Decisions).
-- Base holds what the parts share: tests, lists, results and the `do` of calls that change a state. The
-- proofs stand in child modules (Laws, and others named for what they prove), Service/Guards proves what
-- each writing operation has checked first, and Tests holds a small deployment and the theorems on it.
-- A Go method `CreateBinding` is `create_binding` here, in the module of its file. The handlers call
-- the service, the service the store and the engine, and what one layer returns as an error the next
-- one passes on or maps, as in the code.
--
-- How the code is read: a method that writes is a function from a state to a result and a new state,
-- so what was written before a failure stays written unless the code rolls it back. A statement of SQL
-- is a function on the lists of rows; a constraint that it breaks is its only error. The texts of
-- errors are the formats of their messages, without what is filled in. `uuid.NewString` and the time
-- are arguments, `unicode.ToLower` is the parameter `lower`. The order of a Go map is that of
-- insertion here; the code sorts or does not depend on it. A revision is a natural number in the store,
-- the service and the handlers, without the bound of 64 bits, and an integer of 64 bits on the command
-- line: a negative If-Match, which no stored revision equals, is not among the arguments of the
-- handlers.
--
-- Fuel: the two loops up the hierarchy take `scope_fuel`, which is 4. Where each resource has a parent
-- of an allowed type, the hierarchy is four levels deep (controller, model, application, unit), so the
-- fuel is enough; a loop that runs out of it is the error `diverged`, which no code returns.
--
-- Attempts: the wait for the engine takes as many calls of `Bootstrap` as there are before a signal ends
-- it, which is an argument.
--
-- Not modelled: the generated clients and decoders, the HTTP server and the wiring of the handlers in
-- cmd/server, the JSON text of columns and bodies, and the errors of the driver, the disk and the
-- network other than those of the client's calls.
pub mod Base
pub mod Api
pub mod Catalog
pub mod OpenFga
pub mod Store
pub mod Service
pub mod HttpApi
pub mod Cli
pub mod Startup
pub mod Tests
