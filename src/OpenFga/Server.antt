-- ===== src/OpenFga/Server.antt =====
-- What the service relies on of the OpenFGA server, in its documentation of writes: the tuples of a
-- request that succeeds are all written and deleted, with duplicate writes and missing deletes
-- ignored, as the adapter asks. A request may not name a tuple twice, so the law is about requests
-- that do not. And in that of checks: a check that is answered is answered by the model and the tuples
-- that the server holds.
use Prim.Native.String.{◌++◌ as append}
use fine_grained_permissions.Base.{
  String, Bool, true, false, not, ◌&&◌, ◌||◌, List, some, ◌≡◌, ◌↔◌, no_colon,
}
use fine_grained_permissions.OpenFga.{Tuple, Client}
use fine_grained_permissions.OpenFga.Model.{Holds, stored_tuple}
use fine_grained_permissions.Store.Projection.{tuple_key}
use fine_grained_permissions.Store.Projection.Laws.{has, Distinct}

pub record Server {E : Type 0} (client : Client E) : Type 0 where
  -- Whether the server holds a tuple with the key.
  pub holds : E → String → Bool
  pub write_law :
      (writes deletes : List Tuple) (e e' : E)
      → client.write writes deletes e ≡ (true, e')
      → Distinct writes
      → Distinct deletes
      → ((k : String) → (has k writes && has k deletes) ≡ false)
      → (k : String) → holds e' k ≡ (has k writes || holds e k && not (has k deletes))

-- The tuple is among those that the server holds.
abbrev pub Stored : {E : Type 0} {client : Client E} → Server client → E → Tuple → Type 0
Stored server e t = server.holds e (tuple_key t) ≡ true

-- The server decides by the model.
pub record Evaluator {E : Type 0} {client : Client E} (server : Server client) : Type 0 where
  pub check_law :
      (user_id relation type id : String) (e : E) (b : Bool)
      → no_colon type ≡ true
      → client.check (stored_tuple (append "user:" user_id) relation type id) e ≡ some b
      → (b ≡ true) ↔ Holds (Stored server e) user_id relation type id
