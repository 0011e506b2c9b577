-- ===== src/Service/Sync/Laws.antt =====
-- After a `Sync` that succeeds, the server holds the tuples that the tables stand for.
use fine_grained_permissions.Base.{
  String, Bool, true, false, not, ◌&&◌, ◌||◌, List, [], ◌∷◌, ◌≡◌, refl, sym, ap, ◌∙◌, arith, Result,
  ok, on_result,
}
use fine_grained_permissions.Base.Actions.{◌>>=◌}
use fine_grained_permissions.OpenFga
use fine_grained_permissions.OpenFga.{Tuple, Client}
use fine_grained_permissions.OpenFga.Server.{Server}
use fine_grained_permissions.Store.Projection.{list_synced_tuples, replace_synced_tuples}
use fine_grained_permissions.Store.Projection.Laws.{has, Distinct, list-replace}
use fine_grained_permissions.Service.{World}
use fine_grained_permissions.Service.Desired.{desired_tuples}
use fine_grained_permissions.Service.Diff.Laws.{tuple_diff_exact, writes, deletes}
use fine_grained_permissions.Service.Sync.{replace_tuples, sync}

-- A call that succeeds, taken apart.
call-ok :
    {S A : Type 0} (p : Result A × S) (a : A) (s : S) → p ≡ (ok a, s) → (p.0 ≡ ok a) × (p.1 ≡ s)
call-ok p a s h = (ap (λ q. q.0) h, ap (λ q. q.1) h)

module _ {E : Type 0} (client : Client E) where
  -- The steps of a successful `replaceTuples`: the difference is written to the server, and the
  -- projection replaced.
  replace_tuples-steps :
      (desired : List Tuple) (w w' : World E)
      → replace_tuples client "all|" desired w ≡ (ok tt, w')
      → let current = list_synced_tuples "all|" w.db in
        (OpenFga.write client (writes current desired) (deletes current desired) w.engine
          ≡ (ok tt, w'.engine))
        × (replace_synced_tuples "all|" desired w.db ≡ (ok tt, w'.db))
  unfolding replace_tuples
  replace_tuples-steps desired w w' h = ground arith

  -- Those of a successful `Sync`.
  sync-steps :
      (w w' : World E)
      → sync client w ≡ (ok tt, w')
      → (desired : List Tuple) × (desired_tuples w.db ≡ ok desired)
        × (replace_tuples client "all|" desired w ≡ (ok tt, w'))
  unfolding sync
  sync-steps w w' h =
      on_result (desired_tuples w.db) (λ e failed. absurd (cc (rw (failed, ◌>>=◌) at h)))
        (λ desired found. (desired, found, rw (found, ◌>>=◌) at h))

module _ {E : Type 0} (client : Client E) (server : Server client) where
  write_keys :
      (ws ds : List Tuple) (e e' : E)
      → OpenFga.write client ws ds e ≡ (ok tt, e')
      → Distinct ws
      → Distinct ds
      → ((k : String) → (has k ws && has k ds) ≡ false)
      → (k : String) → server.holds e' k ≡ (has k ws || server.holds e k && not (has k ds))
  unfolding OpenFga.write
  write_keys [] [] e e' h p q r k =
      let same : e ≡ e' = ap (λ c. c.1) h in rw (← same) (and_true (server.holds e k))
    where
      and_true : (b : Bool) → b ≡ (b && true)
      and_true true = refl
      and_true false = refl
  write_keys (w ∷ ws) ds e e' h p q r k = server.write_law (w ∷ ws) ds e e' (ground arith) p q r k
  write_keys [] (d ∷ ds) e e' h p q r k = server.write_law [] (d ∷ ds) e e' (ground arith) p q r k

  -- The server holds the tuples of the last synchronised projection, by their keys.
  abbrev pub InStep : World E → Type 0
  InStep w = (k : String) → server.holds w.engine k ≡ has k (list_synced_tuples "all|" w.db)

  -- Over a server that makes the changes of the writes it accepts: a `Sync` that succeeds, from a state
  -- where the server is in step with the projection, leaves them in step, and the server then holds
  -- exactly the tuples that the tables stand for, by keys.
  pub sync-InStep :
      (w w' : World E)
      → InStep w
      → sync client w ≡ (ok tt, w')
      → InStep w'
        × ((desired : List Tuple) × (desired_tuples w.db ≡ ok desired)
            × ((k : String) → server.holds w'.engine k ≡ has k desired))
  sync-InStep w w' step h =
      let (desired, found, replaced) = sync-steps client w w' h in
      let current = list_synced_tuples "all|" w.db in
      let (written, stored) = replace_tuples-steps client desired w w' replaced in
      let (ws, ds, dw, dd, apart) = tuple_diff_exact current desired in
      let held : (k : String) → server.holds w'.engine k ≡ has k desired = λ k.
        settled (has k current) (has k desired) (ws k) (ds k) (step k) (
          write_keys (writes current desired) (deletes current desired) w.engine w'.engine written
            dw dd apart k) in
      (λ k. held k ∙ sym (list-replace desired w.db w'.db stored k), (desired, found, held))
    where
      settled :
          (c d : Bool) {a b s s' : Bool}
          → a ≡ (d && not c)
          → b ≡ (c && not d)
          → s ≡ c
          → s' ≡ (a || s && not b)
          → s' ≡ d
      settled true true p q r t = ground arith
      settled true false p q r t = ground arith
      settled false true p q r t = ground arith
      settled false false p q r t = ground arith
