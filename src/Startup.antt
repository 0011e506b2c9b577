-- ===== src/Startup.antt =====
-- The start of the server, cmd/server/main.go: it waits for the engine, synchronises, and then serves. The
-- parameter `getenv` is the environment; `attempts` is how often `Bootstrap` is called before a signal
-- ends the wait. An error of the model ends the process.
pub mod Tables
pub mod Prepared
pub mod Laws
use fine_grained_permissions.Base.{
  ℕ, zero, suc, String, Bool, Result, ok, err, failure, Action, ◌==◌, if◌then◌else◌,
}
use fine_grained_permissions.Base.Actions.{◌>>=◌, ◌>>◌, pure}
use fine_grained_permissions.OpenFga.Bootstrap.{Sdk, Engine, bootstrap}
use fine_grained_permissions.Service.{World}
use fine_grained_permissions.Service.Sync.{sync}

-- `env`.
unfoldable pub env : (String → String) → String → String → String
env getenv name fallback = if getenv name == "" then fallback else getenv name

module _ {E : Type 0} (sdk : Sdk E) where
  -- The loop around `Bootstrap`.
  unfoldable pub wait : String → ℕ → Action (World E) Engine
  wait api_url zero w = (err (failure "context canceled"), w)
  wait api_url (suc attempts) w =
      let (r, w') = bootstrap sdk api_url w in
      let again = wait api_url attempts w' in elim r [ ok engine ↦ (ok engine, w') | err e ↦ again ]

  -- `main`, up to where it serves.
  unfoldable pub start : (String → String) → ℕ → Action (World E) Engine
  unfolding env wait
  start getenv attempts = do
    engine ← wait (env getenv "OPENFGA_API_URL" "http://localhost:8080") attempts
    sync (sdk.client engine)
    pure engine
