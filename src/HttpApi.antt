-- ===== src/HttpApi.antt =====
-- The HTTP boundary, internal/httpapi/server.go: what each handler answers. A response is the
-- status that its generated type writes, with its body.
pub mod Errors
pub mod Identity
pub mod Handlers
pub mod Statuses
use fine_grained_permissions.Base.{ℕ, String, Error, Result, ok, err}
use fine_grained_permissions.Service.{World}

pub data Response (A : Type 0) : Type 0 where
  -- A status with a JSON body.
  json : ℕ → A → Response A
  -- A status with no body.
  bare : ℕ → Response A
  -- A status with a `Problem`: its code, and the error whose text is the message.
  problem : ℕ → String → Error → Response A
  -- A nil response object: the generated handler writes nothing, and net/http then sends 200 with
  -- no body.
  nothing : Response A

-- The status that the client sees.
abbrev pub status : {A : Type 0} → Response A → ℕ
status (json code _) = code
status (bare code) = code
status (problem code _ _) = code
status nothing = 200

-- `if err != nil { return onError(err) }; return …`.
abbrev pub answer :
    {E A B : Type 0}
    → (A → Response B)
    → (Error → Response B)
    → Result A × World E
    → Response B × World E
answer on_ok on_error (ok a, w) = (on_ok a, w)
answer on_ok on_error (err e, w) = (on_error e, w)
