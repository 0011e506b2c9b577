-- ===== src/Cli/Main.antt =====
-- `main` of the command-line client, up to its call of `run`: what package flag takes from the arguments
-- (`flag.ExitOnError`, with the two text flags `as` and `server`), and the environment, which is the
-- parameter `getenv`.
pub mod Laws
use Prim.Native.Char.{Char}
use fine_grained_permissions.Base.{
  ℕ, String, Bool, ◌||◌, Option, none, some, List, [], ◌∷◌, Result, ◌==◌, if◌then◌else◌,
}
use fine_grained_permissions.Cli.{Call, run}
use fine_grained_permissions.Cli.Texts.{cut, is_mark}

-- `env`.
unfoldable pub env : (String → String) → String → String → String
env getenv name fallback = if getenv name == "" then fallback else getenv name

-- The values of the flags. `identity` is the one of `--as`.
pub record Flags : Type 0 where
  pub identity : String
  pub server : String

-- What an argument is to package flag.
pub data Argument : Type 0 where
  word terminator bad : Argument
  flag : String → Option String → Argument

abbrev named_flag : String → Option (String × String) → Argument
named_flag text none = flag text none
named_flag text (some (name, value)) = flag name (some value)

-- What stands after the dashes.
unfoldable pub flag_of : String → Argument
unfolding cut
flag_of String.[] = bad
flag_of (String.◌∷◌ c s) =
    if is_mark "-" c || is_mark "=" c
    then bad
    else named_flag (String.◌∷◌ c s) (cut "=" (String.◌∷◌ c s))

abbrev after_dashes : String → Argument
after_dashes String.[] = terminator
after_dashes (String.◌∷◌ c s) = flag_of (String.◌∷◌ c s)

unfoldable pub argument : String → Argument
unfolding flag_of
argument String.[] = word
argument (String.◌∷◌ c String.[]) = word
argument (String.◌∷◌ c (String.◌∷◌ d s)) =
    if is_mark "-" c
    then (if is_mark "-" d then after_dashes s else flag_of (String.◌∷◌ d s))
    else word

-- The flags and the arguments after them, or the code that the process exits with.
pub data Parsed : Type 0 where
  exits : ℕ → Parsed
  parsed : Flags → List String → Parsed

abbrev set_flag : String → String → Flags → Flags
set_flag name value flags =
    if name == "as" then record flags { identity = value } else record flags { server = value }

-- A flag that is not defined: help exits with 0, any other with 2.
abbrev undefined : String → Parsed
undefined name = if name == "help" || name == "h" then exits 0 else exits 2

abbrev defined : String → Bool
defined name = name == "as" || name == "server"

-- `FlagSet.Parse`.
unfoldable pub parse : Flags → List String → Parsed
unfolding argument
parse flags [] = parsed flags []
parse flags (s ∷ []) = elim (argument s) [
  | word ↦ parsed flags (s ∷ [])
  | terminator ↦ parsed flags []
  | bad ↦ exits 2
  | flag name given ↦ elim given [
    | none ↦ if defined name then exits 2 else undefined name
    | some value ↦ if defined name then parsed (set_flag name value flags) [] else undefined name
  ]
]
parse flags (s ∷ next ∷ args) =
    let skip_one = λ (f : Flags). parse f (next ∷ args) in
    let skip_two = λ (f : Flags). parse f args in
    elim (argument s) [
      | word ↦ parsed flags (s ∷ next ∷ args)
      | terminator ↦ parsed flags (next ∷ args)
      | bad ↦ exits 2
      | flag name given ↦ elim given [
        | none ↦ if defined name then skip_two (set_flag name next flags) else undefined name
        | some value ↦ if defined name then skip_one (set_flag name value flags) else undefined name
      ]
    ]

-- What `main` comes to: an exit, or a call of `run` for a user on a server.
pub data Invocation : Type 0 where
  exit : ℕ → Invocation
  runs : Flags → Result Call → Invocation

abbrev invoke : Parsed → Invocation
invoke (exits code) = exit code
invoke (parsed flags []) = exit 2
invoke (parsed flags (command ∷ args)) = runs flags (run command args)

unfoldable pub main : (String → String) → List String → Invocation
unfolding parse env
main getenv args = invoke (
    parse
      (record {
        identity = "admin";
        server = env getenv "PERMISSIONS_DEMO_URL" "http://localhost:8088/v1";
      })
      args)
