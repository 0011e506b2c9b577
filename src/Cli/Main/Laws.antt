-- ===== src/Cli/Main/Laws.antt =====
-- A whole command line is read as the call that it was written from, if that call is writable.
use fine_grained_permissions.Base.{String, List, [], ◌∷◌, ◌≡◌, refl, ap, ◌∙◌, ok}
use fine_grained_permissions.Cli.{Call}
use fine_grained_permissions.Cli.Commands.{words, IsWritable, run-words}
use fine_grained_permissions.Cli.Main.{invoke, parsed, main, parse, argument, word, Flags, runs}

-- No command looks like a flag.
words-word : (revision : String) (call : Call) → argument (words revision call).0 ≡ word
unfolding argument
words-word revision Call.list_permissions = refl
words-word revision _ = refl

parse-word :
    (flags : Flags) (s : String) (args : List String)
    → argument s ≡ word
    → parse flags (s ∷ args) ≡ parsed flags (s ∷ args)
unfolding parse
parse-word flags s [] h = rw (parse, h) refl
parse-word flags s (t ∷ args) h = rw (parse, h) refl

-- A call is writable when its references are of types of the API and have identifiers that are not
-- empty, its selector lists resources exactly if it is exact, each of its permissions is trimmed, not
-- empty and without a comma, its configuration is not empty and has distinct keys without an equals
-- sign, and the text given for its revision reads as that revision. The command line of a writable
-- call, for a user on a server, makes `main` run that call, as that user on that server, whatever
-- the environment.
pub main-words :
    (getenv : String → String) (user url revision : String) (call : Call)
    → IsWritable revision call
    → main getenv
        ("--as" ∷ user ∷ "--server" ∷ url ∷ (words revision call).0 ∷ (words revision call).1)
      ≡ runs (record { identity = user; server = url }) (ok call)
unfolding main
main-words getenv user url revision call h =
    let flags : Flags = record { identity = user; server = url } in
    let (command, args) = words revision call in
    ap invoke (parse-word flags command args (words-word revision call))
    ∙ ap (λ r. runs flags r) (run-words revision call h)
