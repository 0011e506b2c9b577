-- ===== src/Tests/Commands.antt =====
-- The theorems on the command-line client, and some runs of it.
use fine_grained_permissions.Base.{
  String, none, some, List, [], ◌∷◌, ◌≡◌, ◌↔◌, refl, ok, err, failure,
}
use fine_grained_permissions.Api.{exact_match, resource_type_valid}
use fine_grained_permissions.Store.Names.{trim_space}
use fine_grained_permissions.Cli
use fine_grained_permissions.Cli.{Call, Response, parse_ref, csv, run, print_response}
use fine_grained_permissions.Cli.Texts.{pos, negsuc, atoi}
use fine_grained_permissions.Cli.Parsing.{IsRef, parse_ref_iff, csv-join}
use fine_grained_permissions.Cli.Commands.{written}
use fine_grained_permissions.Cli.Sent.{IsSent, run-IsSent}
use fine_grained_permissions.Cli.Main.{main, runs, exit}
use fine_grained_permissions.Cli.Main.Laws.{main-words}
use fine_grained_permissions.Tests.Deployment.{the_model, the_app}

abbrev app_text : String
app_text = "application:pay"

parse_ref_iff_example :
    (parse_ref app_text ≡ ok the_app) ↔ (IsRef the_app × (app_text ≡ written the_app))
parse_ref_iff_example = parse_ref_iff app_text the_app

csv-join_example : csv "unit.read,unit.ssh" ≡ "unit.read" ∷ "unit.ssh" ∷ []
unfolding trim_space
csv-join_example =
    csv-join ("unit.read" ∷ "unit.ssh" ∷ []) ((refl, refl, λ e. cc), ((refl, refl, λ e. cc), tt))

abbrev bind_app : Call
bind_app = Call.create_binding (record {
  role_id = "viewer";
  scope = the_model;
  selector = record { match = exact_match; resources = some (the_app ∷ []) };
  subject_id = "ann";
  subject_type = "user";
})

abbrev bind_args : List String
bind_args = "create" ∷ "user" ∷ "ann" ∷ "viewer" ∷ "model:prod" ∷ "exact" ∷ "application:pay" ∷ []

model_IsRef : IsRef the_model
unfolding resource_type_valid
model_IsRef = (refl, λ e. cc)

app_IsRef : IsRef the_app
unfolding resource_type_valid
app_IsRef = (refl, λ e. cc)

main-words_example :
    main (λ name. "") ("--as" ∷ "bob" ∷ "--server" ∷ "http://demo/v1" ∷ "bindings" ∷ bind_args)
    ≡ runs (record { identity = "bob"; server = "http://demo/v1" }) (ok bind_app)
main-words_example =
    main-words (λ name. "") "bob" "http://demo/v1" "" bind_app
      (model_IsRef, (refl, (app_IsRef, tt)))

bindings_run : run "bindings" bind_args ≡ ok bind_app
unfolding run Cli.bindings Cli.bind Cli.selector_of parse_ref resource_type_valid
bindings_run = refl

run-IsSent_example : IsSent bind_app
run-IsSent_example = run-IsSent "bindings" bind_args bind_app bindings_run

-- Numbers, as Atoi reads them.
atoi_signs : atoi "-12" ≡ some (negsuc 11)
unfolding atoi
atoi_signs = refl

atoi_largest : atoi "9223372036854775807" ≡ some (pos 9223372036854775807)
unfolding atoi
atoi_largest = refl

atoi_over : atoi "9223372036854775808" ≡ none
unfolding atoi
atoi_over = refl

-- A flag with no value, and an unknown one, end the process.
main_no_value : main (λ name. "") ("--as" ∷ []) ≡ exit 2
unfolding main
main_no_value = refl

main_flags :
    main (λ name. "") ("-as=ann" ∷ "--" ∷ "users" ∷ [])
    ≡ runs (record { identity = "ann"; server = "http://localhost:8088/v1" }) (ok Call.list_users)
unfolding main run Cli.users
main_flags = refl

refused :
    print_response (λ body. ok body) (ok (record { status_code = 403; body = "no" }))
    ≡ err (failure "%s: %s")
unfolding print_response
refused = refl
