-- ===== src/Cli/Sent.antt =====
-- What `run` has tested of the references, selectors, revisions and permissions in a call it makes.
use fine_grained_permissions.Base.{
  String, Bool, true, false, ◌||◌, Option, none, some, List, [], ◌∷◌, ◌≡◌, ◌≢◌, ◌⊎◌, inl, inr, refl,
  subst, ◌==◌, eq_iff, In, Bool-cases, Option-cases, Result, ok, err, traverse, traverse-In,
  >>=-eq-ok, on_result, if◌then◌else◌,
}
use fine_grained_permissions.Api.{ResourceRef, Selector, SelectorMatch, exact_match}
use fine_grained_permissions.Cli
use fine_grained_permissions.Cli.{
  Call, parse_ref, csv, trimmed, change_role, selector_of, bind, run,
}
use fine_grained_permissions.Cli.Texts.{ℤ, atoi}
use fine_grained_permissions.Cli.Parsing.{IsRef, parse_ref_iff}
use fine_grained_permissions.Cli.Values.{Fits, atoi-Fits, AllNamed, csv-AllNamed}

abbrev IsOptionalRef : Option ResourceRef → Type 0
IsOptionalRef none = Unit
IsOptionalRef (some ref) = IsRef ref

-- An exact selector lists resources, each well formed; another lists none.
abbrev IsSelector : Selector → Type 0
IsSelector selector =
    ((selector.match ≡ exact_match)
      × ((refs : List ResourceRef) × (selector.resources ≡ some refs)
          × ((ref : ResourceRef) → In ref refs → IsRef ref)))
    ⊎ ((selector.match ≢ exact_match) × (selector.resources ≡ none))

-- The references of the call that are written TYPE:ID are of known types and name something, its
-- revision fits in 64 bits, and no permission that it lists is empty. The other calls are as they are.
abbrev pub IsSent : Call → Type 0
IsSent (Call.create_role body) = AllNamed body.permissions
IsSent (Call.preview_role_update id n body) = Fits n × AllNamed body.permissions
IsSent (Call.update_role id n body) = Fits n × AllNamed body.permissions
IsSent (Call.create_binding body) = IsRef body.scope × IsSelector body.selector
IsSent (Call.check_authorization body) = IsRef body.resource
IsSent (Call.create_resource body) = IsOptionalRef body.parent
IsSent _ = Unit

abbrev Ensures : Result Call → Type 0
Ensures (ok call) = IsSent call
Ensures (err error) = Unit

if_Ensures :
    (test : Bool) (a b : Result Call) → Ensures a → Ensures b → Ensures (if test then a else b)
if_Ensures true a b ha hb = ha
if_Ensures false a b ha hb = hb

users-Ensures : (args : List String) → Ensures (Cli.users args)
unfolding Cli.users
users-Ensures [] = tt
users-Ensures (sub ∷ []) = if_Ensures (sub == "list") _ _ tt tt
users-Ensures (sub ∷ name ∷ []) =
    if_Ensures (sub == "list") _ _ tt (if_Ensures (sub == "create") _ _ tt tt)
users-Ensures (sub ∷ _ ∷ _ ∷ _) = if_Ensures (sub == "list") _ _ tt tt

groups-Ensures : (args : List String) → Ensures (Cli.groups args)
unfolding Cli.groups
groups-Ensures [] = tt
groups-Ensures (sub ∷ []) = if_Ensures (sub == "list") _ _ tt tt
groups-Ensures (sub ∷ name ∷ []) =
    if_Ensures (sub == "list") _ _ tt (if_Ensures (sub == "create") _ _ tt tt)
groups-Ensures (sub ∷ group ∷ user ∷ []) =
    if_Ensures (sub == "list") _ _ tt
      (if_Ensures (sub == "add-member") _ _ tt (if_Ensures (sub == "remove-member") _ _ tt tt))
groups-Ensures (sub ∷ _ ∷ _ ∷ _ ∷ _) = if_Ensures (sub == "list") _ _ tt tt

change_role-Ensures :
    (sub role revision description permissions : String)
    → Ensures (change_role sub role revision description permissions)
unfolding change_role
change_role-Ensures sub role revision description permissions =
    elim (Option-cases (atoi revision)) [
      | inl bad ↦ rw bad tt
      | inr (n, e) ↦ rw e (if_sent (sub == "preview") n (atoi-Fits revision n e))
    ]
  where
    if_sent :
        (test : Bool) (n : ℤ)
        → Fits n
        → IsSent (
            if test
            then Call.preview_role_update role n
                (record { description = description; permissions = csv permissions })
            else Call.update_role role n
                (record { description = description; permissions = csv permissions }))
    if_sent true n f = (f, csv-AllNamed permissions)
    if_sent false n f = (f, csv-AllNamed permissions)

roles-Ensures : (args : List String) → Ensures (Cli.roles args)
unfolding Cli.roles
roles-Ensures [] = tt
roles-Ensures (sub ∷ []) = if_Ensures (sub == "list") _ _ tt tt
roles-Ensures (sub ∷ role ∷ []) =
    if_Ensures (sub == "list") _ _ tt (if_Ensures (sub == "show") _ _ tt tt)
roles-Ensures (sub ∷ name ∷ description ∷ []) = if_Ensures (sub == "list") _ _ tt tt
roles-Ensures (sub ∷ name ∷ description ∷ permissions ∷ []) =
    if_Ensures (sub == "list") _ _ tt
      (if_Ensures (sub == "create") _ _ (csv-AllNamed permissions) tt)
roles-Ensures (sub ∷ role ∷ revision ∷ description ∷ permissions ∷ []) =
    if_Ensures (sub == "list") _ _ tt (
      if_Ensures (sub == "preview" || sub == "update") _ _
        (change_role-Ensures sub role revision description permissions) tt)
roles-Ensures (sub ∷ _ ∷ _ ∷ _ ∷ _ ∷ _ ∷ _) = if_Ensures (sub == "list") _ _ tt tt

parse_ref-IsRef : (raw : String) (ref : ResourceRef) → parse_ref raw ≡ ok ref → IsRef ref
parse_ref-IsRef raw ref h = ((parse_ref_iff raw ref).0 h).0

selector_of-IsSelector :
    (match : SelectorMatch) (raws : List String) (selector : Selector)
    → selector_of match raws ≡ ok selector
    → IsSelector selector
unfolding selector_of
selector_of-IsSelector match raws selector h = elim (Bool-cases (match == exact_match)) [
  | inl exact ↦
      let (refs, read, same) = >>=-eq-ok (traverse parse_ref raws) _ (rw exact at h) in
      let made : record { match = match; resources = some refs } ≡ selector = cc same in
      let is_exact = (eq_iff match exact_match).0 exact in
      subst IsSelector made (
        inl (
          is_exact,
          (
            refs,
            refl,
            λ ref i.
                let (raw, _, e) = traverse-In parse_ref raws refs ref read i in
                parse_ref-IsRef raw ref e,
          ),
        ))
  | inr other ↦
      let made : record { match = match; resources = none } ≡ selector = cc (rw other at h) in
      subst IsSelector made (inr (λ e. cc (other, (eq_iff match exact_match).1 e), refl))
]

bind-Ensures : (args : List String) → Ensures (bind args)
unfolding bind
bind-Ensures [] = tt
bind-Ensures (_ ∷ []) = tt
bind-Ensures (_ ∷ _ ∷ []) = tt
bind-Ensures (_ ∷ _ ∷ _ ∷ []) = tt
bind-Ensures (_ ∷ _ ∷ _ ∷ _ ∷ []) = tt
bind-Ensures (subject_type ∷ subject_id ∷ role_id ∷ scope ∷ match ∷ raws) =
    on_result (parse_ref scope) (λ e failed. rw failed tt)
      (λ ref read.
        on_result (selector_of match raws) (λ e failed. rw (read, failed) tt)
          (λ selector chosen.
            rw (read, chosen)
              (parse_ref-IsRef scope ref read, selector_of-IsSelector match raws selector chosen)))

bindings-Ensures : (args : List String) → Ensures (Cli.bindings args)
unfolding Cli.bindings
bindings-Ensures [] = tt
bindings-Ensures (sub ∷ rest) = if_Ensures (sub == "list") _ _ tt (
    if_Ensures (sub == "delete") _ _ (unbind_Ensures rest)
      (if_Ensures (sub == "create") _ _ (bind-Ensures rest) tt))
  where
    unbind_Ensures : (args : List String) → Ensures (Cli.unbind args)
    unbind_Ensures [] = tt
    unbind_Ensures (_ ∷ []) = tt
    unbind_Ensures (_ ∷ _ ∷ _) = tt

legacy-Ensures : (grants : Bool) (args : List String) → Ensures (Cli.legacy grants args)
unfolding Cli.legacy
legacy-Ensures grants [] = tt
legacy-Ensures grants (_ ∷ []) = tt
legacy-Ensures grants (_ ∷ _ ∷ []) = tt
legacy-Ensures true (_ ∷ _ ∷ _ ∷ []) = tt
legacy-Ensures false (_ ∷ _ ∷ _ ∷ []) = tt
legacy-Ensures grants (_ ∷ _ ∷ _ ∷ _ ∷ _) = tt

can-Ensures : (args : List String) → Ensures (Cli.can args)
unfolding Cli.can
can-Ensures [] = tt
can-Ensures (_ ∷ []) = tt
can-Ensures (_ ∷ _ ∷ []) = tt
can-Ensures (_ ∷ _ ∷ raw ∷ []) =
    on_result (parse_ref raw) (λ e failed. rw failed tt)
      (λ ref read. rw read (parse_ref-IsRef raw ref read))
can-Ensures (_ ∷ _ ∷ _ ∷ _ ∷ _) = tt

create-Ensures : (args : List String) → Ensures (Cli.create args)
unfolding Cli.create
create-Ensures [] = tt
create-Ensures (_ ∷ []) = tt
create-Ensures (_ ∷ _ ∷ []) = tt
create-Ensures (_ ∷ _ ∷ raw ∷ []) =
    on_result (parse_ref raw) (λ e failed. rw failed tt)
      (λ ref read. rw read (parse_ref-IsRef raw ref read))
create-Ensures (_ ∷ _ ∷ _ ∷ _ ∷ _) = tt

resources-Ensures : (args : List String) → Ensures (Cli.resources args)
unfolding Cli.resources
resources-Ensures [] = tt
resources-Ensures (sub ∷ rest) = if_Ensures (sub == "list") _ _ tt (
    if_Ensures (sub == "create") _ _ (create-Ensures rest)
      (if_Ensures (sub == "delete") _ _ (remove_Ensures rest) tt))
  where
    remove_Ensures : (args : List String) → Ensures (Cli.remove args)
    remove_Ensures [] = tt
    remove_Ensures (_ ∷ []) = tt
    remove_Ensures (_ ∷ _ ∷ []) = tt
    remove_Ensures (_ ∷ _ ∷ _ ∷ _) = tt

config-Ensures : (args : List String) → Ensures (Cli.config args)
unfolding Cli.config
config-Ensures [] = tt
config-Ensures (sub ∷ rest) =
    if_Ensures (sub == "get") _ _ (get_Ensures rest)
      (if_Ensures (sub == "set") _ _ (set_Ensures rest) tt)
  where
    get_Ensures : (args : List String) → Ensures (Cli.read_config args)
    get_Ensures [] = tt
    get_Ensures (_ ∷ []) = tt
    get_Ensures (_ ∷ _ ∷ _) = tt

    set_Ensures : (args : List String) → Ensures (Cli.configure args)
    set_Ensures [] = tt
    set_Ensures (_ ∷ []) = tt
    set_Ensures (id ∷ pair ∷ pairs) =
        on_result (Cli.assign_pairs [] (pair ∷ pairs)) (λ e failed. rw failed tt)
          (λ config made. rw made tt)

ssh-Ensures : (args : List String) → Ensures (Cli.ssh args)
unfolding Cli.ssh
ssh-Ensures [] = tt
ssh-Ensures (_ ∷ []) = tt
ssh-Ensures (sub ∷ _ ∷ []) =
    if_Ensures (sub == "unit") _ _ tt (if_Ensures (sub == "machine") _ _ tt tt)
ssh-Ensures (_ ∷ _ ∷ _ ∷ _) = tt

run-Ensures : (command : String) (args : List String) → Ensures (run command args)
unfolding run
run-Ensures command args = if_Ensures (command == "permissions") _ _ tt (
    if_Ensures (command == "users") _ _ (users-Ensures args) (
      if_Ensures (command == "groups") _ _ (groups-Ensures args) (
        if_Ensures (command == "roles") _ _ (roles-Ensures args) (
          if_Ensures (command == "bindings") _ _ (bindings-Ensures args) (
            if_Ensures (command == "grant" || command == "revoke") _ _
              (legacy-Ensures (command == "grant") args)
              (if_Ensures (command == "can") _ _ (can-Ensures args) (
                if_Ensures (command == "resources") _ _ (resources-Ensures args) (
                  if_Ensures (command == "config") _ _ (config-Ensures args)
                    (if_Ensures (command == "ssh") _ _ (ssh-Ensures args) tt)))))))))

-- In a call that `run` makes, the references that are written TYPE:ID (the scope of a new binding and
-- the resources of its selector, the resource of a check, the parent of a new resource) are of types of
-- the API and have identifiers that are not empty; the selector of a new binding lists resources exactly
-- if it is exact; the revision of a changed or previewed role fits in 64 bits; and no permission of a
-- created, changed or previewed role is empty. Nothing is said of the other arguments, among them the
-- type and the name of `resources`, which `run` passes on as they are.
pub run-IsSent :
    (command : String) (args : List String) (call : Call) → run command args ≡ ok call → IsSent call
run-IsSent command args call h = subst Ensures h (run-Ensures command args)
