-- ===== src/Cli/Commands.antt =====
-- Each command that the usage text names, written out from the call that it makes.
use Prim.Native.String.{◌++◌ as append}
use mathlib.Core.List.{append_assoc, append-nil}
use fine_grained_permissions.Base.{
  String, Bool, true, false, Option, none, some, List, [], ◌∷◌, ◌++◌, map, ◌≡◌, ◌≢◌, inl, inr, refl,
  sym, ap, ◌∙◌, ◌==◌, ==-false, Bool-cases, any, lacks, ok, traverse,
}
use fine_grained_permissions.Api.{
  ResourceType, ResourceRef, SelectorMatch, ApplicationConfig, exact_match,
}
use fine_grained_permissions.Cli
use fine_grained_permissions.Cli.{
  Call, parse_ref, csv, change_role, selector_of, bind, assign, assign_pairs, run,
}
use fine_grained_permissions.Cli.Texts.{cut, atoi}
use fine_grained_permissions.Cli.Parsing.{
  IsRef, parse_ref_iff, AreValues, csv-join, join, parts-cut,
}

-- TYPE:ID.
abbrev pub written : ResourceRef → String
written ref = append ref.type (append ":" ref.id)

abbrev pub AreRefs : List ResourceRef → Type 0
AreRefs [] = Unit
AreRefs (ref ∷ refs) = IsRef ref × AreRefs refs

abbrev IsOptionalRef : Option ResourceRef → Type 0
IsOptionalRef none = Unit
IsOptionalRef (some ref) = IsRef ref

-- An exact selector has its resources, and no other has any.
abbrev IsSelector : SelectorMatch → Option (List ResourceRef) → Type 0
IsSelector match none = match ≢ exact_match
IsSelector match (some refs) = (match ≡ exact_match) × AreRefs refs

abbrev key_in : String → ApplicationConfig → Bool
key_in key config = any (λ entry. entry.0 == key) config

-- The entries can be added one by one: no key has an equals sign, and none comes twice.
abbrev pub Fresh : ApplicationConfig → ApplicationConfig → Type 0
Fresh done [] = Unit
Fresh done ((key, value) ∷ config) =
    (lacks "=" key ≡ true) × (key_in key done ≡ false) × Fresh (done ++ (key, value) ∷ []) config

-- The call can be written as a command: its references are of types of the API and have identifiers,
-- its permissions are trimmed, not empty and without commas, its configuration is not empty and can be
-- added entry by entry, and `revision` is a text of its revision, if it has one.
abbrev pub IsWritable : String → Call → Type 0
IsWritable revision (Call.create_role body) = AreValues body.permissions
IsWritable revision (Call.preview_role_update id n body) =
    (atoi revision ≡ some n) × AreValues body.permissions
IsWritable revision (Call.update_role id n body) =
    (atoi revision ≡ some n) × AreValues body.permissions
IsWritable revision (Call.create_binding body) =
    IsRef body.scope × IsSelector body.selector.match body.selector.resources
IsWritable revision (Call.check_authorization body) = IsRef body.resource
IsWritable revision (Call.create_resource body) = IsOptionalRef body.parent
IsWritable revision (Call.update_application_config id config) = (config ≢ []) × Fresh [] config
IsWritable revision _ = Unit

abbrev optional_word : Option String → List String
optional_word none = []
optional_word (some w) = w ∷ []

abbrev resource_words : Option (List ResourceRef) → List String
resource_words none = []
resource_words (some refs) = map written refs

abbrev parent_words : Option ResourceRef → List String
parent_words none = []
parent_words (some ref) = written ref ∷ []

-- `KEY=VALUE`.
abbrev pair_of : String × String → String
pair_of (key, value) = append key (append "=" value)

-- The command of a call, as the usage text has it.
abbrev pub words : String → Call → String × List String
words revision Call.list_permissions = ("permissions", [])
words revision Call.list_users = ("users", "list" ∷ [])
words revision Call.list_groups = ("groups", "list" ∷ [])
words revision Call.list_roles = ("roles", "list" ∷ [])
words revision Call.list_bindings = ("bindings", "list" ∷ [])
words revision (Call.create_user body) = ("users", "create" ∷ body.name ∷ [])
words revision (Call.create_group body) = ("groups", "create" ∷ body.name ∷ [])
words revision (Call.add_group_member id body) = ("groups", "add-member" ∷ id ∷ body.user_id ∷ [])
words revision (Call.remove_group_member id body) =
    ("groups", "remove-member" ∷ id ∷ body.user_id ∷ [])
words revision (Call.get_role id) = ("roles", "show" ∷ id ∷ [])
words revision (Call.create_role body) =
    ("roles", "create" ∷ body.name ∷ body.description ∷ join "," body.permissions ∷ [])
words revision (Call.preview_role_update id n body) =
    ("roles", "preview" ∷ id ∷ revision ∷ body.description ∷ join "," body.permissions ∷ [])
words revision (Call.update_role id n body) =
    ("roles", "update" ∷ id ∷ revision ∷ body.description ∷ join "," body.permissions ∷ [])
words revision (Call.delete_binding id) = ("bindings", "delete" ∷ id ∷ [])
words revision (Call.create_binding body) = (
  "bindings",
  "create"
      ∷ body.subject_type
      ∷ body.subject_id
      ∷ body.role_id
      ∷ written body.scope
      ∷ body.selector.match
      ∷ resource_words body.selector.resources,
)
words revision (Call.grant_legacy_access body) =
    ("grant", body.user_id ∷ body.access ∷ body.model_id ∷ [])
words revision (Call.revoke_legacy_access body) =
    ("revoke", body.user_id ∷ body.access ∷ body.model_id ∷ [])
words revision (Call.check_authorization body) =
    ("can", body.principal ∷ body.permission ∷ written body.resource ∷ [])
words revision (Call.list_resources type) = ("resources", "list" ∷ optional_word type)
words revision (Call.create_resource body) =
    ("resources", "create" ∷ body.type ∷ body.name ∷ parent_words body.parent)
words revision (Call.delete_resource type id) = ("resources", "delete" ∷ type ∷ id ∷ [])
words revision (Call.get_application_config id) = ("config", "get" ∷ id ∷ [])
words revision (Call.update_application_config id config) =
    ("config", "set" ∷ id ∷ map pair_of config)
words revision (Call.ssh_unit id) = ("ssh", "unit" ∷ id ∷ [])
words revision (Call.ssh_machine id) = ("ssh", "machine" ∷ id ∷ [])

written-parse_ref : (ref : ResourceRef) → IsRef ref → parse_ref (written ref) ≡ ok ref
written-parse_ref ref h = (parse_ref_iff (written ref) ref).1 (h, refl)

written-refs :
    (refs : List ResourceRef) → AreRefs refs → traverse parse_ref (map written refs) ≡ ok refs
written-refs [] h = refl
written-refs (ref ∷ refs) (h, hs) = rw (written-parse_ref ref h, written-refs refs hs) refl

written-selector :
    (match : SelectorMatch) (resources : Option (List ResourceRef))
    → IsSelector match resources
    → selector_of match (resource_words resources)
      ≡ ok (record { match = match; resources = resources })
unfolding selector_of
written-selector match none h = rw (==-false match exact_match h) refl
written-selector match (some refs) (h, hs) = rw (h, written-refs refs hs) refl

written-parent :
    (parent : Option ResourceRef)
    → IsOptionalRef parent
    → (type : ResourceType) (name : String)
    → Cli.create (type ∷ name ∷ parent_words parent)
      ≡ ok (Call.create_resource (record { name = name; parent = parent; type = type }))
unfolding Cli.create
written-parent none h type name = refl
written-parent (some ref) h type name = rw (written-parse_ref ref h) refl

assign-new :
    (key value : String) (config : ApplicationConfig)
    → key_in key config ≡ false
    → assign key value config ≡ config ++ (key, value) ∷ []
unfolding assign
assign-new key value [] h = refl
assign-new key value ((k, v) ∷ config) h = elim (Bool-cases (k == key)) [
  | inl same ↦ absurd (cc (rw same at h))
  | inr other ↦ rw (other, assign-new key value config (rw other at h)) refl
]

written-config :
    (done config : ApplicationConfig)
    → Fresh done config
    → assign_pairs done (map pair_of config) ≡ ok (done ++ config)
unfolding assign_pairs
written-config done [] h = ap ok (sym (append-nil done))
written-config done ((key, value) ∷ config) (plain, new, rest) =
    let cut_pair : cut "=" (pair_of (key, value)) ≡ some (key, value) =
      parts-cut "=" key value plain in
    rw (assign_pairs, cut_pair, assign-new key value done new)
      (written-config (done ++ (key, value) ∷ []) config rest
        ∙ ap ok (append_assoc done ((key, value) ∷ []) config))

-- Whatever writable call of the API the usage text has a command for, `run` on that command makes that
-- call: no part of it is lost, swapped or read as another command.
pub run-words :
    (revision : String) (call : Call)
    → IsWritable revision call
    → run (words revision call).0 (words revision call).1 ≡ ok call
unfolding run Cli.users Cli.groups Cli.roles change_role Cli.bindings bind Cli.legacy Cli.can
    Cli.resources Cli.config Cli.ssh
run-words revision Call.list_permissions h = refl
run-words revision Call.list_users h = refl
run-words revision Call.list_groups h = refl
run-words revision Call.list_roles h = refl
run-words revision Call.list_bindings h = refl
run-words revision (Call.create_user body) h = refl
run-words revision (Call.create_group body) h = refl
run-words revision (Call.add_group_member id body) h = refl
run-words revision (Call.remove_group_member id body) h = refl
run-words revision (Call.get_role id) h = refl
run-words revision (Call.create_role body) h = rw (csv-join body.permissions h) refl
run-words revision (Call.preview_role_update id n body) (r, h) =
    rw (r, csv-join body.permissions h) refl
run-words revision (Call.update_role id n body) (r, h) = rw (r, csv-join body.permissions h) refl
run-words revision (Call.delete_binding id) h = refl
run-words revision (Call.create_binding body) (scope, selector) =
    rw
      (
        written-parse_ref body.scope scope,
        written-selector body.selector.match body.selector.resources selector,
      )
      refl
run-words revision (Call.grant_legacy_access body) h = refl
run-words revision (Call.revoke_legacy_access body) h = refl
run-words revision (Call.check_authorization body) h = rw (written-parse_ref body.resource h) refl
run-words revision (Call.list_resources none) h = refl
run-words revision (Call.list_resources (some type)) h = refl
run-words revision (Call.create_resource body) h = written-parent body.parent h body.type body.name
run-words revision (Call.delete_resource type id) h = refl
run-words revision (Call.get_application_config id) h = refl
run-words revision (Call.update_application_config id []) (some_left, h) = absurd (some_left refl)
run-words revision (Call.update_application_config id (entry ∷ config)) (_, h) =
    rw (written-config [] (entry ∷ config) h) refl
run-words revision (Call.ssh_unit id) h = refl
run-words revision (Call.ssh_machine id) h = refl
