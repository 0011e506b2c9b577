-- ===== src/Service/Roles/Catalogued.antt =====
-- The roles name permissions of the catalogue only, and the operations on roles keep it so.
use Prim.Native.Char.{Char}
use fine_grained_permissions.Base.{
  ℕ, arith, String, Bool, not, List, [], ◌∷◌, ◌++◌, ◌≡◌, inl, inr, sym, ◌∙◌, subst, In, In-append,
  map-In, select, any, nat_eq, ◌==◌, contains_iff, sort_by-In, Bool-cases, Option-cases, ok,
  text_le, on_result,
}
use fine_grained_permissions.Base.Actions.{◌>>=◌, ◌>>◌, >>=-keeps, pure, reading}
use fine_grained_permissions.Api.{Role, UpdateRole}
use fine_grained_permissions.Api
use fine_grained_permissions.Catalog
use fine_grained_permissions.Catalog.Types.{all_names, permission-name-In}
use fine_grained_permissions.OpenFga.{Client, Tuple}
use fine_grained_permissions.Store.{Db}
use fine_grained_permissions.Store.Names.{unique}
use fine_grained_permissions.Store.Roles
use fine_grained_permissions.Store.Roles.{
  get_role, role_permissions, find_role, role_of, pair_with, replace_permissions, write_role,
  new_role, role_taken, at_revision,
}
use fine_grained_permissions.Store.Roles.Laws.{contains-unique}
use fine_grained_permissions.Store.Projection.{replace_synced_tuples}
use fine_grained_permissions.Service.{World, storing}
use fine_grained_permissions.Service.Desired.{desired_tuples}
use fine_grained_permissions.Service.Diff.{tuple_diff}
use fine_grained_permissions.Service.Check.{require, controller_ref}
use fine_grained_permissions.Service.Sync.{sync, replace_tuples}
use fine_grained_permissions.Service.Roles.{create_role, update_role}
use fine_grained_permissions.Service.Roles.Preview.{
  known_permissions, validate_permissions, preview_role_update,
}

-- The rows name permissions of the catalogue.
abbrev pub AllKnown : List (String × String) → Type 0
AllKnown rows = (row : String × String) → In row rows → In row.1 all_names

abbrev pub IsCatalogued : Db → Type 0
IsCatalogued db = AllKnown db.role_permissions

select-In : {A : Type 0} (f : A → Bool) (x : A) (xs : List A) → In x (select f xs) → In x xs
select-In f x [] i = absurd i
select-In f x (y ∷ xs) i = elim (Bool-cases (f y)) [
  | inl kept ↦ elim (rw kept at i) [
    | inl here ↦ inl here
    | inr later ↦ inr (select-In f x xs later)
  ]
  | inr dropped ↦ inr (select-In f x xs (rw dropped at i))
]

known-In :
    (ps : List String) → known_permissions ps ≡ ok tt → (p : String) → In p ps → In p all_names
unfolding known_permissions
known-In [] h p i = absurd i
known-In (q ∷ ps) h p i = elim (Option-cases (Catalog.permission q)) [
  | inl unknown ↦ absurd (cc (rw unknown at h))
  | inr (found, e) ↦ elim i [
    | inl here ↦ subst (λ r. In r all_names) (sym here) (permission-name-In q e)
    | inr later ↦ known-In ps (rw e at h) p later
  ]
]

pub validate-In :
    (ps : List String) → validate_permissions ps ≡ ok tt → (p : String) → In p ps → In p all_names
unfolding validate_permissions
validate-In [] h p i = absurd i
validate-In (q ∷ ps) h p i = known-In (q ∷ ps) h p i

replaced-AllKnown :
    (id : String) (ps : List String) (rows : List (String × String))
    → AllKnown rows
    → ((p : String) → In p ps → In p all_names)
    → AllKnown (select (λ r. not (r.0 == id)) rows ++ pair_with id (unique ps))
replaced-AllKnown id ps rows known named row i =
    elim (In-append row (select (λ r. not (r.0 == id)) rows) (pair_with id (unique ps)) i) [
      | inl old ↦ known row (select-In _ row rows old)
      | inr new ↦
          let (p, k, same) = map-In (λ p. (id, p)) row (unique ps) new in
          let listed =
            (contains_iff ps p).0 (sym (contains-unique ps p) ∙ (contains_iff (unique ps) p).1 k) in
          subst (λ r. In r.1 all_names) same (named p listed)
    ]

-- A role that is read names permissions of the catalogue.
get_role-known :
    (db : Db) (id p : String) (role : Role)
    → IsCatalogued db
    → get_role id db ≡ ok role
    → In p role.permissions
    → In p all_names
unfolding get_role role_permissions role_of
get_role-known db id p role known h i = elim (Option-cases (find_role id db)) [
  | inl missing ↦ absurd (cc (rw missing at h))
  | inr (row, e) ↦
      let same : role_of row (role_permissions id db) ≡ role = cc (rw e at h) in
      let (entry, k, name) =
        map-In (λ (r : String × String). r.1) p (select (λ r. r.0 == id) db.role_permissions)
          (sort_by-In text_le p _ (subst (λ r. In p r.permissions) (sym same) i)) in
      subst (λ q. In q all_names) name (known entry (select-In _ entry db.role_permissions k))
]

store_create-IsCatalogued :
    (lower : Char → Char) (input : Api.CreateRole) (db : Db)
    → IsCatalogued db
    → ((p : String) → In p input.permissions → In p all_names)
    → IsCatalogued (Roles.create_role lower input db).1
unfolding Roles.create_role replace_permissions
store_create-IsCatalogued lower input db known named =
    elim (Bool-cases ((new_role lower input).id == "")) [
      | inl empty ↦ rw empty known
      | inr full ↦ elim (Bool-cases (role_taken db.roles (new_role lower input))) [
        | inl taken ↦ rw (full, taken) known
        | inr free ↦
            rw (full, free)
              (replaced-AllKnown (new_role lower input).id input.permissions db.role_permissions
                known named)
      ]
    ]

store_update-IsCatalogued :
    (actor now id : String) (expected : ℕ) (input : UpdateRole) (db : Db)
    → IsCatalogued db
    → ((p : String) → In p input.permissions → In p all_names)
    → IsCatalogued (Roles.update_role actor now id expected input db).1
unfolding Roles.update_role write_role
store_update-IsCatalogued actor now id expected input db known named =
    on_result (get_role id db) (λ e failed. rw (Roles.update_role, failed) known)
      (λ current found. elim (Bool-cases current.built_in) [
        | inl fixed ↦ rw (Roles.update_role, found, fixed) known
        | inr free ↦ elim (Bool-cases (nat_eq current.revision expected)) [
          | inr stale ↦ rw (Roles.update_role, found, free, stale) known
          | inl fresh ↦ elim (Bool-cases (any (at_revision id expected) db.roles)) [
            | inr gone ↦ rw (Roles.update_role, found, free, fresh, gone) known
            | inl there ↦
                rw (Roles.update_role, found, free, fresh, there)
                  (replaced-AllKnown id input.permissions db.role_permissions known named)
          ]
        ]
      ])

module _ {E : Type 0} (client : Client E) where
  replace_tuples-permissions :
      (desired : List Tuple) (w : World E)
      → (replace_tuples client "all|" desired w).1.db.role_permissions ≡ w.db.role_permissions
  unfolding replace_tuples tuple_diff replace_synced_tuples
  replace_tuples-permissions desired w = ground arith

  sync-IsCatalogued : (w : World E) → IsCatalogued w.db → IsCatalogued (sync client w).1.db
  unfolding sync
  sync-IsCatalogued w known =
      >>=-keeps (λ (v : World E). IsCatalogued v.db) (reading (λ v. desired_tuples v.db))
        (λ desired. replace_tuples client "all|" desired) w known
        (λ desired. subst AllKnown (sym (replace_tuples-permissions desired w)) known)

  create_role-IsCatalogued :
      (lower : Char → Char) (actor : String) (input : Api.CreateRole) (w : World E)
      → IsCatalogued w.db
      → IsCatalogued (create_role client lower actor input w).1.db
  unfolding create_role
  create_role-IsCatalogued lower actor input w known =
      on_result (require client actor "policy.manage" controller_ref w) (λ e h. rw (h, ◌>>=◌) known)
        (λ _ granted.
          on_result (validate_permissions input.permissions) (λ e h. rw (granted, h, ◌>>=◌) known)
            (λ _ valid.
              rw (granted, valid, ◌>>=◌)
                (store_create-IsCatalogued lower input w.db known
                  (validate-In input.permissions valid))))

  preview-valid :
      (actor id : String) (expected : ℕ) (input : UpdateRole) (w : World E)
      {preview : Api.RoleUpdatePreview}
      → preview_role_update client actor id expected input w ≡ ok preview
      → validate_permissions input.permissions ≡ ok tt
  unfolding preview_role_update
  preview-valid actor id expected input w h = ground arith

  update_role-IsCatalogued :
      (now actor id : String) (expected : ℕ) (input : UpdateRole) (w : World E)
      → IsCatalogued w.db
      → IsCatalogued (update_role client now actor id expected input w).1.db
  unfolding update_role
  update_role-IsCatalogued now actor id expected input w known =
      on_result (preview_role_update client actor id expected input w) (λ e h. rw (h, ◌>>=◌) known)
        (λ preview h.
          let named = validate-In input.permissions (preview-valid actor id expected input w h) in
          let stored = store_update-IsCatalogued actor now id expected input w.db known named in
          rw (h, ◌>>=◌)
            (>>=-keeps (λ (v : World E). IsCatalogued v.db)
              (storing (Roles.update_role actor now id expected input))
              (λ updated. sync client >> pure updated) w stored
              (λ updated.
                >>=-keeps (λ (v : World E). IsCatalogued v.db) (sync client) (λ _. pure updated) _
                  (sync-IsCatalogued _ stored) (λ _. sync-IsCatalogued _ stored))))

  -- If the stored roles name permissions of the catalogue only, then so does every role that is read, and
  -- `CreateRole` and `UpdateRole` keep it so, whatever they answer.
  pub roles-IsCatalogued :
      (lower : Char → Char) (now actor id : String) (expected : ℕ) (input : Api.CreateRole)
      (change : UpdateRole) (w : World E)
      → IsCatalogued w.db
      → ((name p : String) (role : Role)
          → get_role name w.db ≡ ok role
          → In p role.permissions
          → In p all_names)
        × IsCatalogued (create_role client lower actor input w).1.db
        × IsCatalogued (update_role client now actor id expected change w).1.db
  roles-IsCatalogued lower now actor id expected input change w known = (
    λ name p role. get_role-known w.db name p role known,
    create_role-IsCatalogued lower actor input w known,
    update_role-IsCatalogued now actor id expected change w known,
  )
