-- ===== src/Store/Roles/Laws.antt =====
-- What `UpdateRole` does to a role, and that of two updates from one revision only one succeeds.
use fine_grained_permissions.Base.{
  find_first-map, In-any, ℕ, ◌+◌, String, true, false, not, ◌||◌, some, List, [], ◌∷◌, ◌++◌, map,
  ◌≡◌, ◌↔◌, inl, inr, refl, sym, ap, ◌∙◌, ◌==◌, nat_eq, arith, eq_refl, Bool-cases, text_cases,
  Option-cases, ok, err, conflict, find_first-In, any, contains, sort_strings, text_le, any-sort_by,
  select-append, select-select-not, select-map_all, on_result,
}
use fine_grained_permissions.Api.{Role, UpdateRole}
use fine_grained_permissions.Store.{Db, RoleRow}
use fine_grained_permissions.Store.Names.{unique, unique_from}
use fine_grained_permissions.Store.Roles.{
  find_role, role_of, role_permissions, get_role, replace_permissions, pair_with, at_revision,
  bump_row, write_role, update_role,
}

contains-any : (xs : List String) (a : String) → contains xs a ≡ any (λ x. x == a) xs
contains-any [] a = refl
contains-any (x ∷ xs) a = ap (λ b. x == a || b) (contains-any xs a)

contains-sort_strings :
    (xs : List String) (a : String) → contains (sort_strings xs) a ≡ contains xs a
contains-sort_strings xs a =
    contains-any (sort_strings xs) a
    ∙ any-sort_by (λ x. x == a) text_le xs
    ∙ sym (contains-any xs a)

contains-append :
    (xs ys : List String) (a : String) → contains (xs ++ ys) a ≡ (contains xs a || contains ys a)
contains-append [] ys a = refl
contains-append (x ∷ xs) ys a = ground (arith, contains-append xs ys a)

-- The loop keeps what is new, so its result holds the values it started from and all those given.
contains-unique_from :
    (seen kept values : List String) (a : String)
    → contains seen a ≡ contains kept a
    → contains (unique_from seen kept values) a ≡ (contains kept a || contains values a)
unfolding unique_from
contains-unique_from seen kept [] a h = ground arith
contains-unique_from seen kept (v ∷ values) a h = elim (Bool-cases (contains seen v)) [
  | inl again ↦ rw again (
      contains-unique_from seen kept values a h ∙ elim (text_cases v a) [
        | inl same ↦ let held : contains kept a ≡ true = sym h ∙ (rw same at again) in rw held refl
        | inr other ↦ rw other refl
      ])
  | inr fresh ↦ rw fresh (
      contains-unique_from (v ∷ seen) (kept ++ v ∷ []) values a
        (ground (arith, contains-append kept (v ∷ []) a))
      ∙ ground (arith, contains-append kept (v ∷ []) a))
]

-- `unique` holds what it was given.
pub contains-unique :
    (values : List String) (a : String) → contains (unique values) a ≡ contains values a
unfolding unique
contains-unique values a =
    contains-sort_strings (unique_from [] [] values) a ∙ contains-unique_from [] [] values a refl

bump_row-id :
    (id : String) (expected : ℕ) (input : UpdateRole) (row : RoleRow)
    → (bump_row id expected input row).id ≡ row.id
bump_row-id id expected input row = elim (Bool-cases (at_revision id expected row)) [
  | inl bumped ↦ rw bumped refl
  | inr kept ↦ rw kept refl
]

-- The permissions that are read after they were replaced.
replaced_permissions :
    (id : String) (ps : List String) (db : Db)
    → role_permissions id (replace_permissions id ps db) ≡ sort_strings (unique ps)
unfolding role_permissions replace_permissions
replaced_permissions id ps db =
    ap (λ l. sort_strings (map (λ p. p.1) l)) {y = pair_with id (unique ps)}
      (select-append (λ (p : String × String). p.0 == id) _ (pair_with id (unique ps))
        ∙ rw (select-select-not (λ (p : String × String). p.0 == id) db.role_permissions) (
            select-map_all (λ p. (id, p)) (λ (q : String × String). q.0 == id) (unique ps)
              (λ p. eq_refl id)))
    ∙ ap sort_strings (seconds (unique ps))
  where
    seconds : (qs : List String) → map (λ (p : String × String). p.1) (pair_with id qs) ≡ qs
    seconds [] = refl
    seconds (q ∷ qs) = ap (λ l. q ∷ l) (seconds qs)

-- The row that `UpdateRole` leaves for the role.
abbrev updated_row : UpdateRole → RoleRow → RoleRow
updated_row input row = record row { description = input.description; revision = row.revision + 1 }

-- The role that stands in the tables, taken apart.
get_role-row :
    (id : String) (db : Db) (role : Role)
    → get_role id db ≡ ok role
    → (row : RoleRow) × (find_role id db ≡ some row) × (role_of row (role_permissions id db) ≡ role)
unfolding get_role
get_role-row id db role h = elim (Option-cases (find_role id db)) [
  | inl missing ↦ absurd (cc (rw missing at h))
  | inr (row, found) ↦ (row, found, cc (rw found at h))
]

-- The role after the transaction.
written_role :
    (actor now id : String) (expected : ℕ) (input : UpdateRole) (old : List String) (db : Db)
    (row : RoleRow)
    → find_role id db ≡ some row
    → row.revision ≡ expected
    → get_role id (write_role actor now id expected input old db)
      ≡ ok (role_of (updated_row input row) (sort_strings (unique input.permissions)))
unfolding get_role write_role find_role role_permissions replace_permissions
written_role actor now id expected input old db row found same =
    let (_, at) = find_first-In (λ (r : RoleRow). r.id == id) db.roles found in
    let revised : nat_eq row.revision expected ≡ true = ground arith in
    let bumped : bump_row id expected input row ≡ updated_row input row = rw (at, revised) refl in
    rw
      (find_first-map (λ (r : RoleRow). r.id == id) (bump_row id expected input) db.roles
        (λ r. ap (λ n. n == id) (bump_row-id id expected input r)) found)
      (rw bumped (
        ap (λ ps. ok (role_of (updated_row input row) ps))
          (replaced_permissions id input.permissions
            (record db { roles = map (bump_row id expected input) db.roles }))))

-- What an update may start from: the role stands at the revision expected and is not built in.
abbrev pub Updatable : String → ℕ → Db → Type 0
Updatable id expected db =
    (old : Role) × (get_role id db ≡ ok old) × (old.built_in ≡ false) × (old.revision ≡ expected)

module _ (actor now id : String) (expected : ℕ) (input : UpdateRole) (db : Db) where
  update_role-Updatable :
      (role : Role)
      → (update_role actor now id expected input db).0 ≡ ok role
      → Updatable id expected db
  unfolding update_role
  update_role-Updatable role h =
      on_result (get_role id db) (λ e failed. absurd (cc (rw (failed, update_role) at h)))
        (λ old found. elim (Bool-cases old.built_in) [
          | inl fixed ↦ absurd (cc (rw (found, fixed, update_role) at h))
          | inr free ↦ elim (Bool-cases (nat_eq old.revision expected)) [
            | inl fresh ↦ (old, found, free, ground arith)
            | inr stale ↦ absurd (cc (rw (found, free, stale, update_role) at h))
          ]
        ])

  -- The tables after an update from the role `old`.
  abbrev after : Role → Db
  after old = write_role actor now id expected input old.permissions db

  Updatable-update_role :
      (u : Updatable id expected db)
      → (update_role actor now id expected input db ≡ (get_role id (after u.0), after u.0))
        × ((row : RoleRow) × (get_role id (after u.0)
              ≡ ok (role_of (updated_row input row) (sort_strings (unique input.permissions))))
            × (row.revision ≡ expected)
            × (not (nat_eq row.built_in 0) ≡ false))
  unfolding update_role role_of find_role
  Updatable-update_role (old, found, free, fresh) =
      let (row, at, same) = get_role-row id db old found in
      let (i, named) = find_first-In (λ (r : RoleRow). r.id == id) db.roles at in
      let revised : row.revision ≡ expected = ap (λ r. r.revision) same ∙ fresh in
      let tested : nat_eq row.revision expected ≡ true = ground arith in
      let tested_old : nat_eq old.revision expected ≡ true = ground arith in
      let there : any (at_revision id expected) db.roles ≡ true =
        In-any (at_revision id expected) db.roles row i (rw (named, tested) refl) in
      (
        rw (found, free, tested_old, there, update_role) refl,
        (
          row,
          written_role actor now id expected input old.permissions db row at revised,
          revised,
          ap (λ r. r.built_in) same ∙ free,
        ),
      )

-- `UpdateRole` succeeds exactly when the role stands at the expected revision and is not built in.
pub update_role_iff :
    (actor now id : String) (expected : ℕ) (input : UpdateRole) (db : Db)
    → ((role : Role) × ((update_role actor now id expected input db).0 ≡ ok role))
      ↔ Updatable id expected db
update_role_iff actor now id expected input db = (
  λ (role, h). update_role-Updatable actor now id expected input db role h,
  λ u.
      let (run, (row, read, _, _)) = Updatable-update_role actor now id expected input db u in
      (_, ap (λ c. c.0) run ∙ read),
)

-- After an update that succeeds, the role that is returned stands in the tables, one revision later,
-- with the description given and exactly the permissions given; another update from the revision
-- that this one expected fails as a conflict and changes nothing.
pub update_role_once :
    (actor now id : String) (expected : ℕ) (input : UpdateRole) (db db' : Db) (role : Role)
    → update_role actor now id expected input db ≡ (ok role, db')
    → (get_role id db' ≡ ok role)
      × (role.revision ≡ expected + 1)
      × (role.description ≡ input.description)
      × ((p : String) → contains role.permissions p ≡ contains input.permissions p)
      × ((other later : String) (again : UpdateRole)
          → update_role other later id expected again db' ≡ (err conflict, db'))
unfolding update_role role_of
update_role_once actor now id expected input db db' role h =
    let u = update_role-Updatable actor now id expected input db role (ap (λ c. c.0) h) in
    let (run, (row, read, revised, free)) =
      Updatable-update_role actor now id expected input db u in
    let left : after actor now id expected input db u.0 ≡ db' =
      ap (λ c. c.1) (sym run) ∙ ap (λ c. c.1) h in
    let same : ok (role_of (updated_row input row) (sort_strings (unique input.permissions)))
        ≡ ok role =
      sym read ∙ ap (λ c. c.0) (sym run) ∙ ap (λ c. c.0) h in
    let built : role_of (updated_row input row) (sort_strings (unique input.permissions)) ≡ role =
      cc same in
    let stands : get_role id db' ≡ ok role = ap (get_role id) (sym left) ∙ read ∙ same in
    (
      stands,
      rw (← built) (rw revised refl),
      rw (← built) refl,
      λ p. rw (← built) (
          contains-sort_strings (unique input.permissions) p ∙ contains-unique input.permissions p),
      λ other later again.
          let fixed : role.built_in ≡ false = rw (← built) free in
          let stale : nat_eq role.revision expected ≡ false = rw (← built) (ground arith) in
          rw (stands, fixed, stale, update_role) refl,
    )
