-- ===== src/Store/Projection/Settings.antt =====
-- `Setting` after `SetSetting`.
use fine_grained_permissions.Base.{
  String, Bool, false, none, some, List, [], ◌∷◌, ◌++◌, ◌≡◌, refl, ◌==◌, eq_refl, any, find_first,
  find_first-append_left, find_first-append-new, inl, inr, Bool-cases,
}
use fine_grained_permissions.Store.{Db}
use fine_grained_permissions.Store.Projection.{setting, set_setting}

module _ (key value : String) where
  abbrev is_key : String × String → Bool
  is_key s = s.0 == key

  missing-any :
      (rows : List (String × String)) → find_first is_key rows ≡ none → any is_key rows ≡ false
  missing-any [] h = refl
  missing-any (row ∷ rows) h = elim (Bool-cases (is_key row)) [
    | inl here ↦ absurd (cc (rw here at h))
    | inr other ↦ rw other (missing-any rows (rw other at h))
  ]

  -- A setting that is not there yet is stored.
  pub setting-set_setting :
      (db : Db) → setting key db ≡ none → setting key (set_setting key value db) ≡ some (key, value)
  unfolding setting set_setting
  setting-set_setting db h =
      rw (missing-any db.settings h)
        (find_first-append-new is_key db.settings (key, value) h (eq_refl key))

  -- Another setting that is there stays.
  pub set_setting-keeps :
      (db : Db) (other : String) (row : String × String)
      → setting key db ≡ none
      → setting other db ≡ some row
      → setting other (set_setting key value db) ≡ some row
  unfolding setting set_setting
  set_setting-keeps db other row h found = rw (missing-any db.settings h) (
      find_first-append_left (λ (s : String × String). s.0 == other) db.settings ((key, value) ∷ [])
        found)

  find-apart :
      (other : String) (rows : List (String × String))
      → (key == other) ≡ false
      → find_first (λ (s : String × String). s.0 == other) rows ≡ none
      → find_first (λ (s : String × String). s.0 == other) (rows ++ (key, value) ∷ []) ≡ none
  find-apart other [] h e = rw h refl
  find-apart other (row ∷ rows) h e = elim (Bool-cases (row.0 == other)) [
    | inl here ↦ absurd (cc (rw here at e))
    | inr apart ↦ rw apart (find-apart other rows h (rw apart at e))
  ]

  -- Another setting that is not there is not stored.
  pub set_setting-apart :
      (db : Db) (other : String)
      → (key == other) ≡ false
      → setting key db ≡ none
      → setting other db ≡ none
      → setting other (set_setting key value db) ≡ none
  unfolding setting set_setting
  set_setting-apart db other apart h e =
      rw (missing-any db.settings h) (find-apart other db.settings apart e)

  pub set_setting-tuples : (db : Db) → (set_setting key value db).synced_tuples ≡ db.synced_tuples
  unfolding set_setting
  set_setting-tuples db = elim (Bool-cases (any is_key db.settings)) [
    | inl there ↦ rw there refl
    | inr missing ↦ rw missing refl
  ]
