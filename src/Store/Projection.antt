-- ===== src/Store/Projection.antt =====
-- The last synchronised tuples, and the settings, in store.go.
pub mod Laws
pub mod Keys
pub mod Settings
use Prim.Native.Char.{Char, code}
use Prim.Native.String.{◌++◌ as append}
use fine_grained_permissions.Base.{
  String, Bool, true, false, not, ◌&&◌, ◌||◌, Option, none, some, List, [], ◌∷◌, ◌++◌, map, Result,
  ok, err, failure, Action, ◌+◌, ◌-◌, ◌==◌, nat_eq, leb, text_le, any, select, find_first, sort_by,
  if◌then◌else◌,
}
use fine_grained_permissions.OpenFga.{Tuple}
use fine_grained_permissions.Store.{Db, TupleRow}

-- `Setting`: the value, or "no rows".
unfoldable pub setting : String → Db → Option (String × String)
setting key db = find_first (λ s. s.0 == key) db.settings

abbrev with_value : String → String → String × String → String × String
with_value key value s = if s.0 == key then (key, value) else s

-- `SetSetting`.
unfoldable pub set_setting : String → String → Db → Db
set_setting key value db =
    if any (λ s. s.0 == key) db.settings
    then record db { settings = map (with_value key value) db.settings }
    else record db { settings = db.settings ++ (key, value) ∷ [] }

-- LIKE compares ASCII letters without their case.
abbrev like_char : Char → Char → Bool
like_char c d =
    nat_eq (code c) (code d)
    || leb b'a' (code c) && leb (code c) b'z' && nat_eq (code c) (code d + 32)
    || leb b'A' (code c) && leb (code c) b'Z' && nat_eq (code c + 32) (code d)

-- `key LIKE prefix || '%'`, for a prefix with no wildcard: the only one used is "all|".
abbrev pub like_prefix : String → String → Bool
like_prefix String.[] key = true
like_prefix (String.◌∷◌ c p) String.[] = false
like_prefix (String.◌∷◌ c p) (String.◌∷◌ d key) = like_char c d && like_prefix p key

unfoldable pub tuple_of : TupleRow → Tuple
tuple_of row = record { user = row.user; relation = row.relation; object = row.object }

-- `ListSyncedTuples`; the columns of a row are a `Tuple`.
unfoldable pub list_synced_tuples : String → Db → List Tuple
list_synced_tuples prefix db = map tuple_of (
    sort_by (λ a b. text_le a.tuple_key b.tuple_key)
      (select (λ row. like_prefix prefix row.tuple_key) db.synced_tuples))

-- `tuple[0] + "|" + tuple[1] + "|" + tuple[2]`, also the key that `tupleDiff` uses.
unfoldable pub tuple_key : Tuple → String
tuple_key t = append t.user (append "|" (append t.relation (append "|" t.object)))

unfoldable pub tuple_row : String → Tuple → TupleRow
tuple_row prefix t = record {
  tuple_key = append prefix (tuple_key t);
  user = t.user;
  relation = t.relation;
  object = t.object;
}

abbrev pub key_taken : List TupleRow → String → Bool
key_taken rows key = any (λ r. r.tuple_key == key) rows

-- The INSERTs of `ReplaceSyncedTuples`; `none` is a broken PRIMARY KEY.
unfoldable pub insert_tuples : String → List Tuple → List TupleRow → Option (List TupleRow)
insert_tuples prefix [] rows = some rows
insert_tuples prefix (t ∷ ts) rows =
    let next = insert_tuples prefix ts (rows ++ tuple_row prefix t ∷ []) in
    if key_taken rows (append prefix (tuple_key t)) then none else next

-- `ReplaceSyncedTuples`.
unfoldable pub replace_synced_tuples : String → List Tuple → Action Db (Unit {0})
replace_synced_tuples prefix tuples db =
    elim (insert_tuples prefix tuples
      (select (λ row. not (like_prefix prefix row.tuple_key)) db.synced_tuples)) [
        | none ↦ (err (failure "UNIQUE constraint failed"), db)
        | some rows ↦ (ok tt, record db { synced_tuples = rows })
      ]
