-- ===== src/Service/Diff.antt =====
-- The set differences in service.go: `tupleDiff` on tuples, `diff` on permission names.
pub mod Laws
use fine_grained_permissions.Base.{
  String, Bool, true, false, not, List, [], ◌∷◌, ◌==◌, any, select, contains, sort_strings,
  if◌then◌else◌,
}
use fine_grained_permissions.OpenFga.{Tuple}
use fine_grained_permissions.Store.Projection.{tuple_key}

abbrev pub same_tuple_key : Tuple → Tuple → Bool
same_tuple_key a b = tuple_key a == tuple_key b

-- `m[key(tuple)] = tuple`. The order of a Go map is not specified: here it is that of insertion.
abbrev pub put : Tuple → List Tuple → List Tuple
put t [] = t ∷ []
put t (u ∷ m) = if same_tuple_key t u then t ∷ m else u ∷ put t m

abbrev pub put_all : List Tuple → List Tuple → List Tuple
put_all [] m = m
put_all (t ∷ ts) m = put_all ts (put t m)

abbrev pub absent : List Tuple → Tuple → Bool
absent m t = not (any (same_tuple_key t) m)

-- `tupleDiff`: the tuples to write and those to delete.
unfoldable pub tuple_diff : List Tuple → List Tuple → List Tuple × List Tuple
tuple_diff current desired =
    let current_set = put_all current [] in
    let desired_set = put_all desired [] in
    (select (absent current_set) desired_set, select (absent desired_set) current_set)

-- `set[v] = true` for each value.
abbrev pub put_value : String → List String → List String
put_value v [] = v ∷ []
put_value v (u ∷ m) = if u == v then u ∷ m else u ∷ put_value v m

abbrev pub to_set : List String → List String → List String
to_set [] m = m
to_set (v ∷ vs) m = to_set vs (put_value v m)

-- `diff`: the names added and those removed, each sorted.
unfoldable pub diff : List String → List String → List String × List String
diff old_values new_values =
    let old_set = to_set old_values [] in
    let new_set = to_set new_values [] in
    (
      sort_strings (select (λ v. not (contains old_set v)) new_set),
      sort_strings (select (λ v. not (contains new_set v)) old_set),
    )
