-- ===== src/Store/Projection/Laws.antt =====
-- What is listed after `ReplaceSyncedTuples`, and when it fails.
use Prim.Native.String.{◌++◌ as append}
use text.Mathlib.TextLemmas.{cons-append}
use mathlib.Core.List.{append_assoc as list_append_assoc, append-nil}
use fine_grained_permissions.Base.{
  String, Bool, true, false, not, ◌||◌, none, some, List, [], ◌∷◌, ◌++◌, map, ◌≡◌, ◌⊎◌, inl, inr,
  refl, ap, ◌∙◌, ◌==◌, arith, eq_refl, any, select, sort_by, text_le, Bool-cases, Option-cases,
  text_cases, ok, err, failure, any-append, any-sort_by, any-map, select-append, select-select-not,
  select-map_all,
}
use fine_grained_permissions.OpenFga.{Tuple}
use fine_grained_permissions.Store.{Db, TupleRow}
use fine_grained_permissions.Store.Projection.{
  tuple_key, tuple_row, tuple_of, like_prefix, insert_tuples, key_taken, list_synced_tuples,
  replace_synced_tuples,
}

-- Whether a tuple with the key `k` is listed.
abbrev pub has : String → List Tuple → Bool
has k ts = any (λ u. k == tuple_key u) ts

-- No two of the tuples have one key.
abbrev pub Distinct : List Tuple → Type 0
Distinct [] = Unit
Distinct (t ∷ ts) = (has (tuple_key t) ts ≡ false) × Distinct ts

insert_tuples-append :
    (prefix : String) (ts : List Tuple) (rows rows' : List TupleRow)
    → insert_tuples prefix ts rows ≡ some rows'
    → rows' ≡ rows ++ map (tuple_row prefix) ts
unfolding insert_tuples
insert_tuples-append prefix [] rows rows' e = cc (append-nil rows)
insert_tuples-append prefix (t ∷ ts) rows rows' e =
    elim (Bool-cases (key_taken rows (append prefix (tuple_key t)))) [
      | inl taken ↦ absurd (ground arith)
      | inr free ↦
          insert_tuples-append prefix ts (rows ++ tuple_row prefix t ∷ []) rows' (rw free at e)
          ∙ list_append_assoc rows (tuple_row prefix t ∷ []) (map (tuple_row prefix) ts)
    ]

all_like : (t : Tuple) → like_prefix "all|" (tuple_row "all|" t).tuple_key ≡ true
unfolding tuple_row
all_like t = rw cons-append (rw cons-append (rw cons-append (rw cons-append refl)))

tuple_of-tuple_row : (prefix : String) (t : Tuple) → tuple_of (tuple_row prefix t) ≡ t
unfolding tuple_of tuple_row
tuple_of-tuple_row prefix t = refl

abbrev like_row : TupleRow → Bool
like_row row = like_prefix "all|" row.tuple_key

abbrev by_key : TupleRow → TupleRow → Bool
by_key a b = text_le a.tuple_key b.tuple_key

-- The rows that the listing reads, after `ts` were put in place of the old ones.
listed_rows :
    (ts : List Tuple) (rows rows' : List TupleRow)
    → insert_tuples "all|" ts (select (λ row. not (like_row row)) rows) ≡ some rows'
    → select like_row rows' ≡ map (tuple_row "all|") ts
listed_rows ts rows rows' e =
    ap (select like_row) (insert_tuples-append "all|" ts _ rows' e)
    ∙ select-append like_row (select (λ row. not (like_row row)) rows) (map (tuple_row "all|") ts)
    ∙ rw (select-select-not like_row rows) (select-map_all (tuple_row "all|") like_row ts all_like)

-- After a successful replacement, what is listed under the prefix is what was given, by keys.
pub list-replace :
    (ts : List Tuple) (db db' : Db)
    → replace_synced_tuples "all|" ts db ≡ (ok tt, db')
    → (k : String) → has k (list_synced_tuples "all|" db') ≡ has k ts
unfolding replace_synced_tuples list_synced_tuples
list-replace ts db db' e k =
    elim (Option-cases
      (insert_tuples "all|" ts (select (λ row. not (like_row row)) db.synced_tuples))) [
        | inl broken ↦ absurd (ground arith)
        | inr (rows', done) ↦
            let same : record db { synced_tuples = rows' } ≡ db' = ground arith in
            rw (← same) (
              any-map tuple_of (λ u. k == tuple_key u) (sort_by by_key (select like_row rows'))
              ∙ any-sort_by (λ r. k == tuple_key (tuple_of r)) by_key (select like_row rows')
              ∙ ap (any (λ r. k == tuple_key (tuple_of r)))
                  (listed_rows ts db.synced_tuples rows' done)
              ∙ any-map (tuple_row "all|") (λ r. k == tuple_key (tuple_of r)) ts
              ∙ any-tuples ts)
      ]
  where
    any-tuples :
        (us : List Tuple) → any (λ u. k == tuple_key (tuple_of (tuple_row "all|" u))) us ≡ has k us
    any-tuples [] = refl
    any-tuples (u ∷ us) =
        rw (tuple_of-tuple_row "all|" u) (ap (λ b. k == tuple_key u || b) (any-tuples us))

-- Two of the tuples have one key.
abbrev pub Repeats : List Tuple → Type 0
Repeats [] = ⊥
Repeats (t ∷ ts) = (has (tuple_key t) ts ≡ true) ⊎ Repeats ts

key_taken-append :
    (rows : List TupleRow) (row : TupleRow) (key : String)
    → key_taken rows key ≡ true
    → key_taken (rows ++ row ∷ []) key ≡ true
key_taken-append rows row key h =
    rw (any-append (λ (r : TupleRow). r.tuple_key == key) rows (row ∷ [])) (rw h refl)

insert_tuples-taken :
    (prefix : String) (t : Tuple) (us : List Tuple) (rows : List TupleRow)
    → key_taken rows (append prefix (tuple_key t)) ≡ true
    → has (tuple_key t) us ≡ true
    → insert_tuples prefix us rows ≡ none
unfolding insert_tuples
insert_tuples-taken prefix t [] rows h k = cc
insert_tuples-taken prefix t (u ∷ us) rows h k = elim (text_cases (tuple_key t) (tuple_key u)) [
  | inl same ↦ rw (rw same at h) refl
  | inr other ↦
      let rest : insert_tuples prefix us (rows ++ tuple_row prefix u ∷ []) ≡ none =
        insert_tuples-taken prefix t us (rows ++ tuple_row prefix u ∷ [])
          (key_taken-append rows (tuple_row prefix u) (append prefix (tuple_key t)) h)
          (rw other at k) in
      ground arith
]

insert_tuples-Repeats :
    (prefix : String) (ts : List Tuple) (rows : List TupleRow)
    → Repeats ts
    → insert_tuples prefix ts rows ≡ none
unfolding insert_tuples tuple_row
insert_tuples-Repeats prefix [] rows h = absurd h
insert_tuples-Repeats prefix (t ∷ ts) rows (inl again) =
    let taken : key_taken (rows ++ tuple_row prefix t ∷ []) (append prefix (tuple_key t)) ≡ true =
      rw
        (any-append (λ (r : TupleRow). r.tuple_key == append prefix (tuple_key t)) rows
          (tuple_row prefix t ∷ []))
        (rw (eq_refl (append prefix (tuple_key t)))
          (or-true (key_taken rows (append prefix (tuple_key t))))) in
    let rest = insert_tuples-taken prefix t ts (rows ++ tuple_row prefix t ∷ []) taken again in
    ground arith
  where
    or-true : (b : Bool) → (b || true) ≡ true
    or-true true = refl
    or-true false = refl
insert_tuples-Repeats prefix (t ∷ ts) rows (inr later) =
    let rest = insert_tuples-Repeats prefix ts (rows ++ tuple_row prefix t ∷ []) later in
    ground arith

-- A list that repeats a key is refused, and the tables stay as they were.
pub replace-Repeats :
    (prefix : String) (ts : List Tuple) (db : Db)
    → Repeats ts
    → replace_synced_tuples prefix ts db ≡ (err (failure "UNIQUE constraint failed"), db)
unfolding replace_synced_tuples
replace-Repeats prefix ts db h =
    let broken =
      insert_tuples-Repeats prefix ts
        (select (λ row. not (like_prefix prefix row.tuple_key)) db.synced_tuples) h in
    rw (broken, replace_synced_tuples) refl
