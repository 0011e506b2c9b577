-- ===== src/Service/Diff/Laws.antt =====
-- `tupleDiff` brings the one set of tuples to the other. A tuple is known by its key, as in the code.
use fine_grained_permissions.Base.{
  String, false, not, ◌&&◌, ◌||◌, List, [], ◌∷◌, ◌≡◌, inl, inr, refl, sym, ◌==◌, arith, eq_iff,
  eq_refl, select, Bool-cases, text_cases,
}
use fine_grained_permissions.OpenFga.{Tuple}
use fine_grained_permissions.Store.Projection.{tuple_key}
use fine_grained_permissions.Store.Projection.Laws.{has, Distinct}
use fine_grained_permissions.Service.Diff.{put, put_all, absent, tuple_diff}

has-put :
    (k : String) (t : Tuple) (m : List Tuple) → has k (put t m) ≡ (k == tuple_key t || has k m)
has-put k t [] = refl
has-put k t (u ∷ m) = ground (
  arith,
  eq_iff (tuple_key t) (tuple_key u),
  eq_iff k (tuple_key t),
  eq_iff k (tuple_key u),
  has-put k t m,
)

has-put_all : (k : String) (ts m : List Tuple) → has k (put_all ts m) ≡ (has k ts || has k m)
has-put_all k [] m = refl
has-put_all k (t ∷ ts) m = ground (arith, has-put_all k ts (put t m), has-put k t m)

pub has-absent :
    (k : String) (c m : List Tuple) → has k (select (absent c) m) ≡ (has k m && not (has k c))
has-absent k c [] = refl
has-absent k c (t ∷ m) = elim (text_cases k (tuple_key t)) [
  | inl same ↦ ground (arith, has-absent k c m, eq_refl k)
  | inr other ↦ ground (arith, has-absent k c m)
]

put-Distinct : (t : Tuple) (m : List Tuple) → Distinct m → Distinct (put t m)
put-Distinct t [] h = (refl, tt)
put-Distinct t (u ∷ m) (fresh, h) = elim (text_cases (tuple_key t) (tuple_key u)) [
  | inl same ↦ rw (same, eq_refl (tuple_key u)) (rw (sym same) at fresh, h)
  | inr other ↦ rw other (
    rw (has-put (tuple_key u) t m)
        (ground (arith, eq_iff (tuple_key t) (tuple_key u), eq_iff (tuple_key u) (tuple_key t))),
    put-Distinct t m h,
  )
]

put_all-Distinct : (ts m : List Tuple) → Distinct m → Distinct (put_all ts m)
put_all-Distinct [] m h = h
put_all-Distinct (t ∷ ts) m h = put_all-Distinct ts (put t m) (put-Distinct t m h)

absent-Distinct : (c m : List Tuple) → Distinct m → Distinct (select (absent c) m)
absent-Distinct c [] h = tt
absent-Distinct c (t ∷ m) (fresh, h) = elim (Bool-cases (absent c t)) [
  | inl kept ↦ rw kept (rw (has-absent (tuple_key t) c m, fresh) refl, absent-Distinct c m h)
  | inr dropped ↦ rw dropped (absent-Distinct c m h)
]

module _ (current desired : List Tuple) where
  abbrev pub writes : List Tuple
  writes = (tuple_diff current desired).0

  abbrev pub deletes : List Tuple
  deletes = (tuple_diff current desired).1

  -- A key is to be written exactly when it is desired and not current, and to be deleted exactly
  -- when it is current and not desired; no key is written twice, deleted twice, or both written and
  -- deleted.
  pub tuple_diff_exact :
      ((k : String) → has k writes ≡ (has k desired && not (has k current)))
      × ((k : String) → has k deletes ≡ (has k current && not (has k desired)))
      × Distinct writes
      × Distinct deletes
      × ((k : String) → (has k writes && has k deletes) ≡ false)
  unfolding tuple_diff
  tuple_diff_exact = (
    λ k. written k,
    λ k. deleted k,
    absent-Distinct (put_all current []) (put_all desired []) (put_all-Distinct desired [] tt),
    absent-Distinct (put_all desired []) (put_all current []) (put_all-Distinct current [] tt),
    λ k. ground (arith, written k, deleted k),
  )
    where
      written : (k : String) → has k writes ≡ (has k desired && not (has k current))
      written k = ground (
        arith,
        has-absent k (put_all current []) (put_all desired []),
        has-put_all k current [],
        has-put_all k desired [],
      )

      deleted : (k : String) → has k deletes ≡ (has k current && not (has k desired))
      deleted k = ground (
        arith,
        has-absent k (put_all desired []) (put_all current []),
        has-put_all k current [],
        has-put_all k desired [],
      )
