-- ===== src/Store/Projection/Keys.antt =====
-- A key names one tuple, as long as no bar stands in the fields.
use Prim.Native.String.{◌++◌ as append}
use fine_grained_permissions.Base.{
  String, ◌≡◌, true, ◌+◌, ap, arith, occurrences, occurrences-append, occurrences-lacks, lacks,
  lacks-occurrences, lacks_inj,
}
use fine_grained_permissions.OpenFga.{Tuple}
use fine_grained_permissions.Store.Projection.{tuple_key}

-- No field has the bar that parts the fields in a key.
pub record IsPlain (t : Tuple) : Type 0 where
  pub user : lacks "|" t.user ≡ true
  pub relation : lacks "|" t.relation ≡ true
  pub object : lacks "|" t.object ≡ true

occurrences-key :
    (u r o : String)
    → occurrences "|" (append u (append "|" (append r (append "|" o))))
      ≡ occurrences "|" u + (1 + (occurrences "|" r + (1 + occurrences "|" o)))
occurrences-key u r o = omega (
  arith,
  occurrences-append "|" u (append "|" (append r (append "|" o))),
  occurrences-append "|" "|" (append r (append "|" o)),
  occurrences-append "|" r (append "|" o),
  occurrences-append "|" "|" o,
)

same_key-IsPlain : (t u : Tuple) → IsPlain u → tuple_key t ≡ tuple_key u → IsPlain t
unfolding tuple_key
same_key-IsPlain t u plain e =
    let whole = ap (occurrences "|") e in
    let left = occurrences-key t.user t.relation t.object in
    let right = occurrences-key u.user u.relation u.object in
    let a = occurrences-lacks "|" u.user plain.user in
    let b = occurrences-lacks "|" u.relation plain.relation in
    let c = occurrences-lacks "|" u.object plain.object in
    record {
      user = lacks-occurrences "|" t.user (omega arith);
      relation = lacks-occurrences "|" t.relation (omega arith);
      object = lacks-occurrences "|" t.object (omega arith);
    }

-- A tuple with the key of a plain one is that one.
pub tuple_key_inj : (t u : Tuple) → IsPlain u → tuple_key t ≡ tuple_key u → t ≡ u
unfolding tuple_key
tuple_key_inj t u plain e =
    let p = same_key-IsPlain t u plain e in
    let (users, rest) = lacks_inj "|" t.user u.user _ _ p.user plain.user e in
    let (relations, objects) =
      lacks_inj "|" t.relation u.relation _ _ p.relation plain.relation rest in
    λ i. record { user = users i; relation = relations i; object = objects i }
