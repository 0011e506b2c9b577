-- ===== src/OpenFga/Decisions.antt =====
-- What an answer of `Engine.Check` rests on.
use Prim.Native.String.{◌++◌ as append}
use fine_grained_permissions.Base.{
  String, Bool, true, Option, some, none, ◌≡◌, ◌↔◌, ok, failure, guard, >>=-eq-ok, guard-eq-ok,
}
use fine_grained_permissions.Api.{ResourceRef}
use fine_grained_permissions.Catalog.{relation, supports, resource_object}
use fine_grained_permissions.OpenFga.{Tuple, Client, check, allowed}

-- The question that is put to the server.
abbrev pub asked : String → String → ResourceRef → Tuple
asked principal relation resource = record {
  user = append "user:" principal;
  relation = relation;
  object = resource_object resource;
}

module _ {E : Type 0} (client : Client E) where
  abbrev pub Asked : String → String → ResourceRef → E → Bool → Type 0
  Asked principal permission resource e b =
      (r : String) × (relation permission ≡ ok r)
      × (supports permission resource.type ≡ true)
      × (client.check (asked principal r resource) e ≡ some b)

  allowed-ok : (o : Option Bool) (b : Bool) → allowed client o ≡ ok b → o ≡ some b
  allowed-ok none b h = cc
  allowed-ok (some a) b h = cc

  -- `Engine.Check` answers `b` exactly when the permission applies to the type of the resource and
  -- the server answers `b` about its relation.
  pub check_iff :
      (principal permission : String) (resource : ResourceRef) (e : E) (b : Bool)
      → (check client principal permission resource e ≡ ok b)
        ↔ Asked principal permission resource e b
  unfolding check
  check_iff principal permission resource e b = (to, from)
    where
      to :
          check client principal permission resource e ≡ ok b
          → Asked principal permission resource e b
      to h =
          let (r, er, h') = >>=-eq-ok (relation permission) _ h in
          let (_, g, h'') =
            >>=-eq-ok
              (guard (supports permission resource.type)
                (failure "permission %q does not apply to %q"))
              _ h' in
          (r, er, guard-eq-ok (supports permission resource.type) _ g, allowed-ok _ b h'')

      from :
          Asked principal permission resource e b
          → check client principal permission resource e ≡ ok b
      from (r, er, s, a) = rw (er, s, a)
