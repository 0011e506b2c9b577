-- ===== src/Service/Bindings/Orphans.antt =====
-- A binding whose scope is no longer stored.
use fine_grained_permissions.Base.{
  String, ◌||◌, ◌==◌, ◌≡◌, ◌≢◌, inl, inr, Bool-cases, ok, err, not_found,
}
use fine_grained_permissions.Base.Actions.{Refused}
use fine_grained_permissions.Api.{ResourceRef, Binding, CreateBinding, controller, model}
use fine_grained_permissions.OpenFga.{Client}
use fine_grained_permissions.Store.{Db}
use fine_grained_permissions.Store.Bindings.{get_binding}
use fine_grained_permissions.Store.Resources.{get_resource}
use fine_grained_permissions.Service.{World}
use fine_grained_permissions.Service.Check.Laws.{Located, check_iff_Answered, require_iff}
use fine_grained_permissions.Service.Scopes.{management_scope, management_scope_from}
use fine_grained_permissions.Service.Bindings.{delete_binding}
use fine_grained_permissions.Service.Guards.{bindings_guarded}

-- The walk from a resource that is not stored ends at once: at a model, or with an error.
management_scope-missing :
    (ref top : ResourceRef) (db : Db)
    → ref.type ≢ controller
    → get_resource ref.type ref.id db ≡ err not_found
    → management_scope ref db ≡ ok top
    → ref ≡ top
unfolding management_scope management_scope_from
management_scope-missing ref top db below missing h =
    elim (Bool-cases (ref.type == controller || ref.type == model)) [
      | inl stop ↦ cc (rw stop at h)
      | inr go ↦ absurd (cc (rw missing at (rw go at h)))
    ]

Located-missing :
    (ref : ResourceRef) (db : Db)
    → ref.type ≢ controller
    → get_resource ref.type ref.id db ≡ err not_found
    → Located ref db
    → ⊥
Located-missing ref db below missing (inl (top, _)) = below top
Located-missing ref db below missing (inr (_, (item, found))) = cc (found, missing)

module _ {E : Type 0} (client : Client E) where
  -- A binding whose scope is no longer stored cannot be deleted: `DeleteBinding` fails for every actor
  -- and changes nothing.
  pub delete_binding_orphan :
      (actor id : String) (w : World E) (binding : Binding)
      → get_binding id w.db ≡ ok binding
      → binding.scope.type ≢ controller
      → get_resource binding.scope.type binding.scope.id w.db ≡ err not_found
      → Refused (delete_binding client actor id) w
  delete_binding_orphan actor id w binding stored below missing =
      elim (bindings_guarded client w actor "" id unused).1 [
        | inl refused ↦ refused
        | inr (again, scope, found, walked, granted) ↦
            let same : again ≡ binding = cc (found, stored) in
            let at : binding.scope ≡ scope =
              management_scope-missing binding.scope scope w.db below missing (rw same at walked) in
            let (question, _, _) =
              (check_iff_Answered client actor "policy.manage" scope w _).0
                ((require_iff client actor "policy.manage" scope w).0 granted) in
            absurd (Located-missing binding.scope w.db below missing (rw at question.located))
      ]
    where
      unused : CreateBinding
      unused = record {
        role_id = "";
        scope = binding.scope;
        selector = binding.selector;
        subject_id = "";
        subject_type = "";
      }
