-- ===== src/Tests/Catalogued.antt =====
-- The theorem on the permissions of roles, on the small deployment.
use fine_grained_permissions.Base.{String, [], ◌∷◌, ◌≡◌, inl, inr, ap, In, ok}
use fine_grained_permissions.Api.{Role, CreateRole, UpdateRole}
use fine_grained_permissions.Catalog.Types.{all_names}
use fine_grained_permissions.Store.Roles.{get_role}
use fine_grained_permissions.Service.Roles.{create_role, update_role}
use fine_grained_permissions.Service.Roles.Catalogued.{IsCatalogued, roles-IsCatalogued}
use fine_grained_permissions.Tests.Deployment.{demo, start, tables}
use fine_grained_permissions.Tests.Decisions.{reads}

abbrev auditor : CreateRole
auditor = record { description = ""; name = "auditor"; permissions = "policy.read" ∷ [] }

abbrev widened : UpdateRole
widened = record { description = ""; permissions = "application.read" ∷ "unit.read" ∷ [] }

tables-IsCatalogued : IsCatalogued tables
tables-IsCatalogued row (inl same) = reads row.1 (inl (ap (λ r. r.1) same))
tables-IsCatalogued row (inr other) = absurd other

roles-IsCatalogued_example :
    ((name p : String) (role : Role)
      → get_role name tables ≡ ok role
      → In p role.permissions
      → In p all_names)
    × IsCatalogued (create_role demo (λ c. c) "ann" auditor start).1.db
    × IsCatalogued (update_role demo "now" "ann" "viewer" 1 widened start).1.db
roles-IsCatalogued_example =
    roles-IsCatalogued demo (λ c. c) "now" "ann" "viewer" 1 auditor widened start
      tables-IsCatalogued
