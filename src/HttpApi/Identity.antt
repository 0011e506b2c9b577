-- ===== src/HttpApi/Identity.antt =====
-- `DemoIdentityMiddleware` and `unauthorized` in server.go.
use fine_grained_permissions.Base.{String, List, [], ◌∷◌, contains, failure, ◌==◌, if◌then◌else◌}
use fine_grained_permissions.Service.{World}
use fine_grained_permissions.HttpApi.{Response, problem, nothing}

-- The cases of the `switch` in `unauthorized`.
unfoldable pub known_operations : List String
known_operations =
    "ListPermissions" ∷ "ListUsers" ∷ "CreateUser" ∷ "ListGroups" ∷ "CreateGroup" ∷ "AddGroupMember"
    ∷ "RemoveGroupMember" ∷ "ListRoles" ∷ "CreateRole" ∷ "GetRole" ∷ "UpdateRole"
    ∷ "PreviewRoleUpdate" ∷ "ListBindings" ∷ "CreateBinding" ∷ "DeleteBinding"
    ∷ "CheckAuthorization" ∷ "CheckAuthorizationBatch" ∷ "GrantLegacyAccess" ∷ "RevokeLegacyAccess"
    ∷ "ListResources" ∷ "CreateResource" ∷ "GetResource" ∷ "DeleteResource" ∷ "GetApplicationConfig"
    ∷ "UpdateApplicationConfig" ∷ "SSHUnit" ∷ "SSHMachine" ∷ []

-- `unauthorized`.
unfoldable pub unauthorized : {A : Type 0} → String → Response A
unfolding known_operations
unauthorized operation =
    if contains known_operations operation
    then problem 401 "unauthorized" (failure "X-Demo-User header is required")
    else nothing

-- `DemoIdentityMiddleware`: the handler gets the header's user as the actor, and no actor on
-- `GetHealth`.
unfoldable pub demo_identity :
    {E A : Type 0}
    → String
    → String
    → (String → World E → Response A × World E)
    → World E
    → Response A × World E
unfolding unauthorized
demo_identity operation header next w =
    if operation == "GetHealth"
    then next "" w
    else if header == ""
    then (unauthorized operation, w)
    else next header w
