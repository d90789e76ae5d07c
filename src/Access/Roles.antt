-- ===== src/Access/Roles.antt =====
-- packages/auth-core/src/constants.ts: the permission points, the roles and the tables.
pub mod Laws
use cherry_wiki.Base.{String, Bool, true, Option, none, some, List, [], ◌∷◌, ◌=ₛ◌, if◌then◌else◌}
use cherry_wiki.Base.Text.{includes, trim, to_lower}

abbrev pub permission_points : List String
permission_points =
    "space:read" ∷ "space:view" ∷ "space:edit" ∷ "space:admin" ∷ "upload:create" ∷ "upload:read"
    ∷ "wiki:publish" ∷ "wiki:rollback" ∷ "graphify:run" ∷ "graphify:view" ∷ "chat:use" ∷ "model:use"
    ∷ "admin" ∷ "admin:user_manage" ∷ "admin:model_manage" ∷ "admin:audit_view" ∷ []

pub data Role : Type 0 where
  owner admin space_admin editor viewer auditor : Role

-- ROLE_PERMISSIONS.
unfoldable pub role_permissions : Role → List String
role_permissions owner = permission_points
role_permissions admin =
    "space:read" ∷ "space:view" ∷ "space:edit" ∷ "space:admin" ∷ "upload:create" ∷ "upload:read"
    ∷ "wiki:publish" ∷ "wiki:rollback" ∷ "graphify:run" ∷ "graphify:view" ∷ "chat:use" ∷ "model:use"
    ∷ "admin" ∷ "admin:user_manage" ∷ "admin:model_manage" ∷ "admin:audit_view" ∷ []
role_permissions space_admin =
    "space:read" ∷ "space:view" ∷ "space:edit" ∷ "space:admin" ∷ "upload:create" ∷ "upload:read"
    ∷ "wiki:publish" ∷ "wiki:rollback" ∷ "graphify:run" ∷ "graphify:view" ∷ "chat:use" ∷ "model:use"
    ∷ []
role_permissions editor =
    "space:read" ∷ "space:view" ∷ "space:edit" ∷ "upload:create" ∷ "upload:read" ∷ "wiki:publish"
    ∷ "graphify:run" ∷ "graphify:view" ∷ "chat:use" ∷ "model:use" ∷ []
role_permissions viewer =
    "space:read" ∷ "space:view" ∷ "upload:read" ∷ "chat:use" ∷ "model:use" ∷ []
role_permissions auditor = "space:read" ∷ "space:view" ∷ "admin:audit_view" ∷ []

abbrev pub space_scoped_permissions : List String
space_scoped_permissions =
    "space:read" ∷ "space:view" ∷ "space:edit" ∷ "space:admin" ∷ "upload:create" ∷ "upload:read"
    ∷ "wiki:publish" ∷ "wiki:rollback" ∷ "graphify:run" ∷ "graphify:view" ∷ "chat:use" ∷ []

abbrev pub resource_acl_deferrable_permissions : List String
resource_acl_deferrable_permissions =
    "space:read" ∷ "upload:read" ∷ "upload:create" ∷ "graphify:view" ∷ "graphify:run" ∷ []

abbrev pub role_aliases : List (String × Role)
role_aliases =
    ("owner", owner)
    ∷ ("admin", admin)
    ∷ ("space admin", space_admin)
    ∷ ("space_admin", space_admin)
    ∷ ("space-admin", space_admin)
    ∷ ("spaceadmin", space_admin)
    ∷ ("editor", editor)
    ∷ ("viewer", viewer)
    ∷ ("auditor", auditor)
    ∷ []

unfoldable pub alias_of : String → List (String × Role) → Option Role
alias_of name [] = none
alias_of name ((alias, role) ∷ rest) = if alias =ₛ name then some role else alias_of name rest

unfoldable pub normalize_role : String → Option Role
unfolding alias_of trim to_lower
normalize_role role = alias_of (to_lower (trim role)) role_aliases

unfoldable pub is_permission_point : String → Bool
is_permission_point = includes permission_points

unfoldable pub is_space_scoped_permission : String → Bool
is_space_scoped_permission = includes space_scoped_permissions

unfoldable pub is_resource_acl_deferrable : String → Bool
is_resource_acl_deferrable = includes resource_acl_deferrable_permissions

-- REST_API_TOKEN_SCOPE_BY_PERMISSION maps each permission point to itself.
unfoldable pub get_rest_api_token_scope_for_permission : String → Option String
get_rest_api_token_scope_for_permission permission =
    if is_permission_point permission then some permission else none
