-- ===== src/Access/Guard.antt =====
-- packages/auth-core/src/rbac.guard.ts: RbacGuard.canActivate. The reflector's metadata and the
-- resolver of space permissions are arguments; a refusal is a value.
pub mod Sound
pub mod Tokens
use cherry_wiki.Base.{
  String, Bool, true, false, not, Option, none, some, List, [], ◌∷◌, ◌&&◌, ◌||◌, ◌=ₛ◌,
  if◌then◌else◌, every, some_of,
}
use cherry_wiki.Base.Text.{includes}
use cherry_wiki.Access.Roles.{
  Role, owner, admin, role_permissions, normalize_role, is_space_scoped_permission,
  is_resource_acl_deferrable, get_rest_api_token_scope_for_permission,
}
use cherry_wiki.Access.Value.{Value, is_undefined}
use cherry_wiki.Access.Request.{
  Access, granted, denied, ◌>>=◌, unauthenticated, permission_denied, token_without_scope, need,
  RequestUser, RequestWithAuth, get_validated_request_user, get_target_space_id,
}

pub record SpacePermissionResolverInput : Type 0 where
  pub tenant_id : String
  pub user_id : String
  pub group_ids : List String
  pub space_id : String
  pub required_permissions : List String

-- The injected service, where one is; what it answers is the database's.
abbrev pub Resolver : Type 0
Resolver = Option (SpacePermissionResolverInput → List String)

abbrev viewing : List String
viewing = "space:read" ∷ "space:view" ∷ "space:edit" ∷ "space:admin" ∷ []

unfoldable pub permission_set_satisfies : List String → String → Bool
permission_set_satisfies granted_permissions required =
    if (required =ₛ "space:read" || required =ₛ "space:view")
      && some_of (includes viewing) granted_permissions
    then true
    else includes granted_permissions required || includes granted_permissions "space:admin"

abbrev pub is_admin : Role → Bool
is_admin admin = true
is_admin _ = false

abbrev pub is_owner : Role → Bool
is_owner owner = true
is_owner _ = false

abbrev pub is_none {ℓ} : {A : Type ℓ} → Option A → Bool
is_none none = true
is_none (some a) = false

-- hasPermission.
unfoldable pub has_permission : Role → List String → Option String → String → Bool
has_permission role request_permissions space_id permission =
    if is_admin role && includes (role_permissions role) permission
    then true
    else if not (includes (role_permissions role) permission)
    then false
    else if not (is_space_scoped_permission permission) || is_none space_id
    then true
    else permission_set_satisfies request_permissions permission

-- isApiTokenRequestUser, with the scopes.
abbrev pub token_scopes : Option (List String) → Option String → Option (List String)
token_scopes (some scopes) (some token) = some scopes
token_scopes _ _ = none

abbrev pub api_token_scopes : RequestUser → Option (List String)
api_token_scopes user = token_scopes user.scopes user.token_id

abbrev scope_held : Option String → List String → Bool
scope_held none scopes = false
scope_held (some scope) scopes = includes scopes scope

-- getApiTokenScopeDenial: the first required permission whose scope the token lacks.
unfoldable pub first_missing_scope : List String → List String → Option String
unfolding get_rest_api_token_scope_for_permission
first_missing_scope scopes [] = none
first_missing_scope scopes (p ∷ ps) =
    if scope_held (get_rest_api_token_scope_for_permission p) scopes
    then first_missing_scope scopes ps
    else some p

abbrev pub missing_scope : Option (List String) → List String → Option String
missing_scope none required = none
missing_scope (some scopes) required = first_missing_scope scopes required

unfoldable pub get_api_token_scope_denial : RequestUser → List String → Option String
unfolding first_missing_scope
get_api_token_scope_denial user required = missing_scope (api_token_scopes user) required

unfoldable pub find_entry : String → List (String × List String) → Option (List String)
find_entry key [] = none
find_entry key ((k, v) ∷ rest) = if k =ₛ key then some v else find_entry key rest

abbrev pub find_in : String → Option (List (String × List String)) → Option (List String)
find_in key none = none
find_in key (some m) = find_entry key m

abbrev ask :
    (SpacePermissionResolverInput → List String)
    → RequestUser
    → String
    → List String
    → Option String
    → Option String
    → Access (List String)
ask resolve user space required (some tenant) (some sub) = granted (
    resolve (record {
      tenant_id = tenant;
      user_id = sub;
      group_ids = user.group_ids;
      space_id = space;
      required_permissions = required;
    }))
ask resolve user space required _ _ = denied unauthenticated

abbrev pub or_next : Option (List String) → Option (List String) → Option (List String)
or_next (some a) other = some a
or_next none other = other

abbrev or_none : Option (List String) → List String
or_none none = []
or_none (some xs) = xs

abbrev from_resolver :
    Resolver → RequestWithAuth → RequestUser → String → List String → Access (List String)
from_resolver none r user space required =
    granted (or_none (or_next r.permissions user.permissions))
from_resolver (some resolve) r user space required =
    ask resolve user space required user.tenant_id user.sub

abbrev direct_or : Option (List String) → Access (List String) → Access (List String)
direct_or (some direct) other = granted direct
direct_or none other = other

-- getRequestPermissions.
unfoldable pub get_request_permissions :
    Resolver → RequestWithAuth → RequestUser → Option String → List String → Access (List String)
unfolding find_entry
get_request_permissions resolver r user none required =
    granted (or_none (or_next r.permissions user.permissions))
get_request_permissions resolver r user (some space) required =
    direct_or (or_next (find_in space r.space_permissions) (find_in space user.space_permissions))
      (from_resolver resolver r user space required)

-- The last part: the permissions of the request against each required one.
unfoldable pub check_each :
    Resolver
    → RequestWithAuth
    → RequestUser
    → Role
    → Option String
    → List String
    → Access (Unit {0})
check_each resolver r user role space required = do
  request_permissions ← get_request_permissions resolver r user space required
  (if every (has_permission role request_permissions space) required
      then granted tt
      else denied permission_denied)

-- A route without a space id whose permissions are checked for each space.
unfoldable pub without_space : Role → List String → Access (Unit {0})
without_space role required =
    if every is_resource_acl_deferrable required
    then granted tt
    else if is_admin role
        && every (λ p. is_space_scoped_permission p || includes (role_permissions role) p) required
    then granted tt
    else denied permission_denied

unfoldable pub check_role :
    Resolver → RequestWithAuth → RequestUser → Option Role → List String → Access (Unit {0})
unfolding without_space
check_role resolver r user none required = denied permission_denied
check_role resolver r user (some role) required =
    if is_owner role
    then granted tt
    else if is_none (get_target_space_id r) && some_of is_space_scoped_permission required
    then without_space role required
    else check_each resolver r user role (get_target_space_id r) required

abbrev pub after_scopes : Option String → Access (Unit {0}) → Access (Unit {0})
after_scopes none next = next
after_scopes (some p) next = denied permission_denied

unfoldable pub check_user :
    Resolver → RequestWithAuth → List String → RequestUser → Access (Unit {0})
check_user resolver r required user =
    after_scopes (get_api_token_scope_denial user required)
      (check_role resolver r user (normalize_role user.role) required)

-- A route that names no permission.
abbrev pub refuse_token : Option (List String) → Access (Unit {0})
refuse_token none = granted tt
refuse_token (some scopes) = denied token_without_scope

unfoldable pub open_route : RequestWithAuth → Bool → Access (Unit {0})
open_route r true = granted tt
open_route r false =
    if is_undefined r.user
    then granted tt
    else get_validated_request_user r.user >>= λ user. refuse_token (api_token_scopes user)

abbrev pub listed : Option (List String) → List String
listed none = []
listed (some ps) = ps

abbrev on_required : Resolver → RequestWithAuth → Bool → List String → Access (Unit {0})
on_required resolver r is_public [] = open_route r is_public
on_required resolver r is_public (p ∷ ps) =
    get_validated_request_user r.user >>= check_user resolver r (p ∷ ps)

-- canActivate: `granted` where the code returns true.
unfoldable pub can_activate :
    Resolver → Option (List String) → Bool → RequestWithAuth → Access (Unit {0})
can_activate resolver required is_public r = on_required resolver r is_public (listed required)
