-- ===== src/Examples/Guarding.antt =====
-- The guard at concrete requests.
use cherry_wiki.Base.{◌≡◌, refl, false, none, some, [], ◌∷◌, All}
use cherry_wiki.Base.Text.{trim, is_blank, to_lower}
use cherry_wiki.Access.Roles.{
  Role, role_permissions, normalize_role, is_space_scoped_permission, is_resource_acl_deferrable,
  is_permission_point,
}
use cherry_wiki.Access.Value.{str, arr, nil, item, obj, end, member, member_of, texts}
use cherry_wiki.Access.Request.{
  granted, denied, permission_denied, RequestUser, RequestWithAuth, get_validated_request_user,
  get_target_space_id,
}
use cherry_wiki.Access.Guard.{
  Resolver, permission_set_satisfies, has_permission, get_api_token_scope_denial,
  get_request_permissions, check_each, check_role, check_user, can_activate,
}
use cherry_wiki.Access.Guard.Sound.{Permit, can_activate_sound}
use cherry_wiki.Access.Guard.Tokens.{InScope, token_confined}

guarding : Unit {0}
unfolding trim is_blank to_lower role_permissions normalize_role is_space_scoped_permission
    is_resource_acl_deferrable is_permission_point member_of texts get_validated_request_user
    get_target_space_id permission_set_satisfies has_permission get_api_token_scope_denial
    get_request_permissions check_each check_role check_user can_activate
guarding = tt

-- An editor's token for reading, in the space s1.
abbrev request : RequestWithAuth
request = record {
  user = obj (
      member "role" (str " Editor ") (
        member "sub" (str "ann") (
          member "tenant_id" (str "t") (
            member "scopes" (arr (item (str "wiki:publish") nil))
              (member "token_id" (str "tok") end)))));
  params = ("space_id", str "s1") ∷ [];
  body = [];
  route_url = none;
  router_path = none;
  url = none;
  permissions = none;
  space_permissions = none;
}

-- What the database answers.
abbrev resolver : Resolver
resolver = some (λ question. "wiki:publish" ∷ [])

abbrev user : RequestUser
user = record {
  sub = some "ann";
  tenant_id = some "t";
  role = " Editor ";
  group_ids = [];
  permissions = none;
  space_permissions = none;
  scopes = some ("wiki:publish" ∷ []);
  token_id = some "tok";
}

allowed_request : can_activate resolver (some ("wiki:publish" ∷ [])) false request ≡ granted tt
unfolding guarding
allowed_request = refl

refused_request :
    can_activate resolver (some ("wiki:rollback" ∷ [])) false request ≡ denied permission_denied
unfolding guarding
refused_request = refl

can_activate_sound_example :
    (u : RequestUser) × (role : Role) × (get_validated_request_user request.user ≡ granted u)
    × (normalize_role u.role ≡ some role)
    × Permit resolver request u ("wiki:publish" ∷ []) role
can_activate_sound_example =
    can_activate_sound resolver "wiki:publish" [] false request allowed_request

token_confined_example : All (InScope ("wiki:publish" ∷ [])) ("wiki:publish" ∷ [])
unfolding guarding
token_confined_example =
    token_confined resolver "wiki:publish" [] false request user ("wiki:publish" ∷ [])
      allowed_request refl refl
