-- ===== src/Access/Request.antt =====
-- packages/auth-core/src/rbac.guard.ts: the request as the guard reads it, the validation of its
-- user, and the space that it is about.
use cherry_wiki.Base.{
  String, Bool, true, false, Option, none, some, List, [], ◌∷◌, ◌&&◌, ◌||◌, ◌=ₛ◌, if◌then◌else◌,
}
use cherry_wiki.Base.Text.{contains_text}
use cherry_wiki.Access.Value.{
  Value, undefined, is_undefined, property, is_record, non_empty_string, string_array,
  permission_map,
}

-- What a refusal carries: UNAUTHENTICATED, or PERMISSION_DENIED with one of its two messages.
pub data Denial : Type 0 where
  unauthenticated permission_denied token_without_scope : Denial

pub data Access {ℓ} (A : Type ℓ) : Type ℓ where
  granted : A → Access A
  denied : Denial → Access A

infixl 5 ◌>>=◌
abbrev pub ◌>>=◌ {ℓ κ} : {A : Type ℓ} {B : Type κ} → Access A → (A → Access B) → Access B
granted a >>= f = f a
denied d >>= f = denied d

pub record RequestUser : Type 0 where
  pub sub : Option String
  pub tenant_id : Option String
  pub role : String
  pub group_ids : List String
  pub permissions : Option (List String)
  pub space_permissions : Option (List (String × List String))
  pub scopes : Option (List String)
  pub token_id : Option String

pub record RequestWithAuth : Type 0 where
  pub user : Value
  pub params : List (String × Value)
  pub body : List (String × Value)
  pub route_url : Option String
  pub router_path : Option String
  pub url : Option String
  pub permissions : Option (List String)
  pub space_permissions : Option (List (String × List String))

abbrev pub need {ℓ} : {A : Type ℓ} → Option A → Access A
need none = denied unauthenticated
need (some a) = granted a

-- A property that may be left out, and is checked where it is not.
abbrev pub optional {ℓ} : {A : Type ℓ} → Bool → Option A → Access (Option A)
optional true o = granted none
optional false none = denied unauthenticated
optional false (some a) = granted (some a)

abbrev or_empty : Option (List String) → List String
or_empty none = []
or_empty (some xs) = xs

-- `scopes` and `token_id` come together or not at all.
abbrev pub token_parts :
    Bool → Option (List String) → Option String → Access (Option (List String) × Option String)
token_parts true scopes token = granted (none, none)
token_parts false (some scopes) (some token) = granted (some scopes, some token)
token_parts false _ _ = denied unauthenticated

-- getValidatedRequestUser.
unfoldable pub get_validated_request_user : Value → Access RequestUser
get_validated_request_user user = do
  role ← need (if is_record user then non_empty_string (property "role" user) else none)
  groups ←
      optional (is_undefined (property "group_ids" user)) (string_array (property "group_ids" user))
  permissions ←
      optional (is_undefined (property "permissions" user))
        (string_array (property "permissions" user))
  space_permissions ←
      optional (is_undefined (property "space_permissions" user))
        (permission_map (property "space_permissions" user))
  token ←
      token_parts (is_undefined (property "scopes" user) && is_undefined (property "token_id" user))
        (string_array (property "scopes" user)) (non_empty_string (property "token_id" user))
  granted (record {
    sub = non_empty_string (property "sub" user);
    tenant_id = non_empty_string (property "tenant_id" user);
    role = role;
    group_ids = or_empty groups;
    permissions = permissions;
    space_permissions = space_permissions;
    scopes = token.0;
    token_id = token.1;
  })

unfoldable pub value_of : String → List (String × Value) → Value
value_of name [] = undefined
value_of name ((key, v) ∷ rest) = if key =ₛ name then v else value_of name rest

abbrev or_next {ℓ} : {A : Type ℓ} → Option A → Option A → Option A
or_next (some a) other = some a
or_next none other = other

-- isSpaceRoute.
abbrev pub path_is_space_route : Option String → Bool
path_is_space_route none = true
path_is_space_route (some path) = contains_text path "/spaces" || contains_text path ":space_id"

unfoldable pub is_space_route : RequestWithAuth → Bool
unfolding contains_text
is_space_route r = path_is_space_route (or_next r.route_url (or_next r.router_path r.url))

-- getTargetSpaceId.
unfoldable pub get_target_space_id : RequestWithAuth → Option String
unfolding value_of is_space_route
get_target_space_id r = or_next (non_empty_string (value_of "space_id" r.params)) (
    or_next (non_empty_string (value_of "spaceId" r.params)) (
      or_next (if is_space_route r then non_empty_string (value_of "id" r.params) else none) (
        or_next (non_empty_string (value_of "space_id" r.body))
          (non_empty_string (value_of "spaceId" r.body)))))
