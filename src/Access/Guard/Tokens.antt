-- ===== src/Access/Guard/Tokens.antt =====
-- What an API token may do.
use cherry_wiki.Base.{
  String, ◌≡◌, refl, inl, inr, Bool, true, Option, none, some, List, [], ◌∷◌, All, arith,
  Bool-cases,
}
use cherry_wiki.Base.Text.{includes}
use cherry_wiki.Access.Roles.{is_permission_point, normalize_role}
use cherry_wiki.Access.Request.{
  Access, granted, denied, ◌>>=◌, RequestUser, RequestWithAuth, get_validated_request_user,
}
use cherry_wiki.Access.Guard.{
  Resolver, missing_scope, first_missing_scope, get_api_token_scope_denial, api_token_scopes,
  check_user, check_role, after_scopes, can_activate,
}

abbrev pub InScope : List String → String → Type 0
InScope scopes p = (is_permission_point p ≡ true) × (includes scopes p ≡ true)

first_missing_scope-InScope :
    (scopes required : List String)
    → first_missing_scope scopes required ≡ none
    → All (InScope scopes) required
unfolding first_missing_scope
first_missing_scope-InScope scopes [] h = tt
first_missing_scope-InScope scopes (p ∷ ps) h = elim (Bool-cases (is_permission_point p)) [
  | inl t ↦ elim (Bool-cases (includes scopes p)) [
    | inl i ↦ ((t, i), first_missing_scope-InScope scopes ps (ground arith))
    | inr n ↦ ground arith
  ]
  | inr f ↦ ground arith
]

pub granted-bind {ℓ κ} :
    {A : Type ℓ} {B : Type κ} (m : Access A) (f : A → Access B) (b : B)
    → (m >>= f) ≡ granted b
    → (a : A) × (m ≡ granted a) × (f a ≡ granted b)
granted-bind (granted a) f b h = (a, refl, h)
granted-bind (denied d) f b h = cc

after_scopes-granted :
    (o : Option String) (next : Access (Unit {0}))
    → after_scopes o next ≡ granted tt
    → (o ≡ none) × (next ≡ granted tt)
after_scopes-granted none next h = (refl, h)
after_scopes-granted (some p) next h = cc

scopes-InScope :
    (user : RequestUser) (required scopes : List String)
    → get_api_token_scope_denial user required ≡ none
    → api_token_scopes user ≡ some scopes
    → All (InScope scopes) required
unfolding get_api_token_scope_denial
scopes-InScope user required scopes h e =
    first_missing_scope-InScope scopes required (rw (e, missing_scope) at h)

-- What a granted request has passed: its user is well formed, and the two checks.
pub granted-user :
    (resolver : Resolver) (p : String) (ps : List String) (is_public : Bool) (r : RequestWithAuth)
    → can_activate resolver (some (p ∷ ps)) is_public r ≡ granted tt
    → (user : RequestUser) × (get_validated_request_user r.user ≡ granted user)
      × (get_api_token_scope_denial user (p ∷ ps) ≡ none)
      × (check_role resolver r user (normalize_role user.role) (p ∷ ps) ≡ granted tt)
unfolding can_activate check_user
granted-user resolver p ps is_public r h =
    let (user, valid, checked) = granted-bind (get_validated_request_user r.user) _ tt h in
    let (a, b) = after_scopes-granted _ _ checked in (user, valid, a, b)

-- A request that the guard lets through to a route with required permissions, and whose user is an
-- API token, holds the scope of every one of them, which is then a permission point.
pub token_confined :
    (resolver : Resolver) (p : String) (ps : List String) (is_public : Bool) (r : RequestWithAuth)
    (user : RequestUser) (scopes : List String)
    → can_activate resolver (some (p ∷ ps)) is_public r ≡ granted tt
    → get_validated_request_user r.user ≡ granted user
    → api_token_scopes user ≡ some scopes
    → All (InScope scopes) (p ∷ ps)
token_confined resolver p ps is_public r user scopes h v e =
    let (u, valid, a, b) = granted-user resolver p ps is_public r h in
    let same : u ≡ user = cc in scopes-InScope user (p ∷ ps) scopes (rw same at a) e
