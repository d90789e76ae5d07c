-- ===== src/Access/Guard/Sound.antt =====
-- Why a request that the guard lets through may pass.
use cherry_wiki.Base.{
  String, ◌≡◌, ◌≢◌, refl, ◌⊎◌, inl, inr, Bool, true, false, Option, none, some, List, [], ◌∷◌, All,
  arith, Bool-cases, Option-cases, if◌then◌else◌, every, some_of, ◌&&◌, ◌||◌,
}
use cherry_wiki.Base.Text.{includes}
use cherry_wiki.Access.Roles.{
  Role, owner, admin, role_permissions, normalize_role, is_space_scoped_permission,
  is_resource_acl_deferrable,
}
use cherry_wiki.Access.Request.{
  granted, RequestUser, RequestWithAuth, get_validated_request_user, get_target_space_id,
}
use cherry_wiki.Access.Guard.{
  Resolver, permission_set_satisfies, has_permission, is_admin, is_owner, is_none,
  get_request_permissions, check_each, without_space, check_role, can_activate,
}
use cherry_wiki.Access.Guard.Tokens.{granted-bind, granted-user}

pub every-All {ℓ κ} :
    {A : Type ℓ} (P : A → Type κ) (test : A → Bool) (xs : List A)
    → ((x : A) → test x ≡ true → P x)
    → every test xs ≡ true
    → All P xs
every-All P test [] sound h = tt
every-All P test (x ∷ xs) sound h =
    (sound x (ground arith), every-All P test xs sound (ground arith))

-- The role has the permission; and if it is checked for each space, then the user is an
-- administrator, the request names no space, or what is granted in the space satisfies it.
abbrev pub Holds : Role → List String → Option String → String → Type 0
Holds role in_space space p =
    (includes (role_permissions role) p ≡ true)
    × ((role ≡ admin)
        ⊎ (is_space_scoped_permission p ≡ false)
        ⊎ (space ≡ none)
        ⊎ (permission_set_satisfies in_space p ≡ true))

module _ (resolver : Resolver) (r : RequestWithAuth) (user : RequestUser)
    (required : List String) where
  pub data Permit : Role → Type 0 where
    by_owner : (role : Role) → role ≡ owner → Permit role
    deferred :
        (role : Role)
        → get_target_space_id r ≡ none
        → All (λ p. is_resource_acl_deferrable p ≡ true) required
        → Permit role
    admin_everywhere :
        (role : Role)
        → role ≡ admin
        → get_target_space_id r ≡ none
        → All
            (λ p.
              (is_space_scoped_permission p ≡ true) ⊎ (includes (role_permissions role) p ≡ true))
            required
        → Permit role
    by_table :
        (role : Role) (in_space : List String)
        → get_request_permissions resolver r user (get_target_space_id r) required
          ≡ granted in_space
        → All (Holds role in_space (get_target_space_id r)) required
        → Permit role

is_admin-eq : (role : Role) → is_admin role ≡ true → role ≡ admin
is_admin-eq role h = ground arith

is_owner-eq : (role : Role) → is_owner role ≡ true → role ≡ owner
is_owner-eq role h = ground arith

is_none-eq {ℓ} : {A : Type ℓ} (o : Option A) → is_none o ≡ true → o ≡ none
is_none-eq none h = refl
is_none-eq (some a) h = cc

has_permission-Holds :
    (role : Role) (in_space : List String) (space : Option String) (p : String)
    → has_permission role in_space space p ≡ true
    → Holds role in_space space p
unfolding has_permission
has_permission-Holds role in_space space p h =
    (ground arith, ground (arith, is_admin-eq role, is_none-eq space))

module _ (resolver : Resolver) (r : RequestWithAuth) (user : RequestUser)
    (required : List String) where
  check_each-Permit :
      (role : Role)
      → check_each resolver r user role (get_target_space_id r) required ≡ granted tt
      → Permit resolver r user required role
  unfolding check_each
  check_each-Permit role h =
      let (in_space, there, all) =
        granted-bind (get_request_permissions resolver r user (get_target_space_id r) required) _ tt
          h in
      by_table role in_space there (
        every-All (Holds role in_space (get_target_space_id r))
          (has_permission role in_space (get_target_space_id r)) required
          (λ p. has_permission-Holds role in_space (get_target_space_id r) p) (ground arith))

  without_space-Permit :
      (role : Role)
      → get_target_space_id r ≡ none
      → without_space role required ≡ granted tt
      → Permit resolver r user required role
  unfolding without_space
  without_space-Permit role n h = elim (Bool-cases (every is_resource_acl_deferrable required)) [
    | inl t ↦ deferred role n (every-All _ is_resource_acl_deferrable required (λ p e. e) t)
    | inr f ↦ elim (Bool-cases (is_admin role)) [
      | inl a ↦ admin_everywhere role (is_admin-eq role a) n (
          every-All _ (λ p. is_space_scoped_permission p || includes (role_permissions role) p)
            required (λ p e. ground arith) (ground arith))
      | inr na ↦ ground arith
    ]
  ]

  check_role-Permit :
      (role : Role)
      → check_role resolver r user (some role) required ≡ granted tt
      → Permit resolver r user required role
  unfolding check_role
  check_role-Permit role h = elim (Bool-cases (is_owner role)) [
    | inl o ↦ by_owner role (is_owner-eq role o)
    | inr f ↦
        elim (Bool-cases
          (is_none (get_target_space_id r) && some_of is_space_scoped_permission required)) [
            | inl t ↦
                without_space-Permit role (is_none-eq _ (ground arith))
                  (rw (f, if◌then◌else◌, t) at h)
            | inr n ↦ check_each-Permit role (rw (f, if◌then◌else◌, n) at h)
          ]
  ]

check_role-known :
    (resolver : Resolver) (r : RequestWithAuth) (user : RequestUser) (required : List String)
    → check_role resolver r user none required ≢ granted tt
unfolding check_role
check_role-known resolver r user required h = cc

-- A request that the guard lets through to a route with required permissions has a well-formed user
-- with a known role, and one of four reasons: the role is the owner's; or the request names no
-- space and every required permission is one that the service checks itself; or it names no space
-- and an administrator asks only for permissions of spaces or of the role; or the role has every
-- required permission, and each that is checked for a space is granted there, unless an
-- administrator asks or the request names no space.
pub can_activate_sound :
    (resolver : Resolver) (p : String) (ps : List String) (is_public : Bool) (r : RequestWithAuth)
    → can_activate resolver (some (p ∷ ps)) is_public r ≡ granted tt
    → (user : RequestUser) × (role : Role) × (get_validated_request_user r.user ≡ granted user)
      × (normalize_role user.role ≡ some role)
      × Permit resolver r user (p ∷ ps) role
can_activate_sound resolver p ps is_public r h =
    let (user, valid, scoped, checked) = granted-user resolver p ps is_public r h in
    elim (Option-cases (normalize_role user.role)) [
      | inl n ↦ absurd (check_role-known resolver r user (p ∷ ps) (rw n at checked))
      | inr (role, e) ↦
          (user, role, valid, e, check_role-Permit resolver r user (p ∷ ps) role (rw e at checked))
    ]
