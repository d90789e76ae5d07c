-- ===== src/Access/Groups/Updated.antt =====
-- Updating the permissions and the members of a group.
use cherry_wiki.Base.{
  ℕ, ◌<◌, String, Bool, true, false, not, ◌&&◌, ◌||◌, Option, some, List, [], ◌∷◌, ◌++◌, map, keep,
  some_of, All, ◌=ₛ◌, eq_iff, eq_refl, if◌then◌else◌, ◌≡◌, refl, ap, ◌∙◌, arith, Bool-cases, ◌⊎◌,
  inl, inr,
}
use cherry_wiki.Base.Text.{includes}
use cherry_wiki.Access.Groups.{
  PermissionRow, SpaceRow, Tables, PermissionMap, PermissionInput, PermissionChange, of_group,
  of_space, permission_rows_from_space_map,
}
use cherry_wiki.Access.Groups.Service.{
  Context, Event, space_changed, user_changed, replace_group_space_permissions,
}
use cherry_wiki.Access.Groups.Maps.{IsMapOf, is_requested}
use cherry_wiki.Access.Groups.Stored.{IsPoint, holds}
use cherry_wiki.Access.Groups.Changes.{some_rows}
use cherry_wiki.Access.Groups.SpaceRows.{version_of_space, holds-append}

abbrev says_space : String → String → Event → Bool
says_space tenant space (space_changed t s) = t =ₛ tenant && s =ₛ space
says_space tenant space (user_changed t u) = false

-- A message that the permissions on the space have changed.
abbrev pub told : String → String → List Event → Bool
told tenant space = some_of (says_space tenant space)

pub told-append :
    (tenant space : String) (xs ys : List Event)
    → told tenant space (xs ++ ys) ≡ (told tenant space xs || told tenant space ys)
told-append tenant space [] ys = refl
told-append tenant space (x ∷ xs) ys = ground (arith, told-append tenant space xs ys)

pub told_each :
    (tenant space : String) (changes : List PermissionChange)
    → includes (map (λ change. change.space_id) changes) space
      ≡ told tenant space (map (λ change. space_changed tenant change.space_id) changes)
told_each tenant space [] = refl
told_each tenant space (change ∷ changes) =
    ground (arith, told_each tenant space changes, eq_refl tenant)

module _ (c : Context) where
  -- The version of the space goes up, if there is the space.
  unfoldable pub Rises : String → List SpaceRow → List SpaceRow → Type 0
  Rises space before after =
      (n : ℕ)
      → version_of_space c space before ≡ some n
      → (m : ℕ) × (version_of_space c space after ≡ some m) × (n < m)

  -- After an update of a group: it has the permissions that it is to have, other groups keep what they
  -- have, and a space where anything changes gets a new version and a message.
  pub record IsUpdated (group : String) (wanted : Option (List PermissionInput))
      (before after : List PermissionRow) (spaces spaces' : List SpaceRow) (published : List Event)
      : Type 0 where
    pub exact :
        (items : List PermissionInput)
        → wanted ≡ some items
        → (space p : String) → holds after c.tenant_id space group p ≡ is_requested items space p
    pub kept :
        (tenant space other p : String)
        → (c.tenant_id =ₛ tenant && group =ₛ other) ≡ false
        → holds after tenant space other p ≡ holds before tenant space other p
    pub announced :
        (space : String)
        → ((p : String)
            → holds after c.tenant_id space group p ≡ holds before c.tenant_id space group p)
          ⊎ ((told c.tenant_id space published ≡ true) × Rises space spaces spaces')
    pub still_points : All IsPoint after

  pub group_cleared :
      (rows : List PermissionRow) (group space p : String)
      → holds (keep (λ row. not (of_group c.tenant_id group row)) rows) c.tenant_id space group p
        ≡ false
  unfolding holds
  group_cleared [] group space p = refl
  group_cleared (row ∷ rows) group space p = elim (Bool-cases (of_group c.tenant_id group row)) [
    | inl its ↦ rw (its, not, if◌then◌else◌) (group_cleared rows group space p)
    | inr other ↦ rw (other, not, if◌then◌else◌) (ground (arith, group_cleared rows group space p))
  ]

  pub group_of_other :
      (rows : List PermissionRow) (group tenant space other p : String)
      → (c.tenant_id =ₛ tenant && group =ₛ other) ≡ false
      → holds (keep (λ row. not (of_group c.tenant_id group row)) rows) tenant space other p
        ≡ holds rows tenant space other p
  unfolding holds
  group_of_other [] group tenant space other p apart = refl
  group_of_other (row ∷ rows) group tenant space other p apart =
      let rest = group_of_other rows group tenant space other p apart in
      elim (Bool-cases (of_group c.tenant_id group row)) [
        | inl its ↦
            let at = ap (λ x. x =ₛ tenant) ((eq_iff row.tenant_id c.tenant_id).0 (ground arith)) in
            let at' = ap (λ x. x =ₛ other) ((eq_iff row.group_id group).0 (ground arith)) in
            rw (its, not, if◌then◌else◌) (ground (arith, rest, at, at', apart))
        | inr not_its ↦ rw (not_its, not, if◌then◌else◌) (ground (arith, rest))
      ]

  pub group_rows_hold :
      (group : String) (m : PermissionMap) (tenant space other p : String)
      → holds (permission_rows_from_space_map c.tenant_id group c.now m) tenant space other p ≡ (
          (c.tenant_id =ₛ tenant && group =ₛ other)
          && (includes m.keys space && includes (m.at space) p))
  unfolding holds
  group_rows_hold group m tenant space other p =
      some_rows (λ row. of_space tenant space row && (row.group_id =ₛ other && row.permission =ₛ p))
        (λ k x. record {
          tenant_id = c.tenant_id;
          space_id = k;
          group_id = group;
          permission = x;
          created_at = c.now;
        })
        (c.tenant_id =ₛ tenant && group =ₛ other) space p (λ k x. ground arith) m m.keys

  pub group_now_requested :
      (group : String) (m : PermissionMap) (items : List PermissionInput) (db : Tables)
      (space p : String)
      → IsMapOf m (is_requested items)
      → holds (replace_group_space_permissions c group m db).permissions c.tenant_id space group p
        ≡ is_requested items space p
  group_now_requested group m items db space p h =
      let new_rows = permission_rows_from_space_map c.tenant_id group c.now m in
      let known = h.keyed space p in
      holds-append c (keep (λ row. not (of_group c.tenant_id group row)) db.permissions) new_rows
        c.tenant_id space group p
      ∙ (ap (λ b. b || holds new_rows c.tenant_id space group p)
            (group_cleared db.permissions group space p)
          ∙ (group_rows_hold group m c.tenant_id space group p
              ∙ (ground (arith, known, eq_refl c.tenant_id, eq_refl group) ∙ h.member space p)))

  pub group_elsewhere_kept :
      (group : String) (m : PermissionMap) (db : Tables) (tenant space other p : String)
      → (c.tenant_id =ₛ tenant && group =ₛ other) ≡ false
      → holds (replace_group_space_permissions c group m db).permissions tenant space other p
        ≡ holds db.permissions tenant space other p
  group_elsewhere_kept group m db tenant space other p apart =
      let new = group_rows_hold group m tenant space other p in
      let old = group_of_other db.permissions group tenant space other p apart in
      holds-append c (keep (λ row. not (of_group c.tenant_id group row)) db.permissions)
        (permission_rows_from_space_map c.tenant_id group c.now m) tenant space other p
      ∙ ground (arith, new, old, apart)
