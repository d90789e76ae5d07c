-- ===== src/Access/Groups/Members.antt =====
-- The members of a group, the permission versions of users, and the messages about users.
use cherry_wiki.Base.{
  ℕ, suc, String, Bool, true, false, not, ◌&&◌, ◌||◌, Option, none, some, List, [], ◌∷◌, ◌++◌, map,
  keep, some_of, ◌=ₛ◌, eq_iff, eq_refl, if◌then◌else◌, ◌≡◌, refl, sym, ap, ◌∙◌, arith, Bool-cases,
  inl, inr,
}
use cherry_wiki.Base.Text.{includes}
use cherry_wiki.Access.Groups.{MemberRow, UserRow, Tables}
use cherry_wiki.Access.Groups.Service.{
  Context, Event, space_changed, user_changed, is_user_row, get_group_member_ids,
}
use cherry_wiki.Access.Groups.Versions.{plus}

abbrev says_user : String → String → Event → Bool
says_user tenant user (user_changed t u) = t =ₛ tenant && u =ₛ user
says_user tenant user (space_changed t s) = false

-- A message that the permissions of the user have changed.
abbrev pub told_user : String → String → List Event → Bool
told_user tenant user = some_of (says_user tenant user)

pub told_user-append :
    (tenant user : String) (xs ys : List Event)
    → told_user tenant user (xs ++ ys) ≡ (told_user tenant user xs || told_user tenant user ys)
told_user-append tenant user [] ys = refl
told_user-append tenant user (x ∷ xs) ys = ground (arith, told_user-append tenant user xs ys)

pub each_user_told :
    (tenant user : String) (ids : List String)
    → told_user tenant user (map (user_changed tenant) ids) ≡ includes ids user
each_user_told tenant user [] = refl
each_user_told tenant user (id ∷ ids) =
    ground (arith, each_user_told tenant user ids, eq_refl tenant)

-- The user is a member of the group.
abbrev pub is_member : List MemberRow → String → String → String → Bool
is_member rows tenant group user =
    some_of (λ row. (row.tenant_id =ₛ tenant && row.group_id =ₛ group) && row.user_id =ₛ user) rows

module _ (c : Context) where
  member_ids :
      (rows : List MemberRow) (group user : String)
      → includes
          (map
            (λ row. row.user_id)
            (keep (λ row. row.tenant_id =ₛ c.tenant_id && row.group_id =ₛ group) rows))
          user
        ≡ is_member rows c.tenant_id group user
  member_ids [] group user = refl
  member_ids (row ∷ rows) group user =
      elim (Bool-cases (row.tenant_id =ₛ c.tenant_id && row.group_id =ₛ group)) [
        | inl its ↦ rw (its, if◌then◌else◌) (ground (arith, member_ids rows group user))
        | inr other ↦ rw (other, if◌then◌else◌) (member_ids rows group user)
      ]

  pub includes-get_group_member_ids :
      (group user : String) (db : Tables)
      → includes (get_group_member_ids c group db) user
        ≡ is_member db.members c.tenant_id group user
  includes-get_group_member_ids group user db = member_ids db.members group user

  -- The version of a user, of the first row of its id.
  abbrev pub version_of_user : String → List UserRow → Option ℕ
  version_of_user id [] = none
  version_of_user id (row ∷ rows) =
      if is_user_row c (id ∷ []) row then some row.permission_version else version_of_user id rows

  user_listed :
      (row : UserRow) (ids : List String) (u : String)
      → is_user_row c (u ∷ []) row ≡ true
      → is_user_row c ids row ≡ includes ids u
  user_listed row ids u here =
      let at : u ≡ row.id = (eq_iff u row.id).0 (ground arith) in
      let same = ap (includes ids) at in ground (arith, same)

  pub increment_user_version :
      (ids : List String) (u : String) (rows : List UserRow)
      → version_of_user u (
          map
            (λ row.
              if is_user_row c ids row
              then record row {
                permission_version = suc row.permission_version;
                updated_at = c.now;
              }
              else row)
            rows)
        ≡ plus (if includes ids u then 1 else 0) (version_of_user u rows)
  increment_user_version ids u [] = refl
  increment_user_version ids u (row ∷ rows) =
      let rest = increment_user_version ids u rows in
      elim (Bool-cases (is_user_row c (u ∷ []) row)) [
        | inl here ↦ elim (Bool-cases (is_user_row c ids row)) [
          | inl its ↦
              let listed = sym (user_listed row ids u here) ∙ its in
              rw (its, if◌then◌else◌)
                (rw (here, if◌then◌else◌) (rw (listed, if◌then◌else◌) (ap some (omega arith))))
          | inr other ↦
              let unlisted = sym (user_listed row ids u here) ∙ other in
              rw (other, if◌then◌else◌)
                (rw (here, if◌then◌else◌) (rw (unlisted, if◌then◌else◌) (ap some (omega arith))))
        ]
        | inr later ↦ elim (Bool-cases (is_user_row c ids row)) [
          | inl its ↦ rw (its, if◌then◌else◌) (rw (later, if◌then◌else◌) rest)
          | inr other ↦ rw (other, if◌then◌else◌) (rw (later, if◌then◌else◌) rest)
        ]
      ]

  pub members_cleared :
      (rows : List MemberRow) (group user : String)
      → is_member
          (keep (λ row. not (row.tenant_id =ₛ c.tenant_id && row.group_id =ₛ group)) rows)
          c.tenant_id
          group
          user
        ≡ false
  members_cleared [] group user = refl
  members_cleared (row ∷ rows) group user =
      elim (Bool-cases (row.tenant_id =ₛ c.tenant_id && row.group_id =ₛ group)) [
        | inl its ↦ rw (its, not, if◌then◌else◌) (members_cleared rows group user)
        | inr other ↦
            rw (other, not, if◌then◌else◌) (ground (arith, members_cleared rows group user))
      ]
