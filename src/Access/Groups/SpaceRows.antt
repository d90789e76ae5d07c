-- ===== src/Access/Groups/SpaceRows.antt =====
-- The rows of a space: its version, and its permissions when they are replaced.
use cherry_wiki.Base.{
  ℕ, suc, String, true, false, not, ◌&&◌, ◌||◌, Option, none, some, List, [], ◌∷◌, ◌++◌, map, keep,
  some_of, ◌=ₛ◌, eq_iff, eq_refl, if◌then◌else◌, ◌≡◌, refl, ap, ◌∙◌, arith, Bool-cases, inl, inr,
}
use cherry_wiki.Base.Text.{includes}
use cherry_wiki.Access.Groups.{
  PermissionRow, SpaceRow, Tables, PermissionMap, PermissionInput, PermissionChange,
  get_permission_change_type, of_space, permission_rows_from_group_map,
}
use cherry_wiki.Access.Groups.Service.{
  Context, is_space_row, insert_permission_version, version_of, record_all,
}
use cherry_wiki.Access.Groups.Maps.{IsMapOf, is_requested}
use cherry_wiki.Access.Groups.Stored.{holds}
use cherry_wiki.Access.Groups.Changes.{some-append, some_rows}

module _ (c : Context) where
  -- The version of a space, of the first row of its id.
  abbrev pub version_of_space : String → List SpaceRow → Option ℕ
  version_of_space id [] = none
  version_of_space id (row ∷ rows) =
      if is_space_row c (id ∷ []) row then some row.permission_version else version_of_space id rows

  pub incremented :
      (id : String) (rows : List SpaceRow)
      → some_of (is_space_row c (id ∷ [])) rows ≡ true
      → (n : ℕ) × (version_of_space id rows ≡ some n)
        × (version_of_space id (
              map
                (λ row.
                  if is_space_row c (id ∷ []) row
                  then record row {
                    permission_version = suc row.permission_version;
                    updated_at = c.now;
                  }
                  else row)
                rows)
            ≡ some (suc n))
  incremented id [] e = absurd (cc)
  incremented id (row ∷ rows) e = elim (Bool-cases (is_space_row c (id ∷ []) row)) [
    | inl its ↦ (
      row.permission_version,
      rw (its, if◌then◌else◌) refl,
      rw (its, if◌then◌else◌) (rw (its, if◌then◌else◌) refl),
    )
    | inr other ↦
        let (n, before, after) = incremented id rows (ground arith) in
        (
          n,
          rw (other, if◌then◌else◌) before,
          rw (other, if◌then◌else◌) (rw (other, if◌then◌else◌) after),
        )
  ]

  pub recorded_permissions :
      (reason : String) (changes : List PermissionChange) (db : Tables)
      → ((record_all c reason changes db).permissions ≡ db.permissions)
        × ((record_all c reason changes db).spaces ≡ db.spaces)
  recorded_permissions reason [] db = (refl, refl)
  recorded_permissions reason (change ∷ changes) db =
      recorded_permissions reason changes
        (insert_permission_version c (version_of c get_permission_change_type reason change) db)

  space_of_other :
      (rows : List PermissionRow) (space tenant other group p : String)
      → (c.tenant_id =ₛ tenant && space =ₛ other) ≡ false
      → holds (keep (λ row. not (of_space c.tenant_id space row)) rows) tenant other group p
        ≡ holds rows tenant other group p
  unfolding holds
  space_of_other [] space tenant other group p apart = refl
  space_of_other (row ∷ rows) space tenant other group p apart =
      let rest = space_of_other rows space tenant other group p apart in
      elim (Bool-cases (of_space c.tenant_id space row)) [
        | inl its ↦
            let at = ap (λ x. x =ₛ tenant) ((eq_iff row.tenant_id c.tenant_id).0 (ground arith)) in
            let at' = ap (λ x. x =ₛ other) ((eq_iff row.space_id space).0 (ground arith)) in
            rw (its, not, if◌then◌else◌) (ground (arith, rest, at, at', apart))
        | inr not_its ↦ rw (not_its, not, if◌then◌else◌) (ground (arith, rest))
      ]

  space_cleared :
      (rows : List PermissionRow) (space group p : String)
      → holds (keep (λ row. not (of_space c.tenant_id space row)) rows) c.tenant_id space group p
        ≡ false
  unfolding holds
  space_cleared [] space group p = refl
  space_cleared (row ∷ rows) space group p = elim (Bool-cases (of_space c.tenant_id space row)) [
    | inl its ↦ rw (its, not, if◌then◌else◌) (space_cleared rows space group p)
    | inr other ↦ rw (other, not, if◌then◌else◌) (ground (arith, space_cleared rows space group p))
  ]

  rows_hold :
      (space : String) (m : PermissionMap) (tenant other group p : String)
      → holds (permission_rows_from_group_map c.tenant_id space c.now m) tenant other group p ≡ (
          (c.tenant_id =ₛ tenant && space =ₛ other)
          && (includes m.keys group && includes (m.at group) p))
  unfolding holds
  rows_hold space m tenant other group p =
      some_rows (λ row. of_space tenant other row && (row.group_id =ₛ group && row.permission =ₛ p))
        (λ k x. record {
          tenant_id = c.tenant_id;
          space_id = space;
          group_id = k;
          permission = x;
          created_at = c.now;
        })
        (c.tenant_id =ₛ tenant && space =ₛ other) group p (λ k x. refl) m m.keys

  abbrev pub replaced_rows : String → PermissionMap → Tables → Tables
  replaced_rows space m db = record db {
    permissions =
        keep (λ row. not (of_space c.tenant_id space row)) db.permissions
        ++ permission_rows_from_group_map c.tenant_id space c.now m;
  }

  pub holds-append :
      (xs ys : List PermissionRow) (tenant space group p : String)
      → holds (xs ++ ys) tenant space group p
        ≡ (holds xs tenant space group p || holds ys tenant space group p)
  unfolding holds
  holds-append xs ys tenant space group p =
      some-append
        (λ row. of_space tenant space row && (row.group_id =ₛ group && row.permission =ₛ p)) xs ys

  pub now_requested :
      (space : String) (m : PermissionMap) (input : List PermissionInput) (db : Tables)
      (group p : String)
      → IsMapOf m (is_requested input)
      → holds (replaced_rows space m db).permissions c.tenant_id space group p
        ≡ is_requested input group p
  now_requested space m input db group p h =
      let cleared = space_cleared db.permissions space group p in
      let new = rows_hold space m c.tenant_id space group p in
      let known = h.keyed group p in
      holds-append (keep (λ row. not (of_space c.tenant_id space row)) db.permissions)
        (permission_rows_from_group_map c.tenant_id space c.now m) c.tenant_id space group p
      ∙ (ap
            (λ b.
              b
              || holds (permission_rows_from_group_map c.tenant_id space c.now m) c.tenant_id space
                  group p)
            cleared
          ∙ (new ∙ (ground (arith, known, eq_refl c.tenant_id, eq_refl space) ∙ h.member group p)))

  pub elsewhere_kept :
      (space : String) (m : PermissionMap) (db : Tables) (tenant other group p : String)
      → (c.tenant_id =ₛ tenant && space =ₛ other) ≡ false
      → holds (replaced_rows space m db).permissions tenant other group p
        ≡ holds db.permissions tenant other group p
  elsewhere_kept space m db tenant other group p apart =
      let new = rows_hold space m tenant other group p in
      let old = space_of_other db.permissions space tenant other group p apart in
      holds-append (keep (λ row. not (of_space c.tenant_id space row)) db.permissions)
        (permission_rows_from_group_map c.tenant_id space c.now m) tenant other group p
      ∙ ground (arith, new, old, apart)
