-- ===== src/Access/Groups/Versions.antt =====
-- What an update of a group leaves: the permissions on the spaces, the versions of the spaces and the
-- messages.
use cherry_wiki.Base.{
  ℕ, suc, ◌+◌, String, Bool, true, false, Option, none, some, List, [], ◌∷◌, map, ◌=ₛ◌, eq_iff,
  if◌then◌else◌, ◌≡◌, refl, sym, ap, ◌∙◌, arith, Bool-cases, inl, inr,
}
use cherry_wiki.Base.Text.{includes}
use cherry_wiki.Base.Sets.{insert_all, includes-insert_all, count}
use cherry_wiki.Access.Groups.{
  SpaceRow, ChangeType, Tables, PermissionMap, PermissionChange, changes_from, all_keys,
  same_permissions,
}
use cherry_wiki.Access.Groups.Service.{
  Context, is_space_row, version_of, insert_permission_version, increment_space_permission_version,
  record_each,
}
use cherry_wiki.Access.Groups.Maps.{IsMapOf}
use cherry_wiki.Access.Groups.Changes.{same_permissions_lem, absent}
use cherry_wiki.Access.Groups.SpaceRows.{version_of_space}

abbrev pub plus : ℕ → Option ℕ → Option ℕ
plus m none = none
plus m (some n) = some (n + m)

module _ (change : String → List String → List String → PermissionChange)
    (id_of : PermissionChange → String)
    (id_is : (k : String) (old new : List String) → id_of (change k old new) ≡ k)
    (current wanted : PermissionMap) where
  unlisted_at :
      (ks : List String) (k : String)
      → includes ks k ≡ true
      → includes (map id_of (changes_from change current wanted ks)) k ≡ false
      → same_permissions (current.at k) (wanted.at k) ≡ true
  unlisted_at [] k there e = absurd (cc)
  unlisted_at (j ∷ ks) k there e =
      let rest = changes_from change current wanted ks in
      let one = change j (current.at j) (wanted.at j) in
      elim (Bool-cases (same_permissions (current.at j) (wanted.at j))) [
        | inl same ↦
            let e' =
              sym (ap (λ b. includes (map id_of (if b then rest else one ∷ rest)) k) same) ∙ e in
            elim (Bool-cases (j =ₛ k)) [
              | inl here ↦
                  sym
                    (ap (λ x. same_permissions (current.at x) (wanted.at x)) ((eq_iff j k).0 here))
                  ∙ same
              | inr later ↦ unlisted_at ks k (ground arith) e'
            ]
        | inr differs ↦
            let e' =
              sym (ap (λ b. includes (map id_of (if b then rest else one ∷ rest)) k) differs) ∙ e in
            let id = ap (λ x. x =ₛ k) (id_is j (current.at j) (wanted.at j)) in
            unlisted_at ks k (ground arith) (ground arith)
      ]

  -- What is not listed as a change is held as before.
  pub unlisted :
      (has has' : String → String → Bool)
      → IsMapOf current has
      → IsMapOf wanted has'
      → (k : String)
      → includes (map id_of (changes_from change current wanted (all_keys current wanted))) k
        ≡ false
      → (p : String) → has k p ≡ has' k p
  unlisted has has' h h' k e p =
      let keys = includes-insert_all wanted.keys (insert_all current.keys []) k in
      let keys' = includes-insert_all current.keys [] k in
      sym (h.member k p)
      ∙ (elim (Bool-cases (includes (all_keys current wanted) k)) [
        | inl known ↦
            same_permissions_lem (current.at k) (wanted.at k) (h.distinct_at k)
              (unlisted_at (all_keys current wanted) k known e) p
        | inr new ↦
            absent change current wanted current has k p h (ground arith)
            ∙ sym (absent change current wanted wanted has' k p h' (ground arith))
      ]
          ∙ h'.member k p)

module _ (c : Context) where
  same_space :
      (row : SpaceRow) (id s : String)
      → is_space_row c (id ∷ []) row ≡ true
      → is_space_row c (s ∷ []) row ≡ true
      → (id =ₛ s) ≡ true
  same_space row id s its here =
      let at : id ≡ s =
        (eq_iff id row.id).0 (ground arith) ∙ sym ((eq_iff s row.id).0 (ground arith)) in
      (eq_iff id s).1 at

  other_space :
      (row : SpaceRow) (id s : String)
      → is_space_row c (id ∷ []) row ≡ false
      → is_space_row c (s ∷ []) row ≡ true
      → (id =ₛ s) ≡ false
  other_space row id s other here = elim (Bool-cases (id =ₛ s)) [
    | inl same ↦
        let clash = sym (ap (λ x. is_space_row c (x ∷ []) row) ((eq_iff id s).0 same)) ∙ other in
        absurd (cc)
    | inr apart ↦ apart
  ]

  increment_version :
      (id s : String) (rows : List SpaceRow)
      → version_of_space c s (
          map
            (λ row.
              if is_space_row c (id ∷ []) row
              then record row {
                permission_version = suc row.permission_version;
                updated_at = c.now;
              }
              else row)
            rows)
        ≡ plus (if id =ₛ s then 1 else 0) (version_of_space c s rows)
  increment_version id s [] = refl
  increment_version id s (row ∷ rows) =
      let rest = increment_version id s rows in
      elim (Bool-cases (is_space_row c (id ∷ []) row)) [
        | inl its ↦ elim (Bool-cases (is_space_row c (s ∷ []) row)) [
          | inl here ↦
              let same = same_space row id s its here in
              rw (its, if◌then◌else◌)
                (rw (here, if◌then◌else◌) (rw (same, if◌then◌else◌) (ap some (omega arith))))
          | inr later ↦ rw (its, if◌then◌else◌) (rw (later, if◌then◌else◌) rest)
        ]
        | inr other ↦ elim (Bool-cases (is_space_row c (s ∷ []) row)) [
          | inl here ↦
              let apart = other_space row id s other here in
              rw (other, if◌then◌else◌)
                (rw (here, if◌then◌else◌) (rw (apart, if◌then◌else◌) (ap some (omega arith))))
          | inr later ↦ rw (other, if◌then◌else◌) (rw (later, if◌then◌else◌) rest)
        ]
      ]

  plus-zero : (o : Option ℕ) → plus 0 o ≡ o
  plus-zero none = refl
  plus-zero (some x) = ap some (omega arith)

  plus-plus : (m n : ℕ) (o : Option ℕ) → plus m (plus n o) ≡ plus (n + m) o
  plus-plus m n none = refl
  plus-plus m n (some x) = ap some (omega arith)

  -- Recording the changes counts up the version of each space once for each of its changes.
  pub recorded_versions :
      (kind : PermissionChange → ChangeType) (reason : String) (changes : List PermissionChange)
      (db : Tables) (s : String)
      → version_of_space c s (record_each c kind reason changes db).spaces
        ≡ plus (count s (map (λ change. change.space_id) changes)) (version_of_space c s db.spaces)
  recorded_versions kind reason [] db s = sym (plus-zero (version_of_space c s db.spaces))
  recorded_versions kind reason (change ∷ changes) db s =
      let one = if change.space_id =ₛ s then 1 else 0 in
      let more = count s (map (λ change. change.space_id) changes) in
      recorded_versions kind reason changes
        (insert_permission_version c (version_of c kind reason change)
          (increment_space_permission_version c change.space_id db))
        s
      ∙ (ap (plus more) (increment_version change.space_id s db.spaces)
          ∙ (plus-plus more one (version_of_space c s db.spaces)
              ∙ ap (λ n. plus n (version_of_space c s db.spaces))
                  (elim (Bool-cases (change.space_id =ₛ s)) [
                    | inl same ↦ rw (same, if◌then◌else◌) (omega arith)
                    | inr other ↦ rw (other, if◌then◌else◌) (omega arith)
                  ])))

  pub recorded_rest :
      (kind : PermissionChange → ChangeType) (reason : String) (changes : List PermissionChange)
      (db : Tables)
      → ((record_each c kind reason changes db).permissions ≡ db.permissions)
        × ((record_each c kind reason changes db).members ≡ db.members)
        × ((record_each c kind reason changes db).users ≡ db.users)
  recorded_rest kind reason [] db = (refl, refl, refl)
  recorded_rest kind reason (change ∷ changes) db = recorded_rest kind reason changes (
      insert_permission_version c (version_of c kind reason change)
        (increment_space_permission_version c change.space_id db))
