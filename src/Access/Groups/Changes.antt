-- ===== src/Access/Groups/Changes.antt =====
-- Two maps with no change between them hold the same, and the rows that are written for a map hold
-- what the map holds.
use cherry_wiki.Base.{
  String, Bool, true, false, ◌&&◌, ◌||◌, List, [], ◌∷◌, ◌++◌, map, some_of, every, All, ◌=ₛ◌,
  eq_iff, if◌then◌else◌, ◌≡◌, refl, sym, ap, ◌∙◌, arith, Bool-cases, inl, inr,
}
use cherry_wiki.Base.Text.{includes}
use cherry_wiki.Base.Sets.{insert_all, IsDistinct, includes-insert_all, same_members}
use cherry_wiki.Access.Roles.{is_permission_point}
use cherry_wiki.Access.Groups.{
  PermissionRow, PermissionMap, PermissionChange, changes_from, all_keys, permission_rows,
  same_permissions,
}
use cherry_wiki.Access.Groups.Maps.{IsMapOf}
use cherry_wiki.Access.Groups.Stored.{IsPoint}

pub same_permissions_lem :
    (left right : List String)
    → IsDistinct left
    → same_permissions left right ≡ true
    → (p : String) → includes left p ≡ includes right p
unfolding same_permissions
same_permissions_lem left right d e p = same_members left right d (ground arith) (ground arith) p

module _ (change : String → List String → List String → PermissionChange)
    (current wanted : PermissionMap) where
  no_change_at :
      (ks : List String) (k : String)
      → changes_from change current wanted ks ≡ []
      → includes ks k ≡ true
      → same_permissions (current.at k) (wanted.at k) ≡ true
  no_change_at [] k e there = absurd (cc)
  no_change_at (j ∷ ks) k e there =
      elim (Bool-cases (same_permissions (current.at j) (wanted.at j))) [
        | inl same ↦
            let rest = changes_from change current wanted ks in
            let e' =
              sym (ap (λ b. if b then rest else change j (current.at j) (wanted.at j) ∷ rest) same)
              ∙ e in
            elim (Bool-cases (j =ₛ k)) [
              | inl here ↦
                  sym
                    (ap (λ x. same_permissions (current.at x) (wanted.at x)) ((eq_iff j k).0 here))
                  ∙ same
              | inr later ↦ no_change_at ks k e' (ground arith)
            ]
        | inr differs ↦
            let rest = changes_from change current wanted ks in
            let e' =
              sym
                (ap (λ b. if b then rest else change j (current.at j) (wanted.at j) ∷ rest) differs)
              ∙ e in
            absurd (cc)
      ]

  pub absent :
      (m : PermissionMap) (has : String → String → Bool) (k p : String)
      → IsMapOf m has
      → includes m.keys k ≡ false
      → includes (m.at k) p ≡ false
  absent m has k p h none_of = elim (Bool-cases (includes (m.at k) p)) [
    | inl there ↦ let known = h.keyed k p there in absurd (cc)
    | inr gone ↦ gone
  ]

  pub unchanged :
      (has has' : String → String → Bool)
      → IsMapOf current has
      → IsMapOf wanted has'
      → changes_from change current wanted (all_keys current wanted) ≡ []
      → (k p : String) → has k p ≡ has' k p
  unchanged has has' h h' e k p =
      let keys = includes-insert_all wanted.keys (insert_all current.keys []) k in
      let keys' = includes-insert_all current.keys [] k in
      sym (h.member k p)
      ∙ (elim (Bool-cases (includes (all_keys current wanted) k)) [
        | inl known ↦
            same_permissions_lem (current.at k) (wanted.at k) (h.distinct_at k)
              (no_change_at (all_keys current wanted) k e known) p
        | inr new ↦
            absent current has k p h (ground arith) ∙ sym (absent wanted has' k p h' (ground arith))
      ]
          ∙ h'.member k p)

pub some-append :
    (q : PermissionRow → Bool) (xs ys : List PermissionRow)
    → some_of q (xs ++ ys) ≡ (some_of q xs || some_of q ys)
some-append q [] ys = refl
some-append q (x ∷ xs) ys = ground (arith, some-append q xs ys)

module _ (q : PermissionRow → Bool) (row : String → String → PermissionRow) (b : Bool)
    (g p : String) (test : (k x : String) → q (row k x) ≡ (b && (k =ₛ g && x =ₛ p))) where
  some_rows_of :
      (k : String) (ps : List String)
      → some_of q (map (row k) ps) ≡ (b && (k =ₛ g && includes ps p))
  some_rows_of k [] = ground arith
  some_rows_of k (x ∷ ps) = ground (arith, test k x, some_rows_of k ps)

  pub some_rows :
      (m : PermissionMap) (ks : List String)
      → some_of q (permission_rows row m ks) ≡ (b && (includes ks g && includes (m.at g) p))
  some_rows m [] = ground arith
  some_rows m (k ∷ ks) =
      some-append q (map (row k) (m.at k)) (permission_rows row m ks) ∙ elim (Bool-cases (k =ₛ g)) [
        | inl same ↦
            let at = ap (λ x. includes (m.at x) p) ((eq_iff k g).0 same) in
            ground (arith, some_rows_of k (m.at k), some_rows m ks, at, same)
        | inr other ↦ ground (arith, some_rows_of k (m.at k), some_rows m ks, other)
      ]

-- Rows that a map is written as.
pub All-append_both :
    (xs ys : List PermissionRow) → All IsPoint xs → All IsPoint ys → All IsPoint (xs ++ ys)
All-append_both [] ys h h' = h'
All-append_both (x ∷ xs) ys (p, h) h' = (p, All-append_both xs ys h h')

module _ (row : String → String → PermissionRow)
    (same : (k x : String) → (row k x).permission ≡ x) where
  rows_of-IsPoint :
      (k : String) (ps : List String)
      → every is_permission_point ps ≡ true
      → All IsPoint (map (row k) ps)
  rows_of-IsPoint k [] h = tt
  rows_of-IsPoint k (x ∷ ps) h =
      (ap is_permission_point (same k x) ∙ ground arith, rows_of-IsPoint k ps (ground arith))

  pub permission_rows-IsPoint :
      (m : PermissionMap) (ks : List String)
      → ((k : String) → every is_permission_point (m.at k) ≡ true)
      → All IsPoint (permission_rows row m ks)
  permission_rows-IsPoint m [] h = tt
  permission_rows-IsPoint m (k ∷ ks) h =
      All-append_both (map (row k) (m.at k)) (permission_rows row m ks)
        (rows_of-IsPoint k (m.at k) (h k)) (permission_rows-IsPoint m ks h)
