-- ===== src/Access/Groups/Stored.antt =====
-- The maps of permissions that the table of permissions comes to.
use cherry_wiki.Base.{
  String, Bool, true, false, ◌&&◌, ◌||◌, List, [], ◌∷◌, ◌++◌, keep, some_of, All, ◌=ₛ◌, eq_iff,
  if◌then◌else◌, ◌≡◌, refl, sym, ap, ◌∙◌, subst, arith, Bool-cases, inl, inr,
}
use cherry_wiki.Base.Text.{includes}
use cherry_wiki.Base.Sets.{includes-insert}
use cherry_wiki.Access.Roles.{is_permission_point}
use cherry_wiki.Access.Groups.{
  PermissionRow, done, PermissionMap, empty_map, put, filled, map_from, normalize_keys, of_space,
  of_group, normalize_permission_list, normalize_permission_map, get_space_permission_map,
  get_group_space_permission_map,
}
use cherry_wiki.Access.Groups.Maps.{
  IsMapOf, value, every_from, filled_same, includes-append, IsMapOf-same, empty_map-IsMapOf,
  put-IsMapOf, next-done, normalize_permission_list-IsNormal,
}

module _ (key : PermissionRow → String) where
  abbrev has_row : List PermissionRow → String → String → Bool
  has_row rows k p = some_of (λ row. key row =ₛ k && row.permission =ₛ p) rows

  map_from_at :
      (rows : List PermissionRow) (m : PermissionMap) (k p : String)
      → includes ((map_from key rows m).at k) p ≡ (includes (m.at k) p || has_row rows k p)
  map_from_at [] m k p = ground arith
  map_from_at (row ∷ rows) m k p =
      let m' = put (key row) (m.at (key row) ++ row.permission ∷ []) m in
      map_from_at rows m' k p ∙ elim (Bool-cases (key row =ₛ k)) [
        | inl same ↦
            let at = ap (λ x. includes (m.at x) p) ((eq_iff (key row) k).0 same) in
            let more = includes-append (m.at (key row)) (row.permission ∷ []) p in
            rw (same, if◌then◌else◌) (ground (arith, at, more, same))
        | inr other ↦ rw (other, if◌then◌else◌) (ground (arith, other))
      ]

  map_from_keys :
      (rows : List PermissionRow) (m : PermissionMap) (k p : String)
      → includes (map_from key rows m).keys k
        ≡ (includes m.keys k || some_of (λ row. key row =ₛ k) rows)
  map_from_keys [] m k p = ground arith
  map_from_keys (row ∷ rows) m k p =
      map_from_keys rows (put (key row) (m.at (key row) ++ row.permission ∷ []) m) k p
      ∙ ground (arith, includes-insert (key row) k m.keys)

  without_key :
      (rows : List PermissionRow) (k p : String)
      → some_of (λ row. key row =ₛ k) rows ≡ false
      → has_row rows k p ≡ false
  without_key [] k p e = refl
  without_key (row ∷ rows) k p e = ground (arith, without_key rows k p)

-- Normalizing the map of a query.
normalize_keys_from :
    (ks : List String) (at : String → List String) (m r : PermissionMap)
    (has : String → String → Bool)
    → IsMapOf m has
    → normalize_keys ks at m ≡ done r
    → IsMapOf r (λ k p. if includes ks k then includes (filled (at k)) p else has k p)
normalize_keys_from [] at m r has h e = subst (λ x. IsMapOf x has) (ap (value m) e) h
normalize_keys_from (j ∷ ks) at m r has h e =
    let (v, ev, rest) =
      next-done (normalize_permission_list (at j)) (λ v. normalize_keys ks at (put j v m)) r e in
    let n = normalize_permission_list-IsNormal (at j) v ev in
    IsMapOf-same r
      (λ k p.
        if includes ks k
        then includes (filled (at k)) p
        else if j =ₛ k
        then includes (filled (at j)) p
        else has k p)
      (λ k p. if includes (j ∷ ks) k then includes (filled (at k)) p else has k p)
      (λ k p. elim (Bool-cases (j =ₛ k)) [
        | inl same ↦
            let here = ap (λ x. includes (filled (at x)) p) ((eq_iff j k).0 same) in
            ground (arith, here, same)
        | inr other ↦ ground (arith, other)
      ])
      (normalize_keys_from ks at (put j v m) r
        (λ k p. if j =ₛ k then includes (filled (at j)) p else has k p)
        (put-IsMapOf m has j (at j) v h n) rest)

-- Every permission of the table is one of the points.
abbrev pub IsPoint : PermissionRow → Type 0
IsPoint row = is_permission_point row.permission ≡ true

some-All :
    (q : PermissionRow → Bool) (p : String) (rows : List PermissionRow)
    → ((row : PermissionRow) → q row ≡ true → row.permission ≡ p)
    → All IsPoint rows
    → some_of q rows ≡ true
    → is_permission_point p ≡ true
some-All q p [] f h e = absurd (cc)
some-All q p (row ∷ rows) f (here, h) e = elim (Bool-cases (q row)) [
  | inl found ↦ sym (ap is_permission_point (f row found)) ∙ here
  | inr other ↦ some-All q p rows f h (ground arith)
]

-- The map of the rows of a query, when their permissions are points.
rows_read-IsMapOf :
    (key : PermissionRow → String) (rows : List PermissionRow) (r : PermissionMap)
    → All IsPoint rows
    → normalize_permission_map (map_from key rows empty_map) ≡ done r
    → IsMapOf r (has_row key rows)
unfolding normalize_permission_map
rows_read-IsMapOf key rows r h e =
    let raw = map_from key rows empty_map in
    IsMapOf-same r (λ k p. if includes raw.keys k then includes (filled (raw.at k)) p else false)
      (has_row key rows)
      (λ k p.
        let at = map_from_at key rows empty_map in
        let all_points = every_from is_permission_point (raw.at k) (λ x there.
          some-All (λ row. key row =ₛ k && row.permission =ₛ x) x rows
            (λ row found. (eq_iff row.permission x).0 (ground arith)) h (sym (at k x) ∙ there)) in
        elim (Bool-cases (includes raw.keys k)) [
          | inl known ↦
              rw (known, if◌then◌else◌)
                (ap (λ l. includes l p) (filled_same (raw.at k) all_points) ∙ at k p)
          | inr new ↦
              rw (new, if◌then◌else◌)
                (sym (without_key key rows k p (sym (map_from_keys key rows empty_map k p) ∙ new)))
        ])
      (normalize_keys_from raw.keys raw.at empty_map r (λ k p. false) empty_map-IsMapOf e)

-- The table has the permission for the group on the space.
unfoldable pub holds : List PermissionRow → String → String → String → String → Bool
holds rows tenant space group p =
    some_of (λ row. of_space tenant space row && (row.group_id =ₛ group && row.permission =ₛ p))
      rows

pub some-keep :
    (q f : PermissionRow → Bool) (rows : List PermissionRow)
    → some_of q (keep f rows) ≡ some_of (λ row. f row && q row) rows
some-keep q f [] = refl
some-keep q f (row ∷ rows) = ground (arith, some-keep q f rows)

pub keep-IsPoint :
    (f : PermissionRow → Bool) (rows : List PermissionRow)
    → All IsPoint rows
    → All IsPoint (keep f rows)
keep-IsPoint f [] h = tt
keep-IsPoint f (row ∷ rows) (p, h) = elim (Bool-cases (f row)) [
  | inl in_it ↦ rw (in_it, if◌then◌else◌) (p, keep-IsPoint f rows h)
  | inr out ↦ rw (out, if◌then◌else◌) (keep-IsPoint f rows h)
]

pub get_space_permission_map-IsMapOf :
    (tenant space : String) (rows : List PermissionRow) (r : PermissionMap)
    → All IsPoint rows
    → get_space_permission_map tenant space rows ≡ done r
    → IsMapOf r (holds rows tenant space)
unfolding get_space_permission_map holds
get_space_permission_map-IsMapOf tenant space rows r h e =
    IsMapOf-same r (has_row (λ row. row.group_id) (keep (of_space tenant space) rows))
      (holds rows tenant space)
      (λ k p.
        some-keep (λ row. row.group_id =ₛ k && row.permission =ₛ p) (of_space tenant space) rows)
      (rows_read-IsMapOf (λ row. row.group_id) (keep (of_space tenant space) rows) r
        (keep-IsPoint (of_space tenant space) rows h) e)

some_same :
    (rows : List PermissionRow) (tenant space group p : String)
    → some_of
        (λ row. of_group tenant group row && (row.space_id =ₛ space && row.permission =ₛ p))
        rows
      ≡ some_of
          (λ row. of_space tenant space row && (row.group_id =ₛ group && row.permission =ₛ p))
          rows
some_same [] tenant space group p = refl
some_same (row ∷ rows) tenant space group p = ground (arith, some_same rows tenant space group p)

pub get_group_space_permission_map-IsMapOf :
    (tenant group : String) (rows : List PermissionRow) (r : PermissionMap)
    → All IsPoint rows
    → get_group_space_permission_map tenant group rows ≡ done r
    → IsMapOf r (λ space. holds rows tenant space group)
unfolding get_group_space_permission_map holds
get_group_space_permission_map-IsMapOf tenant group rows r h e =
    IsMapOf-same r (has_row (λ row. row.space_id) (keep (of_group tenant group) rows))
      (λ space. holds rows tenant space group)
      (λ k p.
        some-keep (λ row. row.space_id =ₛ k && row.permission =ₛ p) (of_group tenant group) rows
        ∙ some_same rows tenant k group p)
      (rows_read-IsMapOf (λ row. row.space_id) (keep (of_group tenant group) rows) r
        (keep-IsPoint (of_group tenant group) rows h) e)
