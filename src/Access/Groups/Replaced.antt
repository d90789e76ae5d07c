-- ===== src/Access/Groups/Replaced.antt =====
-- Replacing the permissions of a space.
use cherry_wiki.Base.{
  ℕ, suc, String, Bool, true, false, not, ◌&&◌, some, List, [], ◌∷◌, ◌++◌, keep, some_of, All, ◌=ₛ◌,
  ◌≡◌, refl, sym, ap, ◌∙◌, subst, ◌⊎◌, inl, inr,
}
use cherry_wiki.Access.Groups.{
  done, ApiError, space_not_found, PermissionMap, empty_map, PermissionInput, PermissionChange,
  of_space, permission_rows_from_group_map, normalize_permissions, get_space_permission_map,
  diff_space_group_permissions,
}
use cherry_wiki.Access.Groups.Service.{
  World, Context, space_changed, is_space_row, check, validate_space_exists, validate_groups_exist,
  increment_space_permission_version, announce_replaced, write_replaced, replace_space_permissions,
}
use cherry_wiki.Access.Groups.Maps.{
  IsMapOf, is_requested, value, next-done, normalize_permissions-IsMapOf,
}
use cherry_wiki.Access.Groups.Stored.{
  IsPoint, holds, keep-IsPoint, get_space_permission_map-IsMapOf,
}
use cherry_wiki.Access.Groups.Changes.{unchanged, All-append_both, permission_rows-IsPoint}
use cherry_wiki.Access.Groups.SpaceRows.{
  elsewhere_kept, incremented, now_requested, recorded_permissions, replaced_rows, version_of_space,
}

module _ (c : Context) where
  -- After a request to replace the permissions of a space: the groups hold what is asked for, and a
  -- change of that comes with a new version of the space and a message.
  pub record IsReplaced (space : String) (input : List PermissionInput) (w w' : World)
      : Type 0 where
    pub exact :
        (group p : String)
        → holds w'.tables.permissions c.tenant_id space group p ≡ is_requested input group p
    pub kept :
        (tenant other group p : String)
        → (c.tenant_id =ₛ tenant && space =ₛ other) ≡ false
        → holds w'.tables.permissions tenant other group p
          ≡ holds w.tables.permissions tenant other group p
    pub announced :
        (w' ≡ w)
        ⊎ ((n : ℕ) × (version_of_space c space w.tables.spaces ≡ some n)
            × (version_of_space c space w'.tables.spaces ≡ some (suc n))
            × (w'.published ≡ w.published ++ space_changed c.tenant_id space ∷ []))
    pub still_points : All IsPoint w'.tables.permissions

  written :
      (space : String) (input : List PermissionInput) (m current : PermissionMap)
      (diff : List PermissionChange) (w : World)
      → diff ≡ diff_space_group_permissions space current m
      → IsMapOf m (is_requested input)
      → IsMapOf current (holds w.tables.permissions c.tenant_id space)
      → All IsPoint w.tables.permissions
      → some_of (is_space_row c (space ∷ [])) w.tables.spaces ≡ true
      → IsReplaced space input w (
          announce_replaced c space diff
            (record w { tables = write_replaced c space m diff w.tables }))
  unfolding diff_space_group_permissions
  written space input m current [] w e h h' points there = record {
    exact =
        unchanged
          (λ k old new. record {
            space_id = space;
            group_id = k;
            old_permissions = old;
            new_permissions = new;
          })
          current m (holds w.tables.permissions c.tenant_id space) (is_requested input) h' h
          (sym e);
    kept = λ tenant other group p apart. refl;
    announced = inl refl;
    still_points = points;
  }
  written space input m current (change ∷ changes) w e h h' points there =
      let base = replaced_rows c space m w.tables in
      let reason : String = "space.permission.replace" in
      let (same, same') =
        recorded_permissions c reason (change ∷ changes)
          (increment_space_permission_version c space base) in
      let rows = base.permissions in
      record {
        exact = λ group p.
            ap (λ l. holds l c.tenant_id space group p) same
            ∙ now_requested c space m input w.tables group p h;
        kept = λ tenant other group p apart.
            ap (λ l. holds l tenant other group p) same
            ∙ elsewhere_kept c space m w.tables tenant other group p apart;
        announced =
            let (n, before, after) = incremented c space w.tables.spaces there in
            inr (n, before, ap (version_of_space c space) same' ∙ after, refl);
        still_points = subst (All IsPoint) (sym same) (
            All-append_both
              (keep (λ row. not (of_space c.tenant_id space row)) w.tables.permissions)
              (permission_rows_from_group_map c.tenant_id space c.now m)
              (keep-IsPoint (λ row. not (of_space c.tenant_id space row)) w.tables.permissions
                points)
              (permission_rows-IsPoint
                (λ k p. record {
                  tenant_id = c.tenant_id;
                  space_id = space;
                  group_id = k;
                  permission = p;
                  created_at = c.now;
                })
                (λ k x. refl) m m.keys h.points_at));
      }

  check_passed : (b : Bool) (e : ApiError) (u : Unit) → check c b e ≡ done u → b ≡ true
  check_passed true e u h = refl
  check_passed false e u h = absurd (cc)

-- If a request to replace the permissions of a space is not refused, and the permissions of the table are points: the groups hold on the space exactly what the request asks for, nothing changes on other spaces, and either nothing changes at all or the space's permission version goes up by one and the change is published.
pub replace_space_permissions-IsReplaced :
    (c : Context) (space : String) (input : List PermissionInput) (w w' : World)
    → All IsPoint w.tables.permissions
    → replace_space_permissions c space input w ≡ done w'
    → IsReplaced c space input w w'
unfolding replace_space_permissions
replace_space_permissions-IsReplaced c space input w w' points e =
    let (m, em, rest) = next-done (normalize_permissions input empty_map) _ w' e in
    let (_, there, rest') = next-done (validate_space_exists c space w.tables) _ w' rest in
    let (_, _, rest'') = next-done (validate_groups_exist c m.keys w.tables) _ w' rest' in
    let (current, ec, last) =
      next-done (get_space_permission_map c.tenant_id space w.tables.permissions) _ w' rest'' in
    subst (IsReplaced c space input w) (ap (value w) last) (
      written c space input m current (diff_space_group_permissions space current m) w refl
        (normalize_permissions-IsMapOf input m em)
        (get_space_permission_map-IsMapOf c.tenant_id space w.tables.permissions current points ec)
        points
        (check_passed c (some_of (is_space_row c (space ∷ [])) w.tables.spaces) space_not_found tt
          there))
