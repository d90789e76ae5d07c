-- ===== src/Access/Groups/Announced.antt =====
-- The steps of updateGroup together.
use cherry_wiki.Base.{
  ◌+◌, String, Bool, true, false, not, Option, none, some, List, [], ◌∷◌, ◌++◌, map, keep, All,
  if◌then◌else◌, ◌≡◌, refl, sym, ap, ◌∙◌, subst, arith, Bool-cases, inl, inr,
}
use cherry_wiki.Base.Text.{includes}
use cherry_wiki.Base.Sets.{count, includes-count}
use cherry_wiki.Access.Groups.{
  GroupRow, Tables, refused, done, ApiError, group_name_conflict, PermissionMap, PermissionInput,
  PermissionChange, MemberChange, of_group, permission_rows_from_space_map, empty_map,
  normalize_permissions, normalize_id_list, get_group_space_permission_map,
  get_permission_change_type, diff_group_space_permissions, diff_members,
}
use cherry_wiki.Access.Groups.Service.{
  World, Context, space_changed, user_changed, replace_group_space_permissions, find_group,
  get_group_member_ids, validate_users_exist, validate_spaces_exist,
}
use cherry_wiki.Access.Groups.Admin.{
  UpdateGroupInput, Updated, changed_user, write_permissions, write_members, announce_updated,
  update_permissions, update_members, update_values, normalize_option, option_ids, option_keys,
  update_group,
}
use cherry_wiki.Access.Groups.Maps.{
  IsMapOf, is_requested, value, next-done, normalize_permissions-IsMapOf,
}
use cherry_wiki.Access.Groups.Stored.{
  IsPoint, holds, keep-IsPoint, get_group_space_permission_map-IsMapOf,
}
use cherry_wiki.Access.Groups.Changes.{All-append_both, permission_rows-IsPoint, unchanged}
use cherry_wiki.Access.Groups.Versions.{plus, unlisted, recorded_versions, recorded_rest}
use cherry_wiki.Access.Groups.Updated.{
  told, told-append, told_each, Rises, IsUpdated, group_now_requested, group_elsewhere_kept,
}

abbrev wanted_items : List PermissionInput → Option (List PermissionInput) → List PermissionInput
wanted_items items none = items
wanted_items items (some other) = other

module _ (c : Context) where
  announced_space :
      (w : World) (group space : String) (u : Updated)
      → includes (map (λ change. change.space_id) u.permission_changes) space ≡ true
      → told c.tenant_id space (announce_updated c group w u).published ≡ true
  announced_space w group space u listed =
      let users = map (λ change. user_changed c.tenant_id (changed_user change)) u.member_changes in
      let spaces = map (λ change. space_changed c.tenant_id change.space_id) u.permission_changes in
      let first = told-append c.tenant_id space w.published (users ++ spaces) in
      let second = told-append c.tenant_id space users spaces in
      let each = told_each c.tenant_id space u.permission_changes in
      first ∙ ground (arith, second, each, listed)

  written_permissions :
      (group : String) (items : List PermissionInput) (m current : PermissionMap)
      (diff : List PermissionChange) (w : World) (u : Updated)
      → diff ≡ diff_group_space_permissions group current m
      → IsMapOf m (is_requested items)
      → IsMapOf current (λ space. holds u.tables.permissions c.tenant_id space group)
      → All IsPoint u.tables.permissions
      → let u' = write_permissions c group m diff u in
        IsUpdated c group
          (some items)
          u.tables.permissions
          u'.tables.permissions
          u.tables.spaces
          u'.tables.spaces
          (announce_updated c group w u').published
  unfolding diff_group_space_permissions Rises
  written_permissions group items m current [] w u e h h' points = record {
    exact = λ items' e' space p.
        unchanged
          (λ k old new. record {
            space_id = k;
            group_id = group;
            old_permissions = old;
            new_permissions = new;
          })
          current m (λ s. holds u.tables.permissions c.tenant_id s group) (is_requested items) h' h
          (sym e) space p
        ∙ ap (λ l. is_requested l space p) (ap (wanted_items items) e');
    kept = λ tenant space other p apart. refl;
    announced = λ space. inl (λ p. refl);
    still_points = points;
  }
  written_permissions group items m current (change ∷ changes) w u e h h' points =
      let base = replace_group_space_permissions c group m u.tables in
      let (same, _, _) =
        recorded_rest c get_permission_change_type "group.update" (change ∷ changes) base in
      let now = λ (space : String) (p : String).
        ap (λ l. holds l c.tenant_id space group p) same
        ∙ group_now_requested c group m items u.tables space p h in
      record {
        exact = λ items' e' space p.
            now space p ∙ ap (λ l. is_requested l space p) (ap (wanted_items items) e');
        kept = λ tenant space other p apart.
            ap (λ l. holds l tenant space other p) same
            ∙ group_elsewhere_kept c group m u.tables tenant space other p apart;
        announced = λ space.
            elim (Bool-cases (includes (map (λ ch. ch.space_id) (change ∷ changes)) space)) [
              | inl listed ↦ inr (
                announced_space w group space (write_permissions c group m (change ∷ changes) u)
                    listed,
                (λ n before. (
                  n + count space (map (λ ch. ch.space_id) (change ∷ changes)),
                  recorded_versions c get_permission_change_type "group.update" (change ∷ changes)
                        base space
                      ∙ ap (plus (count space (map (λ ch. ch.space_id) (change ∷ changes)))) before,
                  ground (
                    arith,
                    includes-count (map (λ ch. ch.space_id) (change ∷ changes)) space,
                    listed,
                  ),
                )),
              )
              | inr unlisted_there ↦ inl (λ p.
                  now space p
                  ∙ sym (
                      unlisted
                        (λ k old new. record {
                          space_id = k;
                          group_id = group;
                          old_permissions = old;
                          new_permissions = new;
                        })
                        (λ ch. ch.space_id) (λ k old new. refl) current m
                        (λ s. holds u.tables.permissions c.tenant_id s group) (is_requested items)
                        h' h space
                        (sym (ap (λ l. includes (map (λ ch. ch.space_id) l) space) e)
                          ∙ unlisted_there)
                        p))
            ];
        still_points = subst (All IsPoint) (sym same) (
            All-append_both
              (keep (λ row. not (of_group c.tenant_id group row)) u.tables.permissions)
              (permission_rows_from_space_map c.tenant_id group c.now m)
              (keep-IsPoint (λ row. not (of_group c.tenant_id group row)) u.tables.permissions
                points)
              (permission_rows-IsPoint
                (λ k p. record {
                  tenant_id = c.tenant_id;
                  space_id = k;
                  group_id = group;
                  permission = p;
                  created_at = c.now;
                })
                (λ k x. refl) m m.keys h.points_at));
      }

  permissions_step :
      (group : String) (wanted : Option (List PermissionInput)) (m : Option PermissionMap)
      (w : World) (u u' : Updated)
      → All IsPoint u.tables.permissions
      → normalize_option c wanted ≡ done m
      → update_permissions c group m u ≡ done u'
      → IsUpdated c group wanted u.tables.permissions u'.tables.permissions u.tables.spaces
          u'.tables.spaces
          (announce_updated c group w u').published
  permissions_step group none m w u u' points em eu =
      let same : done u ≡ done u' =
        ap (λ o. update_permissions c group o u) (ap (value m) em) ∙ eu in
      subst
        (λ x.
          IsUpdated c group none u.tables.permissions x.tables.permissions u.tables.spaces
            x.tables.spaces (announce_updated c group w x).published)
        (ap (value u) same)
        (record {
          exact = λ items e space p. absurd (cc);
          kept = λ tenant space other p apart. refl;
          announced = λ space. inl (λ p. refl);
          still_points = points;
        })
  permissions_step group (some items) m w u u' points em eu =
      let (m', em', rest) =
        next-done (normalize_permissions items empty_map) (λ x. done (some x)) m em in
      let eu' = ap (λ o. update_permissions c group o u) (ap (value m) rest) ∙ eu in
      let (current, ec, last) =
        next-done (get_group_space_permission_map c.tenant_id group u.tables.permissions) _ u'
          eu' in
      subst
        (λ x.
          IsUpdated c group (some items) u.tables.permissions x.tables.permissions u.tables.spaces
            x.tables.spaces (announce_updated c group w x).published)
        (ap (value u) last)
        (written_permissions group items m' current (diff_group_space_permissions group current m')
          w u refl (normalize_permissions-IsMapOf items m' em')
          (get_group_space_permission_map-IsMapOf c.tenant_id group u.tables.permissions current
            points ec)
          points)

  -- The tables of permissions and of spaces are the same.
  AreKept : Tables → Tables → Type 0
  AreKept db db' = (db'.permissions ≡ db.permissions) × (db'.spaces ≡ db.spaces)

  kept_unless :
      (b : Bool) (x : Tables) (err : ApiError) (db db' : Tables)
      → AreKept db x
      → (if b then refused err else done x) ≡ done db'
      → AreKept db db'
  kept_unless true x err db db' h e = absurd (cc)
  kept_unless false x err db db' h e = subst (AreKept db) (ap (value db) e) h

  values_kept :
      (id : String) (input : UpdateGroupInput) (existing : GroupRow) (db db' : Tables)
      → update_values c id input existing db ≡ done db'
      → AreKept db db'
  unfolding AreKept
  values_kept id input existing db db' e = kept_unless _ _ group_name_conflict db db' (refl, refl) e

  members_kept :
      (group : String) (ids : List String) (changes : List MemberChange) (u u' : Updated)
      → write_members c group ids changes u ≡ done u'
      → AreKept u.tables u'.tables
  unfolding AreKept
  members_kept group ids [] u u' e =
      subst (λ x. AreKept u.tables x.tables) (ap (value u) e) (refl, refl)
  members_kept group ids (change ∷ changes) u u' e =
      let (m, _, last) =
        next-done (get_group_space_permission_map c.tenant_id group u.tables.permissions) _ u' e in
      subst (λ x. AreKept u.tables x.tables) (ap (value u) last) (refl, refl)

  members_step :
      (group : String) (ids : Option (List String)) (u u' : Updated)
      → update_members c group ids u ≡ done u'
      → AreKept u.tables u'.tables
  unfolding AreKept
  members_step group none u u' e =
      subst (λ x. AreKept u.tables x.tables) (ap (value u) e) (refl, refl)
  members_step group (some ids) u u' e =
      members_kept group (normalize_id_list ids)
        (diff_members (get_group_member_ids c group u.tables) (normalize_id_list ids)) u u' e

-- If an update of a group is not refused, and the permissions of the table are points: the group has on each space exactly the permissions that the request asks for, if it names any; other groups keep theirs; and for each space where those of the group change, a message tells it and the space's permission version goes up, if the space has a row.
pub update_group-IsUpdated :
    (c : Context) (group : String) (input : UpdateGroupInput) (w w' : World)
    → All IsPoint w.tables.permissions
    → update_group c group input w ≡ done w'
    → IsUpdated c group input.space_permissions w.tables.permissions w'.tables.permissions
        w.tables.spaces w'.tables.spaces w'.published
unfolding update_group AreKept
update_group-IsUpdated c group input w w' points e =
    let (existing, _, e1) = next-done (find_group c group w.tables.groups) _ w' e in
    let (m, em, e2) = next-done (normalize_option c input.space_permissions) _ w' e1 in
    let (_, _, e3) =
      next-done (validate_users_exist c (option_ids c input.member_ids) w.tables) _ w' e2 in
    let (_, _, e4) = next-done (validate_spaces_exist c (option_keys c m) w.tables) _ w' e3 in
    let (db, ed, e5) = next-done (update_values c group input existing w.tables) _ w' e4 in
    let start : Updated = record {
      tables = db;
      member_changes = [];
      affected_spaces = [];
      permission_changes = [];
    } in
    let (u, eu, e6) = next-done (update_members c group input.member_ids start) _ w' e5 in
    let (u', eu', e7) = next-done (update_permissions c group m u) _ w' e6 in
    let (p1, s1) = values_kept c group input existing w.tables db ed in
    let (p2, s2) = members_step c group input.member_ids start u eu in
    let after =
      permissions_step c group input.space_permissions m w u u'
        (subst (All IsPoint) (sym (p2 ∙ p1)) points) em eu' in
    let after' =
      subst
        (λ l.
          IsUpdated c group input.space_permissions l u'.tables.permissions u.tables.spaces
            u'.tables.spaces (announce_updated c group w u').published)
        (p2 ∙ p1) after in
    let after'' =
      subst
        (λ l.
          IsUpdated c group input.space_permissions w.tables.permissions u'.tables.permissions l
            u'.tables.spaces (announce_updated c group w u').published)
        (s2 ∙ s1) after' in
    subst
      (λ x.
        IsUpdated c group input.space_permissions w.tables.permissions x.tables.permissions
          w.tables.spaces x.tables.spaces x.published)
      (ap (value w) e7) after''
