-- ===== src/Access/Groups/Deleted.antt =====
-- Deleting a group.
use cherry_wiki.Base.{
  ◌+◌, String, true, false, ◌&&◌, List, [], ◌∷◌, ◌++◌, map, length, All, ◌=ₛ◌, eq_refl,
  if◌then◌else◌, ◌≡◌, refl, ap, ◌∙◌, subst, arith,
}
use cherry_wiki.Base.Text.{includes}
use cherry_wiki.Base.Sets.{count, includes-count}
use cherry_wiki.Access.Groups.{
  group_deleted, done, PermissionMap, PermissionChange, get_group_space_permission_map,
}
use cherry_wiki.Access.Groups.Service.{
  World, Context, space_changed, user_changed, record_each, find_group, get_group_member_ids,
  increment_users_permission_version, spaces_to_enqueue, admin_group_deleted,
}
use cherry_wiki.Access.Groups.Admin.{revocations_of, delete_rows, delete_group}
use cherry_wiki.Access.Groups.Maps.{IsMapOf, value, next-done}
use cherry_wiki.Access.Groups.Stored.{IsPoint, holds, get_group_space_permission_map-IsMapOf}
use cherry_wiki.Access.Groups.Versions.{plus, recorded_versions, recorded_rest}
use cherry_wiki.Access.Groups.Updated.{told, told-append, Rises, group_cleared, group_of_other}
use cherry_wiki.Access.Groups.Members.{
  told_user, told_user-append, each_user_told, is_member, includes-get_group_member_ids,
  version_of_user, increment_user_version, members_cleared,
}

pub each_space_told :
    (tenant space : String) (ids : List String)
    → told tenant space (map (space_changed tenant) ids) ≡ includes ids space
each_space_told tenant space [] = refl
each_space_told tenant space (id ∷ ids) =
    ground (arith, each_space_told tenant space ids, eq_refl tenant)

no_user_told :
    (tenant user : String) (ids : List String)
    → told_user tenant user (map (space_changed tenant) ids) ≡ false
no_user_told tenant user [] = refl
no_user_told tenant user (id ∷ ids) = no_user_told tenant user ids

pub spaces_back :
    (f : String → PermissionChange) (ks : List String)
    → ((k : String) → (f k).space_id ≡ k)
    → map (λ change. change.space_id) (map f ks) ≡ ks
spaces_back f [] same = refl
spaces_back f (k ∷ ks) same =
    ap (λ x. x ∷ map (λ change. change.space_id) (map f ks)) (same k)
    ∙ ap (λ l. k ∷ l) (spaces_back f ks same)

module _ (c : Context) where
  -- After a group is deleted: nobody has a permission from it, nobody is its member, other groups keep
  -- their permissions, and what it concerned has new versions and messages.
  pub record IsDeleted (group : String) (w w' : World) : Type 0 where
    pub no_permission :
        (space p : String) → holds w'.tables.permissions c.tenant_id space group p ≡ false
    pub no_member : (user : String) → is_member w'.tables.members c.tenant_id group user ≡ false
    pub others_kept :
        (tenant space other p : String)
        → (c.tenant_id =ₛ tenant && group =ₛ other) ≡ false
        → holds w'.tables.permissions tenant space other p
          ≡ holds w.tables.permissions tenant space other p
    pub spaces_told :
        (space p : String)
        → holds w.tables.permissions c.tenant_id space group p ≡ true
        → (told c.tenant_id space w'.published ≡ true)
          × Rises c space w.tables.spaces w'.tables.spaces
    pub users_told :
        (user : String)
        → is_member w.tables.members c.tenant_id group user ≡ true
        → (told_user c.tenant_id user w'.published ≡ true)
          × (version_of_user c user w'.tables.users
              ≡ plus 1 (version_of_user c user w.tables.users))

  abbrev deleted : String → String → PermissionMap → World → World
  deleted group name m w =
      let ids = get_group_member_ids c group w.tables in
      record {
        tables =
            record_each c (λ change. group_deleted) "group.delete" (revocations_of group m)
              (increment_users_permission_version c ids (delete_rows c group w.tables));
        published =
            w.published
            ++ (map (space_changed c.tenant_id) m.keys ++ map (user_changed c.tenant_id) ids);
        enqueued = w.enqueued ++ spaces_to_enqueue c m.keys;
        audits = w.audits ++ admin_group_deleted group name (length ids) ∷ [];
      }

  deleted-IsDeleted :
      (group name : String) (m : PermissionMap) (w : World)
      → IsMapOf m (λ space. holds w.tables.permissions c.tenant_id space group)
      → IsDeleted group w (deleted group name m w)
  unfolding Rises
  deleted-IsDeleted group name m w h =
      let ids = get_group_member_ids c group w.tables in
      let base = increment_users_permission_version c ids (delete_rows c group w.tables) in
      let (same, same_members, same_users) =
        recorded_rest c (λ change. group_deleted) "group.delete" (revocations_of group m) base in
      let spaces = map (space_changed c.tenant_id) m.keys in
      let users = map (user_changed c.tenant_id) ids in
      record {
        no_permission = λ space p.
            ap (λ l. holds l c.tenant_id space group p) same
            ∙ group_cleared c w.tables.permissions group space p;
        no_member = λ user.
            ap (λ l. is_member l c.tenant_id group user) same_members
            ∙ members_cleared c w.tables.members group user;
        others_kept = λ tenant space other p apart.
            ap (λ l. holds l tenant space other p) same
            ∙ group_of_other c w.tables.permissions group tenant space other p apart;
        spaces_told = λ space p had.
            let listed = h.keyed space p (h.member space p ∙ had) in
            let first = told-append c.tenant_id space w.published (spaces ++ users) in
            let second = told-append c.tenant_id space spaces users in
            let each = each_space_told c.tenant_id space m.keys in
            let changed = map (λ change. change.space_id) (revocations_of group m) in
            let back : changed ≡ m.keys =
              spaces_back
                (λ k. record {
                  space_id = k;
                  group_id = group;
                  old_permissions = m.at k;
                  new_permissions = [];
                })
                m.keys (λ k. refl) in
            let known = ap (λ l. includes l space) back ∙ listed in
            (
              first ∙ ground (arith, second, each, listed),
              (λ n before. (
                n + count space changed,
                recorded_versions c (λ change. group_deleted) "group.delete"
                      (revocations_of group m) base space
                    ∙ ap (plus (count space changed)) before,
                ground (arith, includes-count changed space, known),
              )),
            );
        users_told = λ user had.
            let listed = includes-get_group_member_ids c group user w.tables ∙ had in
            let first = told_user-append c.tenant_id user w.published (spaces ++ users) in
            let second = told_user-append c.tenant_id user spaces users in
            let each = each_user_told c.tenant_id user ids in
            (
              first ∙ ground (arith, second, each, listed),
              ap (version_of_user c user) same_users
                  ∙ (increment_user_version c ids user w.tables.users
                      ∙ ap (λ b. plus (if b then 1 else 0) (version_of_user c user w.tables.users))
                          listed),
            );
      }

-- If the deletion of a group is not refused, and the permissions of the table are points: afterwards the group gives no permission and has no member, other groups keep their permissions, for each space on which it had a permission and for each of its members there is a message, and the space's permission version is higher, the member's higher by one, if it has a row.
pub delete_group-IsDeleted :
    (c : Context) (group : String) (w w' : World)
    → All IsPoint w.tables.permissions
    → delete_group c group w ≡ done w'
    → IsDeleted c group w w'
unfolding delete_group
delete_group-IsDeleted c group w w' points e =
    let (existing, _, e1) = next-done (find_group c group w.tables.groups) _ w' e in
    let (m, em, last) =
      next-done (get_group_space_permission_map c.tenant_id group w.tables.permissions) _ w' e1 in
    subst (IsDeleted c group w) (ap (value w) last) (
      deleted-IsDeleted c group existing.name m w
        (get_group_space_permission_map-IsMapOf c.tenant_id group w.tables.permissions m points em))
