-- ===== src/Access/Groups/Created.antt =====
-- Creating a group.
use cherry_wiki.Base.{
  ◌+◌, String, Bool, true, false, ◌&&◌, ◌||◌, List, [], ◌∷◌, ◌++◌, map, ◌=ₛ◌, if◌then◌else◌, ◌≡◌,
  refl, ap, ◌∙◌, subst, arith,
}
use cherry_wiki.Base.Text.{includes}
use cherry_wiki.Base.Sets.{count, includes-count, includes-insert_all}
use cherry_wiki.Access.Groups.{
  MemberRow, Tables, ApiError, group_name_conflict, grant, refused, done, PermissionMap, empty_map,
  filled, normalize_permissions, normalize_id_list,
}
use cherry_wiki.Access.Groups.Service.{
  World, Context, space_changed, group_created, spaces_to_enqueue, record_each,
  replace_group_space_permissions, validate_users_exist, validate_spaces_exist,
}
use cherry_wiki.Access.Groups.Admin.{
  CreateGroupInput, grants_of, insert_group, insert_members, create_group,
}
use cherry_wiki.Access.Groups.Maps.{
  IsMapOf, is_requested, value, next-done, normalize_permissions-IsMapOf,
}
use cherry_wiki.Access.Groups.Stored.{holds}
use cherry_wiki.Access.Groups.SpaceRows.{version_of_space}
use cherry_wiki.Access.Groups.Versions.{plus, recorded_versions, recorded_rest}
use cherry_wiki.Access.Groups.Updated.{
  told, told-append, Rises, group_now_requested, group_elsewhere_kept,
}
use cherry_wiki.Access.Groups.Members.{is_member}
use cherry_wiki.Access.Groups.Deleted.{each_space_told, spaces_back}
use cherry_wiki.Access.Groups.Joined.{is_member-append, new_members}

module _ (c : Context) where
  -- After a group is created: it has the permissions and the members that are asked for, and each
  -- space where it has a permission has a new version and a message.
  pub record IsCreated (group : String) (input : CreateGroupInput) (w w' : World) : Type 0 where
    pub permissions_exact :
        (space p : String)
        → holds w'.tables.permissions c.tenant_id space group p
          ≡ is_requested input.space_permissions space p
    pub members_exact :
        (u : String)
        → is_member w'.tables.members c.tenant_id group u
          ≡ (is_member w.tables.members c.tenant_id group u || includes (filled input.member_ids) u)
    pub others_kept :
        (tenant space other p : String)
        → (c.tenant_id =ₛ tenant && group =ₛ other) ≡ false
        → holds w'.tables.permissions tenant space other p
          ≡ holds w.tables.permissions tenant space other p
    pub spaces_told :
        (space p : String)
        → is_requested input.space_permissions space p ≡ true
        → (told c.tenant_id space w'.published ≡ true)
          × Rises c space w.tables.spaces w'.tables.spaces

  -- Inserting the row of the group changes no other table.
  IsInserted : Tables → Tables → Type 0
  IsInserted db db' =
      (db'.permissions ≡ db.permissions) × (db'.members ≡ db.members) × (db'.spaces ≡ db.spaces)

  rows_unless :
      (b : Bool) (x : Tables) (err : ApiError) (db db' : Tables)
      → IsInserted db x
      → (if b then refused err else done x) ≡ done db'
      → IsInserted db db'
  rows_unless true x err db db' h e = absurd (cc)
  rows_unless false x err db db' h e = subst (IsInserted db) (ap (value db) e) h

  insert_group-IsInserted :
      (id : String) (input : CreateGroupInput) (db db' : Tables)
      → insert_group c id input db ≡ done db'
      → IsInserted db db'
  unfolding IsInserted
  insert_group-IsInserted id input db db' e =
      rows_unless _ _ group_name_conflict db db' (refl, refl, refl) e

  abbrev created : String → CreateGroupInput → PermissionMap → Tables → World → World
  created id input m db w = record w {
    tables =
        record_each c (λ change. grant) "group.create" (grants_of id m)
          (replace_group_space_permissions c id m
            (insert_members c id (normalize_id_list input.member_ids) db));
    published = w.published ++ map (space_changed c.tenant_id) m.keys;
    enqueued = w.enqueued ++ spaces_to_enqueue c m.keys;
    audits = w.audits ++ group_created id (normalize_id_list input.member_ids) m.keys ∷ [];
  }

  created-IsCreated :
      (id : String) (input : CreateGroupInput) (m : PermissionMap) (db : Tables) (w : World)
      → IsMapOf m (is_requested input.space_permissions)
      → IsInserted w.tables db
      → IsCreated id input w (created id input m db w)
  unfolding IsInserted Rises normalize_id_list
  created-IsCreated id input m db w h (permissions, members, spaces) =
      let ids = normalize_id_list input.member_ids in
      let filled_db = insert_members c id ids db in
      let base = replace_group_space_permissions c id m filled_db in
      let (same, same_members, _) =
        recorded_rest c (λ change. grant) "group.create" (grants_of id m) base in
      let new_rows : List MemberRow =
        map
          (λ u. record { tenant_id = c.tenant_id; group_id = id; user_id = u; created_at = c.now })
          ids in
      record {
        permissions_exact = λ space p.
            ap (λ l. holds l c.tenant_id space id p) same
            ∙ group_now_requested c id m input.space_permissions filled_db space p h;
        members_exact = λ u.
            ap (λ l. is_member l c.tenant_id id u) same_members
            ∙ (is_member-append db.members new_rows c.tenant_id id u
                ∙ (ap (λ l. is_member l c.tenant_id id u || is_member new_rows c.tenant_id id u)
                      members
                    ∙ ap (λ b. is_member w.tables.members c.tenant_id id u || b)
                        (new_members c id u ids
                          ∙ includes-insert_all (filled input.member_ids) [] u)));
        others_kept = λ tenant space other p apart.
            ap (λ l. holds l tenant space other p) same
            ∙ (group_elsewhere_kept c id m filled_db tenant space other p apart
                ∙ ap (λ l. holds l tenant space other p) permissions);
        spaces_told = λ space p asked.
            let listed = h.keyed space p (h.member space p ∙ asked) in
            let first =
              told-append c.tenant_id space w.published (map (space_changed c.tenant_id) m.keys) in
            let each = each_space_told c.tenant_id space m.keys in
            let changed = map (λ change. change.space_id) (grants_of id m) in
            let back : changed ≡ m.keys =
              spaces_back
                (λ k. record {
                  space_id = k;
                  group_id = id;
                  old_permissions = [];
                  new_permissions = m.at k;
                })
                m.keys (λ k. refl) in
            let known = ap (λ l. includes l space) back ∙ listed in
            (
              first ∙ ground (arith, each, listed),
              (λ n before. (
                n + count space changed,
                recorded_versions c (λ change. grant) "group.create" (grants_of id m) base space
                    ∙ ap (plus (count space changed))
                        (ap (version_of_space c space) spaces ∙ before),
                ground (arith, includes-count changed space, known),
              )),
            );
      }

-- If the creation of a group is not refused: the group has on each space exactly the permissions that the request asks for, the users that the request names are its members beside those that its id had before, other groups keep their permissions, and for each space where the group has a permission there is a message, and the space's permission version is higher, if the space has a row.
pub create_group-IsCreated :
    (c : Context) (id : String) (input : CreateGroupInput) (w w' : World)
    → create_group c id input w ≡ done w'
    → IsCreated c id input w w'
unfolding create_group
create_group-IsCreated c id input w w' e =
    let (m, em, e1) = next-done (normalize_permissions input.space_permissions empty_map) _ w' e in
    let (_, _, e2) =
      next-done (validate_users_exist c (normalize_id_list input.member_ids) w.tables) _ w' e1 in
    let (_, _, e3) = next-done (validate_spaces_exist c m.keys w.tables) _ w' e2 in
    let (db, ed, last) = next-done (insert_group c id input w.tables) _ w' e3 in
    subst (IsCreated c id input w) (ap (value w) last) (
      created-IsCreated c id input m db w
        (normalize_permissions-IsMapOf input.space_permissions m em)
        (insert_group-IsInserted c id input w.tables db ed))
