-- ===== src/Access/Groups/Membership.antt =====
-- The steps of an update together, as far as the members are concerned.
use cherry_wiki.Base.{
  String, Bool, true, false, Option, none, some, List, [], ◌∷◌, ◌++◌, map, if◌then◌else◌, ◌≡◌, refl,
  ap, ◌∙◌, subst, arith, Bool-cases, ◌⊎◌, inl, inr,
}
use cherry_wiki.Base.Text.{includes}
use cherry_wiki.Base.Sets.{includes-insert_all}
use cherry_wiki.Access.Groups.{
  GroupRow, Tables, ApiError, group_name_conflict, refused, done, PermissionMap, PermissionChange,
  MemberChange, diff_members, filled, get_group_space_permission_map, normalize_id_list,
  get_permission_change_type, diff_group_space_permissions,
}
use cherry_wiki.Access.Groups.Service.{
  World, Context, space_changed, user_changed, find_group, get_group_member_ids,
  replace_group_space_permissions, validate_users_exist, validate_spaces_exist,
}
use cherry_wiki.Access.Groups.Admin.{
  UpdateGroupInput, Updated, changed_user, write_permissions, write_members, announce_updated,
  update_permissions, update_members, update_values, normalize_option, option_ids, option_keys,
  update_group,
}
use cherry_wiki.Access.Groups.Maps.{value, next-done}
use cherry_wiki.Access.Groups.Versions.{plus, recorded_rest}
use cherry_wiki.Access.Groups.Members.{
  told_user, told_user-append, is_member, includes-get_group_member_ids, version_of_user,
  increment_user_version,
}
use cherry_wiki.Access.Groups.Joined.{HasMembers, diff_members_lem, told_changed, members_replaced}

module _ (c : Context) where
  -- What the step of the members leaves.
  record AreDone (group : String) (wanted : Option (List String)) (db : Tables) (u : Updated)
      : Type 0 where
    as_wanted :
        (ids : List String)
        → wanted ≡ some ids
        → (v : String) → is_member u.tables.members c.tenant_id group v ≡ includes (filled ids) v
    changed_users :
        (v : String)
        → (is_member u.tables.members c.tenant_id group v
            ≡ is_member db.members c.tenant_id group v)
          ⊎ ((includes (map changed_user u.member_changes) v ≡ true)
              × (version_of_user c v u.tables.users ≡ plus 1 (version_of_user c v db.users)))

  normal_ids :
      (ids : List String) (v : String)
      → includes (normalize_id_list ids) v ≡ includes (filled ids) v
  unfolding normalize_id_list
  normal_ids ids v = includes-insert_all (filled ids) [] v

  abbrev ids_or : List String → Option (List String) → List String
  ids_or ids none = ids
  ids_or ids (some other) = other

  members_written :
      (group : String) (ids : List String) (diff : List MemberChange) (u u' : Updated)
      → diff ≡ diff_members (get_group_member_ids c group u.tables) (normalize_id_list ids)
      → write_members c group (normalize_id_list ids) diff u ≡ done u'
      → AreDone group (some ids) u.tables u'
  members_written group ids [] u u' d e =
      subst (AreDone group (some ids) u.tables) (ap (value u) e) (record {
        as_wanted = λ other o v.
            let listed =
              ap (λ l. includes (map changed_user l) v) d
              ∙ diff_members_lem (get_group_member_ids c group u.tables) (normalize_id_list ids)
                  v in
            let now = includes-get_group_member_ids c group v u.tables in
            let asked = normal_ids ids v in
            let same : is_member u.tables.members c.tenant_id group v ≡ includes (filled ids) v =
              ground (arith, listed, now, asked) in
            same ∙ ap (λ l. includes (filled l) v) (ap (ids_or ids) o);
        changed_users = λ v. inl refl;
      })
  members_written group ids (change ∷ changes) u u' d e =
      let (m, _, last) =
        next-done (get_group_space_permission_map c.tenant_id group u.tables.permissions) _ u' e in
      subst (AreDone group (some ids) u.tables) (ap (value u) last) (record {
        as_wanted = λ other o v.
            members_replaced c group v (normalize_id_list ids) u.tables
            ∙ (normal_ids ids v ∙ ap (λ l. includes (filled l) v) (ap (ids_or ids) o));
        changed_users = λ v.
            let listed =
              ap (λ l. includes (map changed_user l) v) d
              ∙ diff_members_lem (get_group_member_ids c group u.tables) (normalize_id_list ids)
                  v in
            let before = includes-get_group_member_ids c group v u.tables in
            let after = members_replaced c group v (normalize_id_list ids) u.tables in
            elim (Bool-cases (includes (map changed_user (change ∷ changes)) v)) [
              | inl concerned ↦ inr (
                concerned,
                increment_user_version c (map changed_user (change ∷ changes)) v u.tables.users
                    ∙ ap (λ b. plus (if b then 1 else 0) (version_of_user c v u.tables.users))
                        concerned,
              )
              | inr other ↦ inl (after ∙ ground (arith, listed, before, other))
            ];
      })

  members_done :
      (group : String) (wanted : Option (List String)) (u u' : Updated)
      → update_members c group wanted u ≡ done u'
      → AreDone group wanted u.tables u'
  members_done group none u u' e =
      subst (AreDone group none u.tables) (ap (value u) e)
        (record { as_wanted = λ ids o v. absurd (cc); changed_users = λ v. inl refl })
  members_done group (some ids) u u' e =
      members_written group ids
        (diff_members (get_group_member_ids c group u.tables) (normalize_id_list ids)) u u' refl e

  -- The step of the permissions leaves the members and the users alone.
  AreLeft : Updated → Updated → Type 0
  AreLeft u u' =
      (u'.tables.members ≡ u.tables.members)
      × (u'.tables.users ≡ u.tables.users)
      × (u'.member_changes ≡ u.member_changes)

  written-AreLeft :
      (group : String) (m : PermissionMap) (diff : List PermissionChange) (u : Updated)
      → AreLeft u (write_permissions c group m diff u)
  unfolding AreLeft
  written-AreLeft group m [] u = (refl, refl, refl)
  written-AreLeft group m (change ∷ changes) u =
      let (_, members, users) =
        recorded_rest c get_permission_change_type "group.update" (change ∷ changes)
          (replace_group_space_permissions c group m u.tables) in
      (members, users, refl)

  permissions-AreLeft :
      (group : String) (m : Option PermissionMap) (u u' : Updated)
      → update_permissions c group m u ≡ done u'
      → AreLeft u u'
  unfolding AreLeft
  permissions-AreLeft group none u u' e = subst (AreLeft u) (ap (value u) e) (refl, refl, refl)
  permissions-AreLeft group (some m) u u' e =
      let (current, _, last) =
        next-done (get_group_space_permission_map c.tenant_id group u.tables.permissions) _ u' e in
      subst (AreLeft u) (ap (value u) last)
        (written-AreLeft group m (diff_group_space_permissions group current m) u)

  SamePeople : Tables → Tables → Type 0
  SamePeople db db' = (db'.members ≡ db.members) × (db'.users ≡ db.users)

  people_unless :
      (b : Bool) (x : Tables) (err : ApiError) (db db' : Tables)
      → SamePeople db x
      → (if b then refused err else done x) ≡ done db'
      → SamePeople db db'
  people_unless true x err db db' h e = absurd (cc)
  people_unless false x err db db' h e = subst (SamePeople db) (ap (value db) e) h

  values-SamePeople :
      (id : String) (input : UpdateGroupInput) (existing : GroupRow) (db db' : Tables)
      → update_values c id input existing db ≡ done db'
      → SamePeople db db'
  unfolding SamePeople
  values-SamePeople id input existing db db' e =
      people_unless _ _ group_name_conflict db db' (refl, refl) e

  announced_user :
      (w : World) (group user : String) (u : Updated)
      → includes (map changed_user u.member_changes) user ≡ true
      → told_user c.tenant_id user (announce_updated c group w u).published ≡ true
  announced_user w group user u listed =
      let users = map (λ change. user_changed c.tenant_id (changed_user change)) u.member_changes in
      let spaces = map (λ change. space_changed c.tenant_id change.space_id) u.permission_changes in
      let first = told_user-append c.tenant_id user w.published (users ++ spaces) in
      let second = told_user-append c.tenant_id user users spaces in
      let each = told_changed c.tenant_id user u.member_changes in
      first ∙ ground (arith, second, each, listed)

  -- A change that one step makes is the change that all steps make.
  put_together :
      (group : String) (wanted : Option (List String)) (w : World) (db : Tables) (u u' : Updated)
      → SamePeople w.tables db
      → AreDone group wanted db u
      → AreLeft u u'
      → HasMembers c group wanted w.tables.members u'.tables.members w.tables.users u'.tables.users
          (announce_updated c group w u').published
  unfolding SamePeople AreLeft
  put_together group wanted w db u u' (members0, users0) h (members, users, changes) = record {
    members_exact =
        λ ids e v. ap (λ l. is_member l c.tenant_id group v) members ∙ h.as_wanted ids e v;
    users_told = λ v. elim (h.changed_users v) [
      | inl same ↦ inl (
          ap (λ l. is_member l c.tenant_id group v) members
          ∙ (same ∙ ap (λ l. is_member l c.tenant_id group v) members0))
      | inr (concerned, version) ↦ inr (
        announced_user w group v u' (ap (λ l. includes (map changed_user l) v) changes ∙ concerned),
        ap (version_of_user c v) users
            ∙ (version ∙ ap (λ l. plus 1 (version_of_user c v l)) users0),
      )
    ];
  }

-- If an update of a group is not refused: the members of the group are the users that the request names, white space aside, if it names any list; and for each user who joins or leaves there is a message, and the user's permission version goes up by one, if the user has a row.
pub update_group-HasMembers :
    (c : Context) (group : String) (input : UpdateGroupInput) (w w' : World)
    → update_group c group input w ≡ done w'
    → HasMembers c group input.member_ids w.tables.members w'.tables.members w.tables.users
        w'.tables.users w'.published
unfolding update_group
update_group-HasMembers c group input w w' e =
    let (existing, _, e1) = next-done (find_group c group w.tables.groups) _ w' e in
    let (m, _, e2) = next-done (normalize_option c input.space_permissions) _ w' e1 in
    let (_, _, e3) =
      next-done (validate_users_exist c (option_ids c input.member_ids) w.tables) _ w' e2 in
    let (_, _, e4) = next-done (validate_spaces_exist c (option_keys c m) w.tables) _ w' e3 in
    let (db, ed, e5) = next-done (update_values c group input existing w.tables) _ w' e4 in
    let start : Updated = record {
      tables = db;
      member_changes = [];
      affected_spaces = [];
      permission_changes = [];
    } in
    let (u, eu, e6) = next-done (update_members c group input.member_ids start) _ w' e5 in
    let (u', eu', e7) = next-done (update_permissions c group m u) _ w' e6 in
    subst
      (λ x.
        HasMembers c group input.member_ids w.tables.members x.tables.members w.tables.users
          x.tables.users x.published)
      (ap (value w) e7)
      (put_together c group input.member_ids w db u u'
        (values-SamePeople c group input existing w.tables db ed)
        (members_done c group input.member_ids start u eu) (permissions-AreLeft c group m u u' eu'))
