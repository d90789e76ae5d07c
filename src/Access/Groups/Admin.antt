-- ===== src/Access/Groups/Admin.antt =====
-- createGroup, updateGroup and deleteGroup of apps/api/src/groups/group.service.ts.
use cherry_wiki.Base.{
  String, Bool, not, ◌&&◌, Option, none, some, List, [], ◌∷◌, ◌++◌, map, length, keep, some_of,
  ◌=ₛ◌, if◌then◌else◌,
}
use cherry_wiki.Base.Text.{trim}
use cherry_wiki.Access.Groups.{
  GroupRow, group_deleted, grant, Tables, group_name_conflict, Outcome, refused, done, next,
  PermissionMap, empty_map, PermissionInput, PermissionChange, MemberChange, added, removed,
  normalize_id_list, normalize_permissions, of_group, get_group_space_permission_map,
  diff_group_space_permissions, get_permission_change_type, diff_members,
}
use cherry_wiki.Access.Groups.Service.{
  World, Context, group_created, user_group_changed, space_permission_changed, admin_group_deleted,
  space_changed, user_changed, is_group_row, validate_users_exist, validate_spaces_exist,
  find_group, get_group_member_ids, replace_group_members, replace_group_space_permissions,
  increment_users_permission_version, increment_group_permission_version, record_each,
  spaces_to_enqueue,
}

pub record CreateGroupInput : Type 0 where
  pub name : String
  pub description : Option String
  pub member_ids : List String
  pub space_permissions : List PermissionInput

pub record UpdateGroupInput : Type 0 where
  pub name : Option String
  pub description : Option String
  pub member_ids : Option (List String)
  pub space_permissions : Option (List PermissionInput)

abbrev trim_option : Option String → Option String
trim_option none = none
trim_option (some s) = some (trim s)

-- From no permissions, or to none.
abbrev pub grants_of : String → PermissionMap → List PermissionChange
grants_of group m =
    map
      (λ k. record {
        space_id = k;
        group_id = group;
        old_permissions = [];
        new_permissions = m.at k;
      })
      m.keys

abbrev pub revocations_of : String → PermissionMap → List PermissionChange
revocations_of group m =
    map
      (λ k. record {
        space_id = k;
        group_id = group;
        old_permissions = m.at k;
        new_permissions = [];
      })
      m.keys

abbrev pub changed_user : MemberChange → String
changed_user (added id) = id
changed_user (removed id) = id

-- What the steps of an update leave: the tables, the changes, and the spaces that a change of the
-- members concerns.
pub record Updated : Type 0 where
  pub tables : Tables
  pub member_changes : List MemberChange
  pub affected_spaces : List String
  pub permission_changes : List PermissionChange

module _ (c : Context) where
  -- The constraint groups_tenant_id_name_unique.
  abbrev pub name_taken : String → String → List GroupRow → Bool
  name_taken id name rows =
      some_of (λ row. row.tenant_id =ₛ c.tenant_id && (row.name =ₛ name && not (row.id =ₛ id))) rows

  -- Inserting the group that `randomUUID` has given the id.
  abbrev pub insert_group : String → CreateGroupInput → Tables → Outcome Tables
  insert_group id input db =
      if name_taken id (trim input.name) db.groups
      then refused group_name_conflict
      else done (record db {
        groups =
            db.groups
            ++ record {
              id = id;
              tenant_id = c.tenant_id;
              name = trim input.name;
              description = trim_option input.description;
              permission_version = 1;
              created_at = c.now;
            }
              ∷ [];
      })

  abbrev pub insert_members : String → List String → Tables → Tables
  insert_members group ids db = record db {
    members =
        db.members
        ++ map
            (λ id. record {
              tenant_id = c.tenant_id;
              group_id = group;
              user_id = id;
              created_at = c.now;
            })
            ids;
  }

  unfoldable pub create_group : String → CreateGroupInput → World → Outcome World
  create_group id input w =
      let member_ids = normalize_id_list input.member_ids in
      next (normalize_permissions input.space_permissions empty_map) (λ m.
        next (validate_users_exist c member_ids w.tables) (λ _.
          next (validate_spaces_exist c m.keys w.tables) (λ _.
            next (insert_group id input w.tables) (λ db. done (record w {
              tables =
                  record_each c (λ change. grant) "group.create" (grants_of id m)
                    (replace_group_space_permissions c id m (insert_members id member_ids db));
              published = w.published ++ map (space_changed c.tenant_id) m.keys;
              enqueued = w.enqueued ++ spaces_to_enqueue c m.keys;
              audits = w.audits ++ group_created id member_ids m.keys ∷ [];
            })))))

  abbrev pub option_ids : Option (List String) → List String
  option_ids none = []
  option_ids (some ids) = normalize_id_list ids

  abbrev pub normalize_option : Option (List PermissionInput) → Outcome (Option PermissionMap)
  normalize_option none = done none
  normalize_option (some items) = next (normalize_permissions items empty_map) (λ m. done (some m))

  abbrev pub option_keys : Option PermissionMap → List String
  option_keys none = []
  option_keys (some m) = m.keys

  -- buildGroupUpdateValues and its update.
  abbrev pub new_name : Option String → GroupRow → String
  new_name none existing = existing.name
  new_name (some name) existing = trim name

  abbrev text_or_empty : Option String → String
  text_or_empty none = ""
  text_or_empty (some s) = s

  abbrev pub new_description : Option String → GroupRow → Option String
  new_description none existing = existing.description
  new_description (some d) existing =
      if trim d =ₛ text_or_empty existing.description then existing.description else some (trim d)

  abbrev pub update_values : String → UpdateGroupInput → GroupRow → Tables → Outcome Tables
  update_values id input existing db =
      if not (new_name input.name existing =ₛ existing.name)
        && name_taken id (new_name input.name existing) db.groups
      then refused group_name_conflict
      else done (record db {
        groups =
            map
              (λ row.
                if is_group_row c (id ∷ []) row
                then record row {
                  name = new_name input.name existing;
                  description = new_description input.description existing;
                }
                else row)
              db.groups;
      })

  abbrev pub write_members : String → List String → List MemberChange → Updated → Outcome Updated
  write_members group ids [] u = done u
  write_members group ids (change ∷ changes) u =
      next (get_group_space_permission_map c.tenant_id group u.tables.permissions) (λ m.
        done (record u {
          tables = increment_group_permission_version c group (
              increment_users_permission_version c (map changed_user (change ∷ changes))
                (replace_group_members c group ids u.tables));
          member_changes = change ∷ changes;
          affected_spaces = m.keys;
        }))

  abbrev pub update_members : String → Option (List String) → Updated → Outcome Updated
  update_members group none u = done u
  update_members group (some ids) u =
      let wanted = normalize_id_list ids in
      write_members group wanted (diff_members (get_group_member_ids c group u.tables) wanted) u

  abbrev pub write_permissions : String → PermissionMap → List PermissionChange → Updated → Updated
  write_permissions group m [] u = u
  write_permissions group m (change ∷ changes) u = record u {
    tables =
        record_each c get_permission_change_type "group.update" (change ∷ changes)
          (replace_group_space_permissions c group m u.tables);
    permission_changes = change ∷ changes;
  }

  abbrev pub update_permissions : String → Option PermissionMap → Updated → Outcome Updated
  update_permissions group none u = done u
  update_permissions group (some m) u =
      next (get_group_space_permission_map c.tenant_id group u.tables.permissions) (λ current.
        done (write_permissions group m (diff_group_space_permissions group current m) u))

  abbrev pub announce_updated : String → World → Updated → World
  announce_updated group w u = record {
    tables = u.tables;
    published =
        w.published
        ++ (map (λ change. user_changed c.tenant_id (changed_user change)) u.member_changes
            ++ map (λ change. space_changed c.tenant_id change.space_id) u.permission_changes);
    enqueued =
        w.enqueued
        ++ spaces_to_enqueue c
            (u.affected_spaces ++ map (λ change. change.space_id) u.permission_changes);
    audits =
        w.audits
        ++ (map (λ change. user_group_changed change group) u.member_changes
            ++ map space_permission_changed u.permission_changes);
  }

  unfoldable pub update_group : String → UpdateGroupInput → World → Outcome World
  update_group id input w = next (find_group c id w.tables.groups) (λ existing.
      next (normalize_option input.space_permissions) (λ m.
        next (validate_users_exist c (option_ids input.member_ids) w.tables) (λ _.
          next (validate_spaces_exist c (option_keys m) w.tables) (λ _.
            next (update_values id input existing w.tables) (λ db.
              next
                (update_members id input.member_ids (record {
                  tables = db;
                  member_changes = [];
                  affected_spaces = [];
                  permission_changes = [];
                }))
                (λ u. next (update_permissions id m u) (λ u'. done (announce_updated id w u'))))))))

  abbrev pub delete_rows : String → Tables → Tables
  delete_rows id db = record db {
    members = keep (λ row. not (row.tenant_id =ₛ c.tenant_id && row.group_id =ₛ id)) db.members;
    permissions = keep (λ row. not (of_group c.tenant_id id row)) db.permissions;
    groups = keep (λ row. not (is_group_row c (id ∷ []) row)) db.groups;
  }

  unfoldable pub delete_group : String → World → Outcome World
  delete_group id w = next (find_group c id w.tables.groups) (λ existing.
      next (get_group_space_permission_map c.tenant_id id w.tables.permissions) (λ m.
        let member_ids = get_group_member_ids c id w.tables in
        done (record {
          tables =
              record_each c (λ change. group_deleted) "group.delete" (revocations_of id m)
                (increment_users_permission_version c member_ids (delete_rows id w.tables));
          published =
              w.published
              ++ (map (space_changed c.tenant_id) m.keys
                  ++ map (user_changed c.tenant_id) member_ids);
          enqueued = w.enqueued ++ spaces_to_enqueue c m.keys;
          audits = w.audits ++ admin_group_deleted id existing.name (length member_ids) ∷ [];
        })))
