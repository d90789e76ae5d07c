-- ===== src/Access/Groups/Service.antt =====
-- The operations of GroupService that change something. One transaction is one step, which changes
-- nothing when it is refused; what a response lists is left out.
use cherry_wiki.Base.{
  ℕ, suc, String, Bool, true, false, not, ◌&&◌, ◌||◌, Option, none, some, List, [], ◌∷◌, ◌++◌, map,
  length, keep, some_of, ◌==◌, ◌=ₛ◌, if◌then◌else◌,
}
use cherry_wiki.Base.Text.{includes, trim}
use cherry_wiki.Base.Sets.{insert_all}
use cherry_wiki.Access.Groups.{
  UserRow, GroupRow, SpaceRow, ChangeType, VersionRow, Tables, ApiError, user_not_found,
  group_not_found, space_not_found, Outcome, refused, done, next, PermissionMap, empty_map,
  PermissionInput, PermissionChange, MemberChange, normalize_permissions, of_group, of_space,
  get_space_permission_map, diff_space_group_permissions, get_permission_change_type,
  permission_rows_from_space_map, permission_rows_from_group_map,
}

-- A message that is published: `permission_changed:` or `user_permission_changed:`.
pub data Event : Type 0 where
  space_changed : String → String → Event
  user_changed : String → String → Event

pub data GroupAudit : Type 0 where
  group_created : String → List String → List String → GroupAudit
  user_group_changed : MemberChange → String → GroupAudit
  space_permission_changed : PermissionChange → GroupAudit
  admin_group_deleted : String → String → ℕ → GroupAudit

-- `published` is what Redis is asked to publish, `enqueued` the spaces to synchronize.
pub record World : Type 0 where
  pub tables : Tables
  pub published : List Event
  pub enqueued : List String
  pub audits : List GroupAudit

-- Who asks, and when.
pub record Context : Type 0 where
  pub tenant_id : String
  pub actor_user_id : Option String
  pub now : ℕ

-- resolveTenantId: the request's tenant, that of the environment, or the first one.
abbrev first_tenant : List String → Option String
first_tenant [] = none
first_tenant (t ∷ ts) = some t

abbrev or_other : Option String → Option String → Option String
or_other none other = other
or_other (some t) other = if trim t =ₛ "" then other else some (trim t)

unfoldable pub resolve_tenant_id : Option String → Option String → List String → Option String
resolve_tenant_id requested configured tenants =
    or_other requested (or_other configured (first_tenant tenants))

module _ (c : Context) where
  abbrev pub is_user_row : List String → UserRow → Bool
  is_user_row ids row = row.tenant_id =ₛ c.tenant_id && includes ids row.id

  abbrev pub is_group_row : List String → GroupRow → Bool
  is_group_row ids row = row.tenant_id =ₛ c.tenant_id && includes ids row.id

  abbrev pub is_space_row : List String → SpaceRow → Bool
  is_space_row ids row = row.tenant_id =ₛ c.tenant_id && includes ids row.id

  abbrev pub check : Bool → ApiError → Outcome Unit
  check true e = done tt
  check false e = refused e

  abbrev pub validate_users_exist : List String → Tables → Outcome Unit
  validate_users_exist ids db =
      check (length ids == 0 || length (keep (is_user_row ids) db.users) == length ids)
        user_not_found

  abbrev pub validate_groups_exist : List String → Tables → Outcome Unit
  validate_groups_exist ids db =
      check (length ids == 0 || length (keep (is_group_row ids) db.groups) == length ids)
        group_not_found

  abbrev pub validate_spaces_exist : List String → Tables → Outcome Unit
  validate_spaces_exist ids db =
      check (length ids == 0 || length (keep (is_space_row ids) db.spaces) == length ids)
        space_not_found

  abbrev pub validate_space_exists : String → Tables → Outcome Unit
  validate_space_exists id db = check (some_of (is_space_row (id ∷ [])) db.spaces) space_not_found

  abbrev pub find_group : String → List GroupRow → Outcome GroupRow
  find_group id [] = refused group_not_found
  find_group id (row ∷ rows) = if is_group_row (id ∷ []) row then done row else find_group id rows

  abbrev pub get_group_member_ids : String → Tables → List String
  get_group_member_ids group db =
      map (λ row. row.user_id)
        (keep (λ row. row.tenant_id =ₛ c.tenant_id && row.group_id =ₛ group) db.members)

  abbrev pub replace_group_members : String → List String → Tables → Tables
  replace_group_members group ids db = record db {
    members =
        keep (λ row. not (row.tenant_id =ₛ c.tenant_id && row.group_id =ₛ group)) db.members
        ++ map
            (λ id. record {
              tenant_id = c.tenant_id;
              group_id = group;
              user_id = id;
              created_at = c.now;
            })
            ids;
  }

  abbrev pub replace_group_space_permissions : String → PermissionMap → Tables → Tables
  replace_group_space_permissions group m db = record db {
    permissions =
        keep (λ row. not (of_group c.tenant_id group row)) db.permissions
        ++ permission_rows_from_space_map c.tenant_id group c.now m;
  }

  abbrev pub increment_users_permission_version : List String → Tables → Tables
  increment_users_permission_version ids db = record db {
    users =
        map
          (λ row.
            if is_user_row ids row
            then record row { permission_version = suc row.permission_version; updated_at = c.now }
            else row)
          db.users;
  }

  abbrev pub increment_group_permission_version : String → Tables → Tables
  increment_group_permission_version id db = record db {
    groups =
        map
          (λ row.
            if is_group_row (id ∷ []) row
            then record row { permission_version = suc row.permission_version }
            else row)
          db.groups;
  }

  abbrev pub increment_space_permission_version : String → Tables → Tables
  increment_space_permission_version id db = record db {
    spaces =
        map
          (λ row.
            if is_space_row (id ∷ []) row
            then record row { permission_version = suc row.permission_version; updated_at = c.now }
            else row)
          db.spaces;
  }

  abbrev pub version_of : (PermissionChange → ChangeType) → String → PermissionChange → VersionRow
  version_of kind reason change = record {
    tenant_id = c.tenant_id;
    space_id = change.space_id;
    actor_user_id = c.actor_user_id;
    change_type = kind change;
    subject_id = change.group_id;
    old_permissions = change.old_permissions;
    new_permissions = change.new_permissions;
    reason = reason;
  }

  abbrev pub insert_permission_version : VersionRow → Tables → Tables
  insert_permission_version row db = record db { versions = db.versions ++ row ∷ [] }

  -- The loop that writes a version for each change, and counts up the space's.
  abbrev pub record_each :
      (PermissionChange → ChangeType) → String → List PermissionChange → Tables → Tables
  record_each kind reason [] db = db
  record_each kind reason (change ∷ changes) db = record_each kind reason changes (
      insert_permission_version (version_of kind reason change)
        (increment_space_permission_version change.space_id db))

  abbrev pub record_all : String → List PermissionChange → Tables → Tables
  record_all reason [] db = db
  record_all reason (change ∷ changes) db =
      record_all reason changes
        (insert_permission_version (version_of get_permission_change_type reason change) db)

  abbrev pub spaces_to_enqueue : List String → List String
  spaces_to_enqueue ids = keep (λ id. not (id =ₛ "")) (insert_all ids [])

  abbrev pub announce_replaced : String → List PermissionChange → World → World
  announce_replaced space [] w = w
  announce_replaced space (change ∷ changes) w = record w {
    published = w.published ++ space_changed c.tenant_id space ∷ [];
    enqueued = w.enqueued ++ spaces_to_enqueue (space ∷ []);
    audits = w.audits ++ map space_permission_changed (change ∷ changes);
  }

  -- The writes of the transaction, if there are changes.
  abbrev pub write_replaced : String → PermissionMap → List PermissionChange → Tables → Tables
  write_replaced space m [] db = db
  write_replaced space m (change ∷ changes) db =
      record_all "space.permission.replace" (change ∷ changes) (
        increment_space_permission_version space (record db {
          permissions =
              keep (λ row. not (of_space c.tenant_id space row)) db.permissions
              ++ permission_rows_from_group_map c.tenant_id space c.now m;
        }))

  unfoldable pub replace_space_permissions : String → List PermissionInput → World → Outcome World
  replace_space_permissions space input w = next (normalize_permissions input empty_map) (λ m.
      next (validate_space_exists space w.tables) (λ _.
        next (validate_groups_exist m.keys w.tables) (λ _.
          next (get_space_permission_map c.tenant_id space w.tables.permissions) (λ current.
            let diff = diff_space_group_permissions space current m in
            done (
              announce_replaced space diff
                (record w { tables = write_replaced space m diff w.tables }))))))
