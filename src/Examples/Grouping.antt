-- ===== src/Examples/Grouping.antt =====
-- The administration of groups at concrete tables.
use cherry_wiki.Base.{String, none, some, List, [], ◌∷◌, ◌≡◌, refl}
use cherry_wiki.Base.Text.{trim}
use cherry_wiki.Base.Sorting.{sort_by}
use cherry_wiki.Access.Roles.{is_permission_point}
use cherry_wiki.Access.Groups.{
  GroupRow, Tables, Outcome, refused, done, validation_error, group_name_conflict, PermissionInput,
  normalize_permission_list, normalize_permissions, normalize_id_list, normalize_permission_map,
  get_space_permission_map, same_permissions, diff_space_group_permissions,
  get_group_space_permission_map, diff_group_space_permissions, get_permission_change_type,
}
use cherry_wiki.Access.Groups.Service.{World, Context, replace_space_permissions}
use cherry_wiki.Access.Groups.Admin.{
  CreateGroupInput, create_group, UpdateGroupInput, update_group, delete_group,
}
use cherry_wiki.Access.Groups.Joined.{HasMembers}
use cherry_wiki.Access.Groups.Membership.{update_group-HasMembers}
use cherry_wiki.Access.Groups.Created.{IsCreated, create_group-IsCreated}
use cherry_wiki.Access.Groups.Deleted.{IsDeleted, delete_group-IsDeleted}
use cherry_wiki.Access.Groups.Updated.{IsUpdated}
use cherry_wiki.Access.Groups.Announced.{update_group-IsUpdated}
use cherry_wiki.Access.Groups.Replaced.{IsReplaced, replace_space_permissions-IsReplaced}

abbrev context : Context
context = record { tenant_id = "t"; actor_user_id = some "boss"; now = 5 }

abbrev group : String → GroupRow
group id = record {
  id = id;
  tenant_id = "t";
  name = id;
  description = none;
  permission_version = 1;
  created_at = 0;
}

abbrev tables : Tables
tables = record {
  users = record { id = "ann"; tenant_id = "t"; permission_version = 1; updated_at = 0 } ∷ [];
  groups = group "g" ∷ group "h" ∷ [];
  members = record { tenant_id = "t"; group_id = "g"; user_id = "ann"; created_at = 0 } ∷ [];
  spaces = record { id = "s"; tenant_id = "t"; permission_version = 3; updated_at = 0 } ∷ [];
  permissions =
      record {
        tenant_id = "t";
        space_id = "s";
        group_id = "g";
        permission = "space:read";
        created_at = 0;
      }
      ∷ [];
  versions = [];
}

abbrev world : World
world = record { tables = tables; published = []; enqueued = []; audits = [] }

abbrev input : List PermissionInput
input =
    record { id = " h "; permissions = "chat:use" ∷ " space:read" ∷ [] }
    ∷ record { id = ""; permissions = "space:read" ∷ [] }
    ∷ record { id = "h"; permissions = "chat:use" ∷ [] }
    ∷ []

abbrev none_of : Outcome World → World
none_of (refused e) = world
none_of (done w) = w

replace_space_permissions-IsReplaced_example :
    IsReplaced context "s" input world (none_of (replace_space_permissions context "s" input world))
unfolding replace_space_permissions normalize_permissions normalize_permission_list
    normalize_permission_map get_space_permission_map diff_space_group_permissions same_permissions
    trim sort_by is_permission_point
replace_space_permissions-IsReplaced_example =
    replace_space_permissions-IsReplaced context "s" input world
      (none_of (replace_space_permissions context "s" input world)) (refl, tt) refl

replaced_refused :
    replace_space_permissions context "s"
      (record { id = "h"; permissions = "everything" ∷ [] } ∷ [])
      world
    ≡ refused validation_error
unfolding replace_space_permissions normalize_permissions normalize_permission_list trim
    is_permission_point
replaced_refused = refl

created_refused :
    create_group context "new"
      (record { name = " g"; description = none; member_ids = "ann" ∷ []; space_permissions = [] })
      world
    ≡ refused group_name_conflict
unfolding create_group normalize_permissions normalize_id_list trim
created_refused = refl

abbrev changes : UpdateGroupInput
changes = record {
  name = none;
  description = some "readers";
  member_ids = some [];
  space_permissions = some (record { id = "s"; permissions = "space:read" ∷ "chat:use" ∷ [] } ∷ []);
}

abbrev changed : World
changed = none_of (update_group context "g" changes world)

update_group-IsUpdated_example :
    IsUpdated context "g" changes.space_permissions world.tables.permissions
      changed.tables.permissions world.tables.spaces changed.tables.spaces changed.published
unfolding update_group normalize_permissions normalize_permission_list normalize_id_list
    normalize_permission_map get_group_space_permission_map diff_group_space_permissions
    same_permissions get_permission_change_type trim sort_by is_permission_point
update_group-IsUpdated_example =
    update_group-IsUpdated context "g" changes world changed (refl, tt) refl

update_group-HasMembers_example :
    HasMembers context "g" changes.member_ids world.tables.members changed.tables.members
      world.tables.users changed.tables.users changed.published
unfolding update_group normalize_permissions normalize_permission_list normalize_id_list
    normalize_permission_map get_group_space_permission_map diff_group_space_permissions
    same_permissions get_permission_change_type trim sort_by is_permission_point
update_group-HasMembers_example = update_group-HasMembers context "g" changes world changed refl

delete_group-IsDeleted_example :
    IsDeleted context "g" world (none_of (delete_group context "g" world))
unfolding delete_group normalize_permission_list normalize_permission_map
    get_group_space_permission_map trim sort_by is_permission_point
delete_group-IsDeleted_example =
    delete_group-IsDeleted context "g" world (none_of (delete_group context "g" world)) (refl, tt)
      refl

abbrev newcomer : CreateGroupInput
newcomer = record {
  name = " writers";
  description = none;
  member_ids = "ann" ∷ " ann " ∷ [];
  space_permissions = record { id = "s"; permissions = "space:edit" ∷ [] } ∷ [];
}

create_group-IsCreated_example :
    IsCreated context "new" newcomer world (none_of (create_group context "new" newcomer world))
unfolding create_group normalize_permissions normalize_permission_list normalize_id_list trim
    sort_by is_permission_point
create_group-IsCreated_example =
    create_group-IsCreated context "new" newcomer world
      (none_of (create_group context "new" newcomer world)) refl
