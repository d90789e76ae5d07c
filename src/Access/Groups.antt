-- ===== src/Access/Groups.antt =====
-- apps/api/src/groups/group.service.ts and the tables that it changes. The rows have the columns that
-- the code reads or writes; the random ids of permissions and of versions are left out, as nothing
-- refers to them.
pub mod Service
pub mod Maps
pub mod Stored
pub mod Changes
pub mod SpaceRows
pub mod Replaced
pub mod Admin
pub mod Versions
pub mod Updated
pub mod Announced
pub mod Members
pub mod Deleted
pub mod Joined
pub mod Membership
pub mod Created
use cherry_wiki.Base.{
  ℕ, suc, String, Bool, true, false, not, ◌&&◌, ◌||◌, Option, none, some, List, [], ◌∷◌, ◌++◌, map,
  length, keep, some_of, every, ◌==◌, ltb, ◌=ₛ◌, if◌then◌else◌, set_key,
}
use cherry_wiki.Base.Text.{includes, trim}
use cherry_wiki.Base.Sets.{text_le, insert, insert_all}
use cherry_wiki.Base.Sorting.{sort_by}
use cherry_wiki.Access.Roles.{is_permission_point}

pub record UserRow : Type 0 where
  pub id : String
  pub tenant_id : String
  pub permission_version : ℕ
  pub updated_at : ℕ

pub record GroupRow : Type 0 where
  pub id : String
  pub tenant_id : String
  pub name : String
  pub description : Option String
  pub permission_version : ℕ
  pub created_at : ℕ

pub record MemberRow : Type 0 where
  pub tenant_id : String
  pub group_id : String
  pub user_id : String
  pub created_at : ℕ

pub record SpaceRow : Type 0 where
  pub id : String
  pub tenant_id : String
  pub permission_version : ℕ
  pub updated_at : ℕ

pub record PermissionRow : Type 0 where
  pub tenant_id : String
  pub space_id : String
  pub group_id : String
  pub permission : String
  pub created_at : ℕ

pub data ChangeType : Type 0 where
  grant revoke replace group_deleted : ChangeType

pub record VersionRow : Type 0 where
  pub tenant_id : String
  pub space_id : String
  pub actor_user_id : Option String
  pub change_type : ChangeType
  pub subject_id : String
  pub old_permissions : List String
  pub new_permissions : List String
  pub reason : String

pub record Tables : Type 0 where
  pub users : List UserRow
  pub groups : List GroupRow
  pub members : List MemberRow
  pub spaces : List SpaceRow
  pub permissions : List PermissionRow
  pub versions : List VersionRow

-- The errors that end a request.
pub data ApiError : Type 0 where
  validation_error user_not_found group_not_found space_not_found group_name_conflict : ApiError

pub data Outcome (A : Type 0) : Type 0 where
  refused : ApiError → Outcome A
  done : A → Outcome A

abbrev pub next : {A B : Type 0} → Outcome A → (A → Outcome B) → Outcome B
next (refused e) f = refused e
next (done a) f = f a

-- A Map from ids to permissions: its keys in the order of insertion, and what it has for a key,
-- where a missing key is read as no permission.
pub record PermissionMap : Type 0 where
  pub keys : List String
  pub at : String → List String

abbrev pub empty_map : PermissionMap
empty_map = record { keys = []; at = λ k. [] }

abbrev pub put : String → List String → PermissionMap → PermissionMap
put k v m = record { keys = insert k m.keys; at = set_key k v m.at }

abbrev pub filled : List String → List String
filled xs = keep (λ x. not (x =ₛ "")) (map trim xs)

unfoldable pub normalize_permission_list : List String → Outcome (List String)
normalize_permission_list permissions =
    if every is_permission_point (filled permissions)
    then done (sort_by text_le (insert_all (filled permissions) []))
    else refused validation_error

unfoldable pub normalize_id_list : List String → List String
normalize_id_list values = insert_all (filled values) []

-- What a request asks for: permissions of an id, which is that of a space or of a group.
pub record PermissionInput : Type 0 where
  pub id : String
  pub permissions : List String

-- normalizePermissionsBySpace and normalizePermissionsByGroup.
unfoldable pub normalize_permissions : List PermissionInput → PermissionMap → Outcome PermissionMap
normalize_permissions [] m = done m
normalize_permissions (item ∷ items) m =
    let id = trim item.id in
    if id =ₛ ""
    then normalize_permissions items m
    else next (normalize_permission_list (m.at id ++ item.permissions))
        (λ v. normalize_permissions items (put id v m))

abbrev normalize_keys : List String → (String → List String) → PermissionMap → Outcome PermissionMap
normalize_keys [] at m = done m
normalize_keys (k ∷ ks) at m =
    next (normalize_permission_list (at k)) (λ v. normalize_keys ks at (put k v m))

unfoldable pub normalize_permission_map : PermissionMap → Outcome PermissionMap
normalize_permission_map input = normalize_keys input.keys input.at empty_map

-- The loop over the rows of a query, by the column that is the key.
abbrev map_from : (PermissionRow → String) → List PermissionRow → PermissionMap → PermissionMap
map_from key [] m = m
map_from key (row ∷ rows) m =
    map_from key rows (put (key row) (m.at (key row) ++ row.permission ∷ []) m)

abbrev pub of_group : String → String → PermissionRow → Bool
of_group tenant group row = row.tenant_id =ₛ tenant && row.group_id =ₛ group

abbrev pub of_space : String → String → PermissionRow → Bool
of_space tenant space row = row.tenant_id =ₛ tenant && row.space_id =ₛ space

unfoldable pub get_group_space_permission_map :
    String → String → List PermissionRow → Outcome PermissionMap
get_group_space_permission_map tenant group rows =
    normalize_permission_map
      (map_from (λ row. row.space_id) (keep (of_group tenant group) rows) empty_map)

unfoldable pub get_space_permission_map :
    String → String → List PermissionRow → Outcome PermissionMap
get_space_permission_map tenant space rows =
    normalize_permission_map
      (map_from (λ row. row.group_id) (keep (of_space tenant space) rows) empty_map)

-- `left.length === right.length` and every one of the left is one of the right.
unfoldable pub same_permissions : List String → List String → Bool
same_permissions left right = length left == length right && every (includes right) left

pub record PermissionChange : Type 0 where
  pub space_id : String
  pub group_id : String
  pub old_permissions : List String
  pub new_permissions : List String

abbrev changes_from :
    (String → List String → List String → PermissionChange)
    → PermissionMap
    → PermissionMap
    → List String
    → List PermissionChange
changes_from change current wanted [] = []
changes_from change current wanted (k ∷ ks) =
    if same_permissions (current.at k) (wanted.at k)
    then changes_from change current wanted ks
    else change k (current.at k) (wanted.at k) ∷ changes_from change current wanted ks

abbrev pub all_keys : PermissionMap → PermissionMap → List String
all_keys current wanted = insert_all wanted.keys (insert_all current.keys [])

unfoldable pub diff_group_space_permissions :
    String → PermissionMap → PermissionMap → List PermissionChange
diff_group_space_permissions group current wanted =
    changes_from
      (λ k old new. record {
        space_id = k;
        group_id = group;
        old_permissions = old;
        new_permissions = new;
      })
      current wanted (all_keys current wanted)

unfoldable pub diff_space_group_permissions :
    String → PermissionMap → PermissionMap → List PermissionChange
diff_space_group_permissions space current wanted =
    changes_from
      (λ k old new. record {
        space_id = space;
        group_id = k;
        old_permissions = old;
        new_permissions = new;
      })
      current wanted (all_keys current wanted)

abbrev pub is_nil : {A : Type 0} → List A → Bool
is_nil [] = true
is_nil (x ∷ xs) = false

unfoldable pub get_permission_change_type : PermissionChange → ChangeType
get_permission_change_type change =
    if is_nil change.old_permissions && not (is_nil change.new_permissions)
    then grant
    else if not (is_nil change.old_permissions) && is_nil change.new_permissions
    then revoke
    else replace

pub data MemberChange : Type 0 where
  added removed : String → MemberChange

abbrev pub diff_members : List String → List String → List MemberChange
diff_members current wanted =
    map added (keep (λ u. not (includes current u)) (insert_all wanted []))
    ++ map removed (keep (λ u. not (includes wanted u)) (insert_all current []))

-- One row for each permission of each key.
abbrev pub rows_of : (String → String → PermissionRow) → String → List String → List PermissionRow
rows_of row k permissions = map (row k) permissions

abbrev pub permission_rows :
    (String → String → PermissionRow) → PermissionMap → List String → List PermissionRow
permission_rows row m [] = []
permission_rows row m (k ∷ ks) = rows_of row k (m.at k) ++ permission_rows row m ks

abbrev pub permission_rows_from_space_map : String → String → ℕ → PermissionMap → List PermissionRow
permission_rows_from_space_map tenant group now m =
    permission_rows
      (λ k p. record {
        tenant_id = tenant;
        space_id = k;
        group_id = group;
        permission = p;
        created_at = now;
      })
      m m.keys

abbrev pub permission_rows_from_group_map : String → String → ℕ → PermissionMap → List PermissionRow
permission_rows_from_group_map tenant space now m =
    permission_rows
      (λ k p. record {
        tenant_id = tenant;
        space_id = space;
        group_id = k;
        permission = p;
        created_at = now;
      })
      m m.keys
