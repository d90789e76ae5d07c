-- ===== src/Job/Cancel/Accessible.antt =====
-- apps/api/src/jobs/jobs.service.ts: who may see a job and who may cancel it.
use cherry_wiki.Base.{
  String, Bool, true, false, Option, none, some, List, [], ◌∷◌, ◌&&◌, ◌||◌, ◌=ₛ◌, if◌then◌else◌,
  some_of,
}
use cherry_wiki.Base.Text.{trim, is_blank, includes}
use cherry_wiki.Access.Roles.{Role, owner, admin, role_permissions, normalize_role}
use cherry_wiki.Job.Data.{JobRow, Thrown, api_error}
use cherry_wiki.Job.Exec.{World, M, Result, ok, err}
use cherry_wiki.Job.Store.{row_at}

pub record JobContext : Type 0 where
  pub tenant_id : Option String
  pub actor_user_id : Option String
  pub actor_permissions : Option (List String)
  pub actor_role : Option String
  pub user_id : Option String

pub data JobAccessMode : Type 0 where
  view cancel : JobAccessMode

-- The rows of group_members and space_permissions that the check joins.
pub record Membership : Type 0 where
  pub tenant_id : String
  pub group_id : String
  pub user_id : String

pub record Grant : Type 0 where
  pub tenant_id : String
  pub group_id : String
  pub space_id : String
  pub permission : String

pub record Directory : Type 0 where
  pub group_members : List Membership
  pub space_permissions : List Grant

abbrev pub unauthenticated : Thrown
unauthenticated = api_error "UNAUTHENTICATED" "Unauthenticated" 401

abbrev pub not_found : Thrown
not_found = api_error "NOT_FOUND" "Job not found" 404

abbrev pub job_conflict : String → Thrown
job_conflict message = api_error "CONFLICT" message 409

-- resolveTenantId and resolveContextUserId, on the text that they read.
abbrev pub trimmed : Option String → Result String
trimmed none = err unauthenticated
trimmed (some s) = if is_blank s then err unauthenticated else ok (trim s)

abbrev first_of_two : Option String → Option String → Option String
first_of_two (some a) b = some a
first_of_two none b = b

unfoldable pub resolve_tenant_id : JobContext → Result String
resolve_tenant_id c = trimmed c.tenant_id

unfoldable pub resolve_context_user_id : JobContext → Result String
resolve_context_user_id c = trimmed (first_of_two c.user_id c.actor_user_id)

abbrev role_of : Option String → Option Role
role_of none = none
role_of (some text) = normalize_role text

abbrev owns_or_administers : Option Role → Bool
owns_or_administers (some owner) = true
owns_or_administers (some admin) = true
owns_or_administers _ = false

unfoldable pub has_implicit_space_access : Option String → Bool
has_implicit_space_access role = owns_or_administers (role_of role)

abbrev listed : Option (List String) → List String
listed none = []
listed (some ps) = ps

abbrev role_audits : Option Role → Bool
role_audits none = false
role_audits (some role) = includes (role_permissions role) "admin:audit_view"

unfoldable pub has_audit_view_access : Option String → Option (List String) → Bool
has_audit_view_access role permissions =
    includes (listed permissions) "admin:audit_view" || role_audits (role_of role)

abbrev pub space_view_permissions : List String
space_view_permissions = "space:read" ∷ "space:view" ∷ "space:edit" ∷ "space:admin" ∷ []

abbrev pub space_admin_permissions : List String
space_admin_permissions = "space:admin" ∷ []

abbrev pub permissions_for : JobAccessMode → List String
permissions_for view = space_view_permissions
permissions_for cancel = space_admin_permissions

-- hasSpacePermission: the join of the two tables has a row.
unfoldable pub has_space_permission : Directory → String → String → String → List String → Bool
has_space_permission d tenant user space permissions =
    some_of
      (λ m.
        m.tenant_id =ₛ tenant
        && m.user_id =ₛ user
        && some_of
            (λ g.
              g.tenant_id =ₛ m.tenant_id
              && g.group_id =ₛ m.group_id
              && g.space_id =ₛ space
              && includes permissions g.permission)
            d.space_permissions)
      d.group_members

abbrev text_is : Option String → String → Bool
text_is none s = false
text_is (some t) s = t =ₛ s

abbrev is_view : JobAccessMode → Bool
is_view view = true
is_view cancel = false

abbrev in_space : Directory → String → String → JobAccessMode → Option String → Bool
in_space d tenant user mode none = false
in_space d tenant user mode (some space) =
    has_space_permission d tenant user space (permissions_for mode)

-- The checks of getAccessibleJob on a row of the tenant.
unfoldable pub may_access : Directory → JobContext → String → String → JobAccessMode → JobRow → Bool
may_access d c tenant user mode job =
    text_is job.created_by user
    || has_implicit_space_access c.actor_role
    || (is_view mode && has_audit_view_access c.actor_role c.actor_permissions)
    || in_space d tenant user mode job.space_id

abbrev pub found_for :
    Directory → JobContext → String → String → JobAccessMode → Option JobRow → Result JobRow
found_for d c tenant user mode none = err not_found
found_for d c tenant user mode (some job) =
    if job.tenant_id =ₛ tenant && may_access d c tenant user mode job then ok job else err not_found

abbrev pub with_user :
    Directory → JobContext → String → JobAccessMode → Option JobRow → Result String → Result JobRow
with_user d c tenant mode job (ok user) = found_for d c tenant user mode job
with_user d c tenant mode job (err e) = err e

abbrev pub with_tenant :
    Directory → JobContext → JobAccessMode → Option JobRow → Result String → Result JobRow
with_tenant d c mode job (ok tenant) = with_user d c tenant mode job (resolve_context_user_id c)
with_tenant d c mode job (err e) = err e

-- getAccessibleJob: it reads, and changes nothing. Its checks are on the row that it has read;
-- `others` is what other clients do while it waits for the permissions.
unfoldable pub get_accessible_job :
    Directory → JobContext → (World → World) → JobAccessMode → String → M JobRow
get_accessible_job d c others mode job_id w =
    (with_tenant d c mode (row_at job_id w) (resolve_tenant_id c), others w)
