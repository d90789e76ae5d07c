-- ===== src/Examples/Cancelling.antt =====
-- Cancellations at concrete inputs.
use cherry_wiki.Base.{◌≡◌, refl, some}
use cherry_wiki.Job.Data.{pending, running}
use cherry_wiki.Job.Exec.{World, ok}
use cherry_wiki.Job.Store.{find_row, replace_row, row_at, append_event, update_where}
use cherry_wiki.Job.Machine.{transition}
use cherry_wiki.Job.Cancel.{
  CancelJobResponse, resolve_tenant_id, resolve_context_user_id, may_access,
  has_implicit_space_access, has_audit_view_access, has_space_permission, get_accessible_job,
  cancel_pending, cancel_running, by_status, resolve_cancellation_conflict, attempt, cancel_once,
  cancel_job_internal, cancel_job,
}
use cherry_wiki.Job.Cancel.Moments.{WasSettled}
use cherry_wiki.Job.Cancel.Settled.{cancel_job-Settled}
use cherry_wiki.Job.Cancel.Quiet.{quiet, outcome, cancel_job-quiet}
use cherry_wiki.Base.Text.{trim, is_blank}
use cherry_wiki.Access.Roles.{role_permissions, normalize_role}
use cherry_wiki.Examples.Fixtures.{job, waiting, crowded, owner_context, directory}

cancelling : Unit {0}
unfolding trim is_blank normalize_role role_permissions cancel_job cancel_job_internal cancel_once
    attempt resolve_cancellation_conflict by_status cancel_pending cancel_running update_where
    get_accessible_job may_access has_implicit_space_access has_audit_view_access
    has_space_permission resolve_tenant_id resolve_context_user_id transition row_at find_row
    replace_row append_event
cancelling = tt

abbrev answer : CancelJobResponse
answer = record { job_id = "j3"; status = running; cancel_requested_at = some 2000000 }

abbrev asked : World
asked = (cancel_job directory owner_context quiet "j3" crowded).1

asked_ok : (cancel_job directory owner_context quiet "j3" crowded).0 ≡ ok answer
unfolding cancelling
asked_ok = refl

cancel_job-Settled_example : WasSettled quiet "j3" answer crowded asked
cancel_job-Settled_example =
    cancel_job-Settled directory owner_context quiet "j3" crowded asked answer
      (λ i. (asked_ok i, asked))

cancel_job-quiet_example :
    cancel_job directory owner_context quiet "j1" waiting
    ≡ outcome "ann" (job "j1" pending) waiting pending
unfolding cancelling
cancel_job-quiet_example =
    cancel_job-quiet directory owner_context "j1" "ann" (job "j1" pending) waiting refl refl
