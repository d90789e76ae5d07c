-- ===== src/Job/Machine.antt =====
-- packages/job-core/src/state-machine.ts: the table of transitions, its check, and the guarded
-- update (a compare-and-set on the status column).
pub mod Table
pub mod Outcome
pub mod Race
use cherry_wiki.Base.{String, Bool, true, Option, none, some, List, [], ◌∷◌, ◌||◌, if◌then◌else◌}
use Prim.Native.String.{◌++◌ as ◌+++◌}
use cherry_wiki.Job.Data.{
  JobStatus, pending, running, succeeded, failed, cancelled, other, status_eq, status_text, JobRow,
  JobUpdateInput, apply_updates, Thrown, conflict, failure,
}
use cherry_wiki.Job.Exec.{World, M, pure, throw, ◌>>=◌, ◌>>◌}
use cherry_wiki.Job.Store.{find_by_id, update_where}

-- `TRANSITIONS[from] ?? []`.
abbrev pub transitions : JobStatus → List JobStatus
transitions pending = running ∷ cancelled ∷ []
transitions running = succeeded ∷ failed ∷ cancelled ∷ []
transitions succeeded = []
transitions failed = pending ∷ []
transitions cancelled = []
transitions (other s) = []

abbrev includes_status : List JobStatus → JobStatus → Bool
includes_status [] s = Bool.false
includes_status (t ∷ ts) s = status_eq t s || includes_status ts s

abbrev pub allowed : JobStatus → JobStatus → Bool
allowed from to = includes_status (transitions from) to

abbrev pub no_edge_text : JobStatus → JobStatus → String
no_edge_text from to =
    "Invalid job status transition from " +++ status_text from +++ " to " +++ status_text to

abbrev pub missing_text : String → String
missing_text id = "Job " +++ id +++ " not found"

abbrev pub moved_on_text : String → JobStatus → JobStatus → JobStatus → String
moved_on_text id from to current =
    "Cannot transition job "
    +++ id
    +++ " from "
    +++ status_text from
    +++ " to "
    +++ status_text to
    +++ ": current status is "
    +++ status_text current

unfoldable pub validate : JobStatus → JobStatus → M (Unit {0})
validate from to = if allowed from to then pure tt else throw (conflict (no_edge_text from to))

-- What `transition` answers when no row was written.
unfoldable pub refuse_transition : String → JobStatus → JobStatus → Option JobRow → M JobRow
refuse_transition id from to none = throw (failure "Error" (missing_text id) none)
refuse_transition id from to (some existing) =
    throw (conflict (moved_on_text id from to existing.status))

unfoldable pub written_or_refused : String → JobStatus → JobStatus → Option JobRow → M JobRow
unfolding find_by_id refuse_transition
written_or_refused id from to (some updated) = pure updated
written_or_refused id from to none = do
  existing ← find_by_id id
  refuse_transition id from to existing

unfoldable pub transition : String → JobStatus → JobStatus → JobUpdateInput → M JobRow
unfolding validate update_where written_or_refused
transition id from to updates = do
  validate from to
  updated ← update_where (λ row. status_eq row.status from) (apply_updates to updates) id
  written_or_refused id from to updated
