-- ===== src/Job/Repository.antt =====
-- packages/job-core/src/repository.ts: the creation of jobs, with its idempotency key, and the poll
-- for pending jobs. The unique index on (tenant_id, idempotency_key) and the primary key are the
-- table's, and so are the column defaults.
pub mod Changes
pub mod Create
pub mod Due
pub mod Poll
use cherry_wiki.Base.Sorting.{sort_by}
use cherry_wiki.Base.{
  ℕ, suc, ◌+◌, ◌-◌, ◌*◌, min, max, String, Bool, true, false, Option, none, some, List, [], ◌∷◌,
  ◌++◌, ◌&&◌, ◌||◌, ltb, leb, ◌==◌, ◌=ₛ◌, if◌then◌else◌, keep, take, drop, length,
}
use cherry_wiki.Base.Text.{trim, is_blank}
use Prim.Native.String.{◌++◌ as ◌+++◌}
use cherry_wiki.Job.Data.{
  JobStatus, pending, status_eq, Json, obj, end, JobRow, or_old, Thrown, failure,
}
use cherry_wiki.Job.Exec.{World, M, ok, err, pure, throw, ◌>>=◌, random_uuid}
use cherry_wiki.Job.Store.{find_row, row_at}

-- `none` is a field that is undefined; in a column that may be NULL, `some none` is null.
pub record JobCreateInput : Type 0 where
  pub id : Option String
  pub tenant_id : String
  pub space_id : Option (Option String)
  pub queue_name : Option String
  pub type : String
  pub priority : Option ℕ
  pub status : Option JobStatus
  pub attempt_count : Option ℕ
  pub max_attempts : Option ℕ
  pub timeout_seconds : Option (Option ℕ)
  pub locked_by : Option (Option String)
  pub locked_at : Option (Option ℕ)
  pub next_run_at : Option (Option ℕ)
  pub cancel_requested_at : Option (Option ℕ)
  pub payload_json : Option Json
  pub result_json : Option (Option Json)
  pub error_json : Option (Option Json)
  pub idempotency_key : Option (Option String)
  pub created_by : Option (Option String)
  pub created_at : Option ℕ
  pub started_at : Option (Option ℕ)
  pub completed_at : Option (Option ℕ)

-- buildCreateValues, with the column default where a field is left out. `new_id` is the given id
-- or a fresh one.
unfoldable pub build_create_values : JobCreateInput → String → ℕ → JobRow
build_create_values data_in new_id now = record {
  id = new_id;
  tenant_id = data_in.tenant_id;
  space_id = or_old data_in.space_id none;
  queue_name = or_old data_in.queue_name "default";
  type = data_in.type;
  priority = or_old data_in.priority 100;
  status = or_old data_in.status pending;
  attempt_count = or_old data_in.attempt_count 0;
  max_attempts = or_old data_in.max_attempts 3;
  timeout_seconds = or_old data_in.timeout_seconds none;
  locked_by = or_old data_in.locked_by none;
  locked_at = or_old data_in.locked_at none;
  next_run_at = or_old data_in.next_run_at none;
  cancel_requested_at = or_old data_in.cancel_requested_at none;
  payload_json = or_old data_in.payload_json (obj end);
  result_json = or_old data_in.result_json none;
  error_json = or_old data_in.error_json none;
  idempotency_key = or_old data_in.idempotency_key none;
  created_by = or_old data_in.created_by none;
  created_at = or_old data_in.created_at now;
  started_at = or_old data_in.started_at none;
  completed_at = or_old data_in.completed_at none;
}

abbrev pub fresh_or : Option String → M String
fresh_or none = random_uuid
fresh_or (some id) = pure id

abbrev pub key_is : Option String → String → Bool
key_is none k = false
key_is (some j) k = j =ₛ k

-- The row of a tenant under an idempotency key.
unfoldable pub find_key : String → String → List JobRow → Option JobRow
find_key tenant k [] = none
find_key tenant k (row ∷ rows) =
    if row.tenant_id =ₛ tenant && key_is row.idempotency_key k
    then some row
    else find_key tenant k rows

abbrev pub push_row : JobRow → World → World
push_row row w = record w { jobs = w.jobs ++ row ∷ [] }

-- `INSERT` of a row: a taken primary key is an error of the database.
abbrev pub insert_unless : Option JobRow → JobRow → M JobRow
insert_unless none row w = (ok row, push_row row w)
insert_unless (some other) row w =
    (err (failure "error" "duplicate key value violates unique constraint" none), w)

unfoldable pub insert_row : JobRow → M JobRow
insert_row row w = insert_unless (row_at row.id w) row w

-- `INSERT … ON CONFLICT (tenant_id, idempotency_key) DO NOTHING`, then the `SELECT` of the row that
-- was there.
abbrev pub insert_or_found : Option JobRow → JobRow → M JobRow
insert_or_found none row w = insert_row row w
insert_or_found (some existing) row w = (ok existing, w)

abbrev pub create_by_key : Option String → JobRow → M JobRow
create_by_key none row w = insert_row row w
create_by_key (some k) row w = insert_or_found (find_key row.tenant_id k w.jobs) row w

abbrev pub with_values : JobCreateInput → String → M JobRow
with_values data_in id w =
    create_by_key (or_old data_in.idempotency_key none) (build_create_values data_in id w.clock) w

unfoldable pub create : JobCreateInput → M JobRow
unfolding insert_row build_create_values
create data_in = do id ← fresh_or data_in.id; with_values data_in id

-- The conditions of findPendingByType. A tenant that is absent or blank selects all tenants.
abbrev pub for_tenant : Option String → JobRow → Bool
for_tenant none row = true
for_tenant (some t) row = if is_blank t then true else row.tenant_id =ₛ trim t

abbrev pub due : Option ℕ → ℕ → Bool
due none now = true
due (some at) now = leb at now

abbrev pub is_due : Option String → String → ℕ → JobRow → Bool
is_due tenant type now row =
    for_tenant tenant row
    && row.type =ₛ type
    && status_eq row.status pending
    && due row.next_run_at now

-- `ORDER BY priority, created_at`.
abbrev pub runs_before : JobRow → JobRow → Bool
runs_before a b =
    ltb a.priority b.priority || (a.priority == b.priority && leb a.created_at b.created_at)

unfoldable pub order_rows : List JobRow → List JobRow
order_rows = sort_by runs_before

-- `Math.min(10, Math.max(1, Math.trunc(limit)))`, for a limit that is a whole number from 0.
unfoldable pub find_pending_by_type : Option String → String → ℕ → World → List JobRow
unfolding order_rows
find_pending_by_type tenant type limit w =
    take (min 10 (max 1 limit)) (order_rows (keep (is_due tenant type w.clock) w.jobs))
