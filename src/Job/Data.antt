-- ===== src/Job/Data.antt =====
-- The data of the job system: packages/job-core/src/status.ts, the tables `jobs` and `job_events`
-- of packages/shared/src/schema/core.ts, the update columns of repository.ts, and what is thrown.
use cherry_wiki.Base.{ℕ, String, Bool, true, false, Option, none, some, ◌=ₛ◌}

-- A status column. `other` is a text that is none of the five names of the enum.
pub data JobStatus : Type 0 where
  pending running succeeded failed cancelled : JobStatus
  other : String → JobStatus

abbrev pub status_eq : JobStatus → JobStatus → Bool
status_eq pending pending = true
status_eq running running = true
status_eq succeeded succeeded = true
status_eq failed failed = true
status_eq cancelled cancelled = true
status_eq (other s) (other t) = s =ₛ t
status_eq _ _ = false

abbrev pub status_text : JobStatus → String
status_text pending = "pending"
status_text running = "running"
status_text succeeded = "succeeded"
status_text failed = "failed"
status_text cancelled = "cancelled"
status_text (other s) = s

-- JSON values. `num` holds the whole numbers from 0 that this code writes; `instant` is the ISO
-- text of a date, by its milliseconds.
mutual
  pub data Json : Type 0 where
    null : Json
    bool : Bool → Json
    num : ℕ → Json
    str : String → Json
    instant : ℕ → Json
    arr : Items → Json
    obj : Fields → Json

  pub data Items : Type 0 where
    nil : Items
    cons : Json → Items → Items

  pub data Fields : Type 0 where
    end : Fields
    field : String → Json → Fields → Fields

-- Instants are milliseconds; `none` is NULL.
pub record JobRow : Type 0 where
  pub id : String
  pub tenant_id : String
  pub space_id : Option String
  pub queue_name : String
  pub type : String
  pub priority : ℕ
  pub status : JobStatus
  pub attempt_count : ℕ
  pub max_attempts : ℕ
  pub timeout_seconds : Option ℕ
  pub locked_by : Option String
  pub locked_at : Option ℕ
  pub next_run_at : Option ℕ
  pub cancel_requested_at : Option ℕ
  pub payload_json : Json
  pub result_json : Option Json
  pub error_json : Option Json
  pub idempotency_key : Option String
  pub created_by : Option String
  pub created_at : ℕ
  pub started_at : Option ℕ
  pub completed_at : Option ℕ

pub record JobEventRow : Type 0 where
  pub id : String
  pub job_id : String
  pub event_type : String
  pub detail_json : Json
  pub created_at : ℕ

-- The columns of a `JobUpdateInput` that the modelled callers set; `none` leaves a column alone.
pub record JobUpdateInput : Type 0 where
  pub attempt_count : Option ℕ
  pub locked_by : Option (Option String)
  pub locked_at : Option (Option ℕ)
  pub next_run_at : Option (Option ℕ)
  pub cancel_requested_at : Option (Option ℕ)
  pub result_json : Option (Option Json)
  pub error_json : Option (Option Json)
  pub started_at : Option (Option ℕ)
  pub completed_at : Option (Option ℕ)

abbrev pub no_updates : JobUpdateInput
no_updates = record {
  attempt_count = none;
  locked_by = none;
  locked_at = none;
  next_run_at = none;
  cancel_requested_at = none;
  result_json = none;
  error_json = none;
  started_at = none;
  completed_at = none;
}

abbrev pub or_old {ℓ} : {A : Type ℓ} → Option A → A → A
or_old none old = old
or_old (some new) old = new

-- `set({ status: to, ...updates })` on one row.
abbrev pub apply_updates : JobStatus → JobUpdateInput → JobRow → JobRow
apply_updates to u row = record row {
  status = to;
  attempt_count = or_old u.attempt_count row.attempt_count;
  locked_by = or_old u.locked_by row.locked_by;
  locked_at = or_old u.locked_at row.locked_at;
  next_run_at = or_old u.next_run_at row.next_run_at;
  cancel_requested_at = or_old u.cancel_requested_at row.cancel_requested_at;
  result_json = or_old u.result_json row.result_json;
  error_json = or_old u.error_json row.error_json;
  started_at = or_old u.started_at row.started_at;
  completed_at = or_old u.completed_at row.completed_at;
}

-- What a `throw` carries: a JobConflictError, an HttpException of the API, another Error with its
-- `retryable` property if it has one, or a value that is no Error.
pub data Thrown : Type 0 where
  conflict : (message : String) → Thrown
  api_error : (code message : String) (status : ℕ) → Thrown
  failure : (name message : String) → Option Bool → Thrown
  value : Option Bool → Thrown
