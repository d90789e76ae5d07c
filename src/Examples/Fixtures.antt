-- ===== src/Examples/Fixtures.antt =====
-- Rows, worlds, workers and callers for the tests.
use cherry_wiki.Base.{ℕ, String, Option, none, some, List, [], ◌∷◌}
use cherry_wiki.Job.Data.{JobStatus, pending, running, num, obj, end, JobRow, Thrown, failure}
use cherry_wiki.Job.Exec.{World, Lease, ok}
use cherry_wiki.Job.Worker.{Worker, BullJob}
use cherry_wiki.Job.Repository.{JobCreateInput}
use cherry_wiki.Job.Cancel.{JobContext, Directory}

abbrev pub job : String → JobStatus → JobRow
job id status = record {
  id = id;
  tenant_id = "t";
  space_id = some "s";
  queue_name = "indexer";
  type = "index";
  priority = 100;
  status = status;
  attempt_count = 0;
  max_attempts = 3;
  timeout_seconds = none;
  locked_by = none;
  locked_at = none;
  next_run_at = none;
  cancel_requested_at = none;
  payload_json = obj end;
  result_json = none;
  error_json = none;
  idempotency_key = some "k1";
  created_by = some "ann";
  created_at = 5;
  started_at = none;
  completed_at = none;
}

abbrev pub no_leases : String → Option Lease
no_leases key = none

abbrev pub world : List JobRow → ℕ → World
world rows clock = record {
  jobs = rows;
  events = [];
  leases = no_leases;
  clock = clock;
  uuid = λ n. "u";
  drawn = 0;
}

-- A waiting job, and a running one whose lock is old.
abbrev pub waiting : World
waiting = world (job "j1" pending ∷ []) 1000

abbrev pub stale : JobRow
stale = record (job "j2" running) { locked_by = some "w9"; locked_at = some 0 }

abbrev pub crowded : World
crowded = world (job "j1" pending ∷ stale ∷ job "j3" running ∷ []) 2000000

abbrev pub bull : BullJob
bull = record { data_job_id = some "j1"; id = none }

abbrev pub good_worker : Worker
good_worker = record {
  worker_id = "w1";
  lock_ttl_seconds = 600;
  process = λ row b w. (ok (num 7), w);
}

abbrev pub broken : Thrown
broken = failure "Error" "broken" none

abbrev pub owner_context : JobContext
owner_context = record {
  tenant_id = some "t";
  actor_user_id = none;
  actor_permissions = none;
  actor_role = some "viewer";
  user_id = some " ann ";
}

abbrev pub stranger_context : JobContext
stranger_context = record owner_context { user_id = some "bob" }

abbrev pub directory : Directory
directory = record {
  group_members = record { tenant_id = "t"; group_id = "g"; user_id = "eve" } ∷ [];
  space_permissions =
      record { tenant_id = "t"; group_id = "g"; space_id = "s"; permission = "space:admin" } ∷ [];
}

abbrev pub creation : JobCreateInput
creation = record {
  id = none;
  tenant_id = "t";
  space_id = none;
  queue_name = none;
  type = "index";
  priority = none;
  status = none;
  attempt_count = none;
  max_attempts = none;
  timeout_seconds = none;
  locked_by = none;
  locked_at = none;
  next_run_at = none;
  cancel_requested_at = none;
  payload_json = none;
  result_json = none;
  error_json = none;
  idempotency_key = some (some "fresh");
  created_by = none;
  created_at = none;
  started_at = none;
  completed_at = none;
}
