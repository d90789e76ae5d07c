-- ===== src/Job/Store.antt =====
-- The statements that the job repositories send to Postgres: packages/job-core/src/repository.ts
-- (findById, updateStatus) and event-repository.ts. A row is found and updated by its primary key.
pub mod Laws
use cherry_wiki.Base.{
  ℕ, suc, String, Bool, true, Option, none, some, List, [], ◌∷◌, ◌++◌, ◌=ₛ◌, if◌then◌else◌,
}
use cherry_wiki.Job.Data.{JobStatus, Json, JobRow, JobEventRow, JobUpdateInput, apply_updates}
use cherry_wiki.Job.Exec.{World, M, ok, pure, ◌>>=◌, read_clock, random_uuid}

unfoldable pub find_row : String → List JobRow → Option JobRow
find_row id [] = none
find_row id (row ∷ rows) = if row.id =ₛ id then some row else find_row id rows

unfoldable pub replace_row : String → JobRow → List JobRow → List JobRow
replace_row id new [] = []
replace_row id new (row ∷ rows) = if row.id =ₛ id then new ∷ rows else row ∷ replace_row id new rows

-- The row of an id in the world.
unfoldable pub row_at : String → World → Option JobRow
row_at id w = find_row id w.jobs

abbrev pub put_row : String → JobRow → World → World
put_row id row w = record w { jobs = replace_row id row w.jobs }

unfoldable pub find_by_id : String → M (Option JobRow)
find_by_id id w = (ok (row_at id w), w)

-- `UPDATE jobs SET … WHERE id = … AND … RETURNING`: the row written, if one qualifies.
abbrev pub update_found :
    (JobRow → Bool) → (JobRow → JobRow) → String → Option JobRow → M (Option JobRow)
update_found qualifies change id none w = (ok none, w)
update_found qualifies change id (some row) w =
    if qualifies row then (ok (some (change row)), put_row id (change row) w) else (ok none, w)

unfoldable pub update_where : (JobRow → Bool) → (JobRow → JobRow) → String → M (Option JobRow)
update_where qualifies change id w = update_found qualifies change id (row_at id w) w

unfoldable pub update_status : String → JobStatus → JobUpdateInput → M (Option JobRow)
unfolding update_where
update_status id new_status updates = update_where (λ _. true) (apply_updates new_status updates) id

-- JobEventRepository.create with `job_id`, `event_type` and `detail_json`; the column default gives
-- `created_at`. The inserted row is returned to callers that do not use it.
unfoldable pub append_event : String → String → Json → World → World
append_event job_id event_type detail w = record w {
  events =
      w.events
      ++ record {
        id = w.uuid w.drawn;
        job_id = job_id;
        event_type = event_type;
        detail_json = detail;
        created_at = w.clock;
      }
        ∷ [];
  drawn = suc w.drawn;
}

abbrev pub create_event : String → String → Json → M (Unit {0})
create_event job_id event_type detail w = (ok tt, append_event job_id event_type detail w)

-- JobEventRepository.queryByJobId, for events whose clock did not run backwards.
unfoldable pub query_by_job_id : String → List JobEventRow → List JobEventRow
query_by_job_id id [] = []
query_by_job_id id (e ∷ es) =
    if e.job_id =ₛ id then e ∷ query_by_job_id id es else query_by_job_id id es
