-- ===== src/Step/Query.antt =====
-- The query step of backend/app/services/step_executor.py, and the lookup of its output by
-- backend/app/services/step_reference_resolver.py for a step that reads it.
use sf_bulk_loader.Prelude.{
  ℕ, ◌≡◌, refl, ◌==◌, Bool, true, false, ◌&&◌, ◌||◌, Option, none, some, List, [], ◌∷◌, ◌++◌,
  select, select-append, arith,
}
use sf_bulk_loader.Job.{Uuid, Ref, JobStatus, JobRecord, new_job}

-- How `run_bulk_query` ends: with the rows and the artefact, with `BulkQueryJobFailed`, or with any
-- other exception. The Boolean tells whether Salesforce's answer comes with it.
pub data QueryEnd : Type 0 where
  query_result : ℕ → Ref → Bool → QueryEnd
  job_failed : Bool → QueryEnd
  query_exception : QueryEnd

-- A row of the table of jobs, with the run and the step that it belongs to.
pub record JobRow : Type 0 where
  pub load_run_id : Uuid
  pub load_step_id : Uuid
  pub job : JobRecord

abbrev pub job_row : Uuid → Uuid → JobRecord → JobRow
job_row run_id step_id job = record { load_run_id = run_id; load_step_id = step_id; job = job }

unfoldable pub failed_query : Bool → JobRecord → JobRecord
failed_query has_response j = record j {
  status = JobStatus.failed;
  completed = true;
  has_error_message = true;
  has_api_response = has_response || j.has_api_response;
}

unfoldable pub completed_query : ℕ → Ref → Bool → JobRecord → JobRecord
completed_query row_count artefact_uri has_response j = record j {
  status = JobStatus.job_complete;
  completed = true;
  success_file_path = some artefact_uri;
  records_processed = some row_count;
  total_records = some row_count;
  records_failed = some 0;
  error_file_path = none;
  unprocessed_file_path = none;
  has_api_response = has_response || j.has_api_response;
}

-- The row after `job_record.status = JobStatus.in_progress`.
unfoldable pub started_query : JobRecord
unfolding new_job
started_query = record (new_job 0 none) { status = JobStatus.in_progress; started = true }

-- `(total_success, total_errors)` and the row that the step leaves.
unfoldable pub query_end : QueryEnd → (ℕ × ℕ) × JobRecord
unfolding failed_query completed_query started_query
query_end (query_result rows uri has_response) =
    ((rows, 0), completed_query rows uri has_response started_query)
query_end (job_failed has_response) = ((0, 1), failed_query has_response started_query)
query_end query_exception = ((0, 1), failed_query false started_query)

unfoldable pub execute_query_step : Uuid → Uuid → QueryEnd → List JobRow → (ℕ × ℕ) × List JobRow
unfolding query_end
execute_query_step run_id step_id end_ table =
    let (counts, job) = query_end end_ in (counts, table ++ job_row run_id step_id job ∷ [])

-- `StepReferenceResolutionError`, the exception of `scalar_one_or_none` on several rows, or the path
-- from which the storage is built.
pub data Resolved : Type 0 where
  resolution_error : Resolved
  multiple_results : Resolved
  path : Ref → Resolved

unfoldable pub is_upstream : Uuid → Uuid → JobRow → Bool
is_upstream run_id step_id row =
    (row.load_run_id == run_id) && (row.load_step_id == step_id) && (row.job.partition_index == 0)

unfoldable pub path_of : Option Ref → Resolved
path_of none = resolution_error
path_of (some ref) = path ref

unfoldable pub resolve_rows : List JobRow → Resolved
unfolding path_of
resolve_rows [] = resolution_error
resolve_rows (row ∷ []) = path_of row.job.success_file_path
resolve_rows (row ∷ other ∷ rows) = multiple_results

unfoldable pub resolve_step_input : Uuid → Uuid → List JobRow → Resolved
unfolding is_upstream resolve_rows
resolve_step_input run_id step_id table = resolve_rows (select (is_upstream run_id step_id) table)

-- What a reader of the step is to get: the artefact of a query that succeeded, else an error.
abbrev pub artefact : QueryEnd → Resolved
artefact (query_result rows uri has_response) = path uri
artefact _ = resolution_error

new_row-upstream :
    (run_id step_id : Uuid) (job : JobRecord)
    → job.partition_index ≡ 0
    → is_upstream run_id step_id (job_row run_id step_id job) ≡ true
unfolding is_upstream
new_row-upstream run_id step_id job h = ground arith

query_end-row :
    (e : QueryEnd)
    → ((query_end e).1.partition_index ≡ 0)
      × (path_of (query_end e).1.success_file_path ≡ artefact e)
unfolding query_end path_of failed_query completed_query started_query new_job
query_end-row (query_result rows uri r) = (refl, refl)
query_end-row (job_failed r) = (refl, refl)
query_end-row query_exception = (refl, refl)

-- In a run that has no row of the query step yet, a step that reads its output resolves, after the
-- query step, to the artefact that the query wrote if the query succeeded, and to an error of the
-- resolution if it failed.
pub resolve-execute_query_step :
    (run_id step_id : Uuid) (e : QueryEnd) (table : List JobRow)
    → select (is_upstream run_id step_id) table ≡ []
    → resolve_step_input run_id step_id (execute_query_step run_id step_id e table).1 ≡ artefact e
unfolding resolve_step_input execute_query_step resolve_rows
resolve-execute_query_step run_id step_id e table h =
    let row = job_row run_id step_id (query_end e).1 in
    let (index, found) = query_end-row e in
    rw
      (
        select-append (is_upstream run_id step_id) table (row ∷ []),
        h,
        new_row-upstream run_id step_id (query_end e).1 index,
      )
      found
