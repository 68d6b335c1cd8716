-- ===== src/Retry.antt =====
-- The retry of one step of a finished run: `prepare_retry_step` of
-- backend/app/services/load_run_service.py, and `execute_retry_run` of
-- backend/app/services/run_coordinator.py with the states and events of Run and the tasks of Step. The
-- best-effort clean-up of open Salesforce jobs changes no row; the output storage that the preparation
-- resolves is taken to be there.
pub mod Endings
pub mod Returning
pub mod Preparing
use sf_bulk_loader.Prelude.{
  ℕ, zero, suc, ◌+◌, Bool, true, false, not, ◌||◌, Option, none, some, List, [], ◌∷◌, ◌++◌, ltb,
  if◌then◌else◌, select, is_some, map,
}
use sf_bulk_loader.Job.{Uuid, Ref, JobStatus, JobRecord, RunStatus, is_terminal}
use sf_bulk_loader.Partition.{World, Settings}
use sf_bulk_loader.Csv.{Row, Chunk, Csv, csv_processor_error, type_error, value_error, ok}
use sf_bulk_loader.Csv.Retry.{build_retry_partitions}
use sf_bulk_loader.Step.{Ended, gather, sweep, total_success, total_errors}
use sf_bulk_loader.Run.{
  State, Phase, passed, refused, cancelled_phase, other_exception, returned, raised_cancelled,
  raised_other, Outcome, publish, fire, mark, fail_run, interfere, Totals, store_totals,
  mark_running, run_started, run_completed,
}
use sf_bulk_loader.Run.Summary.{SummaryKey, auth_error, output_storage_error}

-- What the calls out of `execute_retry_run` answer.
pub record RetryWorld : Type 0 where
  pub step_found : Bool
  pub access_token : Phase
  pub output_storage : Phase
  -- whether the rows of the jobs could be inserted
  pub rows_inserted : Bool
  -- `plan.max_parallel_jobs`, which nothing validates
  pub max_parallel_jobs : ℕ
  -- whether the API aborts the run during the call for the token, that for the storage, the insertion
  -- of the rows, and while the tasks execute; and whether the run's own task is cancelled then
  pub abort_at_token : Bool
  pub abort_at_storage : Bool
  pub abort_at_rows : Bool
  pub abort_requested : Bool
  pub cancelled : Bool

unfoldable pub final_status : ℕ → RunStatus
final_status errors = if ltb 0 errors then RunStatus.completed_with_errors else RunStatus.completed

unfoldable pub retry_totals : List Ended → Totals
retry_totals es = record {
  records = total_success es + total_errors es;
  success = total_success es;
  errors = total_errors es;
  any_step_failed = ltb 0 (total_errors es);
}

-- How the run ends, and the statuses of the rows of its jobs if they were swept.
abbrev pub RetryEnd : Type 0
RetryEnd = Outcome × Option (List JobStatus)

unfoldable pub unswept : Outcome → RetryEnd
unswept o = (o, none)

-- From the sweep to the end.
unfoldable pub finish_retry : List Ended → State → RetryEnd
unfolding final_status retry_totals store_totals publish fire sweep
finish_retry es s =
    let st = final_status (total_errors es) in
    let s' = fire st (publish (run_completed st) (store_totals st (retry_totals es) s)) in
    ((returned, s'), some (map (λ e. sweep e.status) es))

-- The tasks: `none` if they do not all end.
unfoldable pub after_tasks : Option (List Ended) → State → Option RetryEnd
unfolding finish_retry
after_tasks none s = none
after_tasks (some es) s = some (finish_retry es s)

-- A phase in front of the rest, which is only reached if the phase passes.
unfoldable pub before_rest : Phase → SummaryKey → Bool → State → Option RetryEnd → Option RetryEnd
unfolding fail_run unswept
before_rest passed k catches s rest = rest
before_rest refused k catches s rest = some (unswept (fail_run k s))
before_rest cancelled_phase k catches s rest = some (unswept (raised_cancelled, s))
before_rest other_exception k catches s rest =
    if catches then some (unswept (fail_run k s)) else some (unswept (raised_other, s))

-- The rows of the jobs and the tasks.
unfoldable pub retry_tasks : RetryWorld → Option (List Ended) → State → Option RetryEnd
unfolding interfere after_tasks unswept
retry_tasks w ends s =
    let inserted = interfere w.abort_at_rows s in
    let executed = interfere w.abort_requested inserted in
    if not w.rows_inserted
    then some (unswept (raised_other, inserted))
    else if w.cancelled
    then some (unswept (raised_cancelled, executed))
    else after_tasks ends executed

-- `ends` is how the tasks end, once they are started.
unfoldable pub retry_body : RetryWorld → Option (List Ended) → State → Option RetryEnd
unfolding before_rest retry_tasks interfere
retry_body w ends s =
    let asked = interfere w.abort_at_token s in
    let resolved = interfere w.abort_at_storage asked in
    before_rest w.access_token auth_error true asked (
      before_rest w.output_storage output_storage_error false resolved
        (retry_tasks w ends resolved))

-- The tasks under `asyncio.Semaphore(max_parallel_jobs)`: with 0, each waits for it for good.
unfoldable pub under_semaphore : ℕ → List Chunk → Option (List Ended) → Option (List Ended)
under_semaphore zero (c ∷ chunks) ends = none
under_semaphore _ _ ends = ends

-- A step that is not found fails the run, without an event.
unfoldable pub execute_retry_run :
    ℕ → Settings → (ℕ → World) → RetryWorld → List Chunk → State → Option RetryEnd
unfolding retry_body mark fire mark_running publish unswept under_semaphore
execute_retry_run fuel c worlds w partitions s =
    if not w.step_found
    then some (unswept (returned, fire RunStatus.failed (mark RunStatus.failed s)))
    else retry_body w
        (under_semaphore w.max_parallel_jobs partitions (gather fuel c worlds 0 partitions))
        (publish run_started (mark_running s))

-- `prepare_retry_step`: the partitions of the new, pending run, an `HTTPException`, or an exception that
-- FastAPI turns into a 500.
pub data Prepared : Type 0 where
  retry_run : List Chunk → Prepared
  http : ℕ → Prepared
  raised : Prepared

unfoldable pub is_failed : JobStatus → Bool
is_failed JobStatus.failed = true
is_failed JobStatus.aborted = true
is_failed _ = false

unfoldable pub is_retryable : JobRecord → Bool
unfolding is_failed
is_retryable j = is_failed j.status || is_some j.error_file_path || is_some j.unprocessed_file_path

unfoldable pub prepared : Csv (List Chunk) → Prepared
prepared csv_processor_error = raised
prepared type_error = raised
prepared value_error = raised
prepared (ok []) = http 422
prepared (ok (c ∷ chunks)) = retry_run (c ∷ chunks)

unfoldable pub retry_jobs_of :
    (Ref → Option (List Row)) → List (List Row) → Option ℕ → List JobRecord → Prepared
unfolding prepared
retry_jobs_of read files size [] = http 422
retry_jobs_of read files size (j ∷ jobs) =
    prepared (build_retry_partitions read files size size (j ∷ jobs))

-- The original run's status, the step's partition size and the jobs of the run's step; each `none` if
-- there is no such row.
unfoldable pub prepare_retry_step :
    (Ref → Option (List Row))
    → List (List Row)
    → Option RunStatus
    → Option (Option ℕ)
    → List JobRecord
    → Prepared
unfolding is_retryable retry_jobs_of
prepare_retry_step read files none step all_step_jobs = http 404
prepare_retry_step read files (some run_status) none all_step_jobs =
    if not (is_terminal run_status) then http 409 else http 404
prepare_retry_step read files (some run_status) (some partition_size) all_step_jobs =
    if not (is_terminal run_status)
    then http 409
    else retry_jobs_of read files partition_size (select is_retryable all_step_jobs)
