-- ===== src/Scenarios/Retries.antt =====
-- Retries of a small step.
use sf_bulk_loader.Prelude.{
  ◌≡◌, ◌≢◌, refl, true, false, none, some, List, [], ◌∷◌, ◌++◌, All, arith, select,
}
use sf_bulk_loader.Job.{RunStatus, JobStatus, is_terminal, new_job}
use sf_bulk_loader.Csv.{Row, Chunk, ok}
use sf_bulk_loader.Csv.Rows.{rows_of, IsSized}
use sf_bulk_loader.Csv.Pooling.{pooled_rows, originals}
use sf_bulk_loader.Run.{State, passed, returned, raised_other, run_started, run_completed}
use sf_bulk_loader.Retry.{
  RetryWorld, RetryEnd, prepared, prepare_retry_step, is_retryable, execute_retry_run, retry_run,
}
use sf_bulk_loader.Retry.Preparing.{prepare_retry_step-default_size, prepare_retry_step-keeps}
use sf_bulk_loader.Retry.Endings.{execute_retry_run-IsEnd, IsEnd}
use sf_bulk_loader.Scenarios.Files.{file, parts, two_files, jobs, error_file}
use sf_bulk_loader.Scenarios.Partitions.{fast}
use sf_bulk_loader.Scenarios.Runs.{state_at, row_at}
use sf_bulk_loader.Scenarios.Steps.{worlds}
use sf_bulk_loader.Step.{gather, run_task, total_errors, total_success}
use sf_bulk_loader.Partition.{
  process_partition, submit, poll_loop, download_and_persist_results, finish, fetch_file, ◌>>=◌,
  check_before_submit, mark_uploading, record_sf_job, mark_in_progress, attempt,
}
use sf_bulk_loader.Job.{is_terminal_state, is_intermediate}

prepare_retry_step-default_size_example :
    prepare_retry_step error_file (file ∷ []) (some RunStatus.completed) (some none) jobs
    ≢ retry_run parts
prepare_retry_step-default_size_example =
    prepare_retry_step-default_size error_file (file ∷ []) (some RunStatus.completed) jobs parts

prepare_retry_step-keeps_example :
    (header : Row) × (a : List Chunk) × (rows_of a
      ≡ pooled_rows error_file (select is_retryable jobs))
    × All (IsSized 2 header) a
    × (prepare_retry_step error_file
          (file ∷ file ∷ [])
          (some RunStatus.aborted)
          (some (some 2))
          jobs
        ≡ prepared (ok (a ++ originals (parts ++ parts) (select is_retryable jobs))))
unfolding is_terminal
prepare_retry_step-keeps_example =
    prepare_retry_step-keeps error_file (file ∷ file ∷ []) RunStatus.aborted 2 jobs (parts ++ parts)
      refl (omega arith) two_files

-- The rows of the jobs can not be inserted.
abbrev broken : RetryWorld
broken = record {
  step_found = true;
  access_token = passed;
  output_storage = passed;
  rows_inserted = false;
  max_parallel_jobs = 5;
  abort_at_token = false;
  abort_at_storage = false;
  abort_at_rows = false;
  abort_requested = false;
  cancelled = false;
}

left_running :
    execute_retry_run 6 fast worlds broken parts (state_at RunStatus.pending)
    ≡ some (
      (
        raised_other,
        record (state_at RunStatus.pending) {
          row = record (row_at RunStatus.running) { started = true };
          published = run_started ∷ [];
        },
      ),
      none,
    )
unfolding execute_retry_run
left_running = refl

-- The API aborts the run during the call for the token.
left_aborted :
    execute_retry_run 6 fast worlds
      (record broken { abort_at_token = true })
      parts
      (state_at RunStatus.pending)
    ≡ some (
      (
        raised_other,
        record (state_at RunStatus.pending) {
          row = record (row_at RunStatus.aborted) { started = true; completed = true };
          published = run_started ∷ [];
        },
      ),
      none,
    )
unfolding execute_retry_run
left_aborted = refl

-- The second of two tasks raises.
abbrev degraded : State
degraded = record {
  row = record (row_at RunStatus.completed_with_errors) {
    started = true;
    completed = true;
    total_records = some 3;
    total_success = some 2;
    total_errors = some 1;
  };
  jobs = [];
  published = run_completed RunStatus.completed_with_errors ∷ run_started ∷ [];
  fired = RunStatus.completed_with_errors ∷ [];
}

abbrev degraded_end : RetryEnd
degraded_end = ((returned, degraded), some (JobStatus.job_complete ∷ JobStatus.failed ∷ []))

degraded_run :
    execute_retry_run 6 fast worlds
      (record broken { rows_inserted = true })
      parts
      (state_at RunStatus.pending)
    ≡ some degraded_end
unfolding execute_retry_run total_errors total_success gather run_task process_partition submit
    poll_loop download_and_persist_results finish fetch_file ◌>>=◌ check_before_submit
    mark_uploading record_sf_job mark_in_progress attempt new_job is_terminal_state is_intermediate
degraded_run = refl

execute_retry_run-IsEnd_example : IsEnd [] (returned, degraded)
execute_retry_run-IsEnd_example =
    execute_retry_run-IsEnd 6 fast worlds (record broken { rows_inserted = true }) parts
      (state_at RunStatus.pending) degraded_end degraded_run
