-- ===== src/Scenarios/Steps.antt =====
-- A step of two files with two partitions each: the second upload raises an unexpected exception.
use sf_bulk_loader.Prelude.{
  ℕ, zero, suc, ◌≡◌, refl, true, false, none, some, List, [], ◌∷◌, ◌++◌, All, length, replicate,
}
use sf_bulk_loader.Job.{
  JobStatus, new_job, bulk_api_error, other_error, is_intermediate, is_terminal_state,
}
use sf_bulk_loader.Partition.{
  World, process_partition, submit, poll_loop, download_and_persist_results, finish, fetch_file,
  ◌>>=◌, check_before_submit, mark_uploading, record_sf_job, mark_in_progress, attempt,
}
use sf_bulk_loader.Csv.{partition_csv}
use sf_bulk_loader.Csv.Retry.{partition_files}
use sf_bulk_loader.Run.{LoadPlan, totals, exceeds_threshold}
use sf_bulk_loader.Step.{
  Ended, returned, exception, gather, run_task, files, execute_dml_step, effective_partition_size,
}
use sf_bulk_loader.Step.Sweep.{IsSwept, gather-IsSwept}
use sf_bulk_loader.Step.Refused.{execute_dml_step-refused}
use sf_bulk_loader.Step.Query.{
  execute_query_step, resolve_step_input, query_result, path, is_upstream,
  resolve-execute_query_step, job_row, JobRow,
}
use sf_bulk_loader.Scenarios.Partitions.{good_world, fast}
use sf_bulk_loader.Scenarios.Files.{file, parts, two_files}

abbrev pub worlds : ℕ → World
worlds zero = good_world
worlds (suc i) = record good_world { upload_csv = other_error }

abbrev ends : List Ended
ends =
    record { result = returned 2 1; status = JobStatus.job_complete }
    ∷ record { result = exception; status = JobStatus.uploading }
    ∷ []

gathered_two : gather 6 fast worlds 0 parts ≡ some ends
unfolding gather run_task process_partition submit poll_loop download_and_persist_results finish
    fetch_file ◌>>=◌ check_before_submit mark_uploading record_sf_job mark_in_progress attempt
    new_job is_terminal_state
gathered_two = refl

gather-IsSwept_example : (length ends ≡ length parts) × All IsSwept ends
gather-IsSwept_example = gather-IsSwept 6 fast worlds parts ends gathered_two

step_end :
    execute_dml_step 6 fast worlds none 2 (files (file ∷ []))
    ≡ some (totals 2 1, JobStatus.job_complete ∷ JobStatus.failed ∷ [])
unfolding execute_dml_step partition_files partition_csv process_partition ◌>>=◌ check_before_submit
    submit mark_uploading attempt record_sf_job mark_in_progress poll_loop is_terminal_state
    download_and_persist_results fetch_file finish is_intermediate
step_end = refl

abbrev refusing : World
refusing = record good_world { create_job = bulk_api_error }

abbrev strict : LoadPlan
strict = record { abort_on_step_failure = true; error_threshold = 0 }

execute_dml_step-refused_example :
    (execute_dml_step 6 fast (λ i. refusing) none 2 (files (file ∷ file ∷ []))
      ≡ some (totals 0 0, replicate 4 JobStatus.failed))
    × (exceeds_threshold strict 0 0 ≡ false)
unfolding effective_partition_size
execute_dml_step-refused_example =
    execute_dml_step-refused 6 fast (λ i. refusing) none 2 file (file ∷ []) (parts ++ parts) strict
      (λ i. record { running = refl; closed = refl; refused = refl }) two_files

-- The table holds a row of the same step in another run.
abbrev table : List JobRow
table = job_row 8 3 (new_job 0 none) ∷ []

resolve-execute_query_step_example :
    resolve_step_input 9 3 (execute_query_step 9 3 (query_result 40 77 true) table).1 ≡ path 77
unfolding is_upstream new_job
resolve-execute_query_step_example =
    resolve-execute_query_step 9 3 (query_result 40 77 true) table refl
