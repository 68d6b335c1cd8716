-- ===== src/Scenarios/Partitions.antt =====
-- One partition on concrete answers of Salesforce.
use sf_bulk_loader.Prelude.{
  ℕ, zero, suc, ◌≤◌, ◌≡◌, ◌≢◌, refl, false, none, some, [], ◌∷◌, arith, ◌⊎◌,
}
use sf_bulk_loader.Job.{JobStatus, SfState, Call, reply, bulk_api_error, new_job, is_terminal_state}
use sf_bulk_loader.Partition.{
  World, Settings, PollReply, written, Session, open_session, process_partition, done, out_of_fuel,
  ◌>>=◌, check_before_submit, submit, poll_loop, download_and_persist_results, finish, fetch_file,
  mark_uploading, record_sf_job, mark_in_progress, attempt,
}
use sf_bulk_loader.Partition.Leads.{Ends}
use sf_bulk_loader.Partition.Lifecycle.{process_partition-Ends}
use sf_bulk_loader.Partition.Counts.{Nothing, Counted, process_partition-Counted}
use sf_bulk_loader.Partition.Polling.{Ticks, interval_at, process_partition-terminates}

-- Complete at the second poll, with two good rows and one bad.
abbrev pub poll_answers : ℕ → Call PollReply
poll_answers zero = reply (record { state = SfState.other; processed = 0; failed = 0 })
poll_answers (suc i) = reply (record { state = SfState.job_complete; processed = 3; failed = 1 })

abbrev pub good_world : World
good_world = record {
  run_is_aborted = false;
  breaker_tripped = false;
  create_job = reply 750;
  upload_csv = reply tt;
  close_job = reply tt;
  poll_job_once = poll_answers;
  elapsed = λ i. i;
  abort_job = bulk_api_error;
  get_success_results = reply (some 2);
  get_failed_results = reply (some 1);
  get_unprocessed_results = reply none;
  write_success = written 1;
  write_errors = written 2;
  write_unprocessed = written 3;
}

abbrev pub fast : Settings
fast = record {
  sf_poll_interval_initial = 1;
  sf_poll_interval_max = 1;
  sf_job_max_poll_seconds = 5;
}

abbrev start : Session
start = open_session (new_job 0 (some 3))

good_run : (process_partition 6 fast good_world start).0 ≡ done 2 1
unfolding process_partition submit poll_loop download_and_persist_results finish fetch_file
    mark_uploading record_sf_job mark_in_progress attempt check_before_submit ◌>>=◌ open_session
    new_job is_terminal_state
good_run = refl

good_path :
    (process_partition 6 fast good_world start).1.committed
    ≡ JobStatus.job_complete ∷ JobStatus.in_progress ∷ JobStatus.in_progress ∷ JobStatus.in_progress
      ∷ JobStatus.upload_complete ∷ JobStatus.uploading ∷ JobStatus.uploading ∷ []
unfolding process_partition submit poll_loop download_and_persist_results finish fetch_file
    mark_uploading record_sf_job mark_in_progress attempt check_before_submit ◌>>=◌ open_session
    new_job is_terminal_state
good_path = refl

process_partition-Ends_example : Ends (process_partition 6 fast good_world start)
unfolding new_job
process_partition-Ends_example = process_partition-Ends 6 fast good_world (new_job 0 (some 3)) refl

interval_fast : (i : ℕ) → interval_at fast i ≤ 1
interval_fast zero = omega arith
interval_fast (suc i) = omega arith

pub good-Ticks : Ticks fast good_world
good-Ticks = record {
  initial = omega arith;
  maximum = omega arith;
  capped = omega arith;
  sleeps = λ i. omega (arith, interval_fast i);
}

process_partition-terminates_example : (process_partition 6 fast good_world start).0 ≢ out_of_fuel
process_partition-terminates_example = process_partition-terminates fast good_world start good-Ticks

process_partition-Counted_example :
    Nothing 2 1 (process_partition 6 fast good_world start).1
    ⊎ Counted good_world 2 1 (process_partition 6 fast good_world start).1
process_partition-Counted_example = process_partition-Counted 6 fast good_world start 2 1 good_run
