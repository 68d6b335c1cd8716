-- ===== src/Partition.antt =====
-- backend/app/services/partition_executor.py and the download of results of
-- backend/app/services/result_persistence.py: one CSV partition as one Bulk API job. What the calls to
-- Salesforce, the storage and the clock answer is a `World`. The task has its own database session and
-- its own job row; what it tells the breaker that it shares with other tasks is its `report`.
pub mod Leads
pub mod Lifecycle
pub mod Polling
pub mod Counts
use sf_bulk_loader.Prelude.{
  ℕ, zero, suc, ◌+◌, ◌-◌, ◌*◌, min, Bool, true, false, Option, none, some, List, [], ◌∷◌, ltb, leb,
  ◌==◌, if◌then◌else◌, ◌&&◌,
}
use sf_bulk_loader.Job.{
  Uuid, Ref, JobStatus, JobRecord, SfState, is_terminal_state, Call, reply, bulk_api_error,
  other_error,
}

-- `poll_job_once`: the state, and the records processed and failed so far.
pub record PollReply : Type 0 where
  pub state : SfState
  pub processed : ℕ
  pub failed : ℕ

-- `output_storage.write_bytes`
pub data Write : Type 0 where
  written : Ref → Write
  output_storage_error : Write
  write_crash : Write

-- A result file: `none` for an empty body, else the data rows that `count_csv_rows` finds in it.
abbrev pub Download : Type 0
Download = Call (Option ℕ)

pub record World : Type 0 where
  pub run_is_aborted : Bool
  pub breaker_tripped : Bool
  pub create_job : Call Uuid
  pub upload_csv : Call (Unit {0})
  pub close_job : Call (Unit {0})
  pub poll_job_once : ℕ → Call PollReply
  -- seconds since the loop began, read after the poll of the given round
  pub elapsed : ℕ → ℕ
  pub abort_job : Call (Unit {0})
  pub get_success_results : Download
  pub get_failed_results : Download
  pub get_unprocessed_results : Download
  pub write_success : Write
  pub write_errors : Write
  pub write_unprocessed : Write

pub record Settings : Type 0 where
  pub sf_poll_interval_initial : ℕ
  pub sf_poll_interval_max : ℕ
  pub sf_job_max_poll_seconds : ℕ

-- The job row, the statuses committed so far and those published (newest first), and what
-- `update_circuit_breaker` was told.
pub record Session : Type 0 where
  pub job : JobRecord
  pub committed : List JobStatus
  pub published : List JobStatus
  pub report : Option Bool

-- A step of the body goes on, returns `(success, errors)`, raises, or has used up its fuel.
pub data Flow (A : Type 0) : Type 0 where
  next : A → Flow A
  done : ℕ → ℕ → Flow A
  raised : Flow A
  out_of_fuel : Flow A

abbrev pub M : Type 0 → Type 0
M A = Session → Flow A × Session

abbrev pub continue : {A B : Type 0} → Flow A → (A → M B) → M B
continue (next a) f s = f a s
continue (done x y) f s = (done x y, s)
continue raised f s = (raised, s)
continue out_of_fuel f s = (out_of_fuel, s)

infixl 5 ◌>>=◌ ◌>>◌
unfoldable pub ◌>>=◌ : {A B : Type 0} → M A → (A → M B) → M B
◌>>=◌ m f s = continue (m s).0 f (m s).1

abbrev pub ◌>>◌ : {B : Type 0} → M (Unit {0}) → M B → M B
m >> k = m >>= λ _. k

abbrev pub give : {A : Type 0} → A → M A
give a s = (next a, s)

unfoldable pub commit : Session → Session
commit s = record s { committed = s.job.status ∷ s.committed }

unfoldable pub publish : JobStatus → Session → Session
publish st s = record s { published = st ∷ s.published }

unfoldable pub set_status : JobStatus → Session → Session
set_status st s = record s { job = record s.job { status = st } }

-- The handlers of `BulkAPIError`: the row is failed, the breaker is told, `return 0, 0`.
unfoldable pub fail_job : {A : Type 0} → M A
unfolding commit publish
fail_job s =
    let failed_row = record s.job {
      status = JobStatus.failed;
      has_error_message = true;
      completed = true;
    } in
    (
      done 0 0,
      record (publish JobStatus.failed (commit (record s { job = failed_row }))) {
        report = some false;
      },
    )

unfoldable pub attempt : {A : Type 0} → Call A → M A
unfolding fail_job
attempt (reply a) s = (next a, s)
attempt bulk_api_error s = fail_job s
attempt other_error s = (raised, s)

-- Abort and breaker checks, made under the semaphore.
unfoldable pub check_before_submit : World → M (Unit {0})
unfolding commit set_status
check_before_submit w s =
    if w.run_is_aborted
    then (done 0 0, commit (set_status JobStatus.aborted s))
    else if w.breaker_tripped
    then (done 0 0, commit (set_status JobStatus.aborted s))
    else (next tt, s)

unfoldable pub mark_uploading : M (Unit {0})
unfolding commit
mark_uploading s = (
  next tt,
  commit (record s { job = record s.job { status = JobStatus.uploading; started = true } }),
)

unfoldable pub record_sf_job : Uuid → M (Unit {0})
unfolding commit publish
record_sf_job id s = (
  next tt,
  publish JobStatus.uploading (commit (record s { job = record s.job { sf_job_id = some id } })),
)

unfoldable pub mark_in_progress : M (Unit {0})
unfolding commit publish set_status
mark_in_progress s =
    let up = publish JobStatus.upload_complete (commit (set_status JobStatus.upload_complete s)) in
    (next tt, commit (set_status JobStatus.in_progress up))

-- `if processed != last_processed`; the sentinel -1 of the first round is `none`.
unfoldable pub unchanged : Option ℕ → ℕ → Bool
unchanged none p = false
unchanged (some q) p = q == p

unfoldable pub save_progress : Option ℕ → PollReply → Session → Session
unfolding commit publish unchanged
save_progress last r s =
    if unchanged last r.processed
    then s
    else publish JobStatus.in_progress (
        commit (record s {
          job = record s.job {
            records_processed = some r.processed;
            records_failed = some r.failed;
          };
        }))

-- The hard cap: a best-effort abort, then `BulkJobPollTimeout`, which is a `BulkAPIError`.
unfoldable pub give_up : Call (Unit {0}) → M SfState
unfolding fail_job
give_up other_error s = (raised, s)
give_up _ s = fail_job s

unfoldable pub past_cap : ℕ → ℕ → Bool
past_cap cap elapsed = ltb 0 cap && leb cap elapsed

unfoldable pub break_loop : PollReply → M SfState
break_loop r s = (next r.state, record s { job = record s.job { has_api_response = true } })

-- What one round does with the answer to its poll; `again` is the loop's next round.
unfoldable pub poll_round :
    Settings → World → ℕ → Option ℕ → Call PollReply → (ℕ → M SfState) → M SfState
unfolding give_up past_cap break_loop fail_job save_progress
poll_round c w i last bulk_api_error again s = fail_job s
poll_round c w i last other_error again s = (raised, s)
poll_round c w i last (reply r) again s =
    if is_terminal_state r.state
    then break_loop r (save_progress last r s)
    else if past_cap c.sf_job_max_poll_seconds (w.elapsed i)
    then give_up w.abort_job (save_progress last r s)
    else again r.processed (save_progress last r s)

-- `while True`, in round `i`; `interval` is the time of the next sleep.
unfoldable pub poll_loop : ℕ → Settings → World → ℕ → ℕ → Option ℕ → M SfState
unfolding poll_round
poll_loop zero c w i interval last s = (out_of_fuel, s)
poll_loop (suc fuel) c w i interval last s =
    poll_round c w i last (w.poll_job_once i)
      (λ processed s'.
        poll_loop fuel c w (i + 1) (min (interval * 2) c.sf_poll_interval_max) (some processed) s')
      s

-- The path field of the row after a write that did not crash.
unfoldable pub path_after : Write → Option Ref → Option Ref
path_after (written ref) old = some ref
path_after output_storage_error old = old
path_after write_crash old = old

unfoldable pub crashes : Option ℕ → Write → Bool
crashes none w = false
crashes (some n) write_crash = true
crashes (some n) _ = false

-- One of the three `try` blocks of `download_and_persist_results`: the rows counted. A body that is
-- empty writes nothing; a download that fails with `BulkAPIError` counts none; any other exception,
-- of the download or of the write, leaves the function.
unfoldable pub fetch_file : Download → Write → (Write → JobRecord → JobRecord) → M ℕ
unfolding crashes
fetch_file bulk_api_error w save s = (next 0, s)
fetch_file other_error w save s = (raised, s)
fetch_file (reply none) w save s = (next 0, s)
fetch_file (reply (some n)) w save s =
    if crashes (some n) w then (raised, s) else (next n, record s { job = save w s.job })

abbrev pub save_success : Write → JobRecord → JobRecord
save_success w j = record j { success_file_path = path_after w j.success_file_path }

abbrev pub save_errors : Write → JobRecord → JobRecord
save_errors w j = record j { error_file_path = path_after w j.error_file_path }

abbrev pub save_unprocessed : Write → JobRecord → JobRecord
save_unprocessed w j = record j { unprocessed_file_path = path_after w j.unprocessed_file_path }

-- The pair `(records_processed, records_failed)`.
unfoldable pub download_and_persist_results : World → M (ℕ × ℕ)
download_and_persist_results w = do
  good ← fetch_file w.get_success_results w.write_success save_success
  bad ← fetch_file w.get_failed_results w.write_errors save_errors
  _ ← fetch_file w.get_unprocessed_results w.write_unprocessed save_unprocessed
  give (good + bad, bad)

-- `status_map.get(terminal_state, JobStatus.failed)`
unfoldable pub final_status : SfState → JobStatus
final_status SfState.job_complete = JobStatus.job_complete
final_status SfState.failed = JobStatus.failed
final_status SfState.aborted = JobStatus.aborted
final_status SfState.other = JobStatus.failed

unfoldable pub breaker_report : SfState → Option Bool
breaker_report SfState.job_complete = some true
breaker_report SfState.failed = some false
breaker_report SfState.aborted = none
breaker_report SfState.other = none

-- The final commit. `records_failed` is part of `records_processed`, so `-` does not stop at 0.
unfoldable pub finish : SfState → ℕ × ℕ → M (Unit {0})
unfolding commit publish final_status breaker_report
finish state (processed, failed) s =
    let row = record s.job {
      status = final_status state;
      records_processed = some processed;
      records_failed = some failed;
      completed = true;
    } in
    (
      done (processed - failed) failed,
      record (publish (final_status state) (commit (record s { job = row }))) {
        report = breaker_report state;
      },
    )

unfoldable pub submit : World → M (Unit {0})
submit w = do
  mark_uploading
  id ← attempt w.create_job
  record_sf_job id
  attempt w.upload_csv
  attempt w.close_job
  mark_in_progress

unfoldable pub process_partition : ℕ → Settings → World → M (Unit {0})
process_partition fuel c w = do
  check_before_submit w
  submit w
  state ← poll_loop fuel c w 0 c.sf_poll_interval_initial none
  counts ← download_and_persist_results w
  finish state counts

unfoldable pub open_session : JobRecord → Session
open_session job = record { job = job; committed = []; published = []; report = none }
