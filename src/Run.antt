-- ===== src/Run.antt =====
-- backend/app/services/run_coordinator.py: the life of one run. The run's row in the database is
-- shared with the API, whose abort request may come while a step executes; what the calls out of the
-- coordinator answer, and when the abort request comes, is a `World`. Sessions and the event and
-- metrics calls are taken to succeed; a failure of one is an exception `other_exception` of its phase.
-- Thresholds in percent are exact numbers of hundredths of a percent in place of floats.
pub mod Summary
pub mod Terminal
pub mod Abort
pub mod Requests
pub mod Accounts
pub mod Completes
use sf_bulk_loader.Prelude.{
  ℕ, zero, suc, ◌+◌, ◌*◌, Bool, true, false, Option, none, some, List, [], ◌∷◌, ◌++◌, ltb, leb,
  if◌then◌else◌, ◌&&◌, ◌||◌,
}
use sf_bulk_loader.Job.{Uuid, JobStatus, JobRecord, RunStatus}
use Summary.{
  SummaryKey, SummaryColumn, merge_summary, preflight_warnings, output_storage_error, auth_error,
  storage_error, unexpected_exception, circuit_breaker, unknown_exit,
}

pub record LoadRun : Type 0 where
  pub status : RunStatus
  pub started : Bool
  pub completed : Bool
  pub total_records : Option ℕ
  pub total_success : Option ℕ
  pub total_errors : Option ℕ
  pub error_summary : SummaryColumn

pub record LoadPlan : Type 0 where
  pub abort_on_step_failure : Bool
  pub error_threshold : ℕ

pub data RunEvent : Type 0 where
  run_started : RunEvent
  step_started : Uuid → RunEvent
  step_completed : Uuid → Bool → RunEvent
  run_aborted : RunEvent
  run_failed : RunEvent
  run_completed : RunStatus → RunEvent

-- The row, the run's jobs, what was published and the calls of `fire_terminal_notifications`, newest
-- first.
pub record State : Type 0 where
  pub row : LoadRun
  pub jobs : List JobRecord
  pub published : List RunEvent
  pub fired : List RunStatus

-- How `execute_step` ends.
pub data StepResult : Type 0 where
  totals : ℕ → ℕ → StepResult
  input_storage_error : StepResult
  cancelled : StepResult
  unexpected : StepResult

-- One step of the plan: its id, whether the API aborts the run while it executes, how it ends, the
-- job rows that it leaves, and whether the breaker has tripped after it.
pub record StepWorld : Type 0 where
  pub id : Uuid
  pub abort_requested : Bool
  pub result : StepResult
  pub rows : List JobRecord
  pub breaker_tripped : Bool

-- A phase before the steps.
pub data Phase : Type 0 where
  passed : Phase
  refused : Phase
  cancelled_phase : Phase
  other_exception : Phase

pub record World : Type 0 where
  pub preflight_total : ℕ
  pub has_preflight_warnings : Bool
  -- the preflight block catches every exception but a cancellation
  pub preflight_cancelled : Bool
  pub output_storage : Phase
  pub access_token : Phase
  pub abort_before_first_step : Bool
  pub steps : List StepWorld

-- How the body is left.
pub data Exit : Type 0 where
  returned : Exit
  raised_cancelled : Exit
  raised_other : Exit

abbrev pub Outcome : Type 0
Outcome = Exit × State

unfoldable pub publish : RunEvent → State → State
publish e s = record s { published = e ∷ s.published }

unfoldable pub fire : RunStatus → State → State
fire st s = record s { fired = st ∷ s.fired }

unfoldable pub mark : RunStatus → State → State
mark st s = record s { row = record s.row { status = st; completed = true } }

unfoldable pub merge_key : SummaryKey → State → State
merge_key k s = record s {
  row = record s.row { error_summary = merge_summary k s.row.error_summary };
}

-- `_mark_run_failed` and `_mark_run_failed_fresh` with a summary of one key.
unfoldable pub mark_run_failed : SummaryKey → State → State
unfolding mark merge_key
mark_run_failed k s = merge_key k (mark RunStatus.failed s)

-- The request of the API, `abort_run` of load_run_service.py, as it changes the run's row.
unfoldable pub api_abort : State → State
unfolding mark
api_abort s = elim s.row.status [
  | RunStatus.pending ↦ mark RunStatus.aborted s
  | RunStatus.running ↦ mark RunStatus.aborted s
  | _ ↦ s
]

-- The handlers that fail the run: row, event, notifications, `return`.
unfoldable pub fail_run : SummaryKey → State → Outcome
unfolding mark_run_failed publish fire
fail_run k s = (returned, fire RunStatus.failed (publish run_failed (mark_run_failed k s)))

-- One job of `_abort_remaining_jobs`. A job at Salesforce is aborted there if that succeeds; a
-- pending one gets no `completed_at`.
unfoldable pub abort_row : JobStatus → JobRecord → JobRecord
abort_row JobStatus.pending j = record j { status = JobStatus.aborted }
abort_row JobStatus.uploading j = record j { status = JobStatus.aborted; completed = true }
abort_row JobStatus.upload_complete j = record j { status = JobStatus.aborted; completed = true }
abort_row JobStatus.in_progress j = record j { status = JobStatus.aborted; completed = true }
abort_row _ j = j

unfoldable pub abort_remaining_jobs : List JobRecord → List JobRecord
unfolding abort_row
abort_remaining_jobs [] = []
abort_remaining_jobs (j ∷ jobs) = abort_row j.status j ∷ abort_remaining_jobs jobs

-- The running totals of the step loop.
pub record Totals : Type 0 where
  pub records : ℕ
  pub success : ℕ
  pub errors : ℕ
  pub any_step_failed : Bool

unfoldable pub add_step : ℕ → ℕ → Bool → Totals → Totals
add_step success errors failed t = record {
  records = t.records + (success + errors);
  success = t.success + success;
  errors = t.errors + errors;
  any_step_failed = failed || t.any_step_failed;
}

-- `step_errors / total > error_threshold_pct / 100`, with rate 0 for a step without records.
unfoldable pub exceeds_threshold : LoadPlan → ℕ → ℕ → Bool
exceeds_threshold plan success errors =
    ltb (plan.error_threshold * (success + errors)) (errors * 10000)

unfoldable pub store_totals : RunStatus → Totals → State → State
store_totals st t s = record s {
  row = record s.row {
    status = st;
    completed = true;
    total_records = some t.records;
    total_success = some t.success;
    total_errors = some t.errors;
  };
}

-- Ending the run after a step: by the threshold, or by the breaker.
unfoldable pub abort_after_step : Totals → State → State
unfolding abort_remaining_jobs store_totals
abort_after_step t s =
    store_totals RunStatus.aborted t (record s { jobs = abort_remaining_jobs s.jobs })

unfoldable pub end_aborted : State → Outcome
unfolding fire publish
end_aborted s = (returned, fire RunStatus.aborted (publish run_aborted s))

unfoldable pub finalise : Totals → State → Outcome
unfolding fire publish store_totals
finalise t s =
    let st = if t.any_step_failed then RunStatus.completed_with_errors else RunStatus.completed in
    (returned, fire st (publish (run_completed st) (store_totals st t s)))

-- The abort request of the API, if there is one, is in the database when the row is next read.
unfoldable pub interfere : Bool → State → State
unfolding api_abort
interfere requested s = if requested then api_abort s else s

-- What follows the totals of a step: `again` is the next step of the loop.
unfoldable pub after_step :
    LoadPlan → StepWorld → ℕ → ℕ → Totals → State → (Totals → State → Outcome) → Outcome
unfolding add_step exceeds_threshold abort_after_step end_aborted publish merge_key
after_step plan w success errors t s again =
    let failed = exceeds_threshold plan success errors in
    let t' = add_step success errors failed t in
    let s' = publish (step_completed w.id failed) s in
    if failed && plan.abort_on_step_failure
    then end_aborted (abort_after_step t' s')
    else if w.breaker_tripped
    then end_aborted (merge_key circuit_breaker (abort_after_step t' s'))
    else again t' s'

unfoldable pub step_result :
    LoadPlan → StepWorld → StepResult → Totals → State → (Totals → State → Outcome) → Outcome
unfolding after_step fail_run mark end_aborted
step_result plan w (totals success errors) t s again = after_step plan w success errors t s again
step_result plan w input_storage_error t s again = fail_run storage_error s
step_result plan w cancelled t s again =
    (raised_cancelled, (end_aborted (mark RunStatus.aborted s)).1)
step_result plan w unexpected t s again = fail_run unexpected_exception s

unfoldable pub is_aborted : RunStatus → Bool
is_aborted RunStatus.aborted = true
is_aborted _ = false

-- `for step in steps`, and what follows the loop.
unfoldable pub run_steps : LoadPlan → List StepWorld → Totals → State → Outcome
unfolding step_result finalise is_aborted end_aborted interfere publish
run_steps plan [] t s = finalise t s
run_steps plan (w ∷ rest) t s =
    let executed = record (interfere w.abort_requested (publish (step_started w.id) s)) {
      jobs = s.jobs ++ w.rows;
    } in
    let outcome = step_result plan w w.result t executed (run_steps plan rest) in
    if is_aborted s.row.status then end_aborted s else outcome

unfoldable pub no_totals : Totals
no_totals = record { records = 0; success = 0; errors = 0; any_step_failed = false }

unfoldable pub preflight : World → State → State
unfolding merge_key
preflight w s =
    let counted = record s {
      row = record s.row {
        total_records =
            if ltb 0 w.preflight_total then some w.preflight_total else s.row.total_records;
      };
    } in
    if w.has_preflight_warnings then merge_key preflight_warnings counted else counted

-- A phase in front of the rest of the body. The token's handler catches every exception.
unfoldable pub phase : Phase → SummaryKey → Bool → State → Outcome → Outcome
unfolding fail_run
phase passed k catches s rest = rest
phase refused k catches s rest = fail_run k s
phase cancelled_phase k catches s rest = (raised_cancelled, s)
phase other_exception k catches s rest = if catches then fail_run k s else (raised_other, s)

unfoldable pub execute_run_body : LoadPlan → World → State → Outcome
unfolding preflight phase run_steps interfere no_totals
execute_run_body plan w s =
    let s' = interfere w.abort_before_first_step (preflight w s) in
    let loop = run_steps plan w.steps no_totals s' in
    if w.preflight_cancelled
    then (raised_cancelled, s)
    else phase w.output_storage output_storage_error false s'
        (phase w.access_token auth_error true s' loop)

unfoldable pub mark_running : State → State
mark_running s = record s { row = record s.row { status = RunStatus.running; started = true } }

unfoldable pub is_running : RunStatus → Bool
is_running RunStatus.running = true
is_running _ = false

-- `_backstop_mark_failed_if_running`, and the notifications if it had to act.
unfoldable pub backstop : State → State
unfolding mark merge_key fire is_running
backstop s =
    if is_running s.row.status
    then fire RunStatus.failed (merge_key unknown_exit (mark RunStatus.failed s))
    else s

-- `except asyncio.CancelledError` of `_execute_run`.
unfoldable pub handle_exit : Outcome → Outcome
unfolding mark end_aborted
handle_exit (raised_cancelled, s) = (raised_cancelled, (end_aborted (mark RunStatus.aborted s)).1)
handle_exit (returned, s) = (returned, s)
handle_exit (raised_other, s) = (raised_other, s)

unfoldable pub execute_run : LoadPlan → World → State → Outcome
unfolding execute_run_body mark_running handle_exit backstop publish
execute_run plan w s =
    let outcome = handle_exit (execute_run_body plan w (publish run_started (mark_running s))) in
    (outcome.0, backstop outcome.1)
