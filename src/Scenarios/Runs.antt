-- ===== src/Scenarios/Runs.antt =====
-- Runs of one and two steps.
use sf_bulk_loader.Prelude.{ℕ, ◌≡◌, ◌≢◌, refl, Bool, true, false, none, [], ◌∷◌, List, some}
use sf_bulk_loader.Job.{RunStatus}
use sf_bulk_loader.Run.Summary.{null}
use sf_bulk_loader.Run.{
  LoadRun, LoadPlan, State, StepWorld, totals, World, passed, execute_run, run_steps, no_totals,
  publish, interfere, step_started, exceeds_threshold,
}
use sf_bulk_loader.Run.Terminal.{Settled, execute_run-Settled}
use sf_bulk_loader.Run.Accounts.{IsAccounted, execute_run-IsAccounted, is_completed}
use sf_bulk_loader.Run.Abort.{Passes, abort-lost_in_last_step}
use sf_bulk_loader.Run.Completes.{IsClean, execute_run-completes}
use sf_bulk_loader.Run.Requests.{abort_run, accepted}
use sf_bulk_loader.Job.{JobRecord, JobStatus, new_job}

abbrev pub plan : LoadPlan
plan = record { abort_on_step_failure = true; error_threshold = 1000 }

abbrev step : ℕ → Bool → StepWorld
step id asked = record {
  id = id;
  abort_requested = asked;
  result = totals 99 1;
  rows = [];
  breaker_tripped = false;
}

abbrev pub row_at : RunStatus → LoadRun
row_at st = record {
  status = st;
  started = false;
  completed = false;
  total_records = none;
  total_success = none;
  total_errors = none;
  error_summary = null;
}

abbrev pub state_at : RunStatus → State
state_at st = record { row = row_at st; jobs = []; published = []; fired = [] }

abbrev pub world : World
world = record {
  preflight_total = 200;
  has_preflight_warnings = false;
  preflight_cancelled = false;
  output_storage = passed;
  access_token = passed;
  abort_before_first_step = false;
  steps = step 1 false ∷ step 2 false ∷ [];
}

step-Passes : (id : ℕ) (asked : Bool) → Passes plan (step id asked) 99 1
unfolding exceeds_threshold
step-Passes id asked = record { result = refl; tolerated = refl; untripped = refl }

world-IsClean : IsClean plan world
world-IsClean = record {
  preflight_done = refl;
  storage_found = refl;
  token_found = refl;
  unasked = refl;
  steps_calm = (
    record { success = 99; errors = 1; passes = step-Passes 1 false; unasked = refl },
    (record { success = 99; errors = 1; passes = step-Passes 2 false; unasked = refl }, tt),
  );
}

execute_run-Settled_example : Settled (execute_run plan world (state_at RunStatus.pending))
execute_run-Settled_example = execute_run-Settled plan world (state_at RunStatus.pending) refl

-- A run whose row the API has aborted before its task started.
execute_run-completes_example :
    is_completed (execute_run plan world (state_at RunStatus.aborted)).1.row.status ≡ true
execute_run-completes_example =
    execute_run-completes plan world (state_at RunStatus.aborted) world-IsClean

execute_run-IsAccounted_example :
    IsAccounted plan world.steps (execute_run plan world (state_at RunStatus.pending)).1.row
execute_run-IsAccounted_example =
    execute_run-IsAccounted plan world (state_at RunStatus.pending)
      (execute_run-completes plan world (state_at RunStatus.pending) world-IsClean)

abort-lost_in_last_step_example :
    ((interfere true (publish (step_started 1) (state_at RunStatus.running))).row.status
      ≡ RunStatus.aborted)
    × ((run_steps plan (step 1 true ∷ []) no_totals (state_at RunStatus.running)).1.row.status
        ≢ RunStatus.aborted)
abort-lost_in_last_step_example =
    abort-lost_in_last_step plan (step 1 true) no_totals (state_at RunStatus.running) 99 1 refl refl
      (step-Passes 1 true)

-- One job has its upload complete, one is still to come, one is done.
abbrev three_jobs : List JobRecord
three_jobs =
    record (new_job 0 (some 2)) { status = JobStatus.upload_complete }
    ∷ new_job 1 (some 2)
    ∷ record (new_job 2 (some 2)) { status = JobStatus.job_complete }
    ∷ []

abbrev busy : State
busy = record (state_at RunStatus.running) { jobs = three_jobs }

abbrev aborted_jobs : List JobRecord
aborted_jobs =
    record (new_job 0 (some 2)) { status = JobStatus.upload_complete }
    ∷ record (new_job 1 (some 2)) { status = JobStatus.aborted }
    ∷ record (new_job 2 (some 2)) { status = JobStatus.job_complete }
    ∷ []

upload_complete_stays :
    abort_run (some busy)
    ≡ accepted (record busy {
      row = record (row_at RunStatus.aborted) { completed = true };
      jobs = aborted_jobs;
    })
unfolding abort_run new_job
upload_complete_stays = refl
