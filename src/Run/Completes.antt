-- ===== src/Run/Completes.antt =====
-- A run that nothing disturbs completes, whatever its row said before.
use sf_bulk_loader.Prelude.{ℕ, ◌≡◌, refl, Bool, true, false, List, [], ◌∷◌, All, arith}
use sf_bulk_loader.Job.{RunStatus}
use sf_bulk_loader.Run.{
  LoadPlan, State, StepWorld, World, passed, Totals, finalise, interfere, phase, preflight,
  run_steps, no_totals, execute_run_body, execute_run, mark_running, handle_exit, backstop,
  exceeds_threshold, add_step, publish, returned, Outcome,
}
use sf_bulk_loader.Run.Abort.{Passes, executed, run_steps-Passes, running-goes_on}
use sf_bulk_loader.Run.Accounts.{is_completed}

-- A step that ends with totals and neither ends the run nor meets an abort request.
pub record IsCalm (plan : LoadPlan) (w : StepWorld) : Type 0 where
  pub success : ℕ
  pub errors : ℕ
  pub passes : Passes plan w success errors
  pub unasked : w.abort_requested ≡ false

pub record IsClean (plan : LoadPlan) (w : World) : Type 0 where
  pub preflight_done : w.preflight_cancelled ≡ false
  pub storage_found : w.output_storage ≡ passed
  pub token_found : w.access_token ≡ passed
  pub unasked : w.abort_before_first_step ≡ false
  pub steps_calm : All (IsCalm plan) w.steps

executed-running :
    (w : StepWorld) (failed : Bool) (s : State)
    → s.row.status ≡ RunStatus.running
    → w.abort_requested ≡ false
    → (executed w failed s).row.status ≡ RunStatus.running
unfolding interfere publish
executed-running w failed s r n = ground arith

run_steps-completes :
    (plan : LoadPlan) (ws : List StepWorld) (t : Totals) (s : State)
    → s.row.status ≡ RunStatus.running
    → All (IsCalm plan) ws
    → ((run_steps plan ws t s).0 ≡ returned)
      × (is_completed (run_steps plan ws t s).1.row.status ≡ true)
unfolding run_steps finalise
run_steps-completes plan [] t s r c = ground arith
run_steps-completes plan (w ∷ rest) t s r (calm, c) =
    let failed = exceeds_threshold plan calm.success calm.errors in
    rw (run_steps-Passes plan w rest t s calm.success calm.errors (running-goes_on s r) calm.passes)
      (run_steps-completes plan rest (add_step calm.success calm.errors failed t)
        (executed w failed s) (executed-running w failed s r calm.unasked) c)

preflight-running :
    (w : World) (s : State)
    → s.row.status ≡ RunStatus.running
    → (preflight w s).row.status ≡ RunStatus.running
unfolding preflight
preflight-running w s r = ground arith

body-completes :
    (plan : LoadPlan) (w : World) (s : State)
    → s.row.status ≡ RunStatus.running
    → IsClean plan w
    → ((execute_run_body plan w s).0 ≡ returned)
      × (is_completed (execute_run_body plan w s).1.row.status ≡ true)
unfolding execute_run_body phase interfere preflight
body-completes plan w s r c =
    rw (c.preflight_done, c.storage_found, c.token_found, c.unasked)
      (run_steps-completes plan w.steps no_totals _ (preflight-running w s r) c.steps_calm)

exit-completes :
    (o : Outcome)
    → o.0 ≡ returned
    → is_completed o.1.row.status ≡ true
    → is_completed (backstop (handle_exit o).1).row.status ≡ true
unfolding handle_exit backstop
exit-completes o e c = ground arith

-- A run whose preflight, storage and token calls succeed, whose steps end with totals that neither the
-- threshold nor the breaker turns into an abort, and which is not asked to abort once its task has
-- started, ends as completed or completed_with_errors, whatever the status of its row was before the
-- task started: aborted included.
pub execute_run-completes :
    (plan : LoadPlan) (w : World) (s : State)
    → IsClean plan w
    → is_completed (execute_run plan w s).1.row.status ≡ true
unfolding execute_run mark_running publish
execute_run-completes plan w s c =
    let (e, done) = body-completes plan w _ refl c in exit-completes _ e done
