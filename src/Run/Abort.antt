-- ===== src/Run/Abort.antt =====
-- What the abort request of the API does to a run: it stops the run before the next step, is lost if
-- there is none, and is lost if it comes before the background task has started.
use sf_bulk_loader.Prelude.{
  ℕ, ◌≡◌, ◌≢◌, ap, Bool, true, false, List, [], ◌∷◌, ◌++◌, arith, All, ◌&&◌,
}
use sf_bulk_loader.Job.{RunStatus, JobRecord, is_intermediate}
use sf_bulk_loader.Run.{
  LoadPlan, State, StepWorld, totals, publish, Totals, end_aborted, finalise, interfere, after_step,
  step_result, run_steps, is_aborted, exceeds_threshold, add_step, step_started, step_completed,
  run_aborted, abort_remaining_jobs,
}

-- A step that ends with totals, and neither the threshold nor the breaker ends the run after it.
pub record Passes (plan : LoadPlan) (w : StepWorld) (x y : ℕ) : Type 0 where
  pub result : w.result ≡ totals x y
  pub tolerated : (exceeds_threshold plan x y && plan.abort_on_step_failure) ≡ false
  pub untripped : w.breaker_tripped ≡ false

-- The state in which the next step of the loop is reached.
abbrev pub executed : StepWorld → Bool → State → State
executed w failed s =
    publish (step_completed w.id failed)
      (record (interfere w.abort_requested (publish (step_started w.id) s)) {
        jobs = s.jobs ++ w.rows;
      })

pub run_steps-Passes :
    (plan : LoadPlan) (w : StepWorld) (rest : List StepWorld) (t : Totals) (s : State) (x y : ℕ)
    → is_aborted s.row.status ≡ false
    → Passes plan w x y
    → run_steps plan (w ∷ rest) t s
      ≡ run_steps plan rest
          (add_step x y (exceeds_threshold plan x y) t)
          (executed w (exceeds_threshold plan x y) s)
unfolding run_steps step_result after_step
run_steps-Passes plan w rest t s x y n p = rw (n, p.result, p.tolerated, p.untripped)

requested-aborts :
    (failed : Bool) (w : StepWorld) (s : State)
    → s.row.status ≡ RunStatus.running
    → w.abort_requested ≡ true
    → ((executed w failed s).row.status ≡ RunStatus.aborted)
      × ((executed w failed s).published
          ≡ step_completed w.id failed ∷ step_started w.id ∷ s.published)
unfolding interfere publish
requested-aborts failed w s r a = ground arith

pub running-goes_on :
    (s : State) → s.row.status ≡ RunStatus.running → is_aborted s.row.status ≡ false
unfolding is_aborted
running-goes_on s r = rw r

run_steps-stops :
    (plan : LoadPlan) (w : StepWorld) (rest : List StepWorld) (t : Totals) (s : State)
    → s.row.status ≡ RunStatus.aborted
    → run_steps plan (w ∷ rest) t s ≡ end_aborted s
unfolding run_steps is_aborted
run_steps-stops plan w rest t s a = ground arith

finalise-status :
    (plan : LoadPlan) (t : Totals) (s : State)
    → (run_steps plan [] t s).1.row.status ≢ RunStatus.aborted
unfolding run_steps finalise
finalise-status plan t s = ground arith

-- An abort request while a step executes, with another step to come: the run ends as aborted, and
-- after that step nothing else is started.
pub abort-stops_next :
    (plan : LoadPlan) (w next : StepWorld) (rest : List StepWorld) (t : Totals) (s : State)
    (x y : ℕ)
    → s.row.status ≡ RunStatus.running
    → w.abort_requested ≡ true
    → Passes plan w x y
    → ((run_steps plan (w ∷ next ∷ rest) t s).1.row.status ≡ RunStatus.aborted)
      × ((run_steps plan (w ∷ next ∷ rest) t s).1.published
          ≡ run_aborted
            ∷ step_completed w.id (exceeds_threshold plan x y)
            ∷ step_started w.id
            ∷ s.published)
unfolding end_aborted
abort-stops_next plan w next rest t s x y r a p =
    let failed = exceeds_threshold plan x y in
    let (aborted, trace) = requested-aborts failed w s r a in
    let stops =
      run_steps-stops plan next rest (add_step x y failed t) (executed w failed s) aborted in
    rw (run_steps-Passes plan w (next ∷ rest) t s x y (running-goes_on s r) p, stops)
      (aborted, ap (λ l. run_aborted ∷ l) trace)

-- The same request while the last step executes: the row is aborted when the step ends, and then the
-- run is stored as completed.
pub abort-lost_in_last_step :
    (plan : LoadPlan) (w : StepWorld) (t : Totals) (s : State) (x y : ℕ)
    → s.row.status ≡ RunStatus.running
    → w.abort_requested ≡ true
    → Passes plan w x y
    → ((interfere w.abort_requested (publish (step_started w.id) s)).row.status ≡ RunStatus.aborted)
      × ((run_steps plan (w ∷ []) t s).1.row.status ≢ RunStatus.aborted)
unfolding interfere publish
abort-lost_in_last_step plan w t s x y r a p = (
  (requested-aborts false w s r a).0,
  rw (run_steps-Passes plan w [] t s x y (running-goes_on s r) p)
      (finalise-status plan _ (executed w (exceeds_threshold plan x y) s)),
)

-- After `_abort_remaining_jobs` no job is left in an intermediate status, and a job that was in none
-- is as it was.
pub abort_remaining_jobs-settles :
    (jobs : List JobRecord)
    → All (λ j. is_intermediate j.status ≡ false) (abort_remaining_jobs jobs)
unfolding abort_remaining_jobs is_intermediate
abort_remaining_jobs-settles [] = tt
abort_remaining_jobs-settles (j ∷ jobs) = (ground arith, abort_remaining_jobs-settles jobs)
