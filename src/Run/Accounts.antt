-- ===== src/Run/Accounts.antt =====
-- A run that ends as completed has executed every step, and its row holds the sums of their counts.
use sf_bulk_loader.Prelude.{
  ℕ, ◌+◌, ◌≡◌, refl, sym, ap, ◌∙◌, Bool, true, false, some, List, [], ◌∷◌, arith, inl, inr,
  if◌then◌else◌, Bool-cases, ◌&&◌, ◌||◌, All,
}
use sf_bulk_loader.Job.{RunStatus}
use sf_bulk_loader.Run.Summary.{SummaryKey, output_storage_error, auth_error, circuit_breaker}
use sf_bulk_loader.Run.{
  LoadRun, LoadPlan, State, StepResult, StepWorld, totals, input_storage_error, cancelled,
  unexpected, Phase, passed, refused, cancelled_phase, other_exception, World, returned,
  raised_cancelled, raised_other, Outcome, publish, fail_run, Totals, end_aborted, finalise,
  interfere, after_step, step_result, run_steps, no_totals, preflight, phase, execute_run_body,
  mark_running, backstop, handle_exit, execute_run, is_aborted, exceeds_threshold, add_step,
  step_completed, merge_key, abort_after_step,
}

abbrev pub is_completed : RunStatus → Bool
is_completed RunStatus.completed = true
is_completed RunStatus.completed_with_errors = true
is_completed _ = false

abbrev pub success_of : StepResult → ℕ
success_of (totals x y) = x
success_of _ = 0

abbrev pub errors_of : StepResult → ℕ
errors_of (totals x y) = y
errors_of _ = 0

abbrev pub has_totals : StepResult → Bool
has_totals (totals x y) = true
has_totals _ = false

abbrev pub sum_success : List StepWorld → ℕ
sum_success [] = 0
sum_success (w ∷ ws) = success_of w.result + sum_success ws

abbrev pub sum_errors : List StepWorld → ℕ
sum_errors [] = 0
sum_errors (w ∷ ws) = errors_of w.result + sum_errors ws

-- Whether a step has more errors than the plan tolerates.
abbrev pub any_exceeds : LoadPlan → List StepWorld → Bool
any_exceeds plan [] = false
any_exceeds plan (w ∷ ws) =
    exceeds_threshold plan (success_of w.result) (errors_of w.result) || any_exceeds plan ws

-- The row of a completed run whose earlier steps have the totals `t`.
record Sums (plan : LoadPlan) (ws : List StepWorld) (t : Totals) (row : LoadRun) : Type 0 where
  all : All (λ w. has_totals w.result ≡ true) ws
  success : row.total_success ≡ some (t.success + sum_success ws)
  errors : row.total_errors ≡ some (t.errors + sum_errors ws)
  records : row.total_records ≡ some (t.records + (sum_success ws + sum_errors ws))
  verdict : row.status ≡ (
      if any_exceeds plan ws || t.any_step_failed
      then RunStatus.completed_with_errors
      else RunStatus.completed)

abbrev Accounts : LoadPlan → List StepWorld → Totals → Outcome → Type 0
Accounts plan ws t o = is_completed o.1.row.status ≡ true → Sums plan ws t o.1.row

or-false : (b : Bool) → (b || false) ≡ b
or-false true = refl
or-false false = refl

finalise-Accounts : (plan : LoadPlan) (t : Totals) (s : State) → Accounts plan [] t (finalise t s)
unfolding finalise
finalise-Accounts plan t s c = ground arith

Accounts-if :
    (plan : LoadPlan) (ws : List StepWorld) (t : Totals) (b : Bool) (x y : Outcome)
    → Accounts plan ws t x
    → Accounts plan ws t y
    → Accounts plan ws t (if b then x else y)
Accounts-if plan ws t true x y h k = h
Accounts-if plan ws t false x y h k = k

Sums-cons :
    (plan : LoadPlan) (w : StepWorld) (ws : List StepWorld) (x y : ℕ) (t : Totals) (row : LoadRun)
    → w.result ≡ totals x y
    → Sums plan ws (add_step x y (exceeds_threshold plan x y) t) row
    → Sums plan (w ∷ ws) t row
unfolding add_step
Sums-cons plan w ws x y t row e h = record {
  all = (rw e, h.all);
  success = rw e (h.success ∙ ap some (omega arith));
  errors = rw e (h.errors ∙ ap some (omega arith));
  records = rw e (h.records ∙ ap some (omega arith));
  verdict = rw e (ground (arith, h.verdict));
}

after_step-Accounts :
    (plan : LoadPlan) (w : StepWorld) (ws : List StepWorld) (x y : ℕ) (t : Totals) (s : State)
    → w.result ≡ totals x y
    → ((t' : Totals) (s' : State) → Accounts plan ws t' (run_steps plan ws t' s'))
    → Accounts plan (w ∷ ws) t (after_step plan w x y t s (run_steps plan ws))
unfolding after_step
after_step-Accounts plan w ws x y t s e h =
    let failed = exceeds_threshold plan x y in
    let t' = add_step x y failed t in
    let s' = publish (step_completed w.id failed) s in
    Accounts-if plan (w ∷ ws) t (failed && plan.abort_on_step_failure)
      (end_aborted (abort_after_step t' s')) _ (λ c. cc)
      (Accounts-if plan (w ∷ ws) t w.breaker_tripped
        (end_aborted (merge_key circuit_breaker (abort_after_step t' s'))) (run_steps plan ws t' s')
        (λ c. cc) (λ c. Sums-cons plan w ws x y t _ e (h t' s' c)))

step_result-Accounts :
    (plan : LoadPlan) (w : StepWorld) (ws : List StepWorld) (r : StepResult) (t : Totals)
    (s : State)
    → w.result ≡ r
    → ((t' : Totals) (s' : State) → Accounts plan ws t' (run_steps plan ws t' s'))
    → Accounts plan (w ∷ ws) t (step_result plan w r t s (run_steps plan ws))
unfolding step_result fail_run
step_result-Accounts plan w ws (totals x y) t s e h = after_step-Accounts plan w ws x y t s e h
step_result-Accounts plan w ws input_storage_error t s e h = λ c. cc
step_result-Accounts plan w ws cancelled t s e h = λ c. cc
step_result-Accounts plan w ws unexpected t s e h = λ c. cc

end_aborted-Accounts :
    (plan : LoadPlan) (ws : List StepWorld) (t : Totals) (s : State)
    → is_aborted s.row.status ≡ true
    → Accounts plan ws t (end_aborted s)
unfolding end_aborted is_aborted
end_aborted-Accounts plan ws t s a c = ground arith

run_steps-Accounts :
    (plan : LoadPlan) (ws : List StepWorld) (t : Totals) (s : State)
    → Accounts plan ws t (run_steps plan ws t s)
unfolding run_steps
run_steps-Accounts plan [] t s = finalise-Accounts plan t s
run_steps-Accounts plan (w ∷ rest) t s = elim (Bool-cases (is_aborted s.row.status)) [
  | inl a ↦ rw a (end_aborted-Accounts plan (w ∷ rest) t s a)
  | inr a ↦ rw a (step_result-Accounts plan w rest w.result t _ refl (run_steps-Accounts plan rest))
]

-- The row of a run that ended as completed: every step was executed to its totals, the row holds
-- their sums, records are successes and errors, and the status says whether a step exceeded the
-- error threshold of the plan.
pub record IsAccounted (plan : LoadPlan) (ws : List StepWorld) (row : LoadRun) : Type 0 where
  pub all : All (λ w. has_totals w.result ≡ true) ws
  pub success : row.total_success ≡ some (sum_success ws)
  pub errors : row.total_errors ≡ some (sum_errors ws)
  pub records : row.total_records ≡ some (sum_success ws + sum_errors ws)
  pub verdict :
      row.status
      ≡ (if any_exceeds plan ws then RunStatus.completed_with_errors else RunStatus.completed)

phase-Accounts :
    (plan : LoadPlan) (ws : List StepWorld) (t : Totals) (p : Phase) (k : SummaryKey)
    (catches : Bool) (s : State) (rest : Outcome)
    → is_completed s.row.status ≡ false
    → Accounts plan ws t rest
    → Accounts plan ws t (phase p k catches s rest)
unfolding phase fail_run
phase-Accounts plan ws t passed k catches s rest n h = h
phase-Accounts plan ws t refused k catches s rest n h = λ c. cc
phase-Accounts plan ws t cancelled_phase k catches s rest n h = λ c. cc
phase-Accounts plan ws t other_exception k catches s rest n h = λ c. ground arith

start-open :
    (w : World) (s : State)
    → s.row.status ≡ RunStatus.running
    → is_completed (interfere w.abort_before_first_step (preflight w s)).row.status ≡ false
unfolding interfere preflight
start-open w s r = ground arith

body-Accounts :
    (plan : LoadPlan) (w : World) (s : State)
    → s.row.status ≡ RunStatus.running
    → Accounts plan w.steps no_totals (execute_run_body plan w s)
unfolding execute_run_body
body-Accounts plan w s r =
    let n = start-open w s r in
    Accounts-if plan w.steps no_totals w.preflight_cancelled (raised_cancelled, s) _ (λ c. cc)
      (phase-Accounts plan w.steps no_totals w.output_storage output_storage_error false _ _ n (
        phase-Accounts plan w.steps no_totals w.access_token auth_error true _ _ n
          (run_steps-Accounts plan w.steps no_totals _)))

backstop-completed : (s : State) → is_completed (backstop s).row.status ≡ true → backstop s ≡ s
unfolding backstop
backstop-completed s c = ground arith

Sums-backstop :
    (plan : LoadPlan) (ws : List StepWorld) (s : State)
    → (is_completed s.row.status ≡ true → Sums plan ws no_totals s.row)
    → is_completed (backstop s).row.status ≡ true
    → Sums plan ws no_totals (backstop s).row
Sums-backstop plan ws s h c =
    let same = backstop-completed s c in
    rw same (h (ap (λ (u : State). is_completed u.row.status) (sym same) ∙ c))

exit-Accounts :
    (plan : LoadPlan) (ws : List StepWorld) (o : Outcome)
    → Accounts plan ws no_totals o
    → is_completed (backstop (handle_exit o).1).row.status ≡ true
    → Sums plan ws no_totals (backstop (handle_exit o).1).row
unfolding handle_exit backstop
exit-Accounts plan ws (returned, s) h c = Sums-backstop plan ws s h c
exit-Accounts plan ws (raised_cancelled, s) h c = cc
exit-Accounts plan ws (raised_other, s) h c = Sums-backstop plan ws s h c

-- A run whose row is completed or completed_with_errors at the end has executed every step of the
-- plan to its totals; the row holds the sums of their successes and errors and, as records, both; and
-- it is completed_with_errors exactly when a step exceeded the error threshold of the plan.
pub execute_run-IsAccounted :
    (plan : LoadPlan) (w : World) (s : State)
    → is_completed (execute_run plan w s).1.row.status ≡ true
    → IsAccounted plan w.steps (execute_run plan w s).1.row
unfolding execute_run mark_running publish no_totals
execute_run-IsAccounted plan w s c =
    let sums = exit-Accounts plan w.steps _ (body-Accounts plan w _ refl) c in
    record {
      all = sums.all;
      success = sums.success ∙ ap some (omega arith);
      errors = sums.errors ∙ ap some (omega arith);
      records = sums.records ∙ ap some (omega arith);
      verdict =
          sums.verdict
          ∙ ap (λ b. if b then RunStatus.completed_with_errors else RunStatus.completed)
              (or-false (any_exceeds plan w.steps));
    }
