-- ===== src/Run/Terminal.antt =====
-- Every way out of a run leaves its row in a terminal status, of which the subscribers are told.
use sf_bulk_loader.Prelude.{
  ℕ, ◌≡◌, refl, ap, Bool, true, false, Option, none, some, List, [], ◌∷◌, arith, ◌⊎◌, inl, inr,
  if◌then◌else◌, Bool-cases, ◌&&◌,
}
use sf_bulk_loader.Job.{RunStatus, is_terminal}
use sf_bulk_loader.Run.Summary.{
  SummaryKey, output_storage_error, auth_error, storage_error, unexpected_exception,
  circuit_breaker,
}
use sf_bulk_loader.Run.{
  LoadPlan, State, StepResult, StepWorld, totals, input_storage_error, cancelled, unexpected, Phase,
  passed, refused, cancelled_phase, other_exception, World, returned, raised_cancelled,
  raised_other, Outcome, publish, fail_run, Totals, end_aborted, finalise, interfere, after_step,
  step_result, run_steps, no_totals, preflight, phase, execute_run_body, mark_running, backstop,
  handle_exit, execute_run, is_aborted, exceeds_threshold, add_step, step_completed, merge_key,
  abort_after_step,
}

-- A run that is not over: its row runs, or the API has aborted it, and nobody was told.
record Open (s : State) : Type 0 where
  live : (s.row.status ≡ RunStatus.running) ⊎ (s.row.status ≡ RunStatus.aborted)
  untold : s.fired ≡ []

-- What holds when the body is left.
abbrev Left : Outcome → Type 0
Left (returned, s) = (is_terminal s.row.status ≡ true) × (s.fired ≡ s.row.status ∷ [])
Left (raised_cancelled, s) = (s.fired ≡ []) ⊎ (s.fired ≡ RunStatus.aborted ∷ [])
Left (raised_other, s) = Open s

fail_run-Left : (k : SummaryKey) (s : State) → Open s → Left (fail_run k s)
unfolding fail_run is_terminal
fail_run-Left k s o = ground arith

interfere-Open : (b : Bool) (s : State) → Open s → Open (interfere b s)
unfolding interfere
interfere-Open b s o = ground arith

finalise-Left : (t : Totals) (s : State) → Open s → Left (finalise t s)
unfolding finalise is_terminal
finalise-Left t s o = ground arith

end_aborted-Left : (s : State) → Open s → is_aborted s.row.status ≡ true → Left (end_aborted s)
unfolding end_aborted is_aborted is_terminal
end_aborted-Left s o a = ground arith

Left-if : (b : Bool) (x y : Outcome) → Left x → Left y → Left (if b then x else y)
Left-if true x y h k = h
Left-if false x y h k = k

aborted-Left : (t : Totals) (s : State) → s.fired ≡ [] → Left (end_aborted (abort_after_step t s))
unfolding end_aborted abort_after_step is_terminal
aborted-Left t s f = ground arith

tripped-Left :
    (t : Totals) (s : State)
    → s.fired ≡ []
    → Left (end_aborted (merge_key circuit_breaker (abort_after_step t s)))
unfolding end_aborted abort_after_step merge_key is_terminal
tripped-Left t s f = ground arith

after_step-Left :
    (plan : LoadPlan) (w : StepWorld) (x y : ℕ) (t : Totals) (s : State)
    (again : Totals → State → Outcome)
    → Open s
    → ((t' : Totals) (s' : State) → Open s' → Left (again t' s'))
    → Left (after_step plan w x y t s again)
unfolding after_step
after_step-Left plan w x y t s again o h =
    let failed = exceeds_threshold plan x y in
    let t' = add_step x y failed t in
    let s' = publish (step_completed w.id failed) s in
    Left-if (failed && plan.abort_on_step_failure) (end_aborted (abort_after_step t' s')) _
      (aborted-Left t' s' o.untold)
      (Left-if w.breaker_tripped (end_aborted (merge_key circuit_breaker (abort_after_step t' s')))
        (again t' s') (tripped-Left t' s' o.untold)
        (h t' s' (record { live = o.live; untold = o.untold })))

step_result-Left :
    (plan : LoadPlan) (w : StepWorld) (r : StepResult) (t : Totals) (s : State)
    (again : Totals → State → Outcome)
    → Open s
    → ((t' : Totals) (s' : State) → Open s' → Left (again t' s'))
    → Left (step_result plan w r t s again)
unfolding step_result
step_result-Left plan w (totals x y) t s again o h = after_step-Left plan w x y t s again o h
step_result-Left plan w input_storage_error t s again o h = fail_run-Left storage_error s o
step_result-Left plan w cancelled t s again o h = inr (ap (λ l. RunStatus.aborted ∷ l) o.untold)
step_result-Left plan w unexpected t s again o h = fail_run-Left unexpected_exception s o

run_steps-Left :
    (plan : LoadPlan) (ws : List StepWorld) (t : Totals) (s : State)
    → Open s
    → Left (run_steps plan ws t s)
unfolding run_steps publish
run_steps-Left plan [] t s o = finalise-Left t s o
run_steps-Left plan (w ∷ rest) t s o = elim (Bool-cases (is_aborted s.row.status)) [
  | inl a ↦ rw a (end_aborted-Left s o a)
  | inr a ↦
      let o' = interfere-Open w.abort_requested _ (record { live = o.live; untold = o.untold }) in
      rw a (
        step_result-Left plan w w.result t _ (run_steps plan rest)
          (record { live = o'.live; untold = o'.untold }) (run_steps-Left plan rest))
]

phase-Left :
    (p : Phase) (k : SummaryKey) (catches : Bool) (s : State) (rest : Outcome)
    → Open s
    → Left rest
    → Left (phase p k catches s rest)
unfolding phase
phase-Left passed k catches s rest o h = h
phase-Left refused k catches s rest o h = fail_run-Left k s o
phase-Left cancelled_phase k catches s rest o h = inl o.untold
phase-Left other_exception k catches s rest o h = Left-if catches _ _ (fail_run-Left k s o) o

preflight-Open : (w : World) (s : State) → Open s → Open (preflight w s)
unfolding preflight
preflight-Open w s o = ground arith

body-Left : (plan : LoadPlan) (w : World) (s : State) → Open s → Left (execute_run_body plan w s)
unfolding execute_run_body
body-Left plan w s o =
    let s' = interfere-Open w.abort_before_first_step _ (preflight-Open w s o) in
    Left-if w.preflight_cancelled _ _ (inl o.untold) (
      phase-Left w.output_storage output_storage_error false _ _ s' (
        phase-Left w.access_token auth_error true _ _ s'
          (run_steps-Left plan w.steps no_totals _ s')))

-- The oldest call of `fire_terminal_notifications`; later calls for the run do nothing.
abbrev pub notified : List RunStatus → Option RunStatus
notified [] = none
notified (st ∷ []) = some st
notified (st ∷ older ∷ rest) = notified (older ∷ rest)

-- At the end the row is terminal, and its status is what the subscribers were told, unless an
-- exception that nobody handles met a run that the API had aborted: then they are told nothing.
pub record Settled (o : Outcome) : Type 0 where
  pub terminal : is_terminal o.1.row.status ≡ true
  pub told :
      (notified o.1.fired ≡ some o.1.row.status)
      ⊎ ((o.0 ≡ raised_other) × (o.1.row.status ≡ RunStatus.aborted) × (o.1.fired ≡ []))

settle : (o : Outcome) → Left o → Settled (let h = handle_exit o in (h.0, backstop h.1))
unfolding handle_exit backstop is_terminal
settle (returned, s) h = ground arith
settle (raised_cancelled, s) h = ground arith
settle (raised_other, s) h = ground arith

-- Whatever the steps, the phases and the API do, a run whose subscribers were told nothing yet leaves
-- its row in a terminal status, and that status is the one that its subscribers are told first; the
-- exception is a run that the API has aborted and that an unhandled exception then ends.
pub execute_run-Settled :
    (plan : LoadPlan) (w : World) (s : State) → s.fired ≡ [] → Settled (execute_run plan w s)
unfolding execute_run mark_running publish
execute_run-Settled plan w s f =
    settle _ (body-Left plan w _ (record { live = inl refl; untold = f }))
