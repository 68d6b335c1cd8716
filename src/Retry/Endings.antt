-- ===== src/Retry/Endings.antt =====
-- How a retry run ends.
use sf_bulk_loader.Prelude.{
  ℕ, ◌≡◌, ◌⊎◌, refl, inl, inr, Bool, true, false, not, Option, none, some, List, ◌∷◌, arith,
  if◌then◌else◌,
}
use mathlib.Core.Path.{subst}
use sf_bulk_loader.Job.{RunStatus, is_terminal}
use sf_bulk_loader.Partition.{World, Settings}
use sf_bulk_loader.Csv.{Chunk}
use sf_bulk_loader.Step.{Ended, total_errors}
use sf_bulk_loader.Run.{
  State, Phase, passed, refused, cancelled_phase, other_exception, returned, raised_cancelled,
  raised_other, Outcome, publish, fire, mark, interfere, mark_running, run_started, fail_run,
}
use sf_bulk_loader.Run.Summary.{SummaryKey, auth_error, output_storage_error}
use sf_bulk_loader.Retry.{
  RetryWorld, RetryEnd, unswept, final_status, finish_retry, after_tasks, before_rest, retry_tasks,
  retry_body, execute_retry_run,
}

-- A run that is over, and whose subscribers were told its last status after `fired`.
abbrev pub IsTold : List RunStatus → State → Type 0
IsTold fired s = (is_terminal s.row.status ≡ true) × (s.fired ≡ s.row.status ∷ fired)

-- A run that is left running, or as the API aborted it, and of which nobody was told.
abbrev pub IsUntold : List RunStatus → State → Type 0
IsUntold fired s =
    ((s.row.status ≡ RunStatus.running) ⊎ (s.row.status ≡ RunStatus.aborted)) × (s.fired ≡ fired)

abbrev pub IsEnd : List RunStatus → Outcome → Type 0
IsEnd fired (returned, s) = IsTold fired s
IsEnd fired (raised_cancelled, s) = IsUntold fired s
IsEnd fired (raised_other, s) = IsUntold fired s

final_status-terminal : (errors : ℕ) → is_terminal (final_status errors) ≡ true
unfolding final_status is_terminal
final_status-terminal errors = ground arith

finish_retry-IsTold : (es : List Ended) (s : State) → IsEnd s.fired (finish_retry es s).0
unfolding finish_retry
finish_retry-IsTold es s = (final_status-terminal (total_errors es), refl)

fail_run-IsTold : (k : SummaryKey) (s : State) → IsEnd s.fired (fail_run k s)
unfolding fail_run is_terminal
fail_run-IsTold k s = (refl, refl)

-- The end that a body returns, if it returns one.
abbrev Ends : List RunStatus → Option RetryEnd → Type 0
Ends fired none = Unit
Ends fired (some e) = IsEnd fired e.0

Ends-if :
    (fired : List RunStatus) (b : Bool) (x y : Option RetryEnd)
    → Ends fired x
    → Ends fired y
    → Ends fired (if b then x else y)
Ends-if fired true x y h k = h
Ends-if fired false x y h k = k

-- An abort of the API leaves an untold run untold.
interfere-IsUntold :
    (fired : List RunStatus) (b : Bool) (s : State)
    → IsUntold fired s
    → IsUntold fired (interfere b s)
unfolding interfere
interfere-IsUntold fired true s (inl r, h) = ground arith
interfere-IsUntold fired true s (inr r, h) = ground arith
interfere-IsUntold fired false s u = u

after_tasks-Ends :
    (fired : List RunStatus) (ends : Option (List Ended)) (s : State)
    → IsUntold fired s
    → Ends fired (after_tasks ends s)
unfolding after_tasks
after_tasks-Ends fired none s u = tt
after_tasks-Ends fired (some es) s u =
    subst (λ fired. IsEnd fired (finish_retry es s).0) u.1 (finish_retry-IsTold es s)

retry_tasks-Ends :
    (fired : List RunStatus) (w : RetryWorld) (ends : Option (List Ended)) (s : State)
    → IsUntold fired s
    → Ends fired (retry_tasks w ends s)
unfolding retry_tasks unswept
retry_tasks-Ends fired w ends s u =
    let inserted = interfere-IsUntold fired w.abort_at_rows s u in
    let executed = interfere-IsUntold fired w.abort_requested _ inserted in
    Ends-if fired (not w.rows_inserted) _ _ inserted
      (Ends-if fired w.cancelled _ _ executed (after_tasks-Ends fired ends _ executed))

failed-Ends :
    (fired : List RunStatus) (k : SummaryKey) (s : State)
    → IsUntold fired s
    → Ends fired (some (unswept (fail_run k s)))
unfolding unswept
failed-Ends fired k s u = subst (λ fired. IsEnd fired (fail_run k s)) u.1 (fail_run-IsTold k s)

before_rest-Ends :
    (fired : List RunStatus) (p : Phase) (k : SummaryKey) (catches : Bool) (s : State)
    (rest : Option RetryEnd)
    → IsUntold fired s
    → Ends fired rest
    → Ends fired (before_rest p k catches s rest)
unfolding before_rest unswept
before_rest-Ends fired passed k catches s rest u h = h
before_rest-Ends fired refused k catches s rest u h = failed-Ends fired k s u
before_rest-Ends fired cancelled_phase k catches s rest u h = u
before_rest-Ends fired other_exception k true s rest u h = failed-Ends fired k s u
before_rest-Ends fired other_exception k false s rest u h = u

retry_body-Ends :
    (fired : List RunStatus) (w : RetryWorld) (ends : Option (List Ended)) (s : State)
    → IsUntold fired s
    → Ends fired (retry_body w ends s)
unfolding retry_body
retry_body-Ends fired w ends s u =
    let asked = interfere-IsUntold fired w.abort_at_token s u in
    let resolved = interfere-IsUntold fired w.abort_at_storage _ asked in
    before_rest-Ends fired w.access_token auth_error true _ _ asked (
      before_rest-Ends fired w.output_storage output_storage_error false _ _ resolved
        (retry_tasks-Ends fired w ends _ resolved))

execute_retry_run-Ends :
    (fuel : ℕ) (c : Settings) (worlds : ℕ → World) (w : RetryWorld) (partitions : List Chunk)
    (s : State)
    → Ends s.fired (execute_retry_run fuel c worlds w partitions s)
unfolding execute_retry_run publish mark_running fire mark unswept is_terminal
execute_retry_run-Ends fuel c worlds w partitions s =
    Ends-if s.fired (not w.step_found) _ _ (refl, refl)
      (retry_body-Ends s.fired w _ (publish run_started (mark_running s)) (inl refl, refl))

-- However a retry run ends, and whenever the API aborts it: if it returns, its row has a terminal
-- status, and the subscribers were told this status, once; if an exception or a cancellation leaves
-- it, nobody was told, and its row is left running, or as the API aborted it.
pub execute_retry_run-IsEnd :
    (fuel : ℕ) (c : Settings) (worlds : ℕ → World) (w : RetryWorld) (partitions : List Chunk)
    (s : State) (e : RetryEnd)
    → execute_retry_run fuel c worlds w partitions s ≡ some e
    → IsEnd s.fired e.0
execute_retry_run-IsEnd fuel c worlds w partitions s e p =
    subst (Ends s.fired) p (execute_retry_run-Ends fuel c worlds w partitions s)
