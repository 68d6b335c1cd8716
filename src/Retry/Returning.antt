-- ===== src/Retry/Returning.antt =====
-- The termination of `execute_retry_run`, backend/app/services/run_coordinator.py.
use sf_bulk_loader.Prelude.{
  ℕ, zero, suc, ◌<◌, ◌+◌, ◌≢◌, refl, Bool, true, false, not, Option, none, some, List, arith,
  if◌then◌else◌,
}
use sf_bulk_loader.Partition.{World, Settings}
use sf_bulk_loader.Partition.Polling.{Ticks}
use sf_bulk_loader.Csv.{Chunk}
use sf_bulk_loader.Step.{Ended}
use sf_bulk_loader.Step.Ending.{gather-ends}
use sf_bulk_loader.Run.{
  State, Phase, interfere, passed, refused, cancelled_phase, other_exception, publish, mark_running,
  run_started,
}
use sf_bulk_loader.Run.Summary.{SummaryKey, auth_error, output_storage_error}
use sf_bulk_loader.Retry.{
  RetryWorld, RetryEnd, after_tasks, before_rest, retry_tasks, retry_body, execute_retry_run,
  under_semaphore,
}

if-ends : (b : Bool) (x y : Option RetryEnd) → x ≢ none → y ≢ none → (if b then x else y) ≢ none
if-ends true x y h k = h
if-ends false x y h k = k

some-ends : (e : RetryEnd) → some e ≢ none
some-ends e p = ground arith

after_tasks-ends :
    (ends : Option (List Ended)) (s : State) → ends ≢ none → after_tasks ends s ≢ none
unfolding after_tasks
after_tasks-ends none s h p = h refl
after_tasks-ends (some es) s h p = ground arith

retry_tasks-ends :
    (w : RetryWorld) (ends : Option (List Ended)) (s : State)
    → ends ≢ none
    → retry_tasks w ends s ≢ none
unfolding retry_tasks
retry_tasks-ends w ends s h =
    if-ends (not w.rows_inserted) _ _ (some-ends _)
      (if-ends w.cancelled _ _ (some-ends _) (after_tasks-ends ends _ h))

before_rest-ends :
    (p : Phase) (k : SummaryKey) (catches : Bool) (s : State) (rest : Option RetryEnd)
    → rest ≢ none
    → before_rest p k catches s rest ≢ none
unfolding before_rest
before_rest-ends passed k catches s rest h = h
before_rest-ends refused k catches s rest h = some-ends _
before_rest-ends cancelled_phase k catches s rest h = some-ends _
before_rest-ends other_exception k catches s rest h =
    if-ends catches _ _ (some-ends _) (some-ends _)

retry_body-ends :
    (w : RetryWorld) (ends : Option (List Ended)) (s : State)
    → ends ≢ none
    → retry_body w ends s ≢ none
unfolding retry_body
retry_body-ends w ends s h =
    let asked = interfere w.abort_at_token s in
    let resolved = interfere w.abort_at_storage asked in
    before_rest-ends w.access_token auth_error true asked _ (
      before_rest-ends w.output_storage output_storage_error false resolved _
        (retry_tasks-ends w ends resolved h))

under_semaphore-ends :
    (n : ℕ) (partitions : List Chunk) (ends : Option (List Ended))
    → 0 < n
    → ends ≢ none
    → under_semaphore n partitions ends ≢ none
unfolding under_semaphore
under_semaphore-ends zero partitions ends h k = ground arith
under_semaphore-ends (suc n) partitions ends h k = k

-- With the hard cap of the poll loop on, positive intervals, and sleeps that last as long as they
-- should in every partition, a retry run whose plan lets at least one task run ends: one round more than
-- the cap has seconds is fuel enough.
pub execute_retry_run-terminates :
    (c : Settings) (worlds : ℕ → World) (w : RetryWorld) (partitions : List Chunk) (s : State)
    → ((i : ℕ) → Ticks c (worlds i))
    → 0 < w.max_parallel_jobs
    → execute_retry_run (c.sf_job_max_poll_seconds + 1) c worlds w partitions s ≢ none
unfolding execute_retry_run
execute_retry_run-terminates c worlds w partitions s t free =
    if-ends (not w.step_found) _ _ (some-ends _) (
      retry_body-ends w _ (publish run_started (mark_running s)) (
        under_semaphore-ends w.max_parallel_jobs partitions _ free
          (gather-ends c worlds t 0 partitions)))
