-- ===== src/Step/Refused.antt =====
-- A step whose jobs Salesforce refuses to create.
use sf_bulk_loader.Prelude.{
  ℕ, zero, suc, ◌+◌, ◌≡◌, refl, ap, false, Option, some, List, [], ◌∷◌, length, replicate, arith,
  map,
}
use sf_bulk_loader.Job.{JobStatus, bulk_api_error, is_intermediate}
use sf_bulk_loader.Partition.{
  World, Settings, process_partition, ◌>>=◌, check_before_submit, submit, mark_uploading, attempt,
  fail_job, commit, publish,
}
use sf_bulk_loader.Csv.{Row, Chunk, ok}
use sf_bulk_loader.Csv.Retry.{partition_files}
use sf_bulk_loader.Run.{LoadPlan, totals, exceeds_threshold}
use sf_bulk_loader.Step.{
  Ended, returned, end_of, run_task, gathered, gather, sweep, total_success, total_errors,
  aggregate, aggregate_all, execute_partitions, files, execute_dml_step, effective_partition_size,
}

-- The run goes on, and `create_job` raises `BulkAPIError`.
pub record Refuses (w : World) : Type 0 where
  pub running : w.run_is_aborted ≡ false
  pub closed : w.breaker_tripped ≡ false
  pub refused : w.create_job ≡ bulk_api_error

abbrev refused : Ended
refused = record { result = returned 0 0; status = JobStatus.failed }

run_task-refused :
    (fuel : ℕ) (c : Settings) (w : World) (index : ℕ) (chunk : Chunk)
    → Refuses w
    → run_task fuel c w index chunk ≡ some refused
unfolding run_task process_partition check_before_submit submit mark_uploading attempt fail_job
    commit publish ◌>>=◌ end_of
run_task-refused fuel c w index chunk h = rw (h.running, h.closed, h.refused) refl

module _ (fuel : ℕ) (c : Settings) (worlds : ℕ → World) (h : (i : ℕ) → Refuses (worlds i)) where
  gather-refused :
      (index : ℕ) (chunks : List Chunk)
      → gather fuel c worlds index chunks ≡ some (replicate (length chunks) refused)
  unfolding gather gathered
  gather-refused index [] = refl
  gather-refused index (chunk ∷ chunks) =
      rw
        (
          run_task-refused fuel c (worlds index) index chunk (h index),
          gather-refused (index + 1) chunks,
        )
        refl

refused-success : (n : ℕ) → total_success (replicate n refused) ≡ 0
unfolding total_success
refused-success zero = refl
refused-success (suc n) = omega (arith, refused-success n)

refused-errors : (n : ℕ) → total_errors (replicate n refused) ≡ 0
unfolding total_errors
refused-errors zero = refl
refused-errors (suc n) = omega (arith, refused-errors n)

refused-statuses :
    (n : ℕ) → map (λ e. sweep e.status) (replicate n refused) ≡ replicate n JobStatus.failed
unfolding sweep is_intermediate
refused-statuses zero = refl
refused-statuses (suc n) = ap (λ t. JobStatus.failed ∷ t) (refused-statuses n)

partitions-refused :
    (fuel : ℕ) (c : Settings) (worlds : ℕ → World) (chunks : List Chunk)
    → ((i : ℕ) → Refuses (worlds i))
    → execute_partitions fuel c worlds (ok chunks)
      ≡ some (totals 0 0, replicate (length chunks) JobStatus.failed)
unfolding execute_partitions aggregate_all aggregate
partitions-refused fuel c worlds [] h = refl
partitions-refused fuel c worlds (chunk ∷ chunks) h =
    let n = length (chunk ∷ chunks) in
    rw
      (
        gather-refused fuel c worlds h 0 (chunk ∷ chunks),
        refused-success n,
        refused-errors n,
        refused-statuses n,
      )
      refl

-- A step whose files are cut without an error, in a run that goes on, and none of whose jobs
-- Salesforce creates: every row is failed, but the totals of the step are 0 and 0, which exceed the
-- error threshold of no plan.
pub execute_dml_step-refused :
    (fuel : ℕ) (c : Settings) (worlds : ℕ → World) (size : Option ℕ) (default : ℕ) (f : List Row)
    (fs : List (List Row)) (chunks : List Chunk) (plan : LoadPlan)
    → ((i : ℕ) → Refuses (worlds i))
    → partition_files (effective_partition_size size default) (f ∷ fs) ≡ ok chunks
    → (execute_dml_step fuel c worlds size default (files (f ∷ fs))
        ≡ some (totals 0 0, replicate (length chunks) JobStatus.failed))
      × (exceeds_threshold plan 0 0 ≡ false)
unfolding execute_dml_step exceeds_threshold
execute_dml_step-refused fuel c worlds size default f fs chunks plan h cut =
    (rw cut (partitions-refused fuel c worlds chunks h), ground arith)
