-- ===== src/Step.antt =====
-- backend/app/services/step_executor.py: one step of a run. A DML step cuts its files into
-- partitions, inserts a job row for each, runs them concurrently and sweeps up after them. The tasks
-- share nothing but the circuit breaker, so each is a function of its own `World`; of the rows the
-- model keeps the statuses in the database. A query step has one row. Events are left out.
pub mod Sweep
pub mod Ending
pub mod Refused
pub mod Query
use sf_bulk_loader.Prelude.{
  ℕ, suc, ◌+◌, Bool, true, false, Option, none, some, List, [], ◌∷◌, map, length, if◌then◌else◌,
}
use sf_bulk_loader.Job.{
  Uuid, Ref, JobStatus, JobRecord, new_job, is_intermediate, Call, reply, bulk_api_error,
  other_error,
}
use sf_bulk_loader.Partition.{
  World, Settings, Session, Flow, next, done, raised, out_of_fuel, process_partition, open_session,
}
use sf_bulk_loader.Partition.Leads.{last_status}
use sf_bulk_loader.Csv.{Row, Chunk, Csv, csv_processor_error, type_error, value_error, ok}
use sf_bulk_loader.Csv.Retry.{partition_files}
use sf_bulk_loader.Run.{StepResult, totals, input_storage_error, cancelled, unexpected}

-- An entry of `gather_results`.
pub data TaskResult : Type 0 where
  returned : ℕ → ℕ → TaskResult
  exception : TaskResult

-- A task that has ended: its result, and the status of its row in the database.
pub record Ended : Type 0 where
  pub result : TaskResult
  pub status : JobStatus

-- How a task ends, if it does. The body of a task has no other end than these.
unfoldable pub end_of : Flow (Unit {0}) × Session → Option Ended
end_of (next a, s) = none
end_of (done success errors, s) =
    some (record { result = returned success errors; status = last_status s.committed })
end_of (raised, s) = some (record { result = exception; status = last_status s.committed })
end_of (out_of_fuel, s) = none

unfoldable pub run_task : ℕ → Settings → World → ℕ → Chunk → Option Ended
unfolding end_of
run_task fuel c w index chunk =
    end_of (process_partition fuel c w (open_session (new_job index (some (length chunk.rows)))))

unfoldable pub gathered : Option Ended → Option (List Ended) → Option (List Ended)
gathered (some e) (some es) = some (e ∷ es)
gathered (some e) none = none
gathered none es = none

-- `asyncio.gather(*tasks, return_exceptions=True)`: it ends when every task has ended. The world of a
-- task is found by the index of its partition.
unfoldable pub gather : ℕ → Settings → (ℕ → World) → ℕ → List Chunk → Option (List Ended)
unfolding run_task gathered
gather fuel c worlds index [] = some []
gather fuel c worlds index (chunk ∷ chunks) =
    gathered (run_task fuel c (worlds index) index chunk) (gather fuel c worlds (index + 1) chunks)

-- The update of the rows that are still in an intermediate status.
unfoldable pub sweep : JobStatus → JobStatus
sweep status = if is_intermediate status then JobStatus.failed else status

unfoldable pub total_success : List Ended → ℕ
total_success [] = 0
total_success (e ∷ es) = elim e.result [
  | returned success errors ↦ success + total_success es
  | exception ↦ total_success es
]

unfoldable pub total_errors : List Ended → ℕ
total_errors [] = 0
total_errors (e ∷ es) = elim e.result [
  | returned success errors ↦ errors + total_errors es
  | exception ↦ total_errors es
]

-- How the step ends, and the statuses of its rows, in the order of the partitions.
abbrev pub StepEnd : Type 0
StepEnd = StepResult × List JobStatus

unfoldable pub aggregate : List Ended → StepEnd
unfolding sweep total_success total_errors
aggregate es = (totals (total_success es) (total_errors es), map (λ e. sweep e.status) es)

unfoldable pub aggregate_all : Option (List Ended) → Option StepEnd
unfolding aggregate
aggregate_all none = none
aggregate_all (some es) = some (aggregate es)

-- The input of the step, or the exception that its resolution raises.
pub data Discovery : Type 0 where
  files : List (List Row) → Discovery
  storage_refused : Discovery
  crashed : Discovery

unfoldable pub execute_partitions : ℕ → Settings → (ℕ → World) → Csv (List Chunk) → Option StepEnd
unfolding gather aggregate_all
execute_partitions fuel c worlds csv_processor_error = some (unexpected, [])
execute_partitions fuel c worlds type_error = some (unexpected, [])
execute_partitions fuel c worlds value_error = some (unexpected, [])
execute_partitions fuel c worlds (ok []) = some (totals 0 0, [])
execute_partitions fuel c worlds (ok (chunk ∷ chunks)) =
    aggregate_all (gather fuel c worlds 0 (chunk ∷ chunks))

unfoldable pub effective_partition_size : Option ℕ → ℕ → ℕ
effective_partition_size none default = default
effective_partition_size (some size) default = size

-- A DML step. `none` stands for a step that does not end.
unfoldable pub execute_dml_step :
    ℕ → Settings → (ℕ → World) → Option ℕ → ℕ → Discovery → Option StepEnd
unfolding execute_partitions effective_partition_size
execute_dml_step fuel c worlds size default storage_refused = some (input_storage_error, [])
execute_dml_step fuel c worlds size default crashed = some (unexpected, [])
execute_dml_step fuel c worlds size default (files []) = some (totals 0 0, [])
execute_dml_step fuel c worlds size default (files (f ∷ fs)) =
    execute_partitions fuel c worlds
      (partition_files (effective_partition_size size default) (f ∷ fs))
