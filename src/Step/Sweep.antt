-- ===== src/Step/Sweep.antt =====
-- The rows of a DML step after the sweep of backend/app/services/step_executor.py.
use sf_bulk_loader.Prelude.{
  ℕ, suc, ◌+◌, ◌≡◌, refl, ap, Bool, true, false, not, Option, none, some, List, [], ◌∷◌, map,
  length, All, All-map, arith,
}
use sf_bulk_loader.Job.{JobStatus, new_job, is_intermediate}
use sf_bulk_loader.Partition.{
  World, Settings, Session, Flow, next, done, raised, out_of_fuel, process_partition, open_session,
}
use sf_bulk_loader.Partition.Leads.{Ends}
use sf_bulk_loader.Partition.Lifecycle.{process_partition-Ends}
use sf_bulk_loader.Csv.{Chunk, Csv, csv_processor_error, type_error, value_error, ok}
use sf_bulk_loader.Csv.Retry.{partition_files}
use sf_bulk_loader.Step.{
  TaskResult, returned, exception, Ended, end_of, run_task, gathered, gather, sweep, aggregate,
  aggregate_all, StepEnd, execute_partitions, Discovery, files, storage_refused, crashed,
  execute_dml_step, effective_partition_size,
}

-- The three statuses that a row may keep.
abbrev pub is_settled : JobStatus → Bool
is_settled JobStatus.job_complete = true
is_settled JobStatus.failed = true
is_settled JobStatus.aborted = true
is_settled _ = false

abbrev pub IsSettled : JobStatus → Type 0
IsSettled status = is_settled status ≡ true

-- The sweep takes the other four.
intermediate-settled : (status : JobStatus) → is_intermediate status ≡ not (is_settled status)
unfolding is_intermediate
intermediate-settled JobStatus.pending = refl
intermediate-settled JobStatus.uploading = refl
intermediate-settled JobStatus.upload_complete = refl
intermediate-settled JobStatus.in_progress = refl
intermediate-settled JobStatus.job_complete = refl
intermediate-settled JobStatus.failed = refl
intermediate-settled JobStatus.aborted = refl

not_intermediate : (status : JobStatus) → is_intermediate status ≡ false → IsSettled status
not_intermediate status h = ground (arith, intermediate-settled status)

sweep-IsSettled : (status : JobStatus) → IsSettled (sweep status)
unfolding sweep is_intermediate
sweep-IsSettled status = ground arith

sweep-settled : (status : JobStatus) → IsSettled status → sweep status ≡ status
unfolding sweep
sweep-settled status h = ground (arith, intermediate-settled status)

-- A task that has returned has left a settled row, one that has raised an intermediate one.
abbrev pub IsHonest : Ended → Type 0
IsHonest e = elim e.result [
  | returned success errors ↦ IsSettled e.status
  | exception ↦ is_intermediate e.status ≡ true
]

some-injective : {a b : Ended} → some a ≡ some b → b ≡ a
some-injective h = ground arith

end_of-IsHonest :
    (r : Flow (Unit {0}) × Session) (e : Ended) → Ends r → end_of r ≡ some e → IsHonest e
unfolding end_of
end_of-IsHonest (next a, s) e h p = ground arith
end_of-IsHonest (done x y, s) e h p =
    rw (some-injective p, h.stored) (not_intermediate s.job.status h.settled)
end_of-IsHonest (raised, s) e h p = rw (some-injective p) h.open_row
end_of-IsHonest (out_of_fuel, s) e h p = ground arith

run_task-IsHonest :
    (fuel : ℕ) (c : Settings) (w : World) (index : ℕ) (chunk : Chunk) (e : Ended)
    → run_task fuel c w index chunk ≡ some e
    → IsHonest e
unfolding run_task new_job
run_task-IsHonest fuel c w index chunk e p =
    let job = new_job index (some (length chunk.rows)) in
    end_of-IsHonest (process_partition fuel c w (open_session job)) e
      (process_partition-Ends fuel c w job refl) p

gathered-some :
    (o : Option Ended) (os : Option (List Ended)) (es : List Ended)
    → gathered o os ≡ some es
    → (e : Ended) × (rest : List Ended) × (o ≡ some e) × (os ≡ some rest) × (es ≡ e ∷ rest)
unfolding gathered
gathered-some (some e) (some rest) es p = (e, rest, refl, refl, ground arith)
gathered-some (some e) none es p = ground arith
gathered-some none os es p = ground arith

gather-IsHonest :
    (fuel : ℕ) (c : Settings) (worlds : ℕ → World) (index : ℕ) (chunks : List Chunk)
    (es : List Ended)
    → gather fuel c worlds index chunks ≡ some es
    → (length es ≡ length chunks) × All IsHonest es
unfolding gather
gather-IsHonest fuel c worlds index [] es p = ground arith
gather-IsHonest fuel c worlds index (chunk ∷ chunks) es p =
    let (e, rest, here, there, both) =
      gathered-some (run_task fuel c (worlds index) index chunk)
        (gather fuel c worlds (index + 1) chunks) es p in
    let (n, honest) = gather-IsHonest fuel c worlds (index + 1) chunks rest there in
    rw both (ap suc n, (run_task-IsHonest fuel c (worlds index) index chunk e here, honest))

-- The sweep keeps the status of a task that returned, and fails the row of one that raised.
abbrev pub IsSwept : Ended → Type 0
IsSwept e = elim e.result [
  | returned success errors ↦ sweep e.status ≡ e.status
  | exception ↦ sweep e.status ≡ JobStatus.failed
]

honest-IsSwept :
    (r : TaskResult) (status : JobStatus)
    → IsHonest (record { result = r; status = status })
    → IsSwept (record { result = r; status = status })
unfolding sweep
honest-IsSwept (returned x y) status h = ground (arith, intermediate-settled status)
honest-IsSwept exception status h = ground arith

-- When all tasks of a DML step have ended, each partition has its row, and the sweep by status finds
-- exactly the tasks that raised: it fails their rows and leaves the status of every other row.
pub gather-IsSwept :
    (fuel : ℕ) (c : Settings) (worlds : ℕ → World) (chunks : List Chunk) (es : List Ended)
    → gather fuel c worlds 0 chunks ≡ some es
    → (length es ≡ length chunks) × All IsSwept es
gather-IsSwept fuel c worlds chunks es p =
    let (n, honest) = gather-IsHonest fuel c worlds 0 chunks es p in
    (n, All-map IsHonest IsSwept (λ e. honest-IsSwept e.result e.status) es honest)

swept-IsSettled : (es : List Ended) → All IsSettled (map (λ e. sweep e.status) es)
swept-IsSettled [] = tt
swept-IsSettled (e ∷ es) = (sweep-IsSettled e.status, swept-IsSettled es)

end-injective : {a b : StepEnd} → some a ≡ some b → b ≡ a
end-injective h = ground arith

aggregate_all-IsSettled :
    (o : Option (List Ended)) (e : StepEnd) → aggregate_all o ≡ some e → All IsSettled e.1
unfolding aggregate_all aggregate
aggregate_all-IsSettled none e p = ground arith
aggregate_all-IsSettled (some es) e p = rw (end-injective p) (swept-IsSettled es)

no_rows : (a e : StepEnd) → All IsSettled a.1 → some a ≡ some e → All IsSettled e.1
no_rows a e h p = rw (end-injective p) h

partitions-IsSettled :
    (fuel : ℕ) (c : Settings) (worlds : ℕ → World) (cut : Csv (List Chunk)) (e : StepEnd)
    → execute_partitions fuel c worlds cut ≡ some e
    → All IsSettled e.1
unfolding execute_partitions
partitions-IsSettled fuel c worlds csv_processor_error e p = no_rows _ e tt p
partitions-IsSettled fuel c worlds type_error e p = no_rows _ e tt p
partitions-IsSettled fuel c worlds value_error e p = no_rows _ e tt p
partitions-IsSettled fuel c worlds (ok []) e p = no_rows _ e tt p
partitions-IsSettled fuel c worlds (ok (chunk ∷ chunks)) e p =
    aggregate_all-IsSettled (gather fuel c worlds 0 (chunk ∷ chunks)) e p

-- Whatever the input, Salesforce, the storage and the clock do: when a DML step has ended, none of its
-- rows is pending, uploading, upload_complete or in_progress.
pub execute_dml_step-IsSettled :
    (fuel : ℕ) (c : Settings) (worlds : ℕ → World) (size : Option ℕ) (default : ℕ) (d : Discovery)
    (e : StepEnd)
    → execute_dml_step fuel c worlds size default d ≡ some e
    → All IsSettled e.1
unfolding execute_dml_step
execute_dml_step-IsSettled fuel c worlds size default storage_refused e p = no_rows _ e tt p
execute_dml_step-IsSettled fuel c worlds size default crashed e p = no_rows _ e tt p
execute_dml_step-IsSettled fuel c worlds size default (files []) e p = no_rows _ e tt p
execute_dml_step-IsSettled fuel c worlds size default (files (f ∷ fs)) e p =
    partitions-IsSettled fuel c worlds
      (partition_files (effective_partition_size size default) (f ∷ fs)) e p
