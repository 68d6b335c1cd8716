-- ===== src/Step/Ending.antt =====
-- A DML step ends.
use sf_bulk_loader.Prelude.{ℕ, ◌+◌, ◌≢◌, refl, Option, none, some, List, [], ◌∷◌, length, arith}
use sf_bulk_loader.Job.{new_job}
use sf_bulk_loader.Partition.{
  World, Settings, Session, Flow, next, done, raised, out_of_fuel, process_partition, open_session,
}
use sf_bulk_loader.Partition.Leads.{Ends}
use sf_bulk_loader.Partition.Lifecycle.{process_partition-Ends}
use sf_bulk_loader.Partition.Polling.{Ticks, process_partition-terminates}
use sf_bulk_loader.Csv.{Chunk, Csv, csv_processor_error, type_error, value_error, ok}
use sf_bulk_loader.Csv.Retry.{partition_files}
use sf_bulk_loader.Step.{
  Ended, end_of, run_task, gathered, gather, aggregate_all, execute_partitions, Discovery, files,
  storage_refused, crashed, execute_dml_step, effective_partition_size,
}

end_of-some : (r : Flow (Unit {0}) × Session) → Ends r → r.0 ≢ out_of_fuel → end_of r ≢ none
unfolding end_of
end_of-some (next a, s) h k p = h
end_of-some (done x y, s) h k p = ground arith
end_of-some (raised, s) h k p = ground arith
end_of-some (out_of_fuel, s) h k p = k refl

gathered-none :
    (o : Option Ended) (os : Option (List Ended)) → o ≢ none → os ≢ none → gathered o os ≢ none
unfolding gathered
gathered-none none os h k p = h refl
gathered-none (some e) none h k p = k refl
gathered-none (some e) (some es) h k p = ground arith

module _ (c : Settings) (worlds : ℕ → World) (ticks : (i : ℕ) → Ticks c (worlds i)) where
  run_task-ends :
      (index : ℕ) (chunk : Chunk)
      → run_task (c.sf_job_max_poll_seconds + 1) c (worlds index) index chunk ≢ none
  unfolding run_task new_job
  run_task-ends index chunk =
      let s = open_session (new_job index (some (length chunk.rows))) in
      let fuel = c.sf_job_max_poll_seconds + 1 in
      end_of-some (process_partition fuel c (worlds index) s)
        (process_partition-Ends fuel c (worlds index) (new_job index (some (length chunk.rows)))
          refl)
        (process_partition-terminates c (worlds index) s (ticks index))

  pub gather-ends :
      (index : ℕ) (chunks : List Chunk)
      → gather (c.sf_job_max_poll_seconds + 1) c worlds index chunks ≢ none
  unfolding gather
  gather-ends index [] p = ground arith
  gather-ends index (chunk ∷ chunks) p =
      let fuel = c.sf_job_max_poll_seconds + 1 in
      gathered-none (run_task fuel c (worlds index) index chunk)
        (gather fuel c worlds (index + 1) chunks) (run_task-ends index chunk)
        (gather-ends (index + 1) chunks) p

  aggregate_all-none : (o : Option (List Ended)) → o ≢ none → aggregate_all o ≢ none
  unfolding aggregate_all
  aggregate_all-none none h p = h refl
  aggregate_all-none (some es) h p = ground arith

  partitions-end :
      (cut : Csv (List Chunk))
      → execute_partitions (c.sf_job_max_poll_seconds + 1) c worlds cut ≢ none
  unfolding execute_partitions
  partitions-end csv_processor_error p = ground arith
  partitions-end type_error p = ground arith
  partitions-end value_error p = ground arith
  partitions-end (ok []) p = ground arith
  partitions-end (ok (chunk ∷ chunks)) p =
      aggregate_all-none (gather (c.sf_job_max_poll_seconds + 1) c worlds 0 (chunk ∷ chunks))
        (gather-ends 0 (chunk ∷ chunks)) p

-- With the hard cap of the poll loop on, positive intervals, and sleeps that last as long as they
-- should in every partition, a DML step ends, whatever else happens: one round more than the cap has
-- seconds is fuel enough.
pub execute_dml_step-terminates :
    (c : Settings) (worlds : ℕ → World) (size : Option ℕ) (default : ℕ) (d : Discovery)
    → ((i : ℕ) → Ticks c (worlds i))
    → execute_dml_step (c.sf_job_max_poll_seconds + 1) c worlds size default d ≢ none
unfolding execute_dml_step
execute_dml_step-terminates c worlds size default storage_refused t p = ground arith
execute_dml_step-terminates c worlds size default crashed t p = ground arith
execute_dml_step-terminates c worlds size default (files []) t p = ground arith
execute_dml_step-terminates c worlds size default (files (f ∷ fs)) t p =
    partitions-end c worlds t (partition_files (effective_partition_size size default) (f ∷ fs)) p
