-- ===== src/Retry/Preparing.antt =====
-- What a retry prepares.
use sf_bulk_loader.Prelude.{
  ℕ, ◌<◌, ◌≡◌, ◌≢◌, refl, ap, ◌∙◌, inl, inr, true, Option, none, some, List, [], ◌∷◌, ◌++◌, select,
  arith, All, Bool-cases,
}
use sf_bulk_loader.Job.{Ref, JobRecord, RunStatus, is_terminal}
use sf_bulk_loader.Csv.{Row, Chunk, Csv, csv_processor_error, type_error, value_error, ok}
use sf_bulk_loader.Csv.Retry.{build_retry_partitions, partition_files, retry_size}
use sf_bulk_loader.Csv.Rows.{rows_of, IsSized}
use sf_bulk_loader.Csv.Pooling.{pooled_rows, originals, build_retry_partitions-keep}
use sf_bulk_loader.Csv.DefaultSize.{build_retry_partitions-without_size}
use sf_bulk_loader.Retry.{retry_run, is_retryable, prepared, retry_jobs_of, prepare_retry_step}

prepared-not_run :
    (r : Csv (List Chunk)) (chunks : List Chunk)
    → ((c : Chunk) (cs : List Chunk) → r ≢ ok (c ∷ cs))
    → prepared r ≢ retry_run chunks
unfolding prepared
prepared-not_run csv_processor_error chunks h p = ground arith
prepared-not_run type_error chunks h p = ground arith
prepared-not_run value_error chunks h p = ground arith
prepared-not_run (ok []) chunks h p = ground arith
prepared-not_run (ok (c ∷ cs)) chunks h p = h c cs refl

retry_jobs_of-none :
    (read : Ref → Option (List Row)) (files : List (List Row)) (jobs : List JobRecord)
    (chunks : List Chunk)
    → retry_jobs_of read files none jobs ≢ retry_run chunks
unfolding retry_jobs_of
retry_jobs_of-none read files [] chunks p = ground arith
retry_jobs_of-none read files (j ∷ jobs) chunks p =
    prepared-not_run (build_retry_partitions read files none none (j ∷ jobs)) chunks
      (λ c cs. build_retry_partitions-without_size read files (j ∷ jobs) c cs) p

-- A step that inherits the default partition size is never retried: whatever the run, its jobs, their
-- result files and the input files are, the request is refused or raises an exception.
pub prepare_retry_step-default_size :
    (read : Ref → Option (List Row)) (files : List (List Row)) (run : Option RunStatus)
    (jobs : List JobRecord) (chunks : List Chunk)
    → prepare_retry_step read files run (some none) jobs ≢ retry_run chunks
unfolding prepare_retry_step
prepare_retry_step-default_size read files none jobs chunks p = ground arith
prepare_retry_step-default_size read files (some st) jobs chunks p =
    elim (Bool-cases (is_terminal st)) [
      | inl e ↦ retry_jobs_of-none read files (select is_retryable jobs) chunks (rw e at p)
      | inr e ↦ let q = rw e at p in ground arith
    ]

-- Without a job there is nothing to build.
retry_jobs_of-prepared :
    (read : Ref → Option (List Row)) (files : List (List Row)) (size : ℕ) (jobs : List JobRecord)
    → retry_jobs_of read files (some size) jobs
      ≡ prepared (build_retry_partitions read files (some size) (some size) jobs)
unfolding retry_jobs_of build_retry_partitions
retry_jobs_of-prepared read files size [] = refl
retry_jobs_of-prepared read files size (j ∷ jobs) = refl

-- A retry of a step with a positive partition size, in a run that has ended, whose input files can
-- still be cut without an error: the new run gets the failed and unprocessed rows of all retryable
-- jobs, in order and in partitions up to the size, and then the original partitions of those that have
-- no result file; the answer is 422 if these are no partitions at all.
pub prepare_retry_step-keeps :
    (read : Ref → Option (List Row)) (files : List (List Row)) (st : RunStatus) (size : ℕ)
    (jobs : List JobRecord) (chunks : List Chunk)
    → is_terminal st ≡ true
    → 0 < size
    → partition_files size files ≡ ok chunks
    → (header : Row) × (a : List Chunk) × (rows_of a ≡ pooled_rows read (select is_retryable jobs))
      × All (IsSized size header) a
      × (prepare_retry_step read files (some st) (some (some size)) jobs
          ≡ prepared (ok (a ++ originals chunks (select is_retryable jobs))))
unfolding prepare_retry_step retry_size
prepare_retry_step-keeps read files st size jobs chunks ended p cut =
    let retryable = select is_retryable jobs in
    let (header, a, built, all_rows, sized) =
      build_retry_partitions-keep read files (some size) size size chunks retryable p refl cut in
    (
      header,
      a,
      all_rows,
      sized,
      rw ended (retry_jobs_of-prepared read files size retryable ∙ ap prepared built),
    )
