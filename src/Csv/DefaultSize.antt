-- ===== src/Csv/DefaultSize.antt =====
-- The retry of a step without a partition size of its own: `prepare_retry_step` of
-- load_run_service.py hands `step.partition_size`, which is None, to `build_retry_partitions`.
use sf_bulk_loader.Prelude.{
  ℕ, ◌≡◌, ◌≢◌, refl, ap, ◌∙◌, inl, inr, Option, none, some, List, [], ◌∷◌, arith, Bool-cases,
}
use sf_bulk_loader.Job.{Ref, JobRecord}
use sf_bulk_loader.Csv.{Row, Chunk, Csv, ok, csv_processor_error, type_error, value_error}
use sf_bulk_loader.Csv.Locating.{joined}
use sf_bulk_loader.Csv.Retry.{
  partition_with, locate, and_then, Tracks, pool_file, track_a, read_ref, has_result_files,
  add_located, retry_size, retry_job, retry_jobs, repartition, no_tracks, join_tracks,
  build_retry_partitions,
}

locate-without_size :
    (target n : ℕ) (files : List (List Row)) (o : Option Chunk)
    → locate none target n files ≡ ok o
    → o ≡ none
unfolding locate partition_with and_then
locate-without_size target n [] o e = ground arith
locate-without_size target n (file ∷ files) o e = ground arith

-- A step of the loop leaves no original partition.
pool_file-located :
    (skip : ℕ) (file : Option (List Row)) (t : Tracks)
    → (pool_file skip file t).track_b_chunks ≡ t.track_b_chunks
unfolding pool_file
pool_file-located skip none t = refl
pool_file-located skip (some []) t = refl
pool_file-located skip (some (h ∷ reader)) t = refl

added :
    (t t' : Tracks) (r : Csv (Option Chunk))
    → ((o : Option Chunk) → r ≡ ok o → o ≡ none)
    → and_then r (add_located t) ≡ ok t'
    → t' ≡ t
unfolding and_then add_located
added t t' csv_processor_error h e = ground arith
added t t' type_error h e = ground arith
added t t' value_error h e = ground arith
added t t' (ok none) h e = ground arith
added t t' (ok (some c)) h e = ground (arith, h (some c) refl)

track_a-located :
    (read : Ref → Option (List Row)) (job : JobRecord) (t : Tracks)
    → (track_a read job t).track_b_chunks ≡ t.track_b_chunks
unfolding track_a
track_a-located read job t =
    let errors = read_ref read job.error_file_path in
    pool_file-located 0 (read_ref read job.unprocessed_file_path) (pool_file 2 errors t)
    ∙ pool_file-located 2 errors t

ok-same : {t t' : Tracks} → ok t ≡ ok t' → t' ≡ t
ok-same e = ground arith

ok-list : {xs ys : List Chunk} → ok xs ≡ ok ys → ys ≡ xs
ok-list e = ground arith

and_then-ok :
    {A B : Type 0} (r : Csv A) (f : A → Csv B) (b : B)
    → and_then r f ≡ ok b
    → (a : A) × (r ≡ ok a) × (f a ≡ ok b)
unfolding and_then
and_then-ok csv_processor_error f b e = ground arith
and_then-ok type_error f b e = ground arith
and_then-ok value_error f b e = ground arith
and_then-ok (ok a) f b e = (a, refl, e)

module _ (read : Ref → Option (List Row)) (files : List (List Row)) where
  retry_job-located :
      (job : JobRecord) (t t' : Tracks)
      → retry_job read files none none job t ≡ ok t'
      → t'.track_b_chunks ≡ t.track_b_chunks
  unfolding retry_job retry_size
  retry_job-located job t t' e = elim (Bool-cases (has_result_files job)) [
    | inl h ↦ ap (λ x. x.track_b_chunks) (ok-same (rw h at e)) ∙ track_a-located read job t
    | inr h ↦
        ap (λ x. x.track_b_chunks)
          (added t t' (locate none job.partition_index 0 files)
            (locate-without_size job.partition_index 0 files) (rw h at e))
  ]

  retry_jobs-located :
      (jobs : List JobRecord) (t t' : Tracks)
      → retry_jobs read files none none jobs t ≡ ok t'
      → t'.track_b_chunks ≡ t.track_b_chunks
  unfolding retry_jobs
  retry_jobs-located [] t t' e = ap (λ x. x.track_b_chunks) (ok-same e)
  retry_jobs-located (job ∷ jobs) t t' e =
      let (mid, here, there) =
        and_then-ok (retry_job read files none none job t) (retry_jobs read files none none jobs) t'
          e in
      retry_jobs-located jobs mid t' there ∙ retry_job-located job t mid here

repartition-without_size :
    (h : Option Row) (rows : List Row) (a : List Chunk) → repartition none h rows ≡ ok a → a ≡ []
unfolding repartition
repartition-without_size none rows a e = ground arith
repartition-without_size (some h) [] a e = ground arith
repartition-without_size (some h) (r ∷ rows) a e = ground arith

join_tracks-without_size :
    (t : Tracks) (chunks : List Chunk)
    → t.track_b_chunks ≡ []
    → join_tracks none t ≡ ok chunks
    → chunks ≡ []
unfolding join_tracks
join_tracks-without_size t chunks h e =
    let (xs, ys, a, b, both) =
      joined (repartition none t.track_a_header t.track_a_rows) (ok t.track_b_chunks) chunks e in
    let left = repartition-without_size t.track_a_header t.track_a_rows xs a in
    both ∙ rw (left, ok-list b, h) refl

-- Without a size of the step and of the caller, as the retry calls it for a step that inherits the
-- default, the function never returns a partition, whatever the jobs and the files are.
pub build_retry_partitions-without_size :
    (read : Ref → Option (List Row)) (files : List (List Row)) (jobs : List JobRecord) (c : Chunk)
    (chunks : List Chunk)
    → build_retry_partitions read files none none jobs ≢ ok (c ∷ chunks)
unfolding build_retry_partitions no_tracks
build_retry_partitions-without_size read files jobs c chunks e =
    let (t, gathered, cut) =
      and_then-ok (retry_jobs read files none none jobs no_tracks) (join_tracks none) (c ∷ chunks)
        e in
    let empty =
      join_tracks-without_size t (c ∷ chunks)
        (retry_jobs-located read files jobs no_tracks t gathered) cut in
    ground (arith, empty)
