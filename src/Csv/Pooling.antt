-- ===== src/Csv/Pooling.antt =====
-- What a retry is given: the rows of the result files and the partitions that never reached
-- Salesforce.
use sf_bulk_loader.Prelude.{
  ℕ, zero, suc, ◌<◌, ◌≡◌, refl, ap, ◌∙◌, ◌⊎◌, inl, inr, true, false, ◌||◌, Option, none, some, List,
  [], ◌∷◌, ◌++◌, map, if◌then◌else◌, arith, All, Bool-cases, get_elem?, drop, append_assoc,
  append-nil, is_some,
}
use sf_bulk_loader.Job.{Ref, JobRecord}
use sf_bulk_loader.Csv.{Row, Chunk, ok}
use sf_bulk_loader.Csv.Retry.{
  join_chunks, partition_files, and_then, Tracks, first_header, pool_file, read_ref, track_a,
  has_result_files, add_located, retry_size, retry_job, retry_jobs, repartition, slices, no_tracks,
  join_tracks, build_retry_partitions,
}
use sf_bulk_loader.Csv.Rows.{rows_of, IsSized, slices-keep}
use sf_bulk_loader.Csv.Locating.{locate-get_elem?}

-- The data rows of a result file without its first columns.
abbrev pub file_rows : ℕ → Option (List Row) → List Row
file_rows skip none = []
file_rows skip (some []) = []
file_rows skip (some (raw_header ∷ reader)) = map (drop skip) reader

abbrev pub read_rows : (Ref → Option (List Row)) → ℕ → Option Ref → List Row
read_rows read skip none = []
read_rows read skip (some ref) = file_rows skip (read ref)

-- All rows that the jobs have to offer: of each job the failed ones and then the unprocessed.
abbrev pub pooled_rows : (Ref → Option (List Row)) → List JobRecord → List Row
pooled_rows read [] = []
pooled_rows read (job ∷ jobs) =
    (read_rows read 2 job.error_file_path ++ read_rows read 0 job.unprocessed_file_path)
    ++ pooled_rows read jobs

abbrev pub one_chunk : Option Chunk → List Chunk
one_chunk none = []
one_chunk (some c) = c ∷ []

-- The partitions of the jobs without result files, among those of the step.
abbrev pub originals : List Chunk → List JobRecord → List Chunk
originals chunks [] = []
originals chunks (job ∷ jobs) =
    (if has_result_files job then [] else one_chunk (get_elem? chunks job.partition_index))
    ++ originals chunks jobs

-- What the loop has gathered: the rows `rows` under some header, and the partitions `found`.
record Gathered (rows : List Row) (found : List Chunk) (t : Tracks) : Type 0 where
  pooled : t.track_a_rows ≡ rows
  located : t.track_b_chunks ≡ found
  headed : (t.track_a_rows ≡ []) ⊎ (is_some t.track_a_header ≡ true)

pool_file-Gathered :
    (skip : ℕ) (file : Option (List Row)) (rows : List Row) (found : List Chunk) (t : Tracks)
    → Gathered rows found t
    → Gathered (rows ++ file_rows skip file) found (pool_file skip file t)
unfolding pool_file first_header
pool_file-Gathered skip none rows found t g = rw append-nil g
pool_file-Gathered skip (some []) rows found t g = rw append-nil g
pool_file-Gathered skip (some (raw_header ∷ reader)) rows found t g = record {
  pooled = ap (λ x. x ++ map (drop skip) reader) g.pooled;
  located = g.located;
  headed = inr (ground arith);
}

read_ref-rows :
    (read : Ref → Option (List Row)) (skip : ℕ) (ref : Option Ref)
    → file_rows skip (read_ref read ref) ≡ read_rows read skip ref
unfolding read_ref
read_ref-rows read skip none = refl
read_ref-rows read skip (some ref) = refl

track_a-Gathered :
    (read : Ref → Option (List Row)) (job : JobRecord) (rows : List Row) (found : List Chunk)
    (t : Tracks)
    → Gathered rows found t
    → Gathered
        (rows
          ++ (read_rows read 2 job.error_file_path ++ read_rows read 0 job.unprocessed_file_path))
        found
        (track_a read job t)
unfolding track_a
track_a-Gathered read job rows found t g =
    let errors = read_ref read job.error_file_path in
    let left = read_ref read job.unprocessed_file_path in
    let one = pool_file-Gathered 2 errors rows found t g in
    let two =
      pool_file-Gathered 0 left (rows ++ file_rows 2 errors) found (pool_file 2 errors t) one in
    rw
      (
        append_assoc,
        read_ref-rows read 2 job.error_file_path,
        read_ref-rows read 0 job.unprocessed_file_path,
      )
      at two

no_result_rows :
    (read : Ref → Option (List Row)) (job : JobRecord)
    → has_result_files job ≡ false
    → read_rows read 2 job.error_file_path ++ read_rows read 0 job.unprocessed_file_path ≡ []
unfolding has_result_files
no_result_rows read job e =
    let (a, b) = both_none job.error_file_path job.unprocessed_file_path e in rw (a, b) refl
  where
    both_none : (a b : Option Ref) → (is_some a || is_some b) ≡ false → (a ≡ none) × (b ≡ none)
    both_none none none e = (refl, refl)
    both_none none (some b) e = ground arith
    both_none (some a) b e = ground arith

add_located-Gathered :
    (rows : List Row) (found : List Chunk) (t : Tracks) (o : Option Chunk)
    → Gathered rows found t
    → (t' : Tracks) × (add_located t o ≡ ok t') × Gathered rows (found ++ one_chunk o) t'
unfolding add_located
add_located-Gathered rows found t none g = (t, refl, rw append-nil g)
add_located-Gathered rows found t (some c) g = (
  record t { track_b_chunks = t.track_b_chunks ++ c ∷ [] },
  refl,
  record { pooled = g.pooled; located = ap (λ x. x ++ c ∷ []) g.located; headed = g.headed },
)

module _ (read : Ref → Option (List Row)) (files : List (List Row)) (step_size : Option ℕ)
    (size m : ℕ) (chunks : List Chunk) (effective : retry_size step_size (some size) ≡ some m)
    (cut : partition_files m files ≡ ok chunks) where
  retry_job-Gathered :
      (job : JobRecord) (rows : List Row) (found : List Chunk) (t : Tracks)
      → Gathered rows found t
      → (t' : Tracks) × (retry_job read files step_size (some size) job t ≡ ok t')
        × Gathered
            (rows
              ++ (read_rows read 2 job.error_file_path
                  ++ read_rows read 0 job.unprocessed_file_path))
            (found
              ++ (if has_result_files job
                  then []
                  else one_chunk (get_elem? chunks job.partition_index)))
            t'
  unfolding retry_job and_then
  retry_job-Gathered job rows found t g = elim (Bool-cases (has_result_files job)) [
    | inl e ↦ (
      track_a read job t,
      rw e refl,
      rw (e, append-nil) (track_a-Gathered read job rows found t g),
    )
    | inr e ↦
        let o = get_elem? chunks job.partition_index in
        let (t', stored, g') = add_located-Gathered rows found t o g in
        (
          t',
          rw (e, effective, locate-get_elem? m job.partition_index files chunks cut) stored,
          rw (e, no_result_rows read job e, append-nil) g',
        )
  ]

  retry_jobs-Gathered :
      (jobs : List JobRecord) (rows : List Row) (found : List Chunk) (t : Tracks)
      → Gathered rows found t
      → (t' : Tracks) × (retry_jobs read files step_size (some size) jobs t ≡ ok t')
        × Gathered (rows ++ pooled_rows read jobs) (found ++ originals chunks jobs) t'
  unfolding retry_jobs and_then
  retry_jobs-Gathered [] rows found t g = (t, refl, rw (append-nil, append-nil) g)
  retry_jobs-Gathered (job ∷ jobs) rows found t g =
      let (t1, e1, g1) = retry_job-Gathered job rows found t g in
      let mine =
        read_rows read 2 job.error_file_path ++ read_rows read 0 job.unprocessed_file_path in
      let own =
        if has_result_files job then [] else one_chunk (get_elem? chunks job.partition_index) in
      let (t2, e2, g2) = retry_jobs-Gathered jobs (rows ++ mine) (found ++ own) t1 g1 in
      (t2, rw e1 e2, rw (append_assoc rows mine, append_assoc found own) at g2)

-- The pool under some header, cut at the size.
repartition-cut :
    (size : ℕ) (h : Option Row) (rows : List Row)
    → 0 < size
    → (rows ≡ []) ⊎ (is_some h ≡ true)
    → (header : Row) × (a : List Chunk) × (repartition (some size) h rows ≡ ok a)
      × (rows_of a ≡ rows)
      × All (IsSized size header) a
unfolding repartition
repartition-cut size none [] p k = ([], [], refl, refl, tt)
repartition-cut size none (r ∷ rows) p k = ground arith
repartition-cut size (some header) [] p k = (header, [], refl, refl, tt)
repartition-cut zero (some header) (r ∷ rows) p k = ground arith
repartition-cut (suc n) (some header) (r ∷ rows) p k =
    let (all_rows, sized) = slices-keep (suc n) header (r ∷ rows) p in
    (header, slices (suc n) header (r ∷ rows), refl, all_rows, sized)

join_tracks-Gathered :
    (size : ℕ) (rows : List Row) (found : List Chunk) (t : Tracks)
    → 0 < size
    → Gathered rows found t
    → (header : Row) × (a : List Chunk) × (join_tracks (some size) t ≡ ok (a ++ found))
      × (rows_of a ≡ rows)
      × All (IsSized size header) a
unfolding join_tracks join_chunks
join_tracks-Gathered size rows found t p g =
    let (header, a, cut, all_rows, sized) =
      repartition-cut size t.track_a_header t.track_a_rows p g.headed in
    (header, a, rw (cut, g.located) refl, all_rows ∙ g.pooled, sized)

start-Gathered : Gathered [] [] no_tracks
unfolding no_tracks
start-Gathered = record { pooled = refl; located = refl; headed = inl refl }

-- Where the files of the step can still be cut without an error, and the size for the pool is
-- positive, the retry succeeds. Its partitions are first those of the pool, under one header, none of
-- them empty or above the size, with all failed and unprocessed rows of the jobs in order; then the
-- original partitions of the jobs that have no result file.
pub build_retry_partitions-keep :
    (read : Ref → Option (List Row)) (files : List (List Row)) (step_size : Option ℕ) (size m : ℕ)
    (chunks : List Chunk) (jobs : List JobRecord)
    → 0 < size
    → retry_size step_size (some size) ≡ some m
    → partition_files m files ≡ ok chunks
    → (header : Row) × (a : List Chunk) × (build_retry_partitions read files step_size
          (some size)
          jobs
        ≡ ok (a ++ originals chunks jobs))
      × (rows_of a ≡ pooled_rows read jobs)
      × All (IsSized size header) a
unfolding build_retry_partitions and_then no_tracks
build_retry_partitions-keep read files step_size size m chunks jobs p effective cut =
    let (t, done, g) =
      retry_jobs-Gathered read files step_size size m chunks effective cut jobs [] [] no_tracks
        start-Gathered in
    let (header, a, joined, all_rows, sized) =
      join_tracks-Gathered size (pooled_rows read jobs) (originals chunks jobs) t p g in
    (header, a, rw done joined, all_rows, sized)
