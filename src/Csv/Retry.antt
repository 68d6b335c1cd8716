-- ===== src/Csv/Retry.antt =====
-- `build_retry_partitions` of csv_processor.py. `read` gives the rows of a result file that
-- `csv.reader` yields before it ends or raises, and `none` for a missing file; `files` are those that
-- the pattern of the step matches. References are not empty texts.
use sf_bulk_loader.Prelude.{
  ℕ, zero, suc, ◌+◌, Bool, ◌||◌, Option, none, some, List, [], ◌∷◌, ◌++◌, map, length, is_some,
  ◌==◌, ltb, if◌then◌else◌, take, drop,
}
use sf_bulk_loader.Job.{Ref, JobRecord}
use sf_bulk_loader.Csv.{
  Row, Chunk, Csv, csv_processor_error, type_error, value_error, ok, strip_all, partition_csv,
}

-- `partition_csv` where the size may be None: `None < 1` is a TypeError.
unfoldable pub partition_with : Option ℕ → List Row → Csv (List Chunk)
partition_with none file = type_error
partition_with (some size) file = partition_csv size file

unfoldable pub join_chunks : Csv (List Chunk) → Csv (List Chunk) → Csv (List Chunk)
join_chunks (ok chunks) (ok more) = ok (chunks ++ more)
join_chunks (ok chunks) error = error
join_chunks csv_processor_error _ = csv_processor_error
join_chunks type_error _ = type_error
join_chunks value_error _ = value_error

-- The loop of step_executor.py that cuts the files of a step, one after the other.
unfoldable pub partition_files : ℕ → List (List Row) → Csv (List Chunk)
unfolding join_chunks
partition_files size [] = ok []
partition_files size (file ∷ files) =
    join_chunks (partition_csv size file) (partition_files size files)

-- The inner loop of Track B: the partition found, or the index after those of the file.
pub data Scan : Type 0 where
  found : Chunk → Scan
  at_index : ℕ → Scan

unfoldable pub scan : ℕ → ℕ → List Chunk → Scan
scan target_idx current_idx [] = at_index current_idx
scan target_idx current_idx (chunk ∷ chunks) =
    let rest = scan target_idx (current_idx + 1) chunks in
    if current_idx == target_idx then found chunk else rest

-- An error ends the function; else it goes on with the value.
unfoldable pub and_then : {A B : Type 0} → Csv A → (A → Csv B) → Csv B
and_then csv_processor_error f = csv_processor_error
and_then type_error f = type_error
and_then value_error f = value_error
and_then (ok a) f = f a

-- `if found: break`
unfoldable pub or_next_file : Scan → (ℕ → Csv (Option Chunk)) → Csv (Option Chunk)
or_next_file (found chunk) next_file = ok (some chunk)
or_next_file (at_index n) next_file = next_file n

-- The loop over the files: `none` when no partition has the index.
unfoldable pub locate : Option ℕ → ℕ → ℕ → List (List Row) → Csv (Option Chunk)
unfolding partition_with scan and_then or_next_file
locate size target_idx current_idx [] = ok none
locate size target_idx current_idx (file ∷ files) =
    and_then (partition_with size file) λ chunks.
      or_next_file (scan target_idx current_idx chunks) λ n. locate size target_idx n files

pub record Tracks : Type 0 where
  pub track_a_header : Option Row
  pub track_a_rows : List Row
  pub track_b_chunks : List Chunk

-- `if track_a_header is None: track_a_header = ...`
unfoldable pub first_header : Option Row → Row → Option Row
first_header none header = some header
first_header (some old) header = some old

-- The rows of one result file join the pool, each without its first `skip` columns.
unfoldable pub pool_file : ℕ → Option (List Row) → Tracks → Tracks
unfolding first_header
pool_file skip none t = t
pool_file skip (some []) t = t
pool_file skip (some (raw_header ∷ reader)) t = record t {
  track_a_header = first_header t.track_a_header (strip_all (drop skip raw_header));
  track_a_rows = t.track_a_rows ++ map (drop skip) reader;
}

unfoldable pub read_ref : (Ref → Option (List Row)) → Option Ref → Option (List Row)
read_ref read none = none
read_ref read (some ref) = read ref

-- An error file has the columns sf__Id and sf__Error in front.
unfoldable pub track_a : (Ref → Option (List Row)) → JobRecord → Tracks → Tracks
unfolding pool_file read_ref
track_a read job t =
    pool_file 0 (read_ref read job.unprocessed_file_path)
      (pool_file 2 (read_ref read job.error_file_path) t)

unfoldable pub has_result_files : JobRecord → Bool
has_result_files job = is_some job.error_file_path || is_some job.unprocessed_file_path

unfoldable pub add_located : Tracks → Option Chunk → Csv Tracks
add_located t none = ok t
add_located t (some chunk) = ok (record t { track_b_chunks = t.track_b_chunks ++ chunk ∷ [] })

-- `step.partition_size` if it is set, else the argument `partition_size`.
unfoldable pub retry_size : Option ℕ → Option ℕ → Option ℕ
retry_size none partition_size = partition_size
retry_size (some size) partition_size = some size

module _ (read : Ref → Option (List Row)) (files : List (List Row))
    (step_size partition_size : Option ℕ) where
  unfoldable pub retry_job : JobRecord → Tracks → Csv Tracks
  unfolding has_result_files track_a add_located locate retry_size and_then
  retry_job job t =
      if has_result_files job
      then ok (track_a read job t)
      else and_then (locate (retry_size step_size partition_size) job.partition_index 0 files)
          (add_located t)

  unfoldable pub retry_jobs : List JobRecord → Tracks → Csv Tracks
  unfolding retry_job and_then
  retry_jobs [] t = ok t
  retry_jobs (job ∷ jobs) t = and_then (retry_job job t) (retry_jobs jobs)

-- `range(start, stop, step)` for a positive step; the fuel is at least the number of its elements.
unfoldable pub range : ℕ → ℕ → ℕ → ℕ → List ℕ
range zero start stop step = []
range (suc fuel) start stop step =
    let rest = range fuel (start + step) stop step in if ltb start stop then start ∷ rest else []

-- `for i in range(0, len(rows), size): ... rows[i : i + size]`
unfoldable pub slices : ℕ → Row → List Row → List Chunk
unfolding range
slices size header rows =
    map (λ i. record { header = header; rows = take size (drop i rows) })
      (range (length rows) 0 (length rows) size)

-- The pooled rows, `if track_a_rows and track_a_header is not None`. `range` refuses None and 0.
unfoldable pub repartition : Option ℕ → Option Row → List Row → Csv (List Chunk)
unfolding slices
repartition size none rows = ok []
repartition size (some header) [] = ok []
repartition none (some header) (r ∷ rows) = type_error
repartition (some zero) (some header) (r ∷ rows) = value_error
repartition (some (suc n)) (some header) (r ∷ rows) = ok (slices (suc n) header (r ∷ rows))

unfoldable pub no_tracks : Tracks
no_tracks = record { track_a_header = none; track_a_rows = []; track_b_chunks = [] }

-- `return track_a_chunks + track_b_chunks`
unfoldable pub join_tracks : Option ℕ → Tracks → Csv (List Chunk)
unfolding repartition join_chunks
join_tracks size t =
    join_chunks (repartition size t.track_a_header t.track_a_rows) (ok t.track_b_chunks)

unfoldable pub build_retry_partitions :
    (Ref → Option (List Row))
    → List (List Row)
    → Option ℕ
    → Option ℕ
    → List JobRecord
    → Csv (List Chunk)
unfolding retry_jobs join_tracks no_tracks and_then
build_retry_partitions read files step_size partition_size jobs =
    and_then (retry_jobs read files step_size partition_size jobs no_tracks)
      (join_tracks partition_size)
