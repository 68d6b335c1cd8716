-- ===== src/Scenarios/Files.antt =====
-- Splitting a small file, and a retry of its partitions.
use sf_bulk_loader.Prelude.{ℕ, ◌≡◌, refl, Option, none, some, List, [], ◌∷◌, ◌++◌, All, arith}
use sf_bulk_loader.Job.{Ref, JobRecord, new_job, JobStatus}
use sf_bulk_loader.Csv.{
  Row, Chunk, ok, csv_processor_error, type_error, strip_all, is_space, lstrip, rstrip,
  partition_csv, fill,
}
use sf_bulk_loader.Csv.Retry.{partition_files, retry_size, build_retry_partitions, slices}
use sf_bulk_loader.Csv.Chunks.{partition_csv-slices}
use sf_bulk_loader.Csv.Rows.{rows_of, IsSized}
use sf_bulk_loader.Csv.Pooling.{pooled_rows, originals, build_retry_partitions-keep}

-- One column; the header has a space on each side.
abbrev pub row : ℕ → Row
row n = (n ∷ []) ∷ []

abbrev pub header : Row
header = (32 ∷ 73 ∷ 100 ∷ 32 ∷ []) ∷ []

abbrev pub clean : Row
clean = (73 ∷ 100 ∷ []) ∷ []

abbrev pub file : List Row
file = header ∷ row 1 ∷ row 2 ∷ row 3 ∷ []

abbrev pub parts : List Chunk
parts =
    record { header = clean; rows = row 1 ∷ row 2 ∷ [] }
    ∷ record { header = clean; rows = row 3 ∷ [] }
    ∷ []

stripped : strip_all header ≡ clean
unfolding strip_all is_space lstrip rstrip
stripped = refl

file_in_two : partition_csv 2 file ≡ ok parts
unfolding partition_csv fill strip_all is_space lstrip rstrip
file_in_two = refl

no_size : partition_csv 0 file ≡ csv_processor_error
unfolding partition_csv
no_size = refl

pub two_files : partition_files 2 (file ∷ file ∷ []) ≡ ok (parts ++ parts)
unfolding partition_files partition_csv fill strip_all is_space lstrip rstrip
two_files = refl

partition_csv-slices_example :
    partition_csv 2 file ≡ ok (slices 2 (strip_all header) (row 1 ∷ row 2 ∷ row 3 ∷ []))
partition_csv-slices_example =
    partition_csv-slices 2 header (row 1 ∷ row 2 ∷ row 3 ∷ []) (omega arith)

-- The first job has failed at Salesforce, the second never got there.
abbrev pub jobs : List JobRecord
jobs =
    record (new_job 0 (some 2)) { status = JobStatus.job_complete; error_file_path = some 5 }
    ∷ record (new_job 3 (some 1)) { status = JobStatus.failed }
    ∷ []

abbrev pub error_file : Ref → Option (List Row)
error_file ref = some (((73 ∷ []) ∷ (69 ∷ []) ∷ header) ∷ ((9 ∷ []) ∷ (8 ∷ []) ∷ row 2) ∷ [])

retried_jobs :
    build_retry_partitions error_file (file ∷ file ∷ []) (some 2) (some 2) jobs
    ≡ ok (
        record { header = clean; rows = row 2 ∷ [] }
        ∷ record { header = clean; rows = row 3 ∷ [] }
        ∷ [])
unfolding build_retry_partitions new_job partition_csv strip_all rstrip lstrip is_space
retried_jobs = refl

build_retry_partitions-keep_example :
    (header : Row) × (a : List Chunk) × (build_retry_partitions error_file
        (file ∷ file ∷ [])
        (some 2)
        (some 2)
        jobs
      ≡ ok (a ++ originals (parts ++ parts) jobs))
    × (rows_of a ≡ pooled_rows error_file jobs)
    × All (IsSized 2 header) a
unfolding retry_size
build_retry_partitions-keep_example =
    build_retry_partitions-keep error_file (file ∷ file ∷ []) (some 2) 2 2 (parts ++ parts) jobs
      (omega arith) refl two_files

-- A step without a size.
default_size : build_retry_partitions error_file (file ∷ []) none none jobs ≡ type_error
unfolding build_retry_partitions new_job
default_size = refl
