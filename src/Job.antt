-- ===== src/Job.antt =====
-- backend/app/models/job.py, backend/app/models/load_run.py and the job states of Salesforce's Bulk
-- API: the data that the run, step and partition executors share. Identifiers (UUID and Salesforce
-- ids) and storage references are numbers, since the code only compares and copies them; of the time
-- stamps and message texts of a job the record keeps whether they are set.
use sf_bulk_loader.Prelude.{ℕ, Bool, true, false, Option, none}

abbrev pub Uuid : Type 0
Uuid = ℕ

abbrev pub Ref : Type 0
Ref = ℕ

pub data JobStatus : Type 0 where
  pending uploading upload_complete in_progress job_complete failed aborted : JobStatus

pub record JobRecord : Type 0 where
  pub sf_job_id : Option Uuid
  pub partition_index : ℕ
  pub status : JobStatus
  pub records_processed : Option ℕ
  pub records_failed : Option ℕ
  pub total_records : Option ℕ
  pub success_file_path : Option Ref
  pub error_file_path : Option Ref
  pub unprocessed_file_path : Option Ref
  pub has_api_response : Bool
  pub started : Bool
  pub completed : Bool
  pub has_error_message : Bool

-- The row that the step executor inserts for a partition.
unfoldable pub new_job : ℕ → Option ℕ → JobRecord
new_job index total = record {
  sf_job_id = none;
  partition_index = index;
  status = JobStatus.pending;
  records_processed = none;
  records_failed = none;
  total_records = total;
  success_file_path = none;
  error_file_path = none;
  unprocessed_file_path = none;
  has_api_response = false;
  started = false;
  completed = false;
  has_error_message = false;
}

-- The states from which the sweep of a step moves a job to `failed`.
unfoldable pub is_intermediate : JobStatus → Bool
is_intermediate JobStatus.pending = true
is_intermediate JobStatus.uploading = true
is_intermediate JobStatus.upload_complete = true
is_intermediate JobStatus.in_progress = true
is_intermediate JobStatus.job_complete = false
is_intermediate JobStatus.failed = false
is_intermediate JobStatus.aborted = false

-- The `state` of a Salesforce job; `other` is any text but the three of `_TERMINAL_STATES`.
pub data SfState : Type 0 where
  job_complete failed aborted other : SfState

unfoldable pub is_terminal_state : SfState → Bool
is_terminal_state SfState.other = false
is_terminal_state _ = true

-- A call out of the process: its value, a `BulkAPIError`, or any other exception.
pub data Call {ℓ} (A : Type ℓ) : Type ℓ where
  reply : A → Call A
  bulk_api_error : Call A
  other_error : Call A

pub data RunStatus : Type 0 where
  pending running completed completed_with_errors failed aborted : RunStatus

unfoldable pub is_terminal : RunStatus → Bool
is_terminal RunStatus.pending = false
is_terminal RunStatus.running = false
is_terminal _ = true
