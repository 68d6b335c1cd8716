-- ===== src/Run/Requests.antt =====
-- `abort_run` of backend/app/services/load_run_service.py, with the rows of the jobs.
use sf_bulk_loader.Prelude.{
  ◌≡◌, ◌⊎◌, refl, false, Option, none, some, List, [], ◌∷◌, ℕ, map, All, arith,
}
use sf_bulk_loader.Job.{JobStatus, JobRecord, RunStatus, is_intermediate}
use sf_bulk_loader.Run.{State, mark, api_abort}

pub data AbortResponse : Type 0 where
  http_error : ℕ → AbortResponse
  accepted : State → AbortResponse

-- The update of the jobs.
unfoldable pub abort_job : JobStatus → JobRecord → JobRecord
abort_job JobStatus.pending j = record j { status = JobStatus.aborted }
abort_job JobStatus.uploading j = record j { status = JobStatus.aborted }
abort_job JobStatus.in_progress j = record j { status = JobStatus.aborted }
abort_job _ j = j

unfoldable pub abort_jobs : List JobRecord → List JobRecord
unfolding abort_job
abort_jobs jobs = map (λ j. abort_job j.status j) jobs

unfoldable pub abort_found : RunStatus → State → AbortResponse
unfolding mark abort_jobs
abort_found RunStatus.pending s =
    accepted (record (mark RunStatus.aborted s) { jobs = abort_jobs s.jobs })
abort_found RunStatus.running s =
    accepted (record (mark RunStatus.aborted s) { jobs = abort_jobs s.jobs })
abort_found _ s = http_error 409

-- `none` is a run that does not exist.
unfoldable pub abort_run : Option State → AbortResponse
unfolding abort_found
abort_run none = http_error 404
abort_run (some s) = abort_found s.row.status s

-- A job after the request: its row is settled, or Salesforce has its upload.
abbrev pub IsReached : JobRecord → Type 0
IsReached j = (is_intermediate j.status ≡ false) ⊎ (j.status ≡ JobStatus.upload_complete)

abort_job-IsReached : (st : JobStatus) (j : JobRecord) → j.status ≡ st → IsReached (abort_job st j)
unfolding abort_job is_intermediate
abort_job-IsReached st j p = ground arith

abort_jobs-IsReached : (jobs : List JobRecord) → All IsReached (abort_jobs jobs)
unfolding abort_jobs
abort_jobs-IsReached [] = tt
abort_jobs-IsReached (j ∷ jobs) = (abort_job-IsReached j.status j refl, abort_jobs-IsReached jobs)

-- What a response says of the state that was there.
abbrev pub IsAnswered : State → AbortResponse → Type 0
IsAnswered s (http_error code) = (code ≡ 409) × (api_abort s ≡ s)
IsAnswered s (accepted s') =
    (s'.row ≡ (api_abort s).row)
    × (s'.row.status ≡ RunStatus.aborted)
    × (s'.published ≡ s.published)
    × (s'.fired ≡ s.fired)
    × All IsReached s'.jobs

answered : (st : RunStatus) (s : State) → s.row.status ≡ st → IsAnswered s (abort_found st s)
unfolding abort_found api_abort mark
answered RunStatus.pending s p = rw p (refl, refl, refl, refl, abort_jobs-IsReached s.jobs)
answered RunStatus.running s p = rw p (refl, refl, refl, refl, abort_jobs-IsReached s.jobs)
answered RunStatus.completed s p = rw p (refl, refl)
answered RunStatus.completed_with_errors s p = rw p (refl, refl)
answered RunStatus.failed s p = rw p (refl, refl)
answered RunStatus.aborted s p = rw p (refl, refl)

-- The request to abort a run that exists is accepted or answered by 409. Accepted, it changes the row
-- as the coordinator sees it change, publishes and tells nobody anything, and of the jobs leaves none
-- in an intermediate status but those whose upload is complete; refused, the coordinator sees no
-- change.
pub abort_run-IsAnswered : (s : State) → IsAnswered s (abort_run (some s))
unfolding abort_run
abort_run-IsAnswered s = answered s.row.status s refl
