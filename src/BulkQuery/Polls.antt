-- ===== src/BulkQuery/Polls.antt =====
-- A query job as a whole, `_poll_query_job` and `run_bulk_query` of
-- backend/app/services/bulk_query_executor.py, and the step that runs it.
use sf_bulk_loader.Prelude.{
  ℕ, zero, suc, ◌+◌, ◌≤◌, ◌<◌, ◌≡◌, ◌≢◌, refl, Bool, true, false, not, ◌&&◌, Option, none, some,
  arith, ltb, leb, ◌==◌, if◌then◌else◌,
}
use sf_bulk_loader.Client.{HttpReply, returned, bulk_api_error, assertion_error, request}
use sf_bulk_loader.Job.{Ref}
use sf_bulk_loader.Step.Query.{QueryEnd, query_result, job_failed, query_exception}
use sf_bulk_loader.BulkQuery.{PageReply, QueryResult, stream_results}

pub data QueryState : Type 0 where
  job_complete failed aborted : QueryState
  -- `UploadComplete`, `InProgress` or anything else.
  not_terminal : QueryState

unfoldable pub is_query_terminal : QueryState → Bool
is_query_terminal not_terminal = false
is_query_terminal _ = true

-- The loop of `_request` is that of salesforce_bulk.py, with `BulkQueryError` for its exceptions.
unfoldable pub query_request : (ℕ → HttpReply) → Option ℕ
unfolding request
query_request replies = elim (request replies).outcome [
  | returned status ↦ some status
  | bulk_api_error status ↦ none
  | assertion_error ↦ none
]

unfoldable pub is_ok : Option ℕ → Bool
is_ok none = false
is_ok (some status) = status == 200

-- A terminal state; `BulkQueryError`; or more rounds than `fuel`.
pub data PollEnd : Type 0 where
  ended : QueryState → PollEnd
  poll_error : PollEnd
  out_of_polls : PollEnd

-- `max_poll_seconds > 0 and (time.monotonic() - start) >= max_poll_seconds`
unfoldable pub is_timed_out : ℕ → ℕ → Bool
is_timed_out max_poll_seconds elapsed = ltb 0 max_poll_seconds && leb max_poll_seconds elapsed

-- What the rounds see: the replies to a request, the state in its body, the time since the start.
pub record PollWorld : Type 0 where
  pub replies : ℕ → ℕ → HttpReply
  pub state : ℕ → QueryState
  pub elapsed : ℕ → ℕ

-- The sleeps between the rounds show in `elapsed`.
unfoldable pub poll_query_job : ℕ → PollWorld → ℕ → ℕ → PollEnd
unfolding query_request is_ok is_query_terminal is_timed_out
poll_query_job max_poll_seconds w zero i = out_of_polls
poll_query_job max_poll_seconds w (suc fuel) i =
    let again = poll_query_job max_poll_seconds w fuel (i + 1) in
    if not (is_ok (query_request (w.replies i)))
    then poll_error
    else if is_query_terminal (w.state i)
    then ended (w.state i)
    else if is_timed_out max_poll_seconds (w.elapsed i)
    then poll_error
    else again

-- `BulkQueryResult`, `BulkQueryJobFailed`, or another exception.
pub data BulkQueryEnd : Type 0 where
  completed : QueryResult → BulkQueryEnd
  job_ended : QueryState → BulkQueryEnd
  query_error : BulkQueryEnd

unfoldable pub with_results : Option QueryResult → BulkQueryEnd
with_results none = query_error
with_results (some r) = completed r

unfoldable pub after_poll : Option QueryResult → PollEnd → BulkQueryEnd
unfolding with_results
after_poll results (ended job_complete) = with_results results
after_poll results (ended st) = job_ended st
after_poll results poll_error = query_error
after_poll results out_of_polls = query_error

unfoldable pub run_bulk_query :
    ℕ → (ℕ → HttpReply) → PollWorld → ℕ → (Option ℕ → ℕ → PageReply) → ℕ → Bool → BulkQueryEnd
unfolding query_request is_ok after_poll poll_query_job stream_results
run_bulk_query max_poll_seconds create w polls pages fuel readable =
    if not (is_ok (query_request create))
    then query_error
    else after_poll (stream_results pages fuel readable) (poll_query_job max_poll_seconds w polls 0)

-- As the step sees it: the response of Salesforce comes with the result and with the failure.
unfoldable pub query_end_of : Ref → BulkQueryEnd → QueryEnd
query_end_of artefact_uri (completed r) = query_result r.row_count artefact_uri true
query_end_of artefact_uri (job_ended st) = job_failed true
query_end_of artefact_uri query_error = query_exception

unless-fuel :
    (b : Bool) (x y : PollEnd)
    → x ≢ out_of_polls
    → (b ≡ false → y ≢ out_of_polls)
    → (if b then x else y) ≢ out_of_polls
unless-fuel true x y h k = h
unless-fuel false x y h k = k refl

below_cap : (cap e : ℕ) → 0 < cap → is_timed_out cap e ≡ false → e < cap
unfolding is_timed_out
below_cap cap e h k = ground arith

poll-ends :
    (max_poll_seconds : ℕ) (w : PollWorld) (fuel i : ℕ)
    → 0 < max_poll_seconds
    → ((n : ℕ) → w.elapsed n + 1 ≤ w.elapsed (n + 1))
    → 0 < fuel
    → max_poll_seconds < w.elapsed i + fuel
    → poll_query_job max_poll_seconds w fuel i ≢ out_of_polls
unfolding poll_query_job
poll-ends max_poll_seconds w zero i h k some_fuel f = ground arith
poll-ends max_poll_seconds w (suc fuel) i h k some_fuel f =
    unless-fuel (not (is_ok (query_request (w.replies i)))) poll_error _ (λ e. cc)
      (λ a.
        unless-fuel (is_query_terminal (w.state i)) (ended (w.state i)) _ (λ e. cc)
          (λ b.
            unless-fuel (is_timed_out max_poll_seconds (w.elapsed i)) poll_error _ (λ e. cc)
              (λ c.
                let early = below_cap max_poll_seconds (w.elapsed i) h c in
                poll-ends max_poll_seconds w fuel (i + 1) h k (omega arith) (omega (arith, k i)))))

-- With the hard cap on, and sleeps of a second at least, the polling of a query job ends by itself, and
-- its fuel, one more than the cap has seconds, is enough.
pub poll_query_job-terminates :
    (max_poll_seconds : ℕ) (w : PollWorld)
    → 0 < max_poll_seconds
    → ((n : ℕ) → w.elapsed n + 1 ≤ w.elapsed (n + 1))
    → poll_query_job max_poll_seconds w (max_poll_seconds + 1) 0 ≢ out_of_polls
poll_query_job-terminates max_poll_seconds w h k =
    poll-ends max_poll_seconds w (max_poll_seconds + 1) 0 h k (omega arith) (omega arith)
