-- ===== src/Client.antt =====
-- backend/app/services/salesforce_bulk.py: `_request`, the HTTP call with retries that every call to
-- Salesforce goes through. What the n-th call of the HTTP client answers is a parameter. Waits are in
-- seconds.
pub mod Retries
use sf_bulk_loader.Prelude.{
  ℕ, zero, suc, ◌+◌, ◌^◌, Bool, true, false, Option, none, some, List, [], ◌∷◌, ◌++◌, if◌then◌else◌,
  ◌==◌, leb,
}

-- A response with its status and the `Retry-After` header, if it is a number; or `httpx.RequestError`.
pub data HttpReply : Type 0 where
  response : ℕ → Option ℕ → HttpReply
  request_error : HttpReply

-- A response is returned, `BulkAPIError` is raised, with the status where there is one, or the
-- assertion after the loop fails.
pub data Outcome : Type 0 where
  returned : ℕ → Outcome
  bulk_api_error : Option ℕ → Outcome
  assertion_error : Outcome

-- The outcome, and the sleeps before it: there is one call more than sleeps.
pub record Result : Type 0 where
  pub outcome : Outcome
  pub waits : List ℕ

abbrev pub max_retries : ℕ
max_retries = 3

-- After the loop: `last_response` is not None, or the assertion fails.
unfoldable pub exhausted : Option ℕ → Outcome
exhausted none = assertion_error
exhausted (some status_code) = bulk_api_error (some status_code)

unfoldable pub sleep_then : ℕ → Result → Result
sleep_then wait r = record r { waits = wait ∷ r.waits }

unfoldable pub stop : Outcome → Result
stop o = record { outcome = o; waits = [] }

unfoldable pub wait_of : Option ℕ → ℕ → ℕ
wait_of none attempt = 2 ^ attempt
wait_of (some retry_after) attempt = retry_after

-- One round of the loop; `again` is the next one, with the last response.
unfoldable pub attempt_once : ℕ → HttpReply → Option ℕ → (Option ℕ → Result) → Result
unfolding stop sleep_then wait_of exhausted
attempt_once attempt request_error last_response again =
    if attempt == max_retries
    then stop (bulk_api_error none)
    else sleep_then (2 ^ attempt) (again last_response)
attempt_once attempt (response status_code retry_after) last_response again =
    if status_code == 429
    then if attempt == max_retries
      then stop (exhausted (some status_code))
      else sleep_then (wait_of retry_after attempt) (again (some status_code))
    else if leb 500 status_code
    then if attempt == max_retries
      then stop (exhausted (some status_code))
      else sleep_then (2 ^ attempt) (again (some status_code))
    else stop (returned status_code)

-- `for attempt in range(_MAX_RETRIES + 1)`: `left` rounds are to come.
unfoldable pub request_loop : (ℕ → HttpReply) → ℕ → ℕ → Option ℕ → Result
unfolding attempt_once
request_loop replies zero attempt last_response = stop (exhausted last_response)
request_loop replies (suc left) attempt last_response =
    attempt_once attempt (replies attempt) last_response
      λ last. request_loop replies left (attempt + 1) last

unfoldable pub request : (ℕ → HttpReply) → Result
unfolding request_loop
request replies = request_loop replies (max_retries + 1) 0 none
