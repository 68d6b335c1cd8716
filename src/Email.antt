-- ===== src/Email.antt =====
-- backend/app/services/email: one row of `email_delivery` with the helpers of delivery_log.py, and the
-- sending and retrying of service.py. The calls of the backend, numbered from 0, and the times are a
-- `World`. Times are numbers; addresses, subjects, metrics and spans are left out.
pub mod Leases
pub mod Retrying
use sf_bulk_loader.Prelude.{
  ℕ, zero, suc, ◌+◌, ◌*◌, ◌^◌, min, Bool, true, false, not, ◌&&◌, ◌||◌, Option, none, some, ltb,
  leb, if◌then◌else◌, List, [], ◌∷◌,
}
use sf_bulk_loader.Job.{Uuid}

pub data DeliveryStatus : Type 0 where
  pending sending sent failed skipped : DeliveryStatus

pub data EmailErrorReason : Type 0 where
  transient_network transient_timeout : EmailErrorReason
  transient_provider_throttled transient_provider_unavailable : EmailErrorReason
  permanent_reject permanent_auth permanent_config permanent_address unknown : EmailErrorReason

unfoldable pub is_transient : EmailErrorReason → Bool
is_transient transient_network = true
is_transient transient_timeout = true
is_transient transient_provider_throttled = true
is_transient transient_provider_unavailable = true
is_transient _ = false

pub record EmailDelivery : Type 0 where
  pub status : DeliveryStatus
  pub attempts : ℕ
  pub max_attempts : ℕ
  pub last_error_code : Option EmailErrorReason
  pub claimed_by : Option Uuid
  pub claim_expires_at : Option ℕ
  pub next_attempt_at : Option ℕ
  pub sent_at : Option ℕ

-- The row of `insert`, already claimed.
unfoldable pub insert : ℕ → ℕ → ℕ → Uuid → EmailDelivery
insert now claim_lease_seconds max_retries worker_id = record {
  status = pending;
  attempts = 0;
  max_attempts = max_retries + 1;
  last_error_code = none;
  claimed_by = some worker_id;
  claim_expires_at = some (now + claim_lease_seconds);
  next_attempt_at = some now;
  sent_at = none;
}

-- `status.in_([pending, sending])`
unfoldable pub is_open : DeliveryStatus → Bool
is_open pending = true
is_open sending = true
is_open _ = false

-- `column IS NULL OR column < t`
unfoldable pub null_or_before : Option ℕ → ℕ → Bool
null_or_before none t = true
null_or_before (some x) t = ltb x t

-- `column IS NULL OR column <= t`
unfoldable pub null_or_due : Option ℕ → ℕ → Bool
null_or_due none t = true
null_or_due (some x) t = leb x t

-- The compare-and-set of `claim` at the time `now`: the row after it, if the claim is won.
unfoldable pub claim : ℕ → Uuid → ℕ → EmailDelivery → Option EmailDelivery
unfolding is_open null_or_before null_or_due
claim now worker_id lease_seconds d =
    if is_open d.status
      && null_or_before d.claim_expires_at now
      && null_or_due d.next_attempt_at now
    then some (record d {
      claimed_by = some worker_id;
      claim_expires_at = some (now + lease_seconds);
      status = sending;
    })
    else none

unfoldable pub release : EmailDelivery → EmailDelivery
release d = record d { claimed_by = none; claim_expires_at = none }

unfoldable pub mark_sent : ℕ → EmailDelivery → EmailDelivery
unfolding release
mark_sent now d = record (release d) { status = sent; sent_at = some now }

unfoldable pub mark_skipped : ℕ → EmailDelivery → EmailDelivery
unfolding release
mark_skipped now d = record (release d) { status = skipped; sent_at = some now }

unfoldable pub mark_failed : EmailErrorReason → Option ℕ → EmailDelivery → EmailDelivery
unfolding release
mark_failed reason none d = record (release d) {
  attempts = d.attempts + 1;
  last_error_code = some reason;
  status = failed;
  next_attempt_at = none;
}
mark_failed reason (some t) d = record (release d) {
  attempts = d.attempts + 1;
  last_error_code = some reason;
  status = pending;
  next_attempt_at = some t;
}

-- `boot_sweep` on one row; `claim_expires_at < now - stale` is written with `+`.
unfoldable pub boot_sweep : ℕ → ℕ → EmailDelivery → EmailDelivery
unfolding is_open release
boot_sweep now stale_minutes d =
    if is_open d.status && stale d.claim_expires_at
    then record (release d) { status = failed; last_error_code = some unknown }
    else d
  where
    stale : Option ℕ → Bool
    stale none = true
    stale (some t) = ltb (t + stale_minutes * 60) now

-- What `backend.send` returns.
pub data BackendResult : Type 0 where
  accepted : BackendResult
  refused : Bool → EmailErrorReason → BackendResult

-- The calls and times of the n-th attempt.
pub record World : Type 0 where
  pub is_noop : Bool
  pub send : ℕ → BackendResult
  -- when the attempt is over
  pub now : ℕ → ℕ
  -- the backoff after it, jitter included
  pub delay : ℕ → ℕ
  -- when the attempt's row is claimed, for a retry
  pub wakes : ℕ → ℕ
  pub worker_id : Uuid
  pub claim_lease_seconds : ℕ

-- `can_retry`
unfoldable pub can_retry : Bool → EmailErrorReason → EmailDelivery → Bool
unfolding is_transient
can_retry transient reason d =
    transient && is_transient reason && ltb (d.attempts + 1) d.max_attempts

-- `_attempt`: the row, and whether `_retry_loop` is scheduled.
unfoldable pub settle : World → ℕ → BackendResult → EmailDelivery → EmailDelivery × Bool
unfolding mark_sent mark_skipped mark_failed can_retry
settle w n accepted d =
    (if w.is_noop then mark_skipped (w.now n) d else mark_sent (w.now n) d, false)
settle w n (refused transient reason) d =
    if can_retry transient reason d
    then (mark_failed reason (some (w.now n + w.delay n)) d, true)
    else (mark_failed reason none d, false)

unfoldable pub attempt : World → ℕ → EmailDelivery → EmailDelivery × Bool
unfolding settle
attempt w n d = settle w n (w.send n) d

-- The claim of `_retry_loop`: a lost one ends it.
unfoldable pub after_claim :
    Option EmailDelivery
    → EmailDelivery
    → (EmailDelivery → Option (EmailDelivery × ℕ))
    → ℕ
    → Option (EmailDelivery × ℕ)
after_claim none d again calls = some (d, calls)
after_claim (some claimed) d again calls = again claimed

-- The n-th attempt and the retries that it leads to: the row in the end, and the number of calls of
-- the backend.
unfoldable pub attempts_from : ℕ → World → ℕ → EmailDelivery → Option (EmailDelivery × ℕ)
unfolding attempt claim after_claim
attempts_from zero w n d = none
attempts_from (suc fuel) w n d =
    let (d', retry) = attempt w n d in
    let rest =
      after_claim (claim (w.wakes (n + 1)) w.worker_id w.claim_lease_seconds d') d'
        (λ claimed. attempts_from fuel w (n + 1) claimed) (n + 1) in
    if retry then rest else some (d', n + 1)

-- `send` of a message without an idempotency key, followed to the end of its retries.
unfoldable pub send_all : ℕ → World → ℕ → ℕ → Option (EmailDelivery × ℕ)
unfolding insert attempts_from
send_all fuel w start max_retries =
    attempts_from fuel w 0 (insert start w.claim_lease_seconds max_retries w.worker_id)
