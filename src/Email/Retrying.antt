-- ===== src/Email/Retrying.antt =====
-- The attempts of a message against a specification: the first of at most `max_retries + 1` calls that
-- is not to be retried decides.
use sf_bulk_loader.Prelude.{
  ℕ, zero, suc, ◌+◌, ◌≤◌, ◌≡◌, refl, ◌⊎◌, inl, inr, Bool, true, false, Option, none, some,
  if◌then◌else◌, arith, ◌&&◌, Bool-cases, le→leb, add-one,
}
use sf_bulk_loader.Job.{Uuid}
use sf_bulk_loader.Email.{
  EmailDelivery, DeliveryStatus, EmailErrorReason, is_open, claim, mark_failed, mark_sent,
  mark_skipped, release, null_or_before, null_or_due, pending, sending, sent, failed, skipped,
  World, BackendResult, accepted, refused, can_retry, is_transient, settle, attempt, after_claim,
  attempts_from, send_all, insert,
}

-- Sleeps last as long as they should: a retry wakes when it is due.
abbrev pub IsPunctual : World → Type 0
IsPunctual w = (n : ℕ) → w.now n + w.delay n ≤ w.wakes (n + 1)

abbrev pub is_worth_retrying : BackendResult → Bool
is_worth_retrying accepted = false
is_worth_retrying (refused transient reason) = transient && is_transient reason

-- How a row ends whose last call gave this result.
abbrev pub end_status : Bool → BackendResult → DeliveryStatus
end_status is_noop accepted = if is_noop then skipped else sent
end_status is_noop (refused transient reason) = failed

-- The specification: the status in the end and the number of calls; `left` retries may follow.
unfoldable pub spec_send : World → ℕ → ℕ → DeliveryStatus × ℕ
spec_send w zero n = (end_status w.is_noop (w.send n), n + 1)
spec_send w (suc left) n =
    let rest = spec_send w left (n + 1) in
    if is_worth_retrying (w.send n) then rest else (end_status w.is_noop (w.send n), n + 1)

-- What is left of the budget of a row.
abbrev Left : EmailDelivery → ℕ → Type 0
Left d left = d.attempts + left + 1 ≡ d.max_attempts

can_retry-last :
    (transient : Bool) (reason : EmailErrorReason) (d : EmailDelivery) (left : ℕ)
    → Left d left
    → (left ≡ 0) ⊎ ((transient && is_transient reason) ≡ false)
    → can_retry transient reason d ≡ false
unfolding can_retry
can_retry-last transient reason d left l (inl z) = ground arith
can_retry-last transient reason d left l (inr n) = ground (arith, n)

can_retry-more :
    (transient : Bool) (reason : EmailErrorReason) (d : EmailDelivery) (left : ℕ)
    → Left d (suc left)
    → (transient && is_transient reason) ≡ true
    → can_retry transient reason d ≡ true
unfolding can_retry
can_retry-more transient reason d left l h = ground (arith, h)

settle-last :
    (w : World) (n : ℕ) (r : BackendResult) (d : EmailDelivery) (left : ℕ)
    → Left d left
    → (left ≡ 0) ⊎ (is_worth_retrying r ≡ false)
    → ((settle w n r d).1 ≡ false) × ((settle w n r d).0.status ≡ end_status w.is_noop r)
unfolding settle mark_sent mark_skipped mark_failed can_retry
settle-last w n accepted d left l h = (refl, ground arith)
settle-last w n (refused transient reason) d left l h =
    rw (can_retry-last transient reason d left l h) (refl, refl)

settle-retry :
    (w : World) (n : ℕ) (r : BackendResult) (d : EmailDelivery) (left : ℕ)
    → Left d (suc left)
    → is_worth_retrying r ≡ true
    → ((settle w n r d).1 ≡ true)
      × Left (settle w n r d).0 left
      × ((settle w n r d).0.status ≡ pending)
      × ((settle w n r d).0.claim_expires_at ≡ none)
      × ((settle w n r d).0.next_attempt_at ≡ some (w.now n + w.delay n))
unfolding settle mark_failed release
settle-retry w n accepted d left l h = ground arith
settle-retry w n (refused transient reason) d left l h =
    rw (can_retry-more transient reason d left l h) (refl, omega arith, refl, refl, refl)

claim-wins :
    (t : ℕ) (w : Uuid) (lease next : ℕ) (d : EmailDelivery)
    → d.status ≡ pending
    → d.claim_expires_at ≡ none
    → d.next_attempt_at ≡ some next
    → next ≤ t
    → claim t w lease d
      ≡ some
          (record d { claimed_by = some w; claim_expires_at = some (t + lease); status = sending })
unfolding claim is_open null_or_before null_or_due
claim-wins t w lease next d st free due h = rw (st, free, due) (rw (le→leb next t h) refl)

-- The row in the end and the calls, as far as the specification speaks of them.
abbrev Ends : World → DeliveryStatus × ℕ → Option (EmailDelivery × ℕ) → Type 0
Ends w spec o = (d : EmailDelivery) × (o ≡ some (d, spec.1)) × (d.status ≡ spec.0)

attempts-spec :
    (w : World) (left n : ℕ) (d : EmailDelivery)
    → IsPunctual w
    → Left d left
    → Ends w (spec_send w left n) (attempts_from (suc left) w n d)
unfolding attempts_from spec_send attempt after_claim
attempts-spec w zero n d p l =
    let (stop, status) = settle-last w n (w.send n) d 0 l (inl refl) in
    ((settle w n (w.send n) d).0, rw stop refl, status)
attempts-spec w (suc left) n d p l = elim (Bool-cases (is_worth_retrying (w.send n))) [
  | inr e ↦
      let (stop, status) = settle-last w n (w.send n) d (suc left) l (inr e) in
      rw e ((settle w n (w.send n) d).0, rw stop refl, status)
  | inl e ↦
      let (retry, l', st, free, due) = settle-retry w n (w.send n) d left l e in
      let d' = (settle w n (w.send n) d).0 in
      let won =
        claim-wins (w.wakes (n + 1)) w.worker_id w.claim_lease_seconds (w.now n + w.delay n) d' st
          free due (p n) in
      rw e (rw (retry, won) (attempts-spec w left (n + 1) _ p l'))
]

attempts-spec_plus :
    (w : World) (left n : ℕ) (d : EmailDelivery)
    → IsPunctual w
    → Left d left
    → Ends w (spec_send w left n) (attempts_from (left + 1) w n d)
attempts-spec_plus w left n d p l = rw add-one (attempts-spec w left n d p l)

spec-calls : (w : World) (left n : ℕ) → (spec_send w left n).1 ≤ n + left + 1
unfolding spec_send
spec-calls w zero n = omega arith
spec-calls w (suc left) n = elim (Bool-cases (is_worth_retrying (w.send n))) [
  | inl e ↦ let h = spec-calls w left (n + 1) in rw e (omega arith)
  | inr e ↦ rw e (omega arith)
]

end_status-closed : (b : Bool) (r : BackendResult) → is_open (end_status b r) ≡ false
unfolding is_open
end_status-closed true accepted = refl
end_status-closed false accepted = refl
end_status-closed b (refused transient reason) = refl

spec-closed : (w : World) (left n : ℕ) → is_open (spec_send w left n).0 ≡ false
unfolding spec_send
spec-closed w zero n = end_status-closed w.is_noop (w.send n)
spec-closed w (suc left) n = elim (Bool-cases (is_worth_retrying (w.send n))) [
  | inl e ↦ rw e (spec-closed w left (n + 1))
  | inr e ↦ rw e (end_status-closed w.is_noop (w.send n))
]

-- A message whose row nobody else touches, with sleeps that last as long as they should: its sending
-- ends after at most `max_retries + 1` calls of the backend, one more unit of fuel than retries being
-- enough. The first call that succeeds or is not worth a retry decides, or else the last one; the row
-- is then sent, or skipped by the noop backend, if that call was accepted, and failed if not.
pub send_all-spec_send :
    (w : World) (start max_retries : ℕ)
    → IsPunctual w
    → (d : EmailDelivery) × (send_all (max_retries + 1) w start max_retries
        ≡ some (d, (spec_send w max_retries 0).1))
      × (d.status ≡ (spec_send w max_retries 0).0)
      × (is_open d.status ≡ false)
      × ((spec_send w max_retries 0).1 ≤ max_retries + 1)
unfolding send_all insert
send_all-spec_send w start max_retries p =
    let row = insert start w.claim_lease_seconds max_retries w.worker_id in
    let (d, e, st) = attempts-spec_plus w max_retries 0 row p (omega arith) in
    (d, e, st, rw st (spec-closed w max_retries 0), omega (arith, spec-calls w max_retries 0))
