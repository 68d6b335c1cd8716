-- ===== src/Email/Leases.antt =====
-- The lease of a row.
use sf_bulk_loader.Prelude.{
  ℕ, ◌+◌, ◌≤◌, ◌<◌, ◌≡◌, refl, inl, inr, true, none, some, arith, ◌&&◌, Bool-cases, ltb→lt, le→leb,
  is_some,
}
use sf_bulk_loader.Job.{Uuid}
use sf_bulk_loader.Email.{
  EmailDelivery, EmailErrorReason, is_open, claim, boot_sweep, mark_failed, release, null_or_before,
  null_or_due, failed,
}

claim-holds :
    (t : ℕ) (w : Uuid) (lease : ℕ) (d d' : EmailDelivery)
    → claim t w lease d ≡ some d'
    → d'.claim_expires_at ≡ some (t + lease)
unfolding claim
claim-holds t w lease d d' e =
    elim (Bool-cases (
      is_open d.status && null_or_before d.claim_expires_at t && null_or_due d.next_attempt_at t)) [
        | inl h ↦ let k = rw h at e in ground arith
        | inr h ↦ let k = rw h at e in ground arith
      ]

claim-free :
    (t : ℕ) (w : Uuid) (lease : ℕ) (d d' : EmailDelivery)
    → claim t w lease d ≡ some d'
    → null_or_before d.claim_expires_at t ≡ true
unfolding claim
claim-free t w lease d d' e = elim (Bool-cases (null_or_before d.claim_expires_at t)) [
  | inl h ↦ h
  | inr h ↦ let k = rw h at e in ground arith
]

-- While a lease lasts, nobody else gets the row: of two claims that both succeed, with nothing
-- between them, the second comes after the lease of the first has run out.
pub claim-claim :
    (t1 t2 : ℕ) (w1 w2 : Uuid) (lease1 lease2 : ℕ) (d d1 d2 : EmailDelivery)
    → claim t1 w1 lease1 d ≡ some d1
    → claim t2 w2 lease2 d1 ≡ some d2
    → t1 + lease1 < t2
unfolding claim null_or_before
claim-claim t1 t2 w1 w2 lease1 lease2 d d1 d2 e1 e2 =
    let free = rw (claim-holds t1 w1 lease1 d d1 e1) at (claim-free t2 w2 lease2 d1 d2 e2) in
    ltb→lt (t1 + lease1) t2 free

-- A retry that was scheduled, whose task would win its claim when it wakes, is swept away by the next
-- boot of any process before that, however recent the row is: it is failed, and the claim is lost.
pub boot_sweep-mark_failed :
    (now stale_minutes next later : ℕ) (worker_id : Uuid) (lease : ℕ) (reason : EmailErrorReason)
    (d : EmailDelivery)
    → next ≤ later
    → (is_some (claim later worker_id lease (mark_failed reason (some next) d)) ≡ true)
      × ((boot_sweep now stale_minutes (mark_failed reason (some next) d)).status ≡ failed)
      × (claim later worker_id lease
            (boot_sweep now stale_minutes (mark_failed reason (some next) d))
          ≡ none)
unfolding boot_sweep mark_failed claim release is_open null_or_due null_or_before
boot_sweep-mark_failed now stale_minutes next later worker_id lease reason d h =
    (rw (le→leb next later h) refl, refl, refl)
