-- ===== src/Scenarios/Mail.antt =====
-- A message that is refused twice for the moment and then accepted.
use sf_bulk_loader.Prelude.{ℕ, zero, suc, ◌+◌, ◌*◌, ◌≡◌, ◌≤◌, refl, true, false, some, arith}
use sf_bulk_loader.Email.{
  EmailDelivery, transient_timeout, transient_network, World, BackendResult, accepted, refused,
  claim, insert, send_all, is_open, is_transient, sent, sending,
}
use sf_bulk_loader.Email.Retrying.{IsPunctual, spec_send, send_all-spec_send}

abbrev answers : ℕ → BackendResult
answers zero = refused true transient_timeout
answers (suc zero) = refused true transient_network
answers (suc (suc n)) = accepted

abbrev world : World
world = record {
  is_noop = false;
  send = answers;
  now = λ n. 100 * n + 10;
  delay = λ n. 60;
  wakes = λ n. 100 * n;
  worker_id = 1;
  claim_lease_seconds = 300;
}

world-IsPunctual : IsPunctual world
world-IsPunctual n = omega arith

send_all-spec_send_example :
    (d : EmailDelivery) × (send_all 4 world 0 3 ≡ some (d, (spec_send world 3 0).1))
    × (d.status ≡ (spec_send world 3 0).0)
    × (is_open d.status ≡ false)
    × ((spec_send world 3 0).1 ≤ 4)
send_all-spec_send_example = send_all-spec_send world 0 3 world-IsPunctual

third_call : spec_send world 3 0 ≡ (sent, 3)
unfolding spec_send is_transient
third_call = refl

-- A row that a crashed worker has left.
abbrev left : EmailDelivery
left = insert 0 300 3 1

abbrev claimed : EmailDelivery
claimed = record left { claimed_by = some 2; claim_expires_at = some 701; status = sending }

abbrev again : EmailDelivery
again = record claimed { claimed_by = some 3; claim_expires_at = some 1100 }

first_claim : claim 401 2 300 left ≡ some claimed
unfolding claim insert
first_claim = refl

second_claim : claim 800 3 300 claimed ≡ some again
unfolding claim insert
second_claim = refl
