-- ===== src/Scenarios/Limits.antt =====
-- The rate limiter and the circuit breaker on concrete inputs.
use sf_bulk_loader.Prelude.{◌≡◌, ◌↔◌, inr, refl, true, false, some, [], ◌∷◌, arith}
use sf_bulk_loader.RateLimit.{Store, check_and_record}
use sf_bulk_loader.RateLimit.Window.{run, spec_run, run-eq-spec_run, check_and_record-other_key}
use sf_bulk_loader.Breaker.{start_context, feed, update_context}
use sf_bulk_loader.Breaker.Streak.{HasStreak, tripped-iff-HasStreak, disabled_never_trips}
use text.Mathlib.TextEquality.{eq_iff}
use mathlib.Core.Bool.{false≢true}

abbrev empty_store : Store
empty_store k = []

-- Two hits in ten seconds: the third is refused, and the one after the first has left is accepted.
three_hits :
    run "rl:ip:1.2.3.4" 2 10 empty_store (1 ∷ 2 ∷ 3 ∷ 12 ∷ []) ≡ true ∷ true ∷ false ∷ true ∷ []
unfolding run check_and_record
three_hits = refl

run-eq-spec_run_example :
    run "rl:ip:1.2.3.4" 2 10 empty_store (1 ∷ 2 ∷ 3 ∷ 12 ∷ [])
    ≡ spec_run 2 10 [] (1 ∷ 2 ∷ 3 ∷ 12 ∷ [])
run-eq-spec_run_example =
    run-eq-spec_run "rl:ip:1.2.3.4" 2 10 empty_store (1 ∷ 2 ∷ 3 ∷ 12 ∷ []) refl (omega arith)

check_and_record-other_key_example :
    (check_and_record 5 "a" 2 10 empty_store).1 "b" ≡ empty_store "b"
check_and_record-other_key_example =
    check_and_record-other_key 5 2 10 "a" "b" empty_store (λ p. false≢true ((eq_iff "a" "b").1 p))

two_in_a_row :
    (feed
      (start_context (some 2))
      (false ∷ true ∷ false ∷ false ∷ true ∷ [])).circuit_breaker_tripped
    ≡ true
unfolding feed start_context update_context
two_in_a_row = refl

tripped-iff-HasStreak_example :
    ((feed (start_context (some 2)) (false ∷ false ∷ [])).circuit_breaker_tripped ≡ true)
    ↔ HasStreak 2 (false ∷ false ∷ [])
tripped-iff-HasStreak_example = tripped-iff-HasStreak 2 (false ∷ false ∷ []) (omega arith)

disabled_never_trips_example :
    (feed (start_context (some 0)) (false ∷ false ∷ [])).circuit_breaker_tripped ≡ false
disabled_never_trips_example = disabled_never_trips (some 0) (false ∷ false ∷ []) (inr refl)
