-- ===== src/Breaker.antt =====
-- backend/app/services/run_context.py: the circuit breaker of a run. The lock serialises the calls,
-- so a run's history is the sequence of its outcomes. The context is `none` outside a run.
pub mod Streak
use sf_bulk_loader.Prelude.{
  ℕ, ◌+◌, ◌<◌, Bool, true, false, Option, none, some, List, [], ◌∷◌, ltb, leb, if◌then◌else◌, ◌&&◌,
}

pub record RunContext : Type 0 where
  pub circuit_breaker_threshold : Option ℕ
  pub consecutive_failures : ℕ
  pub circuit_breaker_tripped : Bool

-- `circuit_breaker_threshold=plan.consecutive_failure_threshold or None`: 0 becomes None.
unfoldable pub threshold_or_none : Option ℕ → Option ℕ
threshold_or_none none = none
threshold_or_none (some n) = if ltb 0 n then some n else none

unfoldable pub start_context : Option ℕ → RunContext
unfolding threshold_or_none
start_context threshold = record {
  circuit_breaker_threshold = threshold_or_none threshold;
  consecutive_failures = 0;
  circuit_breaker_tripped = false;
}

-- The failure branch: `if threshold and threshold > 0`.
unfoldable pub count_failure : Option ℕ → RunContext → RunContext
count_failure none ctx = ctx
count_failure (some threshold) ctx =
    if ltb 0 threshold
    then record ctx {
      consecutive_failures = ctx.consecutive_failures + 1;
      circuit_breaker_tripped =
          if leb threshold (ctx.consecutive_failures + 1)
          then true
          else ctx.circuit_breaker_tripped;
    }
    else ctx

unfoldable pub update_context : Bool → RunContext → RunContext
unfolding count_failure
update_context true ctx = record ctx { consecutive_failures = 0 }
update_context false ctx = count_failure ctx.circuit_breaker_threshold ctx

unfoldable pub update_circuit_breaker : Bool → Option RunContext → Option RunContext
unfolding update_context
update_circuit_breaker success none = none
update_circuit_breaker success (some ctx) = some (update_context success ctx)

-- The outcomes of the partitions of a run, in the order in which they take the lock.
unfoldable pub feed : RunContext → List Bool → RunContext
feed ctx [] = ctx
feed ctx (success ∷ rest) = feed (update_context success ctx) rest
