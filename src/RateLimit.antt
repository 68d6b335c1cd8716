-- ===== src/RateLimit.antt =====
-- backend/app/services/rate_limit.py: the sliding-window limiter. `_store` maps a key to its deque;
-- a key that is not there has the empty deque (`setdefault`). `time.monotonic()` is the argument
-- `now`, in ticks; the test `t < now - window_seconds` is written `t + window < now`, since `-` on
-- numbers stops at 0 and the source's floats do not.
pub mod Window
use Prim.Native.String.{String}
use text.Mathlib.Text.{◌==◌ as str_eq}
use sf_bulk_loader.Prelude.{
  ℕ, ◌+◌, Bool, true, false, List, [], ◌∷◌, ◌++◌, length, ltb, leb, if◌then◌else◌,
}

abbrev pub Store : Type 0
Store = String → List ℕ

-- while timestamps and timestamps[0] < cutoff: timestamps.popleft()
unfoldable pub reap : ℕ → ℕ → List ℕ → List ℕ
reap now window [] = []
reap now window (t ∷ ts) =
    let rest = reap now window ts in if ltb (t + window) now then rest else t ∷ ts

unfoldable pub put : String → List ℕ → Store → Store
put key ts store k = if str_eq key k then ts else store k

unfoldable pub check_and_record : ℕ → String → ℕ → ℕ → Store → Bool × Store
unfolding reap put
check_and_record now key limit window store =
    let timestamps = reap now window (store key) in
    if leb limit (length timestamps)
    then (false, put key timestamps store)
    else (true, put key (timestamps ++ now ∷ []) store)
