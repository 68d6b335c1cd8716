-- ===== src/Breaker/Streak.antt =====
-- The breaker trips exactly when the outcomes hold a streak of failures as long as the threshold.
use sf_bulk_loader.Prelude.{
  ℕ, zero, suc, ◌+◌, ◌≤◌, ◌<◌, ◌≡◌, refl, sym, ap, ◌∙◌, ◌↔◌, ◌⊎◌, inl, inr, Bool, true, false,
  Option, none, some, List, [], ◌∷◌, ◌++◌, arith, replicate, append_assoc, add-one,
}
use sf_bulk_loader.Breaker.{RunContext, start_context, update_context, feed}

-- Somewhere in the outcomes there are `n` failures in a row.
abbrev pub HasStreak : ℕ → List Bool → Type 0
HasStreak n outcomes =
    (before after : List Bool) × (outcomes ≡ before ++ (replicate n false ++ after))

-- A context in the middle of a run whose threshold is `n`.
record Counts (n : ℕ) (ctx : RunContext) : Type 0 where
  threshold : ctx.circuit_breaker_threshold ≡ some n
  positive : 0 < n
  below : ctx.circuit_breaker_tripped ≡ false → ctx.consecutive_failures < n

Counts-update :
    (n : ℕ) (ctx : RunContext) (b : Bool) → Counts n ctx → Counts n (update_context b ctx)
unfolding update_context
Counts-update n ctx true c = ground arith
Counts-update n ctx false c = ground arith

tripped-update :
    (ctx : RunContext) (b : Bool)
    → ctx.circuit_breaker_tripped ≡ true
    → (update_context b ctx).circuit_breaker_tripped ≡ true
unfolding update_context
tripped-update ctx true h = h
tripped-update ctx false h = ground arith

-- Once tripped, the breaker stays tripped.
pub tripped-feed :
    (ctx : RunContext) (outcomes : List Bool)
    → ctx.circuit_breaker_tripped ≡ true
    → (feed ctx outcomes).circuit_breaker_tripped ≡ true
unfolding feed
tripped-feed ctx [] h = h
tripped-feed ctx (b ∷ rest) h = tripped-feed (update_context b ctx) rest (tripped-update ctx b h)

feed-append : (ctx : RunContext) (xs ys : List Bool) → feed ctx (xs ++ ys) ≡ feed (feed ctx xs) ys
unfolding feed
feed-append ctx [] ys = refl
feed-append ctx (x ∷ xs) ys = feed-append (update_context x ctx) xs ys

Counts-feed : (n : ℕ) (ctx : RunContext) (xs : List Bool) → Counts n ctx → Counts n (feed ctx xs)
unfolding feed
Counts-feed n ctx [] c = c
Counts-feed n ctx (b ∷ xs) c = Counts-feed n (update_context b ctx) xs (Counts-update n ctx b c)

-- One more failure is counted, or has tripped the breaker.
failure-counted :
    (n : ℕ) (ctx : RunContext)
    → Counts n ctx
    → (update_context false ctx).consecutive_failures ≡ ctx.consecutive_failures + 1
unfolding update_context
failure-counted n ctx c = ground arith

failure-trips :
    (n : ℕ) (ctx : RunContext)
    → Counts n ctx
    → n ≤ ctx.consecutive_failures + 1
    → (update_context false ctx).circuit_breaker_tripped ≡ true
unfolding update_context
failure-trips n ctx c h = ground arith

failures-trip :
    (k n : ℕ) (ctx : RunContext)
    → Counts n ctx
    → n ≤ ctx.consecutive_failures + suc k
    → (feed ctx (replicate (suc k) false)).circuit_breaker_tripped ≡ true
unfolding feed
failures-trip zero n ctx c h = failure-trips n ctx c (omega arith)
failures-trip (suc k) n ctx c h =
    failures-trip k n (update_context false ctx) (Counts-update n ctx false c)
      (omega (arith, failure-counted n ctx c))

replicate-snoc :
    (k : ℕ) (rest : List Bool)
    → replicate k false ++ (false ∷ rest) ≡ replicate (k + 1) false ++ rest
replicate-snoc k rest = rw add-one (go k)
  where
    go : (k : ℕ) → replicate k false ++ (false ∷ rest) ≡ replicate (suc k) false ++ rest
    go zero = refl
    go (suc k) = ap (λ t. false ∷ t) (go k)

HasStreak-prefix : (n : ℕ) (xs ys : List Bool) → HasStreak n ys → HasStreak n (xs ++ ys)
HasStreak-prefix n xs ys (before, after, e) = (
  xs ++ before,
  after,
  ap (λ t. xs ++ t) e ∙ sym (append_assoc xs before (replicate n false ++ after)),
)

step_untripped :
    (n : ℕ) (ctx : RunContext)
    → Counts n ctx
    → ctx.circuit_breaker_tripped ≡ false
    → ((n ≡ ctx.consecutive_failures + 1))
      ⊎ ((update_context false ctx).circuit_breaker_tripped ≡ false)
unfolding update_context
step_untripped n ctx c u = ground arith

-- The failures that a context has counted stand in front of the outcomes to come.
streak-of_tripped :
    (n : ℕ) (outcomes : List Bool) (ctx : RunContext)
    → Counts n ctx
    → ctx.circuit_breaker_tripped ≡ false
    → (feed ctx outcomes).circuit_breaker_tripped ≡ true
    → HasStreak n (replicate ctx.consecutive_failures false ++ outcomes)
unfolding feed update_context
streak-of_tripped n [] ctx c u h = cc
streak-of_tripped n (true ∷ rest) ctx c u h =
    HasStreak-prefix n (replicate ctx.consecutive_failures false) (true ∷ rest) (
      HasStreak-prefix n (true ∷ []) rest
        (streak-of_tripped n rest (update_context true ctx) (Counts-update n ctx true c) u h))
streak-of_tripped n (false ∷ rest) ctx c u h = elim (step_untripped n ctx c u) [
  | inl full ↦ ([], rest, rw full (replicate-snoc ctx.consecutive_failures rest))
  | inr more ↦
      let later =
        streak-of_tripped n rest (update_context false ctx) (Counts-update n ctx false c) more h in
      let counted = failure-counted n ctx c in rw replicate-snoc (rw counted at later)
]

start-Counts : (n : ℕ) → 0 < n → Counts n (start_context (some n))
unfolding start_context
start-Counts n h = ground arith

start-untripped : (t : Option ℕ) → (start_context t).circuit_breaker_tripped ≡ false
unfolding start_context
start-untripped t = refl

tripped-of_streak :
    (n : ℕ) (outcomes : List Bool)
    → 0 < n
    → HasStreak n outcomes
    → (feed (start_context (some n)) outcomes).circuit_breaker_tripped ≡ true
tripped-of_streak zero outcomes h s = elim h [ ]
tripped-of_streak (suc k) outcomes h (before, after, e) =
    let start = start_context (some (suc k)) in
    let mid = feed start before in
    let trip =
      failures-trip k (suc k) mid (Counts-feed (suc k) start before (start-Counts (suc k) h))
        (omega arith) in
    rw (e, feed-append)
      (rw feed-append (tripped-feed (feed mid (replicate (suc k) false)) after trip))

-- With a positive threshold `n` the breaker of a run has tripped after some outcomes exactly when
-- `n` failures in a row occur among them.
pub tripped-iff-HasStreak :
    (n : ℕ) (outcomes : List Bool)
    → 0 < n
    → ((feed (start_context (some n)) outcomes).circuit_breaker_tripped ≡ true)
      ↔ HasStreak n outcomes
unfolding start_context
tripped-iff-HasStreak n outcomes h = (
  λ t. streak-of_tripped n outcomes (start_context (some n)) (start-Counts n h) refl t,
  tripped-of_streak n outcomes h,
)

disabled-update :
    (ctx : RunContext) (b : Bool)
    → ctx.circuit_breaker_threshold ≡ none
    → ctx.circuit_breaker_tripped ≡ false
    → ((update_context b ctx).circuit_breaker_threshold ≡ none)
      × ((update_context b ctx).circuit_breaker_tripped ≡ false)
unfolding update_context
disabled-update ctx true n u = ground arith
disabled-update ctx false n u = ground arith

disabled-feed :
    (ctx : RunContext) (outcomes : List Bool)
    → ctx.circuit_breaker_threshold ≡ none
    → ctx.circuit_breaker_tripped ≡ false
    → (feed ctx outcomes).circuit_breaker_tripped ≡ false
unfolding feed
disabled-feed ctx [] n u = u
disabled-feed ctx (b ∷ rest) n u =
    let (n', u') = disabled-update ctx b n u in disabled-feed (update_context b ctx) rest n' u'

-- A plan whose threshold is not set, or is 0, never trips the breaker, whatever the outcomes.
pub disabled_never_trips :
    (t : Option ℕ) (outcomes : List Bool)
    → (t ≡ none) ⊎ (t ≡ some 0)
    → (feed (start_context t) outcomes).circuit_breaker_tripped ≡ false
unfolding start_context
disabled_never_trips t outcomes h = disabled-feed (start_context t) outcomes (ground arith) refl
