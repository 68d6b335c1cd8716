-- ===== src/Client/Retries.antt =====
-- The retries against a specification: the first reply that is not to be retried, of at most four.
use sf_bulk_loader.Prelude.{
  ℕ, zero, suc, ◌+◌, ◌^◌, ◌≡◌, ◌≤◌, ◌≢◌, refl, sym, ap, ◌∙◌, inl, inr, Bool, true, false, ◌||◌,
  Option, none, some, if◌then◌else◌, ◌==◌, leb, arith, length, Bool-cases,
}
use sf_bulk_loader.Client.{
  HttpReply, response, request_error, Outcome, returned, bulk_api_error, assertion_error, Result,
  exhausted, sleep_then, stop, wait_of, attempt_once, request_loop, request,
}

-- 429, 5xx and network errors are retried.
abbrev pub is_transient : HttpReply → Bool
is_transient request_error = true
is_transient (response status_code retry_after) = (status_code == 429) || leb 500 status_code

-- The outcome of the last call of a request.
abbrev pub final_outcome : HttpReply → Outcome
final_outcome request_error = bulk_api_error none
final_outcome (response status_code retry_after) =
    if (status_code == 429) || leb 500 status_code
    then bulk_api_error (some status_code)
    else returned status_code

-- The specification: `left` calls may follow this one.
unfoldable pub spec_request : (ℕ → HttpReply) → ℕ → ℕ → Outcome × ℕ
spec_request replies zero attempt = (final_outcome (replies attempt), 0)
spec_request replies (suc left) attempt =
    let (o, retries) = spec_request replies left (attempt + 1) in
    if is_transient (replies attempt)
    then (o, suc retries)
    else (final_outcome (replies attempt), 0)

final-not_assertion : (r : HttpReply) → final_outcome r ≢ assertion_error
final-not_assertion request_error p = ground arith
final-not_assertion (response s a) p = elim (Bool-cases ((s == 429) || leb 500 s)) [
  | inl e ↦ let q = rw e at p in ground arith
  | inr e ↦ let q = rw e at p in ground arith
]

spec-outcome :
    (replies : ℕ → HttpReply) (left attempt : ℕ)
    → (spec_request replies left attempt).0 ≢ assertion_error
unfolding spec_request
spec-outcome replies zero attempt p = final-not_assertion (replies attempt) p
spec-outcome replies (suc left) attempt p = elim (Bool-cases (is_transient (replies attempt))) [
  | inl e ↦ spec-outcome replies left (attempt + 1) (rw e at p)
  | inr e ↦ final-not_assertion (replies attempt) (rw e at p)
]

spec-retries :
    (replies : ℕ → HttpReply) (left attempt : ℕ) → (spec_request replies left attempt).1 ≤ left
unfolding spec_request
spec-retries replies zero attempt = omega arith
spec-retries replies (suc left) attempt = elim (Bool-cases (is_transient (replies attempt))) [
  | inl e ↦ let h = spec-retries replies left (attempt + 1) in rw e (omega arith)
  | inr e ↦ rw e (omega arith)
]

abbrev pub of_result : Result → Outcome × ℕ
of_result r = (r.outcome, length r.waits)

round-last :
    (attempt : ℕ) (r : HttpReply) (last : Option ℕ) (again : Option ℕ → Result)
    → attempt ≡ 3
    → of_result (attempt_once attempt r last again) ≡ (final_outcome r, 0)
unfolding attempt_once stop exhausted
round-last attempt request_error last again h = rw h refl
round-last attempt (response s a) last again h = elim (Bool-cases (s == 429)) [
  | inl e ↦ rw (h, e) refl
  | inr e ↦ elim (Bool-cases (leb 500 s)) [ inl f ↦ rw (h, e, f) refl | inr f ↦ rw (h, e, f) refl ]
]

slept :
    (wait n : ℕ) (o : Outcome) (r : Result)
    → of_result r ≡ (o, n)
    → of_result (sleep_then wait r) ≡ (o, suc n)
unfolding sleep_then
slept wait n o r h = ap (λ x. (x.0, suc x.1)) h

round-retry :
    (attempt : ℕ) (r : HttpReply) (last : Option ℕ) (again : Option ℕ → Result) (o : Outcome)
    (n : ℕ)
    → (attempt == 3) ≡ false
    → ((last : Option ℕ) → of_result (again last) ≡ (o, n))
    → of_result (attempt_once attempt r last again)
      ≡ (if is_transient r then (o, suc n) else (final_outcome r, 0))
unfolding attempt_once stop
round-retry attempt request_error last again o n h k =
    rw h (slept (2 ^ attempt) n o (again last) (k last))
round-retry attempt (response s a) last again o n h k = elim (Bool-cases (s == 429)) [
  | inl e ↦ rw (e, h) (slept (wait_of a attempt) n o (again (some s)) (k (some s)))
  | inr e ↦ elim (Bool-cases (leb 500 s)) [
    | inl f ↦ rw (e, f, h) (slept (2 ^ attempt) n o (again (some s)) (k (some s)))
    | inr f ↦ rw (e, f) refl
  ]
]

loop-spec :
    (replies : ℕ → HttpReply) (left attempt : ℕ) (last : Option ℕ)
    → attempt + left ≡ 3
    → of_result (request_loop replies (suc left) attempt last) ≡ spec_request replies left attempt
unfolding request_loop spec_request
loop-spec replies zero attempt last h =
    round-last attempt (replies attempt) last (λ l. request_loop replies 0 (attempt + 1) l)
      (omega arith)
loop-spec replies (suc left) attempt last h =
    round-retry attempt (replies attempt) last
      (λ l. request_loop replies (suc left) (attempt + 1) l)
      (spec_request replies left (attempt + 1)).0 (spec_request replies left (attempt + 1)).1
      (ground arith) (λ l. loop-spec replies left (attempt + 1) l (omega arith))

-- A call of `_request` makes one HTTP call and at most three retries, as the specification does: it
-- retries network errors, 429 and 5xx, returns the first other response, and raises `BulkAPIError`
-- when the fourth call has failed. The assertion after the loop never fails.
pub request-spec_request :
    (replies : ℕ → HttpReply)
    → (of_result (request replies) ≡ spec_request replies 3 0)
      × ((request replies).outcome ≢ assertion_error)
      × (length (request replies).waits ≤ 3)
unfolding request
request-spec_request replies =
    let e = loop-spec replies 3 0 none refl in
    (
      e,
      λ p. spec-outcome replies 3 0 (sym (ap (λ x. x.0) e) ∙ p),
      rw (ap (λ x. x.1) e) (spec-retries replies 3 0),
    )
