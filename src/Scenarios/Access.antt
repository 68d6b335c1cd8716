-- ===== src/Scenarios/Access.antt =====
-- A call to Salesforce with retries, and an account under attack.
use sf_bulk_loader.Prelude.{
  ℕ, zero, suc, ◌+◌, ◌≡◌, ◌≢◌, ◌≤◌, refl, true, false, none, some, List, [], ◌∷◌, arith, length,
  count_by,
}
use sf_bulk_loader.Client.{HttpReply, response, request_error, returned, assertion_error, request}
use sf_bulk_loader.Client.Retries.{of_result, spec_request, request-spec_request}
use sf_bulk_loader.Login.{
  UserStatus, wrong_password, user_locked, User, Settings, LoginRequest, login, login_all,
  handle_failed_attempt,
}
use sf_bulk_loader.Login.Guesses.{is_wrong, guesses-bounded}

-- A network error, a 429 with `Retry-After: 7`, then 201.
abbrev replies : ℕ → HttpReply
replies zero = request_error
replies (suc zero) = response 429 (some 7)
replies (suc (suc n)) = response 201 none

after_two : of_result (request replies) ≡ (returned 201, 2)
unfolding request
after_two = refl

the_waits : (request replies).waits ≡ 1 ∷ 7 ∷ []
unfolding request
the_waits = refl

request-spec_request_example :
    (of_result (request replies) ≡ spec_request replies 3 0)
    × ((request replies).outcome ≢ assertion_error)
    × (length (request replies).waits ≤ 3)
request-spec_request_example = request-spec_request replies

abbrev limits : Settings
limits = record {
  login_tier1_threshold = 2;
  login_tier1_window = 600;
  login_tier1_lock = 900;
  login_tier2_threshold = 3;
  login_tier2_window = 86400;
  login_tier2_tier1_count = 3;
}

abbrev account : User
account = record {
  status = UserStatus.active;
  failed_login_count = 0;
  locked_until = none;
  attempts = [];
}

abbrev guess : ℕ → LoginRequest
guess now = record {
  now = now;
  allowed_ip = true;
  password_ok = false;
  has_totp = false;
  require_2fa = false;
  must_reset = false;
}

abbrev guesses : List LoginRequest
guesses = guess 10 ∷ guess 20 ∷ guess 30 ∷ guess 2000 ∷ guess 4000 ∷ []

-- The third falls into the lock of tier 1, the fourth locks the account.
outcomes :
    (login_all limits guesses account).0
    ≡ wrong_password ∷ wrong_password ∷ user_locked ∷ wrong_password ∷ user_locked ∷ []
unfolding login_all login handle_failed_attempt
outcomes = refl

guesses-bounded_example : 0 + count_by is_wrong (login_all limits guesses account).0 ≤ 3
guesses-bounded_example =
    guesses-bounded limits guesses account (refl, (refl, (refl, (refl, (refl, tt))))) (omega arith)
