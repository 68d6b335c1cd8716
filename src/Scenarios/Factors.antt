-- ===== src/Scenarios/Factors.antt =====
-- The second factor: codes of an authenticator, twice, and guesses.
use sf_bulk_loader.Prelude.{
  ℕ, ◌+◌, ◌≤◌, ◌≡◌, refl, true, false, none, some, List, [], ◌∷◌, arith, ◌==◌, length, count_by,
}
use sf_bulk_loader.Login.{UserStatus, Settings}
use sf_bulk_loader.TwoFactor.{
  CodeChar, Libraries, matched, refused, Account, Method, totp_code, backup_code, Login2FaRequest,
  wrong_code, http,
}
use sf_bulk_loader.TwoFactor.Codes.{verify_code, current_counter, is_replay}
use sf_bulk_loader.TwoFactor.Requests.{login_2fa}
use sf_bulk_loader.TwoFactor.Windows.{digits_of, IsWellFormed, verify_code-matched}
use sf_bulk_loader.TwoFactor.Replays.{steps_of, Increasing, last_counter, steps_of-Increasing}
use sf_bulk_loader.TwoFactor.Guessing.{answers, is_wrong_code, answers-bounded}

abbrev numeral : ℕ → CodeChar
numeral n = record { point = n; is_space = false; is_digit = true; upper = n ∷ [] }

abbrev blank : CodeChar
blank = record { point = 32; is_space = true; is_digit = false; upper = 32 ∷ [] }

-- The code of the step `s` is `s 0 0 0 0 0`.
abbrev libraries : Libraries
libraries = record {
  decrypt_secret = λ k. some k;
  is_base32 = λ k. true;
  totp_at = λ k s. s ∷ 0 ∷ 0 ∷ 0 ∷ 0 ∷ 0 ∷ [];
  checkpw = λ text h. length text == h;
}

abbrev code : ℕ → List CodeChar
code s = numeral s ∷ numeral 0 ∷ numeral 0 ∷ blank ∷ numeral 0 ∷ numeral 0 ∷ numeral 0 ∷ []

-- At the time 300 the step is 10.
one_early : verify_code libraries 1 (code 9) none 300 ≡ matched 9
unfolding verify_code
one_early = refl

one_used : verify_code libraries 1 (code 9) (some 9) 300 ≡ refused
unfolding verify_code
one_used = refl

verify_code-matched_example :
    (libraries.totp_at 1 9 ≡ digits_of (code 9))
    × IsWellFormed (code 9)
    × (current_counter 300 ≤ 9 + 1)
    × (9 ≤ current_counter 300 + 1)
    × (is_replay none 9 ≡ false)
verify_code-matched_example = verify_code-matched libraries 1 (code 9) none 300 9 one_early

abbrev policy : Settings
policy = record {
  login_tier1_threshold = 5;
  login_tier1_window = 600;
  login_tier1_lock = 900;
  login_tier2_threshold = 2;
  login_tier2_window = 86400;
  login_tier2_tier1_count = 3;
}

abbrev enrolled : Account
enrolled = record {
  user = record {
    status = UserStatus.active;
    failed_login_count = 0;
    locked_until = none;
    attempts = [];
  };
  totp = some (record { secret_encrypted = 1; last_used_counter = none; last_used_at = none });
  backup_codes = record { id = 1; code_hash = 3; consumed_at = none } ∷ [];
}

abbrev with_method : Method → Login2FaRequest
with_method m = record {
  login = record {
    now = 300;
    allowed_ip = true;
    password_ok = true;
    has_totp = true;
    require_2fa = false;
    must_reset = false;
  };
  allowed = true;
  must_enroll = false;
  method = m;
}

-- The code of step 9, the same again, a backup code, and the code of step 10.
abbrev logins : List Login2FaRequest
logins =
    with_method (totp_code (code 9))
    ∷ with_method (totp_code (code 9))
    ∷ with_method (backup_code (numeral 7 ∷ numeral 8 ∷ numeral 45 ∷ numeral 9 ∷ blank ∷ []))
    ∷ with_method (totp_code (code 10))
    ∷ []

two_steps : steps_of libraries policy logins enrolled ≡ 9 ∷ 10 ∷ []
unfolding steps_of login_2fa
two_steps = refl

steps_of-Increasing_example :
    Increasing (last_counter enrolled.totp) (steps_of libraries policy logins enrolled)
steps_of-Increasing_example = steps_of-Increasing libraries policy logins enrolled

abbrev guesses_at_codes : List Login2FaRequest
guesses_at_codes =
    with_method (totp_code (code 3))
    ∷ with_method (backup_code [])
    ∷ with_method (totp_code (code 4))
    ∷ []

two_guesses :
    answers libraries policy guesses_at_codes enrolled ≡ wrong_code ∷ wrong_code ∷ http 401 ∷ []
unfolding answers login_2fa
two_guesses = refl

answers-bounded_example :
    0 + count_by is_wrong_code (answers libraries policy guesses_at_codes enrolled) ≤ 2
answers-bounded_example = answers-bounded libraries policy guesses_at_codes enrolled (omega arith)
