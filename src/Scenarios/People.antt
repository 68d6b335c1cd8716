-- ===== src/Scenarios/People.antt =====
-- Accounts: the last administrator, an invitation that comes late, and passwords that are reset.
use sf_bulk_loader.Prelude.{
  ℕ, ◌+◌, ◌≤◌, ◌≡◌, refl, true, false, none, some, List, [], ◌∷◌, arith, ltb, ◌==◌, if◌then◌else◌,
  length, count_by,
}
use sf_bulk_loader.Accounts.{
  User, UserStatus, Token, Db, done, http, PyChar, find_user, is_locked_out, timestamp,
}
use sf_bulk_loader.Accounts.Sessions.{
  Decode, Documented, create_access_token, get_current_user, is_strong,
}
use sf_bulk_loader.Accounts.Admin.{Config, get_admin_profile, count_active_admins, is_active_admin}
use sf_bulk_loader.Accounts.Requests.{deactivate, handle}
use sf_bulk_loader.Accounts.LastAdmin.{
  HasAdmin, serve, Call, asks, accepts, serve_all, serve_all-HasAdmin,
}
use sf_bulk_loader.Accounts.Invitations.{is_pending, find_token, accept_invitation}
use sf_bulk_loader.Accounts.Resets.{with_password, confirm_password_reset, check_reset}
use sf_bulk_loader.Accounts.Overlaps.{check_deactivate, write_deactivate, deactivate-loses_admins}
use sf_bulk_loader.Accounts.Watermark.{confirm_password_reset-sessions}
use sf_bulk_loader.Accounts.Races.{
  Confirm, World, finish, Steps, stays, steps, reads, writes, has_id,
}
use sf_bulk_loader.Accounts.Redeeming.{Steps-once}

abbrev config : Config
config = record { admin_email = none; invitation_ttl_hours = 24 }

abbrev account : ℕ → UserStatus → ℕ → User
account id status profile = record {
  id = id;
  email = id;
  display_name = none;
  hashed_password = some 5;
  status = status;
  locked_until = none;
  failed_login_count = 0;
  must_reset_password = false;
  is_admin = false;
  profile_id = some profile;
  password_changed_at = none;
  last_login_at = none;
}

abbrev token : ℕ → ℕ → Token
token id user = record {
  id = id;
  user_id = some user;
  token_hash = id + 100;
  expires_at = 9000000;
  used_at = none;
}

-- Two administrators, the second of them deleted, with an invitation that was never used.
abbrev office : Db
office = record {
  users = account 1 UserStatus.active 7 ∷ account 2 UserStatus.deleted 7 ∷ [];
  profiles = record { id = 7; is_admin_profile = true } ∷ [];
  invitations = token 1 2 ∷ [];
  resets = token 4 1 ∷ [];
  totp = [];
  backup_codes = [];
  audit = [];
}

-- Characters by what they are: a capital, a small letter, a digit, a sign.
abbrev capital : PyChar
capital = record { is_upper = true; is_lower = false; is_digit = false; is_alnum = true }

abbrev small : PyChar
small = record { is_upper = false; is_lower = true; is_digit = false; is_alnum = true }

abbrev digit : PyChar
digit = record { is_upper = false; is_lower = false; is_digit = true; is_alnum = true }

abbrev sign : PyChar
sign = record { is_upper = false; is_lower = false; is_digit = false; is_alnum = false }

abbrev password : List PyChar
password =
    capital ∷ small ∷ small ∷ small ∷ small ∷ small ∷ digit ∷ digit ∷ digit ∷ digit ∷ digit ∷ sign
    ∷ []

abbrev hash : List PyChar → ℕ
hash p = length p

-- The only active administrator can not be deactivated, but once the invitation of the other is
-- accepted, she can.
abbrev day : List Call
day =
    asks 3 1000000 (deactivate 1)
    ∷ accepts 2500000 2600000 101 password
    ∷ asks 3 3000000 (deactivate 1)
    ∷ []

first_refused : (handle config 3 1000000 (deactivate 1) office).0 ≡ http 409
unfolding handle find_user
first_refused = refl

after_day :
    find_user 1 (serve_all hash 60 config day office).users
    ≡ some (account 1 UserStatus.deactivated 7)
unfolding serve_all serve handle find_user accept_invitation is_strong is_pending
after_day = refl

office-HasAdmin : HasAdmin 7 office
unfolding get_admin_profile count_active_admins
office-HasAdmin = (refl, omega arith)

serve_all-HasAdmin_example : HasAdmin 7 (serve_all hash 60 config day office)
serve_all-HasAdmin_example = serve_all-HasAdmin hash 60 config 7 day office office-HasAdmin

-- Two administrators who deactivate each other at the same time.
abbrev pair : Db
pair = record office { users = account 1 UserStatus.active 7 ∷ account 2 UserStatus.active 7 ∷ [] }

deactivate-loses_admins_example :
    (check_deactivate 1 pair ≡ true)
    × (check_deactivate 2 pair ≡ true)
    × (check_deactivate 2 (write_deactivate 1 pair) ≡ false)
    × (count_active_admins 7 (write_deactivate 2 (write_deactivate 1 pair)).users ≡ 0)
unfolding get_admin_profile find_user is_active_admin count_active_admins
deactivate-loses_admins_example =
    deactivate-loses_admins 7 1 2 (account 1 UserStatus.active 7) (account 2 UserStatus.active 7)
      pair refl refl refl refl refl refl refl

-- A library that refuses a token in the second it runs out.
abbrev strict : Decode
strict now p = if ltb (timestamp now) p.exp then some p else none

strict-Documented : Documented strict
unfolding timestamp
strict-Documented = record { fresh = λ now p h. ground arith; expired = λ now p h. ground arith }

refused_session :
    get_current_user strict 2700000
      (accept_invitation hash 60 2500000 2600000 101 password office).1
      (some (create_access_token 2 60 2600000))
    ≡ none
unfolding get_current_user accept_invitation create_access_token is_strong is_pending
refused_session = refl

confirm_password_reset-sessions_example :
    ((confirm_password_reset hash 2500000 104 password office).0 ≡ done)
    × (get_current_user strict 2700000
          (confirm_password_reset hash 2500000 104 password office).1
          (some (create_access_token 1 60 1999999))
        ≡ (if ltb (timestamp 1999999) (timestamp 2500000)
            then none
            else some (with_password (hash password) 2500000 (account 1 UserStatus.active 7))))
    × (get_current_user strict 4000000000
          (confirm_password_reset hash 2500000 104 password office).1
          (some (create_access_token 1 60 1999999))
        ≡ none)
unfolding check_reset is_strong find_token find_user is_locked_out timestamp
confirm_password_reset-sessions_example =
    confirm_password_reset-sessions strict hash 2500000 104 password office (token 4 1)
      (account 1 UserStatus.active 7) 2700000 4000000000 60 1999999 strict-Documented refl refl
      (omega arith) (omega arith)

-- Two confirmations with one token, which both check before either writes.
abbrev both : Confirm
both = record {
  hash = hash password;
  now = 2500000;
  token = token 4 1;
  user = account 1 UserStatus.active 7;
}

abbrev quiet : World
quiet = record { db = office; under_way = []; successes = [] }

abbrev one_reading : World
one_reading = record { db = office; under_way = both ∷ []; successes = [] }

abbrev two_reading : World
two_reading = record { db = office; under_way = both ∷ both ∷ []; successes = [] }

abbrev one_written : World
one_written = finish both (both ∷ []) two_reading

checked_both :
    check_reset 2500000 104 password office ≡ some (token 4 1, account 1 UserStatus.active 7)
unfolding check_reset is_strong find_token find_user
checked_both = refl

still_one : one_written.under_way ≡ both ∷ []
unfolding finish
still_one = refl

race : Steps quiet (finish both [] one_written)
race =
    steps
      (reads quiet hash 2500000 104 password (token 4 1) (account 1 UserStatus.active 7)
        checked_both)
      (steps
        (reads one_reading hash 2500000 104 password (token 4 1) (account 1 UserStatus.active 7)
          checked_both)
        (steps (writes two_reading both [] (both ∷ []) refl)
          (steps (writes one_written both [] [] still_one) (stays (finish both [] one_written)))))

the_winner : (finish both [] one_written).successes ≡ 4 ∷ []
unfolding finish
the_winner = refl

Steps-once_example : count_by (λ k. k == 4) (finish both [] one_written).successes ≤ 1
unfolding has_id
Steps-once_example = Steps-once race 4 (omega arith) refl
