-- ===== src/Login.antt =====
-- backend/app/services/auth_lockout.py and the login request of backend/app/api/auth.py, as they
-- change one account and its rows of login attempts. Times are seconds. Whether the address may try
-- again (RateLimit), whether the password is right, and the second factor are parameters. The row of
-- an attempt is taken to be stored.
pub mod Guesses
use sf_bulk_loader.Prelude.{
  ℕ, ◌+◌, Bool, true, false, not, ◌&&◌, ◌||◌, Option, none, some, List, [], ◌∷◌, ltb, leb,
  if◌then◌else◌, count_by,
}

pub data UserStatus : Type 0 where
  active locked deactivated deleted invited : UserStatus

pub data Outcome : Type 0 where
  ok must_reset_password wrong_password user_locked user_inactive ip_limit : Outcome
  mfa_challenge_issued tier1_auto wrong_mfa : Outcome

-- A row of `login_attempt` of this user.
pub record LoginAttempt : Type 0 where
  pub outcome : Outcome
  pub attempted_at : ℕ

pub record User : Type 0 where
  pub status : UserStatus
  pub failed_login_count : ℕ
  pub locked_until : Option ℕ
  pub attempts : List LoginAttempt

pub record Settings : Type 0 where
  pub login_tier1_threshold : ℕ
  pub login_tier1_window : ℕ
  pub login_tier1_lock : ℕ
  pub login_tier2_threshold : ℕ
  pub login_tier2_window : ℕ
  pub login_tier2_tier1_count : ℕ

unfoldable pub is_active : UserStatus → Bool
is_active UserStatus.active = true
is_active _ = false

-- `_failed_outcomes`
unfoldable pub is_failed : Outcome → Bool
is_failed wrong_password = true
is_failed user_locked = true
is_failed user_inactive = true
is_failed _ = false

unfoldable pub is_tier1 : Outcome → Bool
is_tier1 tier1_auto = true
is_tier1 _ = false

-- Rows of these outcomes with `attempted_at >= now - window`.
unfoldable pub recent : (Outcome → Bool) → ℕ → ℕ → List LoginAttempt → ℕ
recent kind now window attempts =
    count_by (λ a. kind a.outcome && leb now (a.attempted_at + window)) attempts

-- `locked_until is not None and not _locked_until_is_past(locked_until, now)`
unfoldable pub is_locked_at : ℕ → Option ℕ → Bool
is_locked_at now none = false
is_locked_at now (some until) = ltb now until

-- Tier-2 trigger B, after a tier-1 lock.
unfoldable pub repeated_locks : Settings → ℕ → User → User
unfolding is_active recent is_tier1
repeated_locks c now u =
    if not (is_active u.status)
    then u
    else if leb c.login_tier2_tier1_count (recent is_tier1 now c.login_tier2_window u.attempts)
    then record u { status = UserStatus.locked }
    else u

unfoldable pub tier1_lock : Settings → ℕ → User → User
tier1_lock c now u = record u {
  locked_until = some (now + c.login_tier1_lock);
  attempts = record { outcome = tier1_auto; attempted_at = now } ∷ u.attempts;
}

-- Steps 3 to 5.
unfoldable pub tier1_check : Settings → ℕ → User → User
unfolding recent is_failed is_locked_at repeated_locks tier1_lock
tier1_check c now u =
    if not (leb c.login_tier1_threshold (recent is_failed now c.login_tier1_window u.attempts))
    then u
    else if is_locked_at now u.locked_until
    then u
    else repeated_locks c now (tier1_lock c now u)

unfoldable pub handle_failed_attempt : Settings → ℕ → User → User
unfolding is_active tier1_check
handle_failed_attempt c now user =
    let u = record user { failed_login_count = user.failed_login_count + 1 } in
    if leb c.login_tier2_threshold u.failed_login_count && is_active u.status
    then record u { status = UserStatus.locked }
    else tier1_check c now u

unfoldable pub handle_successful_login : User → User
handle_successful_login u = record u { failed_login_count = 0; locked_until = none }

-- `_persist_login_attempt`
unfoldable pub persist : Outcome → ℕ → User → User
persist o now u = record u { attempts = record { outcome = o; attempted_at = now } ∷ u.attempts }

-- What a request brings, and what is known of the account's second factor.
pub record LoginRequest : Type 0 where
  pub now : ℕ
  pub allowed_ip : Bool
  pub password_ok : Bool
  pub has_totp : Bool
  pub require_2fa : Bool
  pub must_reset : Bool

unfoldable pub is_barred : UserStatus → Bool
is_barred deactivated = true
is_barred deleted = true
is_barred invited = true
is_barred _ = false

unfoldable pub is_locked : UserStatus → Bool
is_locked UserStatus.locked = true
is_locked _ = false

-- `_login_success_phase2`
unfoldable pub login_success : LoginRequest → User → Outcome × User
unfolding handle_successful_login persist
login_success r u =
    let o = if r.must_reset then must_reset_password else ok in
    (o, persist o r.now (handle_successful_login u))

-- The outcome of a request to log in as this user, and the account after it. An attempt above the
-- limit of the address is stored without a user.
unfoldable pub login : Settings → LoginRequest → User → Outcome × User
unfolding is_locked_at is_locked is_barred persist login_success
login c r u =
    if not r.allowed_ip
    then (ip_limit, u)
    else if is_locked_at r.now u.locked_until
    then (user_locked, persist user_locked r.now u)
    else if is_locked u.status
    then (user_locked, persist user_locked r.now u)
    else if is_barred u.status
    then (user_inactive, persist user_inactive r.now u)
    else if not r.password_ok
    then (wrong_password, handle_failed_attempt c r.now (persist wrong_password r.now u))
    else if r.has_totp || r.require_2fa
    then (mfa_challenge_issued, persist mfa_challenge_issued r.now u)
    else login_success r u

-- Requests one after the other.
unfoldable pub login_all : Settings → List LoginRequest → User → List Outcome × User
login_all c [] u = ([], u)
login_all c (r ∷ rs) u =
    let (o, u') = login c r u in let (os, last) = login_all c rs u' in (o ∷ os, last)
