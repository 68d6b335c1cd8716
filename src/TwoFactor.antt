-- ===== src/TwoFactor.antt =====
-- The second factor of a login: backend/app/services/totp.py and backend/app/api/auth_login_2fa.py, on
-- one account. Times are seconds, hashes and secrets are numbers, a string is a list of characters.
-- The encryption of secrets, the codes of a secret and the comparison with a hash are the libraries'.
pub mod Codes
pub mod Requests
pub mod Windows
pub mod Replays
pub mod Doubles
pub mod Guessing
use sf_bulk_loader.Prelude.{
  ℕ, zero, suc, ◌+◌, ◌-◌, ◌*◌, ◌/◌, ◌%◌, ◌≤◌, ◌<◌, min, max, ◌≡◌, ◌≢◌, ◌⊎◌, ◌↔◌, refl, sym, ap, ◌∙◌,
  inl, inr, Bool, true, false, not, ◌&&◌, ◌||◌, Option, none, some, List, [], ◌∷◌, ◌++◌, map, arith,
  ltb, leb, ◌==◌, if◌then◌else◌, Bool-cases, Option-cases, is_some, holds, length, All, select,
  count_by, any,
}
use sf_bulk_loader.Login.{Outcome, User, LoginRequest}

-- A character: its code point, what Python's tests answer for it, and its upper case.
pub record CodeChar : Type 0 where
  pub point : ℕ
  pub is_space : Bool
  pub is_digit : Bool
  pub upper : List ℕ

pub record Libraries : Type 0 where
  pub decrypt_secret : ℕ → Option ℕ
  -- `_BASE32_RE.match`
  pub is_base32 : ℕ → Bool
  -- `pyotp.TOTP(secret).at(step * TOTP_PERIOD_SECONDS)`
  pub totp_at : ℕ → ℕ → List ℕ
  -- `bcrypt.checkpw`, false where it raises
  pub checkpw : List ℕ → ℕ → Bool

pub data VerifyResult : Type 0 where
  -- `TotpError`
  malformed : VerifyResult
  refused : VerifyResult
  matched : (counter : ℕ) → VerifyResult

pub record UserTotp : Type 0 where
  pub secret_encrypted : ℕ
  pub last_used_counter : Option ℕ
  pub last_used_at : Option ℕ

pub record UserBackupCode : Type 0 where
  pub id : ℕ
  pub code_hash : ℕ
  pub consumed_at : Option ℕ

pub record Account : Type 0 where
  pub user : User
  pub totp : Option UserTotp
  pub backup_codes : List UserBackupCode

pub data Method : Type 0 where
  totp_code : List CodeChar → Method
  backup_code : List CodeChar → Method

-- What the request and its MFA token bring. `login` holds the time and whether the password is
-- temporary; `allowed` is the answer of the rate limiter.
pub record Login2FaRequest : Type 0 where
  pub login : LoginRequest
  pub allowed : Bool
  pub must_enroll : Bool
  pub method : Method

-- A session, or an `HTTPException`; `wrong_code` is a 401 that counts against the account.
pub data Answer : Type 0 where
  granted : Outcome → Answer
  wrong_code : Answer
  http : ℕ → Answer
