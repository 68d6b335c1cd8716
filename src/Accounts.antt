-- ===== src/Accounts.antt =====
-- The accounts of the backend: the tables behind backend/app/models/user.py, invitation_token.py and
-- password_reset_token.py, as far as the requests of the children read or write them. Times are
-- microseconds, identifiers, hashes, addresses and names are numbers. A row is found by its primary key,
-- so an update changes the first row that has it.
pub mod Sessions
pub mod Admin
pub mod Requests
pub mod Invitations
pub mod Resets
pub mod Counting
pub mod Effects
pub mod LastAdmin
pub mod Overlaps
pub mod Tombstones
pub mod Watermark
pub mod Races
pub mod Redeeming
use sf_bulk_loader.Prelude.{
  ℕ, ◌*◌, ◌/◌, Bool, true, false, Option, none, some, List, [], ◌∷◌, ◌==◌, ltb, if◌then◌else◌,
}

pub data UserStatus : Type 0 where
  invited active locked deactivated deleted : UserStatus

pub record User : Type 0 where
  pub id : ℕ
  pub email : ℕ
  pub display_name : Option ℕ
  pub hashed_password : Option ℕ
  pub status : UserStatus
  pub locked_until : Option ℕ
  pub failed_login_count : ℕ
  pub must_reset_password : Bool
  pub is_admin : Bool
  pub profile_id : Option ℕ
  pub password_changed_at : Option ℕ
  pub last_login_at : Option ℕ

pub record Profile : Type 0 where
  pub id : ℕ
  -- `name == "admin"`
  pub is_admin_profile : Bool

-- A row of `invitation_tokens` or of `password_reset_token`.
pub record Token : Type 0 where
  pub id : ℕ
  pub user_id : Option ℕ
  pub token_hash : ℕ
  pub expires_at : ℕ
  pub used_at : Option ℕ

-- The outcomes of the rows of `login_attempt` that the requests of an administrator write.
pub data AuditOutcome : Type 0 where
  admin_unlock : AuditOutcome
  admin_reset_2fa : AuditOutcome

-- The rows of second factors are the identifiers of their users.
pub record Db : Type 0 where
  pub users : List User
  pub profiles : List Profile
  pub invitations : List Token
  pub resets : List Token
  pub totp : List ℕ
  pub backup_codes : List ℕ
  pub audit : List (ℕ × AuditOutcome)

unfoldable pub is_active_status : UserStatus → Bool
is_active_status UserStatus.active = true
is_active_status _ = false

unfoldable pub is_deleted_status : UserStatus → Bool
is_deleted_status UserStatus.deleted = true
is_deleted_status _ = false

-- `db.get(User, user_id)`
unfoldable pub find_user : ℕ → List User → Option User
find_user id [] = none
find_user id (u ∷ us) = if u.id == id then some u else find_user id us

unfoldable pub change_user : ℕ → (User → User) → List User → List User
change_user id f [] = []
change_user id f (u ∷ us) = if u.id == id then f u ∷ us else u ∷ change_user id f us

unfoldable pub change_users : ℕ → (User → User) → Db → Db
unfolding change_user
change_users id f db = record db { users = change_user id f db.users }

unfoldable pub find_profile : ℕ → List Profile → Option Profile
find_profile id [] = none
find_profile id (p ∷ ps) = if p.id == id then some p else find_profile id ps

-- A tier-1 lockout that has not run out.
unfoldable pub is_locked_out : ℕ → Option ℕ → Bool
is_locked_out now none = false
is_locked_out now (some until) = ltb now until

abbrev pub second : ℕ
second = 1000000

-- `int(now.timestamp())`, and `now.replace(microsecond=0)`.
unfoldable pub timestamp : ℕ → ℕ
timestamp now = now / second

unfoldable pub truncated : ℕ → ℕ
unfolding timestamp
truncated now = timestamp now * second

-- The claims of a session or an MFA token.
pub record Payload : Type 0 where
  pub sub : Option ℕ
  pub mfa_pending : Bool
  pub must_enroll : Bool
  pub iat : Option ℕ
  pub exp : ℕ

-- The answer to a request: success, with the token of a session if there is one, or an `HTTPException`.
pub data Response : Type 0 where
  done : Response
  session : Payload → Response
  http : ℕ → Response

-- A character, with what Python's tests answer for it.
pub record PyChar : Type 0 where
  pub is_upper : Bool
  pub is_lower : Bool
  pub is_digit : Bool
  pub is_alnum : Bool
