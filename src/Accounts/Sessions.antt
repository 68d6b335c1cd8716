-- ===== src/Accounts/Sessions.antt =====
-- The tokens of sessions: backend/app/services/auth.py, where authentication is on. Signing and
-- decoding are the JWT library's: a token is given as the claims it was signed with, or `none` where
-- there is none or its signature is not the backend's, and `Decode` is the library's `jwt.decode` of
-- such a token at a time, `none` where it raises.
use sf_bulk_loader.Prelude.{
  ℕ, ◌<◌, ◌≡◌, ◌+◌, ◌*◌, Bool, true, false, not, ◌&&◌, Option, none, some, List, ltb, leb, length,
  any, if◌then◌else◌,
}
use sf_bulk_loader.Accounts.{
  User, Db, Payload, PyChar, find_user, is_active_status, is_locked_out, second, timestamp,
}

abbrev pub Decode : Type 0
Decode = ℕ → Payload → Option Payload

-- What the library documents of `exp`: until then a token is decoded to its claims, and after that it is
-- refused.
pub record Documented (decode : Decode) : Type 0 where
  pub fresh : (now : ℕ) (p : Payload) → timestamp now < p.exp → decode now p ≡ some p
  pub expired : (now : ℕ) (p : Payload) → p.exp < timestamp now → decode now p ≡ none

-- `decode_access_token`; `none` is a 401.
unfoldable pub decode_access_token : Decode → ℕ → Option Payload → Option Payload
decode_access_token decode now none = none
decode_access_token decode now (some p) = decode now p

unfoldable pub create_access_token : ℕ → ℕ → ℕ → Payload
unfolding timestamp
create_access_token user_id expiry_minutes now = record {
  sub = some user_id;
  mfa_pending = false;
  must_enroll = false;
  iat = some (timestamp now);
  exp = timestamp now + expiry_minutes * 60;
}

unfoldable pub create_mfa_token : ℕ → Bool → ℕ → ℕ → Payload
unfolding timestamp
create_mfa_token user_id must_enroll ttl_minutes now = record {
  sub = some user_id;
  mfa_pending = true;
  must_enroll = must_enroll;
  iat = some (timestamp now);
  exp = timestamp now + ttl_minutes * 60;
}

-- `token_iat < pca_ts`
unfoldable pub is_stale : Option ℕ → Option ℕ → Bool
is_stale (some changed_at) (some iat) = ltb (iat * second) changed_at
is_stale _ _ = false

unfoldable pub check_user : ℕ → Payload → Option User → Option User
unfolding is_active_status is_locked_out is_stale
check_user now p none = none
check_user now p (some u) =
    if not (is_active_status u.status)
    then none
    else if is_locked_out now u.locked_until
    then none
    else if is_stale u.password_changed_at p.iat
    then none
    else some u

unfoldable pub user_of : ℕ → Db → Option Payload → Option User
unfolding check_user find_user
user_of now db none = none
user_of now db (some p) = elim p.sub [
  | none ↦ none
  | some id ↦ if p.mfa_pending then none else check_user now p (find_user id db.users)
]

-- Of a bearer token that is no personal access token; `none` is a 401.
unfoldable pub get_current_user : Decode → ℕ → Db → Option Payload → Option User
unfolding user_of decode_access_token
get_current_user decode now db token = user_of now db (decode_access_token decode now token)

unfoldable pub check_pending : ℕ → Bool → Option User → Option (User × Bool)
unfolding is_active_status is_locked_out
check_pending now must_enroll none = none
check_pending now must_enroll (some u) =
    if not (is_active_status u.status)
    then none
    else if is_locked_out now u.locked_until
    then none
    else some (u, must_enroll)

unfoldable pub pending_of : ℕ → Db → Option Payload → Option (User × Bool)
unfolding check_pending find_user
pending_of now db none = none
pending_of now db (some p) = elim p.sub [
  | none ↦ none
  | some id ↦
      if not p.mfa_pending then none else check_pending now p.must_enroll (find_user id db.users)
]

unfoldable pub get_mfa_pending_user : Decode → ℕ → Db → Option Payload → Option (User × Bool)
unfolding pending_of decode_access_token
get_mfa_pending_user decode now db token = pending_of now db (decode_access_token decode now token)

-- The claims of the `token` parameter of a WebSocket connection; `none` is a 401.
unfoldable pub validate_ws_token : Decode → ℕ → Option Payload → Option Payload
unfolding decode_access_token
validate_ws_token decode now token = decode_access_token decode now token

abbrev pub password_min_length : ℕ
password_min_length = 12

-- The rules of `_PASSWORD_RULES`, all of which hold.
unfoldable pub is_strong : List PyChar → Bool
is_strong p =
    leb password_min_length (length p)
    && any (λ c. c.is_upper) p
    && any (λ c. c.is_lower) p
    && any (λ c. c.is_digit) p
    && any (λ c. not c.is_alnum) p
