-- ===== src/Accounts/Resets.antt =====
-- Resetting a forgotten password: `request_password_reset` and `confirm_password_reset` of
-- backend/app/api/auth_reset.py. A raw token is given by its hash; the hash of a password is the
-- library's, `hash_password`. A confirmation reads and checks first, and writes afterwards; other
-- requests can come between the two.
use sf_bulk_loader.Prelude.{
  ℕ, ◌+◌, ◌*◌, Bool, false, not, ◌&&◌, Option, none, some, List, [], ◌∷◌, ◌++◌, map, ltb, ◌==◌,
  if◌then◌else◌, is_some,
}
use sf_bulk_loader.Accounts.{
  User, Token, Db, Response, done, http, PyChar, find_user, change_users, is_active_status,
  is_locked_out, truncated,
}
use sf_bulk_loader.Accounts.Sessions.{is_strong}
use sf_bulk_loader.Accounts.Invitations.{find_token}

-- `User.is_active`
unfoldable pub is_active : ℕ → User → Bool
unfolding is_active_status is_locked_out
is_active now u = is_active_status u.status && not (is_locked_out now u.locked_until)

-- `select(User).where(User.email == email_address)`
unfoldable pub find_email : ℕ → List User → Option User
find_email email [] = none
find_email email (u ∷ us) = if u.email == email then some u else find_email email us

unfoldable pub add_reset : ℕ → ℕ → ℕ → ℕ → User → Db → Db
add_reset token_id token_hash ttl now u db = record db {
  resets =
      db.resets
      ++ record {
        id = token_id;
        user_id = some u.id;
        token_hash = token_hash;
        expires_at = now + ttl * 60000000;
        used_at = none;
      }
        ∷ [];
}

-- `allowed` is the answer of the rate limiter, `token_id` and `token_hash` are those of the new token.
unfoldable pub request_password_reset : Bool → ℕ → ℕ → ℕ → ℕ → ℕ → Db → Response × Db
unfolding find_email is_active add_reset
request_password_reset allowed ttl token_id token_hash now email db =
    if not allowed then (http 429, db) else elim (find_email email db.users) [
      | none ↦ (done, db)
      | some u ↦
          if is_active now u then (done, add_reset token_id token_hash ttl now u db) else (done, db)
    ]

unfoldable pub is_consumable : ℕ → Token → Bool
is_consumable now t = not (ltb t.expires_at now) && not (is_some t.used_at)

unfoldable pub check_owner : ℕ → List PyChar → Token → Option User → Option (Token × User)
unfolding is_active
check_owner now password t none = none
check_owner now password t (some u) =
    if not (is_active now u)
    then none
    else if not (is_some u.hashed_password)
    then none
    else if not (is_strong password)
    then none
    else some (t, u)

unfoldable pub check_token : ℕ → List PyChar → List User → Option Token → Option (Token × User)
unfolding check_owner is_consumable find_user
check_token now password us none = none
check_token now password us (some t) =
    if not (is_consumable now t)
    then none
    else elim t.user_id [ none ↦ none | some id ↦ check_owner now password t (find_user id us) ]

-- What is read and checked; `none` is a 400.
unfoldable pub check_reset : ℕ → ℕ → List PyChar → Db → Option (Token × User)
unfolding check_token find_token
check_reset now token_hash password db =
    check_token now password db.users (find_token (λ t. t.token_hash == token_hash) db.resets)

-- `PasswordResetToken.id == token_id` and `used_at.is_(None)`.
unfoldable pub is_unused : ℕ → Token → Bool
is_unused token_id t = t.id == token_id && not (is_some t.used_at)

unfoldable pub with_used : ℕ → Token → Token
with_used now t = record t { used_at = some now }

unfoldable pub kept_before : Token → Option (List Token) → Option (List Token)
kept_before t none = none
kept_before t (some ts) = some (t ∷ ts)

-- The conditional `UPDATE`; `none` where it changes no row.
unfoldable pub consume : ℕ → ℕ → List Token → Option (List Token)
unfolding is_unused with_used kept_before
consume token_id now [] = none
consume token_id now (t ∷ ts) =
    let rest = consume token_id now ts in
    if is_unused token_id t then some (with_used now t ∷ ts) else kept_before t rest

unfoldable pub is_owned_by : ℕ → Option ℕ → Bool
is_owned_by user_id none = false
is_owned_by user_id (some id) = id == user_id

-- The other tokens of the user that are unused; the one of this confirmation is used by now.
unfoldable pub invalidate : ℕ → ℕ → Token → Token
unfolding with_used is_owned_by
invalidate user_id now t =
    if is_owned_by user_id t.user_id && not (is_some t.used_at) then with_used now t else t

unfoldable pub with_password : ℕ → ℕ → User → User
unfolding truncated
with_password hash now u = record u {
  hashed_password = some hash;
  password_changed_at = some (truncated now);
}

unfoldable pub reset : ℕ → ℕ → User → List Token → Db → Db
unfolding with_password change_users invalidate
reset hash now u ts db =
    change_users u.id (with_password hash now) (record db { resets = map (invalidate u.id now) ts })

-- The writes; the rows of the token and of its user were read before. `none` is a 400, after a rollback.
unfoldable pub apply_reset : ℕ → ℕ → Token × User → Db → Option Db
unfolding reset consume
apply_reset hash now (t, u) db = elim (consume t.id now db.resets) [
  | none ↦ none
  | some ts ↦ some (reset hash now u ts db)
]

unfoldable pub confirmed : Option Db → Db → Response × Db
confirmed none db = (http 400, db)
confirmed (some db') db = (done, db')

-- A confirmation that nothing interrupts.
unfoldable pub confirm_password_reset : (List PyChar → ℕ) → ℕ → ℕ → List PyChar → Db → Response × Db
unfolding confirmed apply_reset check_reset
confirm_password_reset hash_password now token_hash password db =
    elim (check_reset now token_hash password db) [
      | none ↦ (http 400, db)
      | some r ↦ confirmed (apply_reset (hash_password password) now r db) db
    ]
