-- ===== src/Accounts/Invitations.antt =====
-- Accepting an invitation: `accept_invitation` of backend/app/api/invitations.py. The raw token is given
-- by its hash; the hash of the password is the library's, `hash_password`.
use sf_bulk_loader.Prelude.{
  ℕ, Bool, not, ◌&&◌, Option, none, some, List, [], ◌∷◌, ◌==◌, ltb, is_some, if◌then◌else◌,
}
use sf_bulk_loader.Accounts.{
  User, UserStatus, Token, Db, Response, session, http, PyChar, find_user, change_users,
}
use sf_bulk_loader.Accounts.Sessions.{create_access_token, is_strong}

-- The condition of the `UPDATE` that redeems.
unfoldable pub is_pending : ℕ → ℕ → Token → Bool
is_pending hash now t = t.token_hash == hash && not (is_some t.used_at) && ltb now t.expires_at

unfoldable pub find_token : (Token → Bool) → List Token → Option Token
find_token p [] = none
find_token p (t ∷ ts) = if p t then some t else find_token p ts

unfoldable pub use_token : (Token → Bool) → ℕ → List Token → List Token
use_token p now [] = []
use_token p now (t ∷ ts) =
    if p t then record t { used_at = some now } ∷ ts else t ∷ use_token p now ts

unfoldable pub activated : ℕ → ℕ → User → User
activated hash now u = record u {
  hashed_password = some hash;
  status = UserStatus.active;
  password_changed_at = some now;
  last_login_at = some now;
}

-- `now` is the time of the change, `later` that of the new token.
unfoldable pub activate : ℕ → ℕ → ℕ → ℕ → ℕ → Db → Response × Db
unfolding activated change_users
activate hash expiry_minutes now later id db =
    (session (create_access_token id expiry_minutes later), change_users id (activated hash now) db)

-- The row of the user is read after the redemption; a rollback leaves `before`.
unfoldable pub activate_found : ℕ → ℕ → ℕ → ℕ → Option ℕ → Db → Db → Response × Db
unfolding activate find_user
activate_found hash expiry now later none before db = (http 404, before)
activate_found hash expiry now later (some id) before db = elim (find_user id db.users) [
  | none ↦ (http 404, before)
  | some u ↦ activate hash expiry now later id db
]

unfoldable pub redeem : ℕ → ℕ → ℕ → ℕ → ℕ → Option Token → Db → Response × Db
unfolding activate_found use_token
redeem token_hash hash expiry now later none db = (http 410, db)
redeem token_hash hash expiry now later (some t) db =
    activate_found hash expiry now later t.user_id db
      (record db { invitations = use_token (is_pending token_hash now) now db.invitations })

unfoldable pub accept_invitation :
    (List PyChar → ℕ) → ℕ → ℕ → ℕ → ℕ → List PyChar → Db → Response × Db
unfolding redeem find_token
accept_invitation hash_password expiry now later token_hash password db =
    if not (is_strong password)
    then (http 422, db)
    else redeem token_hash (hash_password password) expiry now later
        (find_token (is_pending token_hash now) db.invitations) db
