-- ===== src/TwoFactor/Requests.antt =====
-- `login_2fa` of backend/app/api/auth_login_2fa.py.
use sf_bulk_loader.Prelude.{ℕ, not, Option, none, some, List, [], ◌∷◌, if◌then◌else◌, select}
use sf_bulk_loader.TwoFactor.{
  CodeChar, Libraries, VerifyResult, matched, UserTotp, UserBackupCode, Account, Method, totp_code,
  backup_code, Login2FaRequest, Answer, granted, wrong_code, http,
}
use sf_bulk_loader.TwoFactor.Codes.{verify_code, normalized, find_code, is_unconsumed, consume_code}
use sf_bulk_loader.Login.{
  wrong_mfa, Settings, LoginRequest, is_active, is_locked_at, handle_failed_attempt, persist,
  login_success,
}

-- `_reject_mfa_code`
unfoldable pub reject_mfa_code : Settings → ℕ → Account → Answer × Account
unfolding persist handle_failed_attempt
reject_mfa_code c now a =
    (wrong_code, record a { user = handle_failed_attempt c now (persist wrong_mfa now a.user) })

unfoldable pub grant : LoginRequest → Account → Answer × Account
unfolding login_success
grant r a = let (o, u) = login_success r a.user in (granted o, record a { user = u })

unfoldable pub with_counter : ℕ → ℕ → UserTotp → UserTotp
with_counter counter now t = record t { last_used_counter = some counter; last_used_at = some now }

unfoldable pub after_verify :
    Settings → LoginRequest → UserTotp → VerifyResult → Account → Answer × Account
unfolding reject_mfa_code grant with_counter
after_verify c r t (matched counter) a =
    grant r (record a { totp = some (with_counter counter r.now t) })
after_verify c r t _ a = reject_mfa_code c r.now a

unfoldable pub login_totp :
    Libraries → Settings → LoginRequest → List CodeChar → Account → Answer × Account
unfolding after_verify verify_code
login_totp l c r code a = elim a.totp [
  | none ↦ (http 401, a)
  | some t ↦ elim (l.decrypt_secret t.secret_encrypted) [
    | none ↦ (http 500, a)
    | some secret ↦ after_verify c r t (verify_code l secret code t.last_used_counter r.now) a
  ]
]

unfoldable pub after_consume :
    Settings → LoginRequest → Option (List UserBackupCode) → Account → Answer × Account
unfolding reject_mfa_code grant
after_consume c r none a = reject_mfa_code c r.now a
after_consume c r (some bs) a = grant r (record a { backup_codes = bs })

unfoldable pub after_match :
    Settings → LoginRequest → Option UserBackupCode → Account → Answer × Account
unfolding reject_mfa_code after_consume consume_code
after_match c r none a = reject_mfa_code c r.now a
after_match c r (some b) a = after_consume c r (consume_code b.id r.now a.backup_codes) a

unfoldable pub login_backup :
    Libraries → Settings → LoginRequest → List ℕ → Account → Answer × Account
unfolding reject_mfa_code after_match find_code is_unconsumed
login_backup l c r [] a = reject_mfa_code c r.now a
login_backup l c r (x ∷ xs) a =
    after_match c r (find_code (l.checkpw (x ∷ xs)) (select is_unconsumed a.backup_codes)) a

unfoldable pub by_method : Libraries → Settings → LoginRequest → Method → Account → Answer × Account
unfolding login_totp login_backup normalized
by_method l c r (totp_code code) a = login_totp l c r code a
by_method l c r (backup_code code) a = login_backup l c r (normalized code) a

-- `POST /login/2fa`, after the check of `get_mfa_pending_user`.
unfoldable pub login_2fa : Libraries → Settings → Login2FaRequest → Account → Answer × Account
unfolding is_active is_locked_at by_method
login_2fa l c r a =
    if not (is_active a.user.status)
    then (http 401, a)
    else if is_locked_at r.login.now a.user.locked_until
    then (http 401, a)
    else if r.must_enroll
    then (http 403, a)
    else if not r.allowed
    then (http 429, a)
    else by_method l c r.login r.method a
