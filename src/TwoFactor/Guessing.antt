-- ===== src/TwoFactor/Guessing.antt =====
-- How many codes can be tried on an account whose password is known: `login_2fa` of
-- backend/app/api/auth_login_2fa.py, with backend/app/services/auth_lockout.py.
use sf_bulk_loader.Prelude.{
  ℕ, ◌+◌, ◌≤◌, ◌<◌, ◌≡◌, ◌⊎◌, refl, inl, inr, Bool, true, false, not, Option, none, some, List, [],
  ◌∷◌, arith, if◌then◌else◌, Bool-cases, Option-cases, count_by,
}
use sf_bulk_loader.Login.{
  wrong_mfa, User, Settings, LoginRequest, is_active, is_locked_at, persist, login_success,
}
use sf_bulk_loader.Login.Guesses.{Below, failed-Below, budget, Below-budget}
use sf_bulk_loader.TwoFactor.{
  CodeChar, Libraries, VerifyResult, malformed, refused, matched, UserTotp, UserBackupCode, Account,
  Method, totp_code, backup_code, Login2FaRequest, Answer, granted, wrong_code, http,
}
use sf_bulk_loader.TwoFactor.Codes.{verify_code, normalized}
use sf_bulk_loader.TwoFactor.Requests.{
  reject_mfa_code, grant, with_counter, after_verify, login_totp, after_consume, after_match,
  login_backup, by_method, login_2fa,
}

abbrev pub is_wrong_code : Answer → Bool
is_wrong_code wrong_code = true
is_wrong_code _ = false

abbrev pub is_granted : Answer → Bool
is_granted (granted o) = true
is_granted _ = false

-- The answers to requests that come one after the other, up to the first that is let in.
unfoldable pub answers : Libraries → Settings → List Login2FaRequest → Account → List Answer
unfolding login_2fa
answers l c [] a = []
answers l c (r ∷ rs) a =
    let res = login_2fa l c r a in
    let rest = answers l c rs res.1 in if is_granted res.0 then res.0 ∷ [] else res.0 ∷ rest

-- The code was compared and refused, on an active account; or a session was granted; or nothing
-- happened.
abbrev Tried : Settings → User → Answer × Account → Type 0
Tried c u res =
    ((is_wrong_code res.0 ≡ true)
      × (is_granted res.0 ≡ false)
      × (res.1.user.failed_login_count ≡ u.failed_login_count + 1)
      × Below c res.1.user)
    ⊎ ((is_wrong_code res.0 ≡ false) × (is_granted res.0 ≡ true))
    ⊎ ((is_wrong_code res.0 ≡ false) × (is_granted res.0 ≡ false) × (res.1.user ≡ u))

reject-Tried : (c : Settings) (now : ℕ) (a : Account) → Tried c a.user (reject_mfa_code c now a)
unfolding reject_mfa_code persist
reject-Tried c now a =
    let (counted, below) = failed-Below c now (persist wrong_mfa now a.user) in
    inl (refl, refl, counted, below)

grant-Tried : (c : Settings) (r : LoginRequest) (u : User) (a : Account) → Tried c u (grant r a)
unfolding grant login_success
grant-Tried c r u a = inr (inl (refl, refl))

after_verify-Tried :
    (c : Settings) (r : LoginRequest) (t : UserTotp) (v : VerifyResult) (a : Account)
    → Tried c a.user (after_verify c r t v a)
unfolding after_verify
after_verify-Tried c r t malformed a = reject-Tried c r.now a
after_verify-Tried c r t refused a = reject-Tried c r.now a
after_verify-Tried c r t (matched s) a =
    grant-Tried c r a.user (record a { totp = some (with_counter s r.now t) })

login_totp-Tried :
    (l : Libraries) (c : Settings) (r : LoginRequest) (code : List CodeChar) (a : Account)
    → Tried c a.user (login_totp l c r code a)
unfolding login_totp
login_totp-Tried l c r code a = elim (Option-cases a.totp) [
  | inl e ↦ rw (e, login_totp) (inr (inr (refl, refl, refl)))
  | inr (t, e) ↦ elim (Option-cases (l.decrypt_secret t.secret_encrypted)) [
    | inl d ↦ rw (e, login_totp) (rw d (inr (inr (refl, refl, refl))))
    | inr (secret, d) ↦
        rw (e, login_totp)
          (rw d (after_verify-Tried c r t (verify_code l secret code t.last_used_counter r.now) a))
  ]
]

after_consume-Tried :
    (c : Settings) (r : LoginRequest) (o : Option (List UserBackupCode)) (a : Account)
    → Tried c a.user (after_consume c r o a)
unfolding after_consume
after_consume-Tried c r none a = reject-Tried c r.now a
after_consume-Tried c r (some bs) a = grant-Tried c r a.user (record a { backup_codes = bs })

after_match-Tried :
    (c : Settings) (r : LoginRequest) (o : Option UserBackupCode) (a : Account)
    → Tried c a.user (after_match c r o a)
unfolding after_match
after_match-Tried c r none a = reject-Tried c r.now a
after_match-Tried c r (some b) a = after_consume-Tried c r _ a

login_backup-Tried :
    (l : Libraries) (c : Settings) (r : LoginRequest) (text : List ℕ) (a : Account)
    → Tried c a.user (login_backup l c r text a)
unfolding login_backup
login_backup-Tried l c r [] a = reject-Tried c r.now a
login_backup-Tried l c r (x ∷ xs) a = after_match-Tried c r _ a

by_method-Tried :
    (l : Libraries) (c : Settings) (r : LoginRequest) (m : Method) (a : Account)
    → Tried c a.user (by_method l c r m a)
unfolding by_method
by_method-Tried l c r (totp_code code) a = login_totp-Tried l c r code a
by_method-Tried l c r (backup_code code) a = login_backup-Tried l c r (normalized code) a

Tried-unless :
    (c : Settings) (a : Account) (b : Bool) (code : ℕ) (y : Answer × Account)
    → Tried c a.user y
    → Tried c a.user (if b then (http code, a) else y)
Tried-unless c a true code y k = inr (inr (refl, refl, refl))
Tried-unless c a false code y k = k

login_2fa-Tried :
    (l : Libraries) (c : Settings) (r : Login2FaRequest) (a : Account)
    → Tried c a.user (login_2fa l c r a)
unfolding login_2fa
login_2fa-Tried l c r a = Tried-unless c a (not (is_active a.user.status)) 401 _ (
    Tried-unless c a (is_locked_at r.login.now a.user.locked_until) 401 _ (
      Tried-unless c a r.must_enroll 403 _
        (Tried-unless c a (not r.allowed) 429 _ (by_method-Tried l c r.login r.method a))))

-- An account that is not active is not asked for a code.
inactive-http :
    (l : Libraries) (c : Settings) (r : Login2FaRequest) (a : Account)
    → is_active a.user.status ≡ false
    → login_2fa l c r a ≡ (http 401, a)
unfolding login_2fa
inactive-http l c r a h = rw h refl

answers-budget :
    (l : Libraries) (c : Settings) (rs : List Login2FaRequest) (a : Account)
    → Below c a.user
    → count_by is_wrong_code (answers l c rs a) ≤ budget c a.user
unfolding answers
answers-budget l c [] a b = omega arith
answers-budget l c (r ∷ rs) a b = elim (Bool-cases (is_active a.user.status)) [
  | inr e ↦ rw (inactive-http l c r a e) (answers-budget l c rs a b)
  | inl e ↦ elim (login_2fa-Tried l c r a) [
    | inl (wrong, shut, counted, below) ↦
        let rest = answers-budget l c rs (login_2fa l c r a).1 below in
        rw shut (
          rw wrong
            (omega (arith, rest, Below-budget c a.user (login_2fa l c r a).1.user e b counted)))
    | inr (inl (right, let_in)) ↦ rw let_in (rw right (omega arith))
    | inr (inr (right, shut, same)) ↦
        let rest = answers-budget l c rs (login_2fa l c r a).1 (rw same b) in
        rw shut (rw right (rw same at rest))
  ]
]

-- However many codes somebody tries who knows the password of an account, of either kind and at any
-- times, but each answered before the next: until one is let in, no more codes are refused than the
-- threshold of tier 2 leaves, since the last of them locks the account.
pub answers-bounded :
    (l : Libraries) (c : Settings) (rs : List Login2FaRequest) (a : Account)
    → a.user.failed_login_count < c.login_tier2_threshold
    → a.user.failed_login_count + count_by is_wrong_code (answers l c rs a)
      ≤ c.login_tier2_threshold
answers-bounded l c rs a b = elim (Bool-cases (is_active a.user.status)) [
  | inl e ↦ let k = rw e at (answers-budget l c rs a (inl b)) in omega arith
  | inr e ↦ let k = rw e at (answers-budget l c rs a (inl b)) in omega arith
]
