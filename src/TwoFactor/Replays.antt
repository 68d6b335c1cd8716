-- ===== src/TwoFactor/Replays.antt =====
-- A code of an authenticator is good for one login, `login_2fa` of
-- backend/app/api/auth_login_2fa.py, request after request.
use sf_bulk_loader.Prelude.{
  ℕ, ◌≡◌, ◌⊎◌, refl, ap, inl, inr, Bool, true, false, not, Option, none, some, List, [], ◌∷◌,
  if◌then◌else◌, Option-cases,
}
use sf_bulk_loader.Login.{Settings, LoginRequest, login_success, is_active, is_locked_at}
use sf_bulk_loader.TwoFactor.{
  CodeChar, Libraries, VerifyResult, malformed, refused, matched, UserTotp, UserBackupCode, Account,
  Method, totp_code, backup_code, Login2FaRequest, Answer, granted, http,
}
use sf_bulk_loader.TwoFactor.Codes.{is_replay, verify_code, normalized, consume_code}
use sf_bulk_loader.TwoFactor.Requests.{
  reject_mfa_code, grant, with_counter, after_verify, login_totp, after_consume, after_match,
  login_backup, by_method, login_2fa,
}
use sf_bulk_loader.TwoFactor.Windows.{verify_code-matched}

abbrev pub last_counter : Option UserTotp → Option ℕ
last_counter none = none
last_counter (some t) = t.last_used_counter

-- The step that a request was let in for with a code of an authenticator.
unfoldable pub step_of : Method → Answer → Option UserTotp → Option ℕ
step_of (totp_code code) (granted o) t = last_counter t
step_of _ _ t = none

unfoldable pub steps_of : Libraries → Settings → List Login2FaRequest → Account → List ℕ
unfolding step_of login_2fa
steps_of l c [] a = []
steps_of l c (r ∷ rs) a =
    let res = login_2fa l c r a in
    let rest = steps_of l c rs res.1 in
    elim (step_of r.method res.0 res.1.totp) [ none ↦ rest | some s ↦ s ∷ rest ]

-- Each is later than the one before it, and than `last`.
abbrev pub Increasing : Option ℕ → List ℕ → Type 0
Increasing last [] = Unit
Increasing last (s ∷ ss) = (is_replay last s ≡ false) × Increasing (some s) ss

-- What a request does to the last step that was used.
abbrev Moved : Option UserTotp → Method → Answer × Account → Type 0
Moved t m res =
    ((step_of m res.0 res.1.totp ≡ none) × (last_counter res.1.totp ≡ last_counter t))
    ⊎ ((s : ℕ) × (step_of m res.0 res.1.totp ≡ some s)
        × (last_counter res.1.totp ≡ some s)
        × (is_replay (last_counter t) s ≡ false))

Moved-if :
    (t : Option UserTotp) (m : Method) (b : Bool) (x y : Answer × Account)
    → Moved t m x
    → Moved t m y
    → Moved t m (if b then x else y)
Moved-if t m true x y h k = h
Moved-if t m false x y h k = k

http-Moved :
    (t : Option UserTotp) (m : Method) (code : ℕ) (a : Account)
    → a.totp ≡ t
    → Moved t m (http code, a)
unfolding step_of
http-Moved t (totp_code digits) code a h = inl (refl, ap last_counter h)
http-Moved t (backup_code text) code a h = inl (refl, ap last_counter h)

after_verify-Moved :
    (c : Settings) (r : LoginRequest) (code : List CodeChar) (t : UserTotp) (v : VerifyResult)
    (a : Account)
    → a.totp ≡ some t
    → ((s : ℕ) → v ≡ matched s → is_replay t.last_used_counter s ≡ false)
    → Moved (some t) (totp_code code) (after_verify c r t v a)
unfolding after_verify grant with_counter reject_mfa_code login_success step_of
after_verify-Moved c r code t malformed a h k = inl (refl, ap last_counter h)
after_verify-Moved c r code t refused a h k = inl (refl, ap last_counter h)
after_verify-Moved c r code t (matched s) a h k = inr (s, refl, refl, k s refl)

login_totp-Moved :
    (l : Libraries) (c : Settings) (r : LoginRequest) (code : List CodeChar) (a : Account)
    → Moved a.totp (totp_code code) (login_totp l c r code a)
unfolding login_totp
login_totp-Moved l c r code a = elim (Option-cases a.totp) [
  | inl e ↦ rw (e, login_totp) (http-Moved none (totp_code code) 401 a e)
  | inr (t, e) ↦ elim (Option-cases (l.decrypt_secret t.secret_encrypted)) [
    | inl d ↦ rw (e, login_totp) (rw d (http-Moved (some t) (totp_code code) 500 a e))
    | inr (secret, d) ↦
        rw (e, login_totp)
          (rw d (
            after_verify-Moved c r code t (verify_code l secret code t.last_used_counter r.now) a e
              (λ s h. (verify_code-matched l secret code t.last_used_counter r.now s h).4)))
  ]
]

-- No backup code moves the last step.
after_match-totp :
    (c : Settings) (r : LoginRequest) (found : Option UserBackupCode) (a : Account)
    → (after_match c r found a).1.totp ≡ a.totp
unfolding after_match after_consume reject_mfa_code grant login_success
after_match-totp c r none a = refl
after_match-totp c r (some b) a = elim (Option-cases (consume_code b.id r.now a.backup_codes)) [
  | inl e ↦ rw (e, after_consume) refl
  | inr (bs, e) ↦ rw (e, after_consume) refl
]

login_backup-totp :
    (l : Libraries) (c : Settings) (r : LoginRequest) (text : List ℕ) (a : Account)
    → (login_backup l c r text a).1.totp ≡ a.totp
unfolding login_backup reject_mfa_code
login_backup-totp l c r [] a = refl
login_backup-totp l c r (x ∷ xs) a = after_match-totp c r _ a

by_method-Moved :
    (l : Libraries) (c : Settings) (r : LoginRequest) (m : Method) (a : Account)
    → Moved a.totp m (by_method l c r m a)
unfolding by_method step_of
by_method-Moved l c r (totp_code code) a = login_totp-Moved l c r code a
by_method-Moved l c r (backup_code code) a =
    inl (refl, ap last_counter (login_backup-totp l c r (normalized code) a))

login_2fa-Moved :
    (l : Libraries) (c : Settings) (r : Login2FaRequest) (a : Account)
    → Moved a.totp r.method (login_2fa l c r a)
unfolding login_2fa
login_2fa-Moved l c r a =
    let still = λ (code : ℕ). http-Moved a.totp r.method code a refl in
    Moved-if a.totp r.method (not (is_active a.user.status)) (http 401, a) _ (still 401)
      (Moved-if a.totp r.method (is_locked_at r.login.now a.user.locked_until) (http 401, a) _
        (still 401)
        (Moved-if a.totp r.method r.must_enroll (http 403, a) _ (still 403)
          (Moved-if a.totp r.method (not r.allowed) (http 429, a) _ (still 429)
            (by_method-Moved l c r.login r.method a))))

-- Of requests that come one after the other, each that is let in with a code of an authenticator has
-- one of a later step than those before it: no code of a step is good for two logins.
pub steps_of-Increasing :
    (l : Libraries) (c : Settings) (rs : List Login2FaRequest) (a : Account)
    → Increasing (last_counter a.totp) (steps_of l c rs a)
unfolding steps_of
steps_of-Increasing l c [] a = tt
steps_of-Increasing l c (r ∷ rs) a =
    let res = login_2fa l c r a in
    let rest = steps_of-Increasing l c rs res.1 in
    elim (login_2fa-Moved l c r a) [
      | inl (no_step, kept) ↦ rw (no_step, steps_of) (rw kept at rest)
      | inr (s, step, now_last, fresh) ↦ rw (step, steps_of) (fresh, rw now_last at rest)
    ]
