-- ===== src/Login/Guesses.antt =====
-- How many passwords can be tried.
use sf_bulk_loader.Prelude.{
  ℕ, suc, ◌+◌, ◌≤◌, ◌<◌, ◌≡◌, refl, ◌∙◌, ◌⊎◌, ◌&&◌, inl, inr, Bool, true, false, List, [], ◌∷◌, leb,
  if◌then◌else◌, ◌-◌, count_by, arith, All, Bool-cases,
}
use sf_bulk_loader.Login.{
  UserStatus, Outcome, wrong_password, User, Settings, is_active, is_failed, recent, is_locked_at,
  repeated_locks, tier1_lock, tier1_check, handle_failed_attempt, persist, LoginRequest, is_barred,
  is_locked, login, login_all,
}

-- An attempt whose password was compared and found wrong.
abbrev pub is_wrong : Outcome → Bool
is_wrong wrong_password = true
is_wrong _ = false

-- The account may still try, and has not reached the threshold; or it may not.
abbrev pub Below : Settings → User → Type 0
Below c u = (u.failed_login_count < c.login_tier2_threshold) ⊎ (is_active u.status ≡ false)

-- What the checks after the count may do to an account: they keep the count, and activate no one.
record Keeps (u u' : User) : Type 0 where
  count : u'.failed_login_count ≡ u.failed_login_count
  inactive : is_active u.status ≡ false → is_active u'.status ≡ false

repeated_locks-Keeps : (c : Settings) (now : ℕ) (u : User) → Keeps u (repeated_locks c now u)
unfolding repeated_locks is_active
repeated_locks-Keeps c now u = record { count = ground arith; inactive = λ h. ground arith }

Keeps-trans : {u v w : User} → Keeps u v → Keeps v w → Keeps u w
Keeps-trans k l = record { count = l.count ∙ k.count; inactive = λ h. l.inactive (k.inactive h) }

tier1_check-Keeps : (c : Settings) (now : ℕ) (u : User) → Keeps u (tier1_check c now u)
unfolding tier1_check tier1_lock
tier1_check-Keeps c now u =
    elim (Bool-cases
      (leb c.login_tier1_threshold (recent is_failed now c.login_tier1_window u.attempts))) [
        | inr e ↦ rw e (record { count = refl; inactive = λ h. h })
        | inl e ↦ elim (Bool-cases (is_locked_at now u.locked_until)) [
          | inl f ↦ rw (e, f) (record { count = refl; inactive = λ h. h })
          | inr f ↦
              rw (e, f)
                (Keeps-trans {u = u} {v = tier1_lock c now u}
                  (record { count = refl; inactive = λ h. h })
                  (repeated_locks-Keeps c now (tier1_lock c now u)))
        ]
      ]

-- A failed attempt counts one, and takes the account to the threshold only by locking it.
pub failed-Below :
    (c : Settings) (now : ℕ) (u : User)
    → ((handle_failed_attempt c now u).failed_login_count ≡ u.failed_login_count + 1)
      × Below c (handle_failed_attempt c now u)
unfolding handle_failed_attempt is_active
failed-Below c now u =
    let counted = record u { failed_login_count = u.failed_login_count + 1 } in
    let k = tier1_check-Keeps c now counted in
    elim (Bool-cases
      (leb c.login_tier2_threshold (u.failed_login_count + 1) && is_active u.status)) [
        | inl e ↦ rw e (refl, inr refl)
        | inr e ↦ rw e (k.count, still c counted (tier1_check c now counted) k e)
      ]
  where
    still :
        (c : Settings) (u u' : User)
        → Keeps u u'
        → (leb c.login_tier2_threshold u.failed_login_count && is_active u.status) ≡ false
        → Below c u'
    still c u u' k e = elim (Bool-cases (is_active u.status)) [
      | inr h ↦ inr (k.inactive h)
      | inl h ↦ inl (ground (arith, k.count))
    ]

-- A request with a wrong password: the password was compared, on an active account, or the account
-- keeps its status and its count.
abbrev Missed : Settings → User → Outcome × User → Type 0
Missed c u r =
    ((is_wrong r.0 ≡ true)
      × (is_active u.status ≡ true)
      × (r.1.failed_login_count ≡ u.failed_login_count + 1)
      × Below c r.1)
    ⊎ ((is_wrong r.0 ≡ false)
        × (r.1.failed_login_count ≡ u.failed_login_count)
        × (r.1.status ≡ u.status))

open_account : (st : UserStatus) → is_locked st ≡ false → is_barred st ≡ false → is_active st ≡ true
unfolding is_locked is_barred is_active
open_account st h k = ground arith

login-Missed :
    (c : Settings) (r : LoginRequest) (u : User) → r.password_ok ≡ false → Missed c u (login c r u)
unfolding login persist
login-Missed c r u h = elim (Bool-cases r.allowed_ip) [
  | inr e ↦ rw e (inr (refl, refl, refl))
  | inl e ↦ elim (Bool-cases (is_locked_at r.now u.locked_until)) [
    | inl f ↦ rw (e, f) (inr (refl, refl, refl))
    | inr f ↦ elim (Bool-cases (is_locked u.status)) [
      | inl g ↦ rw (e, f, g) (inr (refl, refl, refl))
      | inr g ↦ elim (Bool-cases (is_barred u.status)) [
        | inl b ↦ rw (e, f, g, b) (inr (refl, refl, refl))
        | inr b ↦
            let (counted, below) = failed-Below c r.now (persist wrong_password r.now u) in
            rw (e, f, g, b, h) (inl (refl, open_account u.status g b, counted, below))
      ]
    ]
  ]
]

-- How many more passwords an account lets one try.
abbrev pub budget : Settings → User → ℕ
budget c u = if is_active u.status then c.login_tier2_threshold - u.failed_login_count else 0

pub Below-budget :
    (c : Settings) (u u' : User)
    → is_active u.status ≡ true
    → Below c u
    → u'.failed_login_count ≡ u.failed_login_count + 1
    → suc (budget c u') ≤ budget c u
Below-budget c u u' a b h = rw a (elim (Bool-cases (is_active u'.status)) [
  | inl e ↦ rw (e, h) (ground arith)
  | inr e ↦ rw e (ground arith)
])

pub same-budget :
    (c : Settings) (u u' : User)
    → u'.failed_login_count ≡ u.failed_login_count
    → u'.status ≡ u.status
    → Below c u
    → (budget c u' ≡ budget c u) × Below c u'
same-budget c u u' n s b = (rw (n, s) refl, rw (n, s) b)

guesses-budget :
    (c : Settings) (rs : List LoginRequest) (u : User)
    → All (λ r. r.password_ok ≡ false) rs
    → Below c u
    → count_by is_wrong (login_all c rs u).0 ≤ budget c u
unfolding login_all
guesses-budget c [] u h b = omega arith
guesses-budget c (r ∷ rs) u (wrong, h) b =
    let res = login c r u in
    let rest = guesses-budget c rs res.1 h in
    elim (login-Missed c r u wrong) [
      | inl missed ↦
          let (is, act, counted, below) = missed in
          rw is (omega (arith, rest below, Below-budget c u res.1 act b counted))
      | inr kept ↦
          let (is, counted, same) = kept in
          let (spent, below) = same-budget c u res.1 counted same b in
          rw is (omega (arith, rest below, spent))
    ]

-- However many requests with wrong passwords come for an account, at any times, but each answered before
-- the next: of an account that has not reached the threshold of tier 2, no more passwords are compared
-- than the threshold leaves, since the last of them locks it.
pub guesses-bounded :
    (c : Settings) (rs : List LoginRequest) (u : User)
    → All (λ r. r.password_ok ≡ false) rs
    → u.failed_login_count < c.login_tier2_threshold
    → u.failed_login_count + count_by is_wrong (login_all c rs u).0 ≤ c.login_tier2_threshold
guesses-bounded c rs u h b = elim (Bool-cases (is_active u.status)) [
  | inl e ↦ let k = rw e at (guesses-budget c rs u h (inl b)) in omega arith
  | inr e ↦ let k = rw e at (guesses-budget c rs u h (inl b)) in omega arith
]
