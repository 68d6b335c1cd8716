-- ===== src/TwoFactor/Doubles.antt =====
-- Two requests with one backup code that have both read it before either consumes it:
-- backend/app/api/auth_login_2fa.py.
use sf_bulk_loader.Prelude.{
  ℕ, suc, ◌+◌, ◌≤◌, ◌≡◌, refl, ◌∙◌, inl, inr, Bool, false, ◌&&◌, none, some, List, [], ◌∷◌, arith,
  ◌==◌, Bool-cases, Option-cases, count_by,
}
use sf_bulk_loader.Login.{Settings, LoginRequest, Outcome, login_success}
use sf_bulk_loader.TwoFactor.{UserBackupCode, Account, granted, wrong_code}
use sf_bulk_loader.TwoFactor.Codes.{is_unconsumed, consume_code, keep_code}
use sf_bulk_loader.TwoFactor.Requests.{reject_mfa_code, grant, after_consume, after_match}

-- The row that the conditional `UPDATE` of the code `id` looks for.
unfoldable pub is_open : ℕ → UserBackupCode → Bool
unfolding is_unconsumed
is_open id b = b.id == id && is_unconsumed b

consume_code-none :
    (id now : ℕ) (bs : List UserBackupCode)
    → count_by (is_open id) bs ≡ 0
    → consume_code id now bs ≡ none
unfolding consume_code is_open keep_code
consume_code-none id now [] h = refl
consume_code-none id now (b ∷ bs) h = elim (Bool-cases (is_open id b)) [
  | inl e ↦ let absurd : suc (count_by (is_open id) bs) ≡ 0 = rw e at h in ground arith
  | inr e ↦ let rest = consume_code-none id now bs (rw e at h) in rw e (rw rest refl)
]

is_open-consumed :
    (id now : ℕ) (b : UserBackupCode) → is_open id (record b { consumed_at = some now }) ≡ false
unfolding is_open
is_open-consumed id now b = ground arith

consume_code-counts :
    (id now : ℕ) (bs bs' : List UserBackupCode)
    → consume_code id now bs ≡ some bs'
    → count_by (is_open id) bs' + 1 ≡ count_by (is_open id) bs
unfolding consume_code is_open keep_code
consume_code-counts id now [] bs' h = ground arith
consume_code-counts id now (b ∷ bs) bs' h = elim (Bool-cases (is_open id b)) [
  | inl e ↦
      let found : some (record b { consumed_at = some now } ∷ bs) ≡ some bs' = rw e at h in
      let same : record b { consumed_at = some now } ∷ bs ≡ bs' = cc in
      rw (← same) (rw e (rw (is_open-consumed id now b) (omega arith)))
  | inr e ↦ elim (Option-cases (consume_code id now bs)) [
    | inl n ↦ let failed : none ≡ some bs' = rw (n, keep_code) at (rw e at h) in ground arith
    | inr (cs, n) ↦
        let found : some (b ∷ cs) ≡ some bs' = rw (n, keep_code) at (rw e at h) in
        let same : b ∷ cs ≡ bs' = cc in
        let rest = consume_code-counts id now bs cs n in rw (← same) (rw e rest)
  ]
]

-- Two requests have both found the backup code `b`, whose row no other row shares the identifier of
-- while unconsumed. If the first to write is let in, the second is not, whatever else has happened to
-- the account in between.
pub after_match-once :
    (c : Settings) (r r' : LoginRequest) (b : UserBackupCode) (a a' : Account) (o : Outcome)
    → count_by (is_open b.id) a.backup_codes ≤ 1
    → (after_match c r (some b) a).0 ≡ granted o
    → a'.backup_codes ≡ (after_match c r (some b) a).1.backup_codes
    → (after_match c r' (some b) a').0 ≡ wrong_code
unfolding after_match after_consume reject_mfa_code grant login_success
after_match-once c r r' b a a' o one let_in after =
    elim (Option-cases (consume_code b.id r.now a.backup_codes)) [
      | inl n ↦
          let refused : wrong_code ≡ granted o = rw (n, after_consume) at let_in in ground arith
      | inr (bs, n) ↦
          let left : a'.backup_codes ≡ bs = after ∙ rw (n, after_consume) refl in
          let counted = consume_code-counts b.id r.now a.backup_codes bs n in
          rw left (
            rw (consume_code-none b.id r'.now bs (omega (arith, one, counted)), after_consume) refl)
    ]
