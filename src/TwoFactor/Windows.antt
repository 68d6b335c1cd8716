-- ===== src/TwoFactor/Windows.antt =====
-- Which codes of an authenticator are accepted: `verify_code` of backend/app/services/totp.py.
use sf_bulk_loader.Prelude.{
  ℕ, ◌+◌, ◌≤◌, ◌≡◌, refl, ap, ◌∙◌, inl, inr, true, false, not, ◌||◌, Option, List, [], ◌∷◌, ◌++◌,
  map, arith, ◌==◌, if◌then◌else◌, Bool-cases, length, All, any, ==_iff, and-true, or-false,
  not-true,
}
use sf_bulk_loader.TwoFactor.{CodeChar, Libraries, refused, matched}
use sf_bulk_loader.TwoFactor.Codes.{
  current_counter, same_code, is_replay, window, scan, cleaned_code, verify_code, totp_digits,
}

same_code-eq : (xs ys : List ℕ) → same_code xs ys ≡ true → xs ≡ ys
unfolding same_code
same_code-eq [] [] h = refl
same_code-eq [] (y ∷ ys) h = ground arith
same_code-eq (x ∷ xs) [] h = ground arith
same_code-eq (x ∷ xs) (y ∷ ys) h =
    let both = and-true (x == y) (same_code xs ys) h in
    let head = (==_iff x y).0 both.0 in
    let tail = same_code-eq xs ys both.1 in rw head (rw tail refl)

scan_sound :
    (P : ℕ → Type 0) (code_at : ℕ → List ℕ) (digits : List ℕ) (last : Option ℕ) (steps : List ℕ)
    (s : ℕ)
    → All P steps
    → scan code_at digits last steps ≡ matched s
    → P s × (code_at s ≡ digits) × (is_replay last s ≡ false)
unfolding scan
scan_sound P code_at digits last [] s all h = ground arith
scan_sound P code_at digits last (x ∷ xs) s all h =
    elim (Bool-cases (same_code (code_at x) digits)) [
      | inl e ↦ elim (Bool-cases (is_replay last x)) [
        | inl r ↦ ground arith
        | inr r ↦
            let found : matched x ≡ matched s = rw r at (rw e at h) in
            let same : x ≡ s = cc in rw (← same) (all.0, same_code-eq _ _ e, r)
      ]
      | inr e ↦ scan_sound P code_at digits last xs s all.1 (rw e at h)
    ]

scan_complete :
    (code_at : ℕ → List ℕ) (digits : List ℕ) (last : Option ℕ) (before after : List ℕ) (s : ℕ)
    → All (λ x. same_code (code_at x) digits ≡ false) before
    → same_code (code_at s) digits ≡ true
    → scan code_at digits last (before ++ s ∷ after)
      ≡ (if is_replay last s then refused else matched s)
unfolding scan
scan_complete code_at digits last [] after s none_before h = rw h refl
scan_complete code_at digits last (x ∷ xs) after s none_before h =
    rw none_before.0 (scan_complete code_at digits last xs after s none_before.1 h)

same_code_refl : (xs : List ℕ) → same_code xs xs ≡ true
unfolding same_code
same_code_refl [] = refl
same_code_refl (x ∷ xs) = rw ((==_iff x x).1 refl) (same_code_refl xs)

-- The digits that are compared, where the string is a code.
abbrev pub digits_of : List CodeChar → List ℕ
digits_of code = map (λ c. c.point) (cleaned_code code)

-- Six digits, whatever white space stands between them.
pub IsWellFormed : List CodeChar → Type 0
IsWellFormed code =
    (any (λ c. not c.is_digit) (cleaned_code code) ≡ false)
    × (length (cleaned_code code) ≡ totp_digits)

abbrev Near : ℕ → ℕ → Type 0
Near current s = (current ≤ s + 1) × (s ≤ current + 1)

window-Near : (current : ℕ) → All (Near current) (window current)
unfolding window
window-Near current =
    ((omega arith, omega arith), ((omega arith, omega arith), ((omega arith, omega arith), tt)))

-- A code that is accepted for a step is the code of that step, the step is the current one or next to
-- it, and it is later than the last one that was used.
pub verify_code-matched :
    (l : Libraries) (secret : ℕ) (code : List CodeChar) (last : Option ℕ) (now s : ℕ)
    → verify_code l secret code last now ≡ matched s
    → (l.totp_at secret s ≡ digits_of code)
      × IsWellFormed code
      × (current_counter now ≤ s + 1)
      × (s ≤ current_counter now + 1)
      × (is_replay last s ≡ false)
unfolding verify_code IsWellFormed
verify_code-matched l secret code last now s h = elim (Bool-cases (l.is_base32 secret)) [
  | inr e ↦ ground arith
  | inl e ↦
      elim (Bool-cases (
        any (λ c. not c.is_digit) (cleaned_code code)
        || not (length (cleaned_code code) == totp_digits))) [
          | inl bad ↦ ground arith
          | inr good ↦
              let (parts, sized) = or-false _ _ good in
              let size = (==_iff (length (cleaned_code code)) totp_digits).0 (not-true _ sized) in
              let scanned : scan (l.totp_at secret) (digits_of code) last
                    (window (current_counter now))
                  ≡ matched s =
                rw good at (rw e at h) in
              let ((low, high), same, fresh) =
                scan_sound (Near (current_counter now)) (l.totp_at secret) (digits_of code) last
                  (window (current_counter now)) s (window-Near (current_counter now)) scanned in
              (same, (parts, size), low, high, fresh)
        ]
]

-- A well-formed code of a step next to the current one is accepted, where no earlier of the steps has
-- the same code, unless the step is not later than the last one that was used.
pub verify_code-accepts :
    (l : Libraries) (secret : ℕ) (code : List CodeChar) (last : Option ℕ) (now s : ℕ)
    (before after : List ℕ)
    → l.is_base32 secret ≡ true
    → IsWellFormed code
    → window (current_counter now) ≡ before ++ s ∷ after
    → All (λ x. same_code (l.totp_at secret x) (digits_of code) ≡ false) before
    → l.totp_at secret s ≡ digits_of code
    → verify_code l secret code last now ≡ (if is_replay last s then refused else matched s)
unfolding verify_code IsWellFormed
verify_code-accepts l secret code last now s before after base formed split none_before h =
    let short : not (length (cleaned_code code) == totp_digits) ≡ false =
      rw ((==_iff (length (cleaned_code code)) totp_digits).1 formed.1) refl in
    let same : same_code (l.totp_at secret s) (digits_of code) ≡ true =
      rw h (same_code_refl (digits_of code)) in
    rw base (
      rw formed.0 (
        rw short (
          ap (scan (l.totp_at secret) (digits_of code) last) split
          ∙ scan_complete (l.totp_at secret) (digits_of code) last before after s none_before
              same)))
