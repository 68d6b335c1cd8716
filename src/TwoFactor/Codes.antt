-- ===== src/TwoFactor/Codes.antt =====
-- Codes of an authenticator, backend/app/services/totp.py, and backup codes, as
-- backend/app/api/auth_login_2fa.py reads and consumes them.
use sf_bulk_loader.Prelude.{
  ℕ, ◌+◌, ◌-◌, ◌/◌, Bool, true, false, not, ◌&&◌, ◌||◌, Option, none, some, List, [], ◌∷◌, ◌++◌,
  map, leb, ◌==◌, if◌then◌else◌, is_some, length, select, any,
}
use sf_bulk_loader.TwoFactor.{
  CodeChar, Libraries, VerifyResult, malformed, refused, matched, UserBackupCode,
}

abbrev pub totp_period_seconds : ℕ
totp_period_seconds = 30

abbrev pub totp_digits : ℕ
totp_digits = 6

unfoldable pub current_counter : ℕ → ℕ
current_counter now = now / totp_period_seconds

-- `_constant_time_eq`
unfoldable pub same_code : List ℕ → List ℕ → Bool
same_code [] [] = true
same_code (x ∷ xs) (y ∷ ys) = x == y && same_code xs ys
same_code _ _ = false

-- `last_used_counter is not None and step <= last_used_counter`
unfoldable pub is_replay : Option ℕ → ℕ → Bool
is_replay none step = false
is_replay (some last) step = leb step last

-- The steps in their order. At a time of the first period, which has passed, the source starts at -1.
unfoldable pub window : ℕ → List ℕ
window current = (current - 1) ∷ current ∷ (current + 1) ∷ []

unfoldable pub scan : (ℕ → List ℕ) → List ℕ → Option ℕ → List ℕ → VerifyResult
unfolding same_code is_replay
scan code_at cleaned last [] = refused
scan code_at cleaned last (step ∷ steps) =
    let rest = scan code_at cleaned last steps in
    if same_code (code_at step) cleaned
    then (if is_replay last step then refused else matched step)
    else rest

unfoldable pub cleaned_code : List CodeChar → List CodeChar
cleaned_code code = select (λ c. not c.is_space) code

unfoldable pub verify_code : Libraries → ℕ → List CodeChar → Option ℕ → ℕ → VerifyResult
unfolding cleaned_code scan window current_counter
verify_code l secret code last now =
    if not (l.is_base32 secret)
    then malformed
    else if any (λ c. not c.is_digit) (cleaned_code code)
        || not (length (cleaned_code code) == totp_digits)
    then refused
    else scan (l.totp_at secret) (map (λ c. c.point) (cleaned_code code)) last
        (window (current_counter now))

unfoldable pub lstrip : List CodeChar → List CodeChar
lstrip [] = []
lstrip (x ∷ xs) = let rest = lstrip xs in if x.is_space then rest else x ∷ xs

unfoldable pub rstrip_after : CodeChar → List CodeChar → List CodeChar
rstrip_after x [] = if x.is_space then [] else x ∷ []
rstrip_after x (y ∷ ys) = x ∷ y ∷ ys

unfoldable pub rstrip : List CodeChar → List CodeChar
unfolding rstrip_after
rstrip [] = []
rstrip (x ∷ xs) = rstrip_after x (rstrip xs)

abbrev pub dash : ℕ
dash = 45

unfoldable pub uppered : List CodeChar → List ℕ
uppered [] = []
uppered (x ∷ xs) = x.upper ++ uppered xs

-- `code.replace("-", "").upper().strip()`; the upper case of a space is a space.
unfoldable pub normalized : List CodeChar → List ℕ
unfolding lstrip rstrip uppered
normalized code = uppered (rstrip (lstrip (select (λ x. not (x.point == dash)) code)))

unfoldable pub is_unconsumed : UserBackupCode → Bool
is_unconsumed b = not (is_some b.consumed_at)

-- The first unconsumed code that matches.
unfoldable pub find_code : (ℕ → Bool) → List UserBackupCode → Option UserBackupCode
find_code check [] = none
find_code check (b ∷ bs) =
    let rest = find_code check bs in if check b.code_hash then some b else rest

unfoldable pub keep_code :
    UserBackupCode → Option (List UserBackupCode) → Option (List UserBackupCode)
keep_code b none = none
keep_code b (some bs) = some (b ∷ bs)

-- The conditional `UPDATE`; `none` where it changes no row.
unfoldable pub consume_code : ℕ → ℕ → List UserBackupCode → Option (List UserBackupCode)
unfolding is_unconsumed keep_code
consume_code id now [] = none
consume_code id now (b ∷ bs) =
    let rest = consume_code id now bs in
    if b.id == id && is_unconsumed b
    then some (record b { consumed_at = some now } ∷ bs)
    else keep_code b rest
