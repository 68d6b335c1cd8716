-- ===== src/Accounts/Watermark.antt =====
-- Which sessions outlive a change of the password: backend/app/services/auth.py, after
-- backend/app/api/auth_reset.py and backend/app/api/invitations.py.
use sf_bulk_loader.Prelude.{
  ℕ, ◌+◌, ◌<◌, ◌*◌, ◌≡◌, refl, ap, ◌∙◌, inl, inr, Bool, true, false, Option, none, some, List, [],
  ◌∷◌, arith, ltb, ◌==◌, if◌then◌else◌, Bool-cases, Option-cases, is_some, ==_iff, and-true,
}
use sf_bulk_loader.Accounts.{
  User, Payload, Token, Db, done, PyChar, find_user, change_users, is_active_status, is_locked_out,
  timestamp, truncated,
}
use sf_bulk_loader.Accounts.Sessions.{
  Decode, Documented, decode_access_token, create_access_token, is_stale, check_user, user_of,
  get_current_user,
}
use sf_bulk_loader.Accounts.Counting.{head-found, find-change_self}
use sf_bulk_loader.Accounts.Invitations.{find_token}
use sf_bulk_loader.Accounts.Resets.{
  is_active, is_consumable, check_owner, check_token, check_reset, is_unused, kept_before, consume,
  with_password, reset, apply_reset, confirmed, confirm_password_reset,
}

is_stale-truncated :
    (now issued : ℕ)
    → is_stale (some (truncated now)) (some (timestamp issued))
      ≡ ltb (timestamp issued) (timestamp now)
unfolding is_stale truncated
is_stale-truncated now issued = ground arith

find_user-id : (id : ℕ) (u : User) (us : List User) → find_user id us ≡ some u → u.id ≡ id
unfolding find_user
find_user-id id u [] h = ground arith
find_user-id id u (x ∷ us) h = elim (Bool-cases (x.id == id)) [
  | inl e ↦ rw (← head-found x u id us e h) ((==_iff x.id id).0 e)
  | inr e ↦ find_user-id id u us (rw e at h)
]

kept_before-is_some : (x : Token) (o : Option (List Token)) → is_some (kept_before x o) ≡ is_some o
unfolding kept_before
kept_before-is_some x none = refl
kept_before-is_some x (some ts) = refl

-- A token that is found and unused is consumed.
found-consume :
    (p : Token → Bool) (now : ℕ) (t : Token) (ts : List Token)
    → find_token p ts ≡ some t
    → is_some t.used_at ≡ false
    → is_some (consume t.id now ts) ≡ true
unfolding find_token consume kept_before is_unused
found-consume p now t [] h k = ground arith
found-consume p now t (x ∷ ts) h k = elim (Bool-cases (is_unused t.id x)) [
  | inl e ↦ rw e refl
  | inr e ↦ elim (Bool-cases (p x)) [
    | inl q ↦
        let found : some x ≡ some t = rw q at h in
        let same : x ≡ t = cc in
        let unused : is_unused t.id t ≡ false = rw same at e in ground arith
    | inr q ↦
        let rest = found-consume p now t ts (rw q at h) k in
        rw e (rw (kept_before-is_some x (consume t.id now ts)) rest)
  ]
]

check_owner-facts :
    (now : ℕ) (password : List PyChar) (t t' : Token) (u : User) (found : Option User)
    → check_owner now password t found ≡ some (t', u)
    → (t ≡ t') × (found ≡ some u) × (is_active now u ≡ true)
unfolding check_owner
check_owner-facts now password t t' u none h = ground arith
check_owner-facts now password t t' u (some v) h = ground arith

-- What a confirmation that goes on to write has read.
Checked : ℕ → ℕ → Db → Token → User → Type 0
Checked now token_hash db t u =
    (find_token (λ x. x.token_hash == token_hash) db.resets ≡ some t)
    × (is_some t.used_at ≡ false)
    × (t.user_id ≡ some u.id)
    × (find_user u.id db.users ≡ some u)
    × (is_active now u ≡ true)

consumable-unused : (now : ℕ) (t : Token) → is_consumable now t ≡ true → is_some t.used_at ≡ false
unfolding is_consumable
consumable-unused now t h = ground arith

check_owner-Checked :
    (now token_hash id : ℕ) (password : List PyChar) (db : Db) (x t : Token) (u : User)
    → find_token (λ x. x.token_hash == token_hash) db.resets ≡ some x
    → is_consumable now x ≡ true
    → x.user_id ≡ some id
    → check_owner now password x (find_user id db.users) ≡ some (t, u)
    → Checked now token_hash db t u
unfolding Checked is_consumable
check_owner-Checked now token_hash id password db x t u found fresh owner h =
    let (same, user, active) = check_owner-facts now password x t u (find_user id db.users) h in
    let key = find_user-id id u db.users user in
    (
      found ∙ ap some same,
      rw (← same) (consumable-unused now x fresh),
      rw key (rw (← same) owner),
      ap (λ k. find_user k db.users) key ∙ user,
      active,
    )

check_token-Checked :
    (now token_hash : ℕ) (password : List PyChar) (db : Db) (t : Token) (u : User)
    (found : Option Token)
    → find_token (λ x. x.token_hash == token_hash) db.resets ≡ found
    → check_token now password db.users found ≡ some (t, u)
    → Checked now token_hash db t u
unfolding check_token
check_token-Checked now token_hash password db t u none n h = ground arith
check_token-Checked now token_hash password db t u (some x) n h =
    elim (Bool-cases (is_consumable now x)) [
      | inl e ↦ elim (Option-cases x.user_id) [
        | inl o ↦ ground arith
        | inr (id, o) ↦
            check_owner-Checked now token_hash id password db x t u n e o (rw o at (rw e at h))
      ]
      | inr e ↦ ground arith
    ]

check_reset-Checked :
    (now token_hash : ℕ) (password : List PyChar) (db : Db) (t : Token) (u : User)
    → check_reset now token_hash password db ≡ some (t, u)
    → Checked now token_hash db t u
unfolding check_reset
check_reset-Checked now token_hash password db t u h =
    check_token-Checked now token_hash password db t u _ refl h

-- Nothing comes between the check and the writes: they go through.
confirm-found :
    (hash_password : List PyChar → ℕ) (now token_hash : ℕ) (password : List PyChar) (db : Db)
    (t : Token) (u : User)
    → check_reset now token_hash password db ≡ some (t, u)
    → (ts : List Token) × (confirm_password_reset hash_password now token_hash password db
        ≡ (done, reset (hash_password password) now u ts db))
unfolding confirm_password_reset apply_reset confirmed Checked
confirm-found hash_password now token_hash password db t u h =
    let (found, unused, owner, user, active) =
      check_reset-Checked now token_hash password db t u h in
    let some_left = found-consume _ now t db.resets found unused in
    elim (Option-cases (consume t.id now db.resets)) [
      | inl n ↦
          let absurd : is_some {A = List Token} none ≡ true = rw n at some_left in ground arith
      | inr (ts, n) ↦ (ts, rw (h, confirm_password_reset) (rw (n, apply_reset) refl))
    ]

-- Until a token runs out, the library changes nothing, and after that it refuses.
get_current_user-fresh :
    (decode : Decode) (now : ℕ) (db : Db) (p : Payload)
    → Documented decode
    → timestamp now < p.exp
    → get_current_user decode now db (some p) ≡ user_of now db (some p)
unfolding get_current_user decode_access_token
get_current_user-fresh decode now db p d h = ap (user_of now db) (d.fresh now p h)

get_current_user-expired :
    (decode : Decode) (now : ℕ) (db : Db) (p : Payload)
    → Documented decode
    → p.exp < timestamp now
    → get_current_user decode now db (some p) ≡ none
unfolding get_current_user decode_access_token user_of
get_current_user-expired decode now db p d h = ap (user_of now db) (d.expired now p h)

-- The account after a confirmation, to the owner of a token for a session.
reset-session :
    (hash now later expiry issued : ℕ) (u : User) (ts : List Token) (db : Db)
    → find_user u.id db.users ≡ some u
    → is_active_status u.status ≡ true
    → is_locked_out later u.locked_until ≡ false
    → user_of later (reset hash now u ts db) (some (create_access_token u.id expiry issued))
      ≡ (if ltb (timestamp issued) (timestamp now) then none else some (with_password hash now u))
unfolding user_of create_access_token check_user reset change_users with_password
reset-session hash now later expiry issued u ts db h active free =
    rw (find-change_self u.id (with_password hash now) u db.users h refl)
      (rw active (rw free (rw (is_stale-truncated now issued) refl)))

is_active-status : (now : ℕ) (u : User) → is_active now u ≡ true → is_active_status u.status ≡ true
unfolding is_active
is_active-status now u h = (and-true _ _ h).0

-- A confirmation whose checks pass and that nothing interrupts succeeds. With the accounts as it leaves
-- them, and while the account is not locked out, a session that was issued in an earlier second than the
-- confirmation is refused, and one that was issued in the same second or later is accepted until it runs
-- out, and refused after that.
pub confirm_password_reset-sessions :
    (decode : Decode) (hash_password : List PyChar → ℕ) (now token_hash : ℕ)
    (password : List PyChar) (db : Db) (t : Token) (u : User) (later ended expiry issued : ℕ)
    → Documented decode
    → check_reset now token_hash password db ≡ some (t, u)
    → is_locked_out later u.locked_until ≡ false
    → timestamp later < timestamp issued + expiry * 60
    → timestamp issued + expiry * 60 < timestamp ended
    → ((confirm_password_reset hash_password now token_hash password db).0 ≡ done)
      × (get_current_user decode later
            (confirm_password_reset hash_password now token_hash password db).1
            (some (create_access_token u.id expiry issued))
          ≡ (if ltb (timestamp issued) (timestamp now)
              then none
              else some (with_password (hash_password password) now u)))
      × (get_current_user decode ended
            (confirm_password_reset hash_password now token_hash password db).1
            (some (create_access_token u.id expiry issued))
          ≡ none)
unfolding Checked create_access_token
confirm_password_reset-sessions decode hash_password now token_hash password db t u later ended
      expiry issued d h free valid over =
    let (ts, answer) = confirm-found hash_password now token_hash password db t u h in
    let (found, unused, owner, user, active) =
      check_reset-Checked now token_hash password db t u h in
    rw answer (
      refl,
      get_current_user-fresh decode later _ (create_access_token u.id expiry issued) d valid
          ∙ reset-session (hash_password password) now later expiry issued u ts db user
              (is_active-status now u active) free,
      get_current_user-expired decode ended _ (create_access_token u.id expiry issued) d over,
    )
