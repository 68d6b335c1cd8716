-- ===== src/Accounts/LastAdmin.antt =====
-- The last active administrator stays.
use sf_bulk_loader.Prelude.{
  ℕ, ◌+◌, ◌<◌, ◌≡◌, refl, true, false, Option, none, some, List, [], ◌∷◌, ◌++◌, count_by-append,
  arith, if◌then◌else◌, Bool-cases, inl, inr, Bool, not,
}
use sf_bulk_loader.Accounts.{
  User, UserStatus, Db, Token, PyChar, find_user, change_user, change_users, is_active_status,
  Response, http,
}
use sf_bulk_loader.Accounts.Admin.{
  Config, get_admin_profile, is_active_admin, count_active_admins, guard_with, guard_last_admin,
  new_user,
}
use sf_bulk_loader.Accounts.Requests.{
  with_display_name, unlocked_status, unlocked, with_status, with_temp_password, with_watermark,
  Request, handle,
}
use sf_bulk_loader.Accounts.Counting.{count_by-change_user}
use sf_bulk_loader.Accounts.Effects.{
  Change, renamed, moved, unlocks, deactivates, reactivates, resets, deletes, marks, Effect,
  nothing, adds, changes, handle-Effect,
}
use sf_bulk_loader.Accounts.Sessions.{is_strong}
use sf_bulk_loader.Accounts.Invitations.{
  activated, activate_found, redeem, accept_invitation, find_token, is_pending,
}

-- `admin` is the profile of administrators, and somebody who has it can log in.
abbrev pub HasAdmin : ℕ → Db → Type 0
HasAdmin admin db =
    (get_admin_profile db.profiles ≡ some admin) × (0 < count_active_admins admin db.users)

pub count-change :
    (admin id : ℕ) (f : User → User) (u : User) (us : List User)
    → find_user id us ≡ some u
    → count_active_admins admin (change_user id f us) + (if is_active_admin admin u then 1 else 0)
      ≡ count_active_admins admin us + (if is_active_admin admin (f u) then 1 else 0)
unfolding count_active_admins
count-change admin id f u us h = count_by-change_user (is_active_admin admin) id f u us h

-- A change that makes no active administrator anything else.
abbrev Spares : (User → User) → Type 0
Spares f =
    (admin : ℕ) (u : User) → is_active_admin admin u ≡ true → is_active_admin admin (f u) ≡ true

spare-HasAdmin :
    (admin id : ℕ) (f : User → User) (u : User) (db : Db)
    → find_user id db.users ≡ some u
    → Spares f
    → HasAdmin admin db
    → HasAdmin admin (change_users id f db)
unfolding change_users
spare-HasAdmin admin id f u db h k a =
    let counted = count-change admin id f u db.users h in
    elim (Bool-cases (is_active_admin admin u)) [
      | inl e ↦ let e' = k admin u e in ground arith
      | inr e ↦ ground arith
    ]

-- Two active administrators, or a target that is none.
free_count :
    (admin : ℕ) (u : User) (us' us : List User) (u' : User)
    → count_active_admins admin us' + (if is_active_admin admin u then 1 else 0)
      ≡ count_active_admins admin us + (if is_active_admin admin u' then 1 else 0)
    → guard_with (some admin) u us ≡ false
    → 0 < count_active_admins admin us
    → 0 < count_active_admins admin us'
unfolding guard_with is_active_admin
free_count admin u us' us u' counted free a = ground arith

-- The guard lets an active administrator go only if there is another.
guard-HasAdmin :
    (admin id : ℕ) (f : User → User) (u : User) (db : Db)
    → find_user id db.users ≡ some u
    → guard_last_admin u db ≡ false
    → HasAdmin admin db
    → HasAdmin admin (change_users id f db)
unfolding change_users guard_last_admin
guard-HasAdmin admin id f u db h k a =
    let counted = count-change admin id f u db.users h in
    let free : guard_with (some admin) u db.users ≡ false = rw a.0 at k in
    (a.0, free_count admin u (change_user id f db.users) db.users (f u) counted free a.1)

name-Spares : (name : Option ℕ) → Spares (with_display_name name)
unfolding with_display_name is_active_admin
name-Spares none admin u h = h
name-Spares (some n) admin u h = h

unlocked-Spares : Spares unlocked
unfolding unlocked unlocked_status is_active_admin
unlocked-Spares admin u h = ground arith

temp_password-Spares : (hash now : ℕ) → Spares (with_temp_password hash now)
unfolding with_temp_password is_active_admin
temp_password-Spares hash now admin u h = h

watermark-Spares : (now : ℕ) → Spares (with_watermark now)
unfolding with_watermark is_active_admin
watermark-Spares now admin u h = h

active-Spares : Spares (with_status UserStatus.active)
unfolding with_status is_active_admin is_active_status
active-Spares admin u h = ground arith

-- Every effect keeps an administrator.
Change-HasAdmin :
    (admin id : ℕ) {db : Db} {u : User} {f : User → User}
    → find_user id db.users ≡ some u
    → Change db u f
    → HasAdmin admin db
    → HasAdmin admin (change_users id f db)
Change-HasAdmin admin id h (renamed name) a = spare-HasAdmin admin id _ _ _ h (name-Spares name) a
Change-HasAdmin admin id h (moved name profile p free found) a =
    guard-HasAdmin admin id _ _ _ h free a
Change-HasAdmin admin id h unlocks a = spare-HasAdmin admin id _ _ _ h unlocked-Spares a
Change-HasAdmin admin id h (deactivates free e) a = guard-HasAdmin admin id _ _ _ h free a
Change-HasAdmin admin id h (reactivates e) a = spare-HasAdmin admin id _ _ _ h active-Spares a
Change-HasAdmin admin id h (resets hash now) a =
    spare-HasAdmin admin id _ _ _ h (temp_password-Spares hash now) a
Change-HasAdmin admin id h (deletes free) a = guard-HasAdmin admin id _ _ _ h free a
Change-HasAdmin admin id h (marks now) a = spare-HasAdmin admin id _ _ _ h (watermark-Spares now) a

added-count :
    (admin : ℕ) (us vs : List User)
    → 0 < count_active_admins admin us
    → 0 < count_active_admins admin (us ++ vs)
unfolding count_active_admins
added-count admin us vs h = omega (arith, count_by-append (is_active_admin admin) us vs)

Effect-HasAdmin : (admin : ℕ) {db db' : Db} → Effect db db' → HasAdmin admin db → HasAdmin admin db'
unfolding change_users
Effect-HasAdmin admin (nothing us ps) a = (rw ps a.0, rw us a.1)
Effect-HasAdmin admin (adds i p found us ps) a =
    (rw ps a.0, rw us (added-count admin _ (new_user i.user_id i.email i.display_name p ∷ []) a.1))
Effect-HasAdmin admin (changes id u f h k us ps) a =
    (rw ps a.0, rw us ((Change-HasAdmin admin id h k a).1))

-- A request of an administrator, or an invitation that somebody accepts.
pub data Call : Type 0 where
  asks : (caller now : ℕ) → Request → Call
  accepts : (now later token_hash : ℕ) → List PyChar → Call

unfoldable pub serve : (List PyChar → ℕ) → ℕ → Config → Call → Db → Db
serve hash_password expiry c (asks caller now r) db = (handle c caller now r db).1
serve hash_password expiry c (accepts now later token_hash password) db =
    (accept_invitation hash_password expiry now later token_hash password db).1

unfoldable pub serve_all : (List PyChar → ℕ) → ℕ → Config → List Call → Db → Db
serve_all hash_password expiry c [] db = db
serve_all hash_password expiry c (call ∷ calls) db =
    serve_all hash_password expiry c calls (serve hash_password expiry c call db)

activated-Spares : (hash now : ℕ) → Spares (activated hash now)
unfolding activated is_active_admin is_active_status
activated-Spares hash now admin u h = ground arith

found-HasAdmin :
    (admin hash expiry now later id : ℕ) (before db : Db) (found : Option User)
    → find_user id db.users ≡ found
    → HasAdmin admin before
    → HasAdmin admin db
    → HasAdmin admin (activate_found hash expiry now later (some id) before db).1
unfolding activate_found
found-HasAdmin admin hash expiry now later id before db none h b a = rw (h, activate_found) b
found-HasAdmin admin hash expiry now later id before db (some u) h b a =
    rw (h, activate_found)
      (spare-HasAdmin admin id (activated hash now) u db h (activated-Spares hash now) a)

owner-HasAdmin :
    (admin hash expiry now later : ℕ) (owner : Option ℕ) (before db : Db)
    → HasAdmin admin before
    → HasAdmin admin db
    → HasAdmin admin (activate_found hash expiry now later owner before db).1
unfolding activate_found
owner-HasAdmin admin hash expiry now later none before db b a = b
owner-HasAdmin admin hash expiry now later (some id) before db b a =
    found-HasAdmin admin hash expiry now later id before db (find_user id db.users) refl b a

redeem-HasAdmin :
    (admin token_hash hash expiry now later : ℕ) (found : Option Token) (db : Db)
    → HasAdmin admin db
    → HasAdmin admin (redeem token_hash hash expiry now later found db).1
unfolding redeem
redeem-HasAdmin admin token_hash hash expiry now later none db a = a
redeem-HasAdmin admin token_hash hash expiry now later (some t) db a =
    owner-HasAdmin admin hash expiry now later t.user_id db _ a a

if-HasAdmin :
    (admin : ℕ) (b : Bool) (x y : Response × Db)
    → HasAdmin admin x.1
    → HasAdmin admin y.1
    → HasAdmin admin (if b then x else y).1
if-HasAdmin admin true x y h k = h
if-HasAdmin admin false x y h k = k

serve-HasAdmin :
    (hash_password : List PyChar → ℕ) (expiry : ℕ) (c : Config) (admin : ℕ) (call : Call) (db : Db)
    → HasAdmin admin db
    → HasAdmin admin (serve hash_password expiry c call db)
unfolding serve accept_invitation
serve-HasAdmin hash_password expiry c admin (asks caller now r) db a =
    Effect-HasAdmin admin (handle-Effect c caller now db r) a
serve-HasAdmin hash_password expiry c admin (accepts now later token_hash password) db a =
    if-HasAdmin admin (not (is_strong password)) (http 422, db) _ a
      (redeem-HasAdmin admin token_hash (hash_password password) expiry now later
        (find_token (is_pending token_hash now) db.invitations) db a)

-- While administrators send any requests and invitations are accepted, each request answered before the
-- next: if there is an active account with the profile of administrators, there always is one.
pub serve_all-HasAdmin :
    (hash_password : List PyChar → ℕ) (expiry : ℕ) (c : Config) (admin : ℕ) (calls : List Call)
    (db : Db)
    → HasAdmin admin db
    → HasAdmin admin (serve_all hash_password expiry c calls db)
unfolding serve_all
serve_all-HasAdmin hash_password expiry c admin [] db a = a
serve_all-HasAdmin hash_password expiry c admin (call ∷ calls) db a =
    serve_all-HasAdmin hash_password expiry c admin calls (serve hash_password expiry c call db)
      (serve-HasAdmin hash_password expiry c admin call db a)
