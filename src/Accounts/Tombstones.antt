-- ===== src/Accounts/Tombstones.antt =====
-- A deleted account under the requests of administrators, and an invitation that is accepted late.
use sf_bulk_loader.Prelude.{
  ℕ, ◌≡◌, refl, sym, ap, ◌∙◌, inl, inr, true, false, none, some, List, [], ◌∷◌, ◌++◌, arith, ◌==◌,
  if◌then◌else◌, Bool-cases, ==_iff,
}
use sf_bulk_loader.Accounts.{
  User, UserStatus, Token, Db, session, PyChar, find_user, change_user, change_users,
  is_active_status,
}
use sf_bulk_loader.Accounts.Admin.{Config}
use sf_bulk_loader.Accounts.Requests.{
  Request, handle, with_display_name, with_profile, unlocked, unlocked_status, with_status,
  is_deactivated_status, with_temp_password, with_watermark,
}
use sf_bulk_loader.Accounts.Sessions.{create_access_token, is_strong}
use sf_bulk_loader.Accounts.Effects.{
  Change, renamed, moved, unlocks, deactivates, reactivates, resets, deletes, marks, Effect,
  nothing, adds, changes, handle-Effect,
}
use sf_bulk_loader.Accounts.Counting.{find-change_self}
use sf_bulk_loader.Accounts.Invitations.{
  is_pending, find_token, activated, activate, activate_found, redeem, accept_invitation,
}

-- The account that `id` finds was deleted.
abbrev pub IsDeleted : ℕ → Db → Type 0
IsDeleted id db = (u : User) × (find_user id db.users ≡ some u) × (u.status ≡ UserStatus.deleted)

find-change_other :
    (id j : ℕ) (f : User → User) (us : List User)
    → (id == j) ≡ false
    → ((u : User) → (f u).id ≡ u.id)
    → find_user j (change_user id f us) ≡ find_user j us
unfolding find_user change_user
find-change_other id j f [] d k = refl
find-change_other id j f (x ∷ us) d k = elim (Bool-cases (x.id == id)) [
  | inl e ↦
      let same : x.id ≡ id = (==_iff x.id id).0 e in
      let kept : ((f x).id == j) ≡ false = rw (k x) (rw same d) in
      let head : (x.id == j) ≡ false = rw same d in rw e (rw kept (rw head refl))
  | inr e ↦ rw e (ap (λ r. if x.id == j then some x else r) (find-change_other id j f us d k))
]

find-append :
    (id : ℕ) (u : User) (us vs : List User)
    → find_user id us ≡ some u
    → find_user id (us ++ vs) ≡ some u
unfolding find_user
find-append id u [] vs h = ground arith
find-append id u (x ∷ us) vs h = elim (Bool-cases (x.id == id)) [
  | inl e ↦ rw e (rw e at h)
  | inr e ↦ rw e (find-append id u us vs (rw e at h))
]

-- No change of a deleted account is a change of its status or of its identifier.
Change-deleted :
    {db : Db} {u : User} {f : User → User}
    → Change db u f
    → u.status ≡ UserStatus.deleted
    → (f u).status ≡ UserStatus.deleted
unfolding with_display_name with_profile unlocked unlocked_status with_status is_active_status
    is_deactivated_status with_temp_password with_watermark
Change-deleted (renamed none) s = s
Change-deleted (renamed (some n)) s = s
Change-deleted (moved none profile p free found) s = s
Change-deleted (moved (some n) profile p free found) s = s
Change-deleted unlocks s = ground arith
Change-deleted (deactivates free e) s = ground arith
Change-deleted (reactivates e) s = ground arith
Change-deleted (resets hash now) s = s
Change-deleted (deletes free) s = refl
Change-deleted (marks now) s = s

Change-id : {db : Db} {u : User} {f : User → User} → Change db u f → (x : User) → (f x).id ≡ x.id
unfolding with_display_name with_profile unlocked with_status with_temp_password with_watermark
Change-id (renamed none) x = refl
Change-id (renamed (some n)) x = refl
Change-id (moved none profile p free found) x = refl
Change-id (moved (some n) profile p free found) x = refl
Change-id unlocks x = refl
Change-id (deactivates free e) x = refl
Change-id (reactivates e) x = refl
Change-id (resets hash now) x = refl
Change-id (deletes free) x = refl
Change-id (marks now) x = refl

Effect-IsDeleted : (id : ℕ) {db db' : Db} → Effect db db' → IsDeleted id db → IsDeleted id db'
Effect-IsDeleted id (nothing us ps) (u, h, s) = (u, rw us h, s)
Effect-IsDeleted id (adds i p found us ps) (u, h, s) = (u, rw us (find-append id u _ _ h), s)
Effect-IsDeleted id (changes j v f found k us ps) (u, h, s) = elim (Bool-cases (j == id)) [
  | inl e ↦
      let same : j ≡ id = (==_iff j id).0 e in
      let both : some v ≡ some u = sym (rw (← same) found) ∙ h in
      let named : v ≡ u = cc in
      let found' : find_user id (change_user j f _) ≡ some (f v) =
        rw same (find-change_self id f v _ (rw same at found) (Change-id k v)) in
      (f v, rw us found', Change-deleted k (rw named s))
  | inr e ↦ (u, rw us (find-change_other j id f _ e (Change-id k) ∙ h), s)
]

-- Whatever administrators ask for, a deleted account stays deleted.
pub handle-IsDeleted :
    (c : Config) (caller now id : ℕ) (r : Request) (db : Db)
    → IsDeleted id db
    → IsDeleted id (handle c caller now r db).1
handle-IsDeleted c caller now id r db = Effect-IsDeleted id (handle-Effect c caller now db r)

-- An invitation that was not used and has not run out lets in whoever holds it, with the password of
-- their choice, whatever has become of the account: a locked, deactivated or deleted account is active
-- again.
pub accept_invitation-revives :
    (hash_password : List PyChar → ℕ) (expiry now later token_hash : ℕ) (password : List PyChar)
    (db : Db) (t : Token) (id : ℕ) (u : User)
    → is_strong password ≡ true
    → find_token (is_pending token_hash now) db.invitations ≡ some t
    → t.user_id ≡ some id
    → find_user id db.users ≡ some u
    → ((accept_invitation hash_password expiry now later token_hash password db).0
        ≡ session (create_access_token id expiry later))
      × (find_user id
            (accept_invitation hash_password expiry now later token_hash password db).1.users
          ≡ some (activated (hash_password password) now u))
unfolding accept_invitation redeem activate_found activate change_users activated
accept_invitation-revives hash_password expiry now later token_hash password db t id u strong
      pending owner found =
    let f = activated (hash_password password) now in
    rw strong (
      rw pending
        (rw owner (rw (found, activate_found) (refl, find-change_self id f u db.users found refl))))
