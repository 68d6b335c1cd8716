-- ===== src/Accounts/Overlaps.antt =====
-- Two requests of backend/app/api/admin_users.py that deactivate accounts at the same time: each checks
-- in one step, and writes and commits in another.
use sf_bulk_loader.Prelude.{
  ℕ, ◌+◌, ◌≡◌, refl, ◌∙◌, inl, inr, Bool, true, false, not, ◌&&◌, none, some, List, [], ◌∷◌, arith,
  leb, ◌==◌, if◌then◌else◌, Bool-cases, Option-cases, ==_iff,
}
use sf_bulk_loader.Accounts.{
  User, UserStatus, Db, find_user, change_user, change_users, is_active_status,
}
use sf_bulk_loader.Accounts.Admin.{
  get_admin_profile, is_active_admin, count_active_admins, guard_with, guard_last_admin, on_user,
}
use sf_bulk_loader.Accounts.LastAdmin.{count-change}
use sf_bulk_loader.Accounts.Requests.{with_status, deactivate_user}

unfoldable pub may_deactivate : User → Db → Bool
unfolding is_active_status guard_last_admin
may_deactivate u db = is_active_status u.status && not (guard_last_admin u db)

-- The row, its status, and the guard of the last administrator; none of them is locked.
unfoldable pub check_deactivate : ℕ → Db → Bool
unfolding find_user may_deactivate
check_deactivate id db = elim (find_user id db.users) [
  | none ↦ false
  | some u ↦ may_deactivate u db
]

unfoldable pub write_deactivate : ℕ → Db → Db
unfolding change_users with_status
write_deactivate id db = change_users id (with_status UserStatus.deactivated) db

-- The handler is the check and, if it passes, the write.
pub deactivate_user-split :
    (id : ℕ) (db : Db)
    → (deactivate_user id db).1 ≡ (if check_deactivate id db then write_deactivate id db else db)
unfolding deactivate_user on_user check_deactivate may_deactivate write_deactivate
deactivate_user-split id db = elim (Option-cases (find_user id db.users)) [
  | inl e ↦ rw (e, on_user) (rw (e, check_deactivate) refl)
  | inr (u, e) ↦ elim (Bool-cases (is_active_status u.status)) [
    | inr s ↦ rw (e, on_user) (rw (e, check_deactivate) (rw s refl))
    | inl s ↦ elim (Bool-cases (guard_last_admin u db)) [
      | inl g ↦ rw (e, on_user) (rw (e, check_deactivate) (rw (s, g) refl))
      | inr g ↦ rw (e, on_user) (rw (e, check_deactivate) (rw (s, g) refl))
    ]
  ]
]

with_status-id : (u : User) → (with_status UserStatus.deactivated u).id ≡ u.id
unfolding with_status
with_status-id u = refl

find-change_other :
    (id other : ℕ) (f : User → User) (us : List User)
    → ((u : User) → (f u).id ≡ u.id)
    → (id == other) ≡ false
    → find_user other (change_user id f us) ≡ find_user other us
unfolding find_user change_user
find-change_other id other f [] k h = refl
find-change_other id other f (u ∷ us) k h = elim (Bool-cases (u.id == id)) [
  | inl e ↦
      let here : (u.id == other) ≡ false = rw ((==_iff u.id id).0 e) h in
      rw e (rw (k u) (rw here refl))
  | inr e ↦ rw e (rw (find-change_other id other f us k h) refl)
]

-- One active administrator fewer.
write-count :
    (admin id n : ℕ) (u : User) (db : Db)
    → find_user id db.users ≡ some u
    → is_active_admin admin u ≡ true
    → count_active_admins admin db.users ≡ n + 1
    → count_active_admins admin (write_deactivate id db).users ≡ n
unfolding write_deactivate change_users with_status is_active_admin is_active_status
write-count admin id n u db found active two =
    let counted = count-change admin id (with_status UserStatus.deactivated) u db.users found in
    ground arith

-- The check of an active administrator tells whether there is another.
check_admin :
    (admin id : ℕ) (u : User) (db : Db)
    → get_admin_profile db.profiles ≡ some admin
    → find_user id db.users ≡ some u
    → is_active_admin admin u ≡ true
    → check_deactivate id db ≡ not (leb (count_active_admins admin db.users) 1)
unfolding check_deactivate may_deactivate guard_last_admin guard_with is_active_admin
check_admin admin id u db profile found active =
    rw (found, check_deactivate) (rw (profile, guard_with) (ground arith))

write-found :
    (a b : ℕ) (v : User) (db : Db)
    → find_user b db.users ≡ some v
    → (a == b) ≡ false
    → find_user b (write_deactivate a db).users ≡ some v
unfolding write_deactivate change_users
write-found a b v db found apart =
    find-change_other a b (with_status UserStatus.deactivated) db.users with_status-id apart ∙ found

-- Let there be just two accounts that are active administrators. Either of them may be deactivated, and
-- once one is, a request to deactivate the other is refused. But of two requests that both check before
-- either writes, both are accepted, and they leave no active administrator.
pub deactivate-loses_admins :
    (admin a b : ℕ) (u v : User) (db : Db)
    → get_admin_profile db.profiles ≡ some admin
    → find_user a db.users ≡ some u
    → find_user b db.users ≡ some v
    → (a == b) ≡ false
    → is_active_admin admin u ≡ true
    → is_active_admin admin v ≡ true
    → count_active_admins admin db.users ≡ 2
    → (check_deactivate a db ≡ true)
      × (check_deactivate b db ≡ true)
      × (check_deactivate b (write_deactivate a db) ≡ false)
      × (count_active_admins admin (write_deactivate b (write_deactivate a db)).users ≡ 0)
unfolding write_deactivate
deactivate-loses_admins admin a b u v db profile first second apart is_u is_v two =
    let one = write-count admin a 1 u db first is_u two in
    let there = write-found a b v db second apart in
    (
      rw (check_admin admin a u db profile first is_u) (rw two refl),
      rw (check_admin admin b v db profile second is_v) (rw two refl),
      rw (check_admin admin b v (write_deactivate a db) profile there is_v) (rw one refl),
      write-count admin b 0 v (write_deactivate a db) there is_v one,
    )
