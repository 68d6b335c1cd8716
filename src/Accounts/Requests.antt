-- ===== src/Accounts/Requests.antt =====
-- The handlers of backend/app/api/admin_users.py that change something, and the type of their requests.
use sf_bulk_loader.Prelude.{
  ℕ, Bool, true, false, not, Option, none, some, [], ◌∷◌, ◌++◌, ◌==◌, holds, any, select,
  if◌then◌else◌,
}
use sf_bulk_loader.Accounts.{
  User, UserStatus, Profile, Db, admin_unlock, admin_reset_2fa, Response, done, http, change_users,
  find_profile, is_active_status, is_deleted_status,
}
use sf_bulk_loader.Accounts.Admin.{
  Config, guard_last_admin, on_user, new_user, new_invitation, add_invitation,
}

pub record Invite : Type 0 where
  pub email : ℕ
  pub display_name : Option ℕ
  pub profile_id : ℕ
  pub user_id : ℕ
  pub token_id : ℕ
  pub token_hash : ℕ

unfoldable pub invite_with : Config → ℕ → Invite → Option Profile → Db → Response × Db
unfolding new_user new_invitation add_invitation
invite_with c now i none db = (http 422, db)
invite_with c now i (some profile) db = (
  done,
  add_invitation (new_invitation c i.token_id i.token_hash i.user_id now)
      (record db { users = db.users ++ new_user i.user_id i.email i.display_name profile ∷ [] }),
)

unfoldable pub invite_user : Config → ℕ → Invite → Db → Response × Db
unfolding invite_with find_profile
invite_user c now i db =
    if any (λ u. u.email == i.email) db.users
    then (http 409, db)
    else invite_with c now i (find_profile i.profile_id db.profiles) db

unfoldable pub with_display_name : Option ℕ → User → User
with_display_name none u = u
with_display_name (some name) u = record u { display_name = some name }

unfoldable pub with_profile : Profile → User → User
with_profile p u = record u { profile_id = some p.id; is_admin = p.is_admin_profile }

unfoldable pub reprofile : ℕ → Option ℕ → Option Profile → User → Db → Response × Db
unfolding guard_last_admin change_users with_profile with_display_name
reprofile id display_name found u db =
    if guard_last_admin u db then (http 409, db) else elim found [
      | none ↦ (http 422, db)
      | some p ↦ (done, change_users id (λ x. with_display_name display_name (with_profile p x)) db)
    ]

unfoldable pub update_found : ℕ → Option ℕ → Option ℕ → User → Db → Response × Db
unfolding reprofile change_users with_display_name find_profile
update_found id none display_name u db = (done, change_users id (with_display_name display_name) db)
update_found id (some profile) display_name u db =
    if holds u.profile_id profile
    then (done, change_users id (with_display_name display_name) db)
    else reprofile id display_name (find_profile profile db.profiles) u db

-- The body names a profile, a display name, or both.
unfoldable pub update_user : ℕ → Option ℕ → Option ℕ → Db → Response × Db
unfolding update_found on_user
update_user id profile_id display_name db =
    on_user id db (λ u. update_found id profile_id display_name u db)

unfoldable pub unlocked_status : UserStatus → UserStatus
unlocked_status UserStatus.locked = UserStatus.active
unlocked_status st = st

unfoldable pub unlocked : User → User
unfolding unlocked_status
unlocked u = record u {
  locked_until = none;
  failed_login_count = 0;
  status = unlocked_status u.status;
}

unfoldable pub admin_unlock_user : ℕ → ℕ → Db → Response × Db
unfolding on_user unlocked change_users
admin_unlock_user caller id db =
    if id == caller
    then (http 400, db)
    else on_user id db (λ u.
      (done, record (change_users id unlocked db) { audit = (id, admin_unlock) ∷ db.audit }))

unfoldable pub with_status : UserStatus → User → User
with_status st u = record u { status = st }

unfoldable pub deactivate_user : ℕ → Db → Response × Db
unfolding on_user guard_last_admin change_users with_status is_active_status
deactivate_user id db = on_user id db (λ u.
    if not (is_active_status u.status)
    then (http 409, db)
    else if guard_last_admin u db
    then (http 409, db)
    else (done, change_users id (with_status UserStatus.deactivated) db))

unfoldable pub is_deactivated_status : UserStatus → Bool
is_deactivated_status UserStatus.deactivated = true
is_deactivated_status _ = false

unfoldable pub reactivate_user : ℕ → Db → Response × Db
unfolding on_user change_users with_status is_deactivated_status
reactivate_user id db = on_user id db (λ u.
    if not (is_deactivated_status u.status)
    then (http 409, db)
    else (done, change_users id (with_status UserStatus.active) db))

unfoldable pub with_temp_password : ℕ → ℕ → User → User
with_temp_password hash now u = record u {
  hashed_password = some hash;
  must_reset_password = true;
  password_changed_at = some now;
}

unfoldable pub admin_reset_password : ℕ → ℕ → ℕ → Db → Response × Db
unfolding on_user change_users with_temp_password is_deleted_status
admin_reset_password id hash now db = on_user id db (λ u.
    if is_deleted_status u.status
    then (http 409, db)
    else (done, change_users id (with_temp_password hash now) db))

unfoldable pub is_invited_status : UserStatus → Bool
is_invited_status UserStatus.invited = true
is_invited_status _ = false

unfoldable pub resend_invite : Config → ℕ → ℕ → ℕ → ℕ → Db → Response × Db
unfolding on_user new_invitation add_invitation is_invited_status
resend_invite c id token_id hash now db = on_user id db (λ u.
    if not (is_invited_status u.status)
    then (http 409, db)
    else (done, add_invitation (new_invitation c token_id hash id now) db))

unfoldable pub delete_user : Config → ℕ → ℕ → Db → Response × Db
unfolding on_user guard_last_admin change_users with_status is_deleted_status
delete_user c caller id db = on_user id db (λ u.
    if u.id == caller
    then (http 400, db)
    else if holds c.admin_email u.email
    then (http 409, db)
    else if is_deleted_status u.status
    then (done, db)
    else if guard_last_admin u db
    then (http 409, db)
    else (done, change_users id (with_status UserStatus.deleted) db))

unfoldable pub with_watermark : ℕ → User → User
with_watermark now u = record u { password_changed_at = some now }

unfoldable pub admin_reset_2fa_of : ℕ → ℕ → Db → Response × Db
unfolding on_user change_users with_watermark
admin_reset_2fa_of id now db = on_user id db (λ u. (
  done,
  record (change_users id (with_watermark now) db) {
    totp = select (λ x. not (x == id)) db.totp;
    backup_codes = select (λ x. not (x == id)) db.backup_codes;
    audit = (id, admin_reset_2fa) ∷ db.audit;
  },
))

-- A request, with its caller and its time.
pub data Request : Type 0 where
  invite : Invite → Request
  update : ℕ → Option ℕ → Option ℕ → Request
  unlock : ℕ → Request
  deactivate : ℕ → Request
  reactivate : ℕ → Request
  reset_password : ℕ → ℕ → Request
  resend : ℕ → ℕ → ℕ → Request
  delete : ℕ → Request
  reset_2fa : ℕ → Request

unfoldable pub handle : Config → ℕ → ℕ → Request → Db → Response × Db
unfolding invite_user update_user admin_unlock_user deactivate_user reactivate_user
    admin_reset_password resend_invite delete_user admin_reset_2fa_of
handle c caller now (invite i) db = invite_user c now i db
handle c caller now (update id profile name) db = update_user id profile name db
handle c caller now (unlock id) db = admin_unlock_user caller id db
handle c caller now (deactivate id) db = deactivate_user id db
handle c caller now (reactivate id) db = reactivate_user id db
handle c caller now (reset_password id hash) db = admin_reset_password id hash now db
handle c caller now (resend id token_id hash) db = resend_invite c id token_id hash now db
handle c caller now (delete id) db = delete_user c caller id db
handle c caller now (reset_2fa id) db = admin_reset_2fa_of id now db
