-- ===== src/Accounts/Admin.antt =====
-- The requests of backend/app/api/admin_users.py that change something. The caller has passed
-- `require_permission`; the rate of requests, mails and metrics are left out. New identifiers and the
-- hashes of new tokens and passwords are arguments.
use sf_bulk_loader.Prelude.{
  ℕ, ◌+◌, ◌*◌, Bool, false, not, ◌&&◌, Option, none, some, List, [], ◌∷◌, leb, holds, count_by,
  if◌then◌else◌,
}
use sf_bulk_loader.Accounts.{
  User, UserStatus, Profile, Token, Db, Response, http, find_user, is_active_status, second,
}

pub record Config : Type 0 where
  -- `settings.admin_email`
  pub admin_email : Option ℕ
  pub invitation_ttl_hours : ℕ

-- `_get_admin_profile`
unfoldable pub get_admin_profile : List Profile → Option ℕ
get_admin_profile [] = none
get_admin_profile (p ∷ ps) = if p.is_admin_profile then some p.id else get_admin_profile ps

unfoldable pub is_active_admin : ℕ → User → Bool
unfolding is_active_status
is_active_admin admin u = holds u.profile_id admin && is_active_status u.status

unfoldable pub count_active_admins : ℕ → List User → ℕ
unfolding is_active_admin
count_active_admins admin users = count_by (is_active_admin admin) users

-- `_guard_last_admin`: whether it raises.
unfoldable pub guard_with : Option ℕ → User → List User → Bool
unfolding count_active_admins is_active_status
guard_with none target users = false
guard_with (some admin) target users =
    if not (holds target.profile_id admin)
    then false
    else if not (is_active_status target.status)
    then false
    else leb (count_active_admins admin users) 1

unfoldable pub guard_last_admin : User → Db → Bool
unfolding guard_with get_admin_profile
guard_last_admin target db = guard_with (get_admin_profile db.profiles) target db.users

-- A handler that starts with `_get_user_or_404`.
unfoldable pub on_user : ℕ → Db → (User → Response × Db) → Response × Db
on_user id db handler = elim (find_user id db.users) [ none ↦ (http 404, db) | some u ↦ handler u ]

unfoldable pub new_user : ℕ → ℕ → Option ℕ → Profile → User
new_user id email display_name profile = record {
  id = id;
  email = email;
  display_name = display_name;
  hashed_password = none;
  status = UserStatus.invited;
  locked_until = none;
  failed_login_count = 0;
  must_reset_password = false;
  is_admin = profile.is_admin_profile;
  profile_id = some profile.id;
  password_changed_at = none;
  last_login_at = none;
}

unfoldable pub new_invitation : Config → ℕ → ℕ → ℕ → ℕ → Token
new_invitation c token_id hash user_id now = record {
  id = token_id;
  user_id = some user_id;
  token_hash = hash;
  expires_at = now + c.invitation_ttl_hours * 3600 * second;
  used_at = none;
}

unfoldable pub add_invitation : Token → Db → Db
add_invitation t db = record db { invitations = t ∷ db.invitations }
