-- ===== src/Accounts/Effects.antt =====
-- What the requests of administrators can do to the table of users, as a relation of two databases.
use sf_bulk_loader.Prelude.{
  ℕ, ◌≡◌, refl, Bool, true, false, not, Option, none, some, [], ◌∷◌, ◌++◌, ◌==◌, any, holds,
  if◌then◌else◌,
}
use sf_bulk_loader.Accounts.{
  User, UserStatus, Profile, Db, Response, done, http, find_user, change_user, change_users,
  find_profile, is_active_status, is_deleted_status,
}
use sf_bulk_loader.Accounts.Admin.{Config, guard_last_admin, new_user}
use sf_bulk_loader.Accounts.Requests.{
  Invite, invite_with, invite_user, with_display_name, with_profile, reprofile, update_found,
  update_user, unlocked, admin_unlock_user, with_status, deactivate_user, is_deactivated_status,
  reactivate_user, with_temp_password, admin_reset_password, is_invited_status, resend_invite,
  delete_user, with_watermark, admin_reset_2fa_of, Request, invite, update, unlock, deactivate,
  reactivate, reset_password, resend, delete, reset_2fa, handle,
}
use sf_bulk_loader.Accounts.Counting.{on_user-keeps}

-- A change of the user `u`, and what was checked before it.
pub data Change (db : Db) (u : User) : (User → User) → Type 0 where
  renamed : (name : Option ℕ) → Change db u (with_display_name name)
  moved :
      (name : Option ℕ) (profile : ℕ) (p : Profile)
      → guard_last_admin u db ≡ false
      → find_profile profile db.profiles ≡ some p
      → Change db u (λ x. with_display_name name (with_profile p x))
  unlocks : Change db u unlocked
  deactivates :
      guard_last_admin u db ≡ false
      → not (is_active_status u.status) ≡ false
      → Change db u (with_status UserStatus.deactivated)
  reactivates :
      not (is_deactivated_status u.status) ≡ false → Change db u (with_status UserStatus.active)
  resets : (hash now : ℕ) → Change db u (with_temp_password hash now)
  deletes : guard_last_admin u db ≡ false → Change db u (with_status UserStatus.deleted)
  marks : (now : ℕ) → Change db u (with_watermark now)

pub data Effect (db db' : Db) : Type 0 where
  nothing : db'.users ≡ db.users → db'.profiles ≡ db.profiles → Effect db db'
  adds :
      (i : Invite) (p : Profile)
      → find_profile i.profile_id db.profiles ≡ some p
      → db'.users ≡ db.users ++ new_user i.user_id i.email i.display_name p ∷ []
      → db'.profiles ≡ db.profiles
      → Effect db db'
  changes :
      (id : ℕ) (u : User) (f : User → User)
      → find_user id db.users ≡ some u
      → Change db u f
      → db'.users ≡ change_user id f db.users
      → db'.profiles ≡ db.profiles
      → Effect db db'

abbrev same : {db : Db} → Effect db db
same = nothing refl refl

-- The effect of a response, in a branch.
Effect-if :
    (db : Db) (b : Bool) (x y : Response × Db)
    → (b ≡ true → Effect db x.1)
    → (b ≡ false → Effect db y.1)
    → Effect db (if b then x else y).1
Effect-if db true x y h k = h refl
Effect-if db false x y h k = k refl

module _ (c : Config) (caller now : ℕ) (db : Db) where
  change :
      (id : ℕ) (f : User → User) (u : User)
      → find_user id db.users ≡ some u
      → Change db u f
      → Effect db (change_users id f db)
  unfolding change_users
  change id f u h k = changes id u f h k refl refl

  -- A handler that first checks something.
  checked :
      (b : Bool) (code : ℕ) (y : Response × Db)
      → (b ≡ false → Effect db y.1)
      → Effect db (if b then (http code, db) else y).1
  checked b code y k = Effect-if db b (http code, db) y (λ e. same) k

  invited-Effect :
      (i : Invite) (found : Option Profile)
      → find_profile i.profile_id db.profiles ≡ found
      → Effect db (invite_with c now i found db).1
  unfolding invite_with
  invited-Effect i none h = same
  invited-Effect i (some p) h = adds i p h refl refl

  reprofile-Effect :
      (id : ℕ) (name : Option ℕ) (profile : ℕ) (found : Option Profile) (u : User)
      → find_profile profile db.profiles ≡ found
      → find_user id db.users ≡ some u
      → Effect db (reprofile id name found u db).1
  unfolding reprofile
  reprofile-Effect id name profile none u p h =
      checked (guard_last_admin u db) 409 (http 422, db) (λ e. same)
  reprofile-Effect id name profile (some found) u p h =
      checked (guard_last_admin u db) 409 _ (λ free.
        change id (λ x. with_display_name name (with_profile found x)) u h
          (moved name profile found free p))

  update-Effect : (id : ℕ) (profile name : Option ℕ) → Effect db (update_user id profile name db).1
  unfolding update_user update_found
  update-Effect id none name =
      on_user-keeps (Effect db) id db (λ u. update_found id none name u db) same
        (λ u h. change id (with_display_name name) u h (renamed name))
  update-Effect id (some profile) name =
      on_user-keeps (Effect db) id db (λ u. update_found id (some profile) name u db) same
        (λ u h.
          Effect-if db (holds u.profile_id profile) _ _
            (λ e. change id (with_display_name name) u h (renamed name))
            (λ e. reprofile-Effect id name profile (find_profile profile db.profiles) u refl h))

  unlock-Effect : (id : ℕ) → Effect db (admin_unlock_user caller id db).1
  unfolding admin_unlock_user
  unlock-Effect id = checked (id == caller) 400 _ (λ e.
      on_user-keeps (Effect db) id db _ same (λ u h. changes id u unlocked h unlocks refl refl))

  deactivate-Effect : (id : ℕ) → Effect db (deactivate_user id db).1
  unfolding deactivate_user
  deactivate-Effect id = on_user-keeps (Effect db) id db _ same (λ u h.
      checked (not (is_active_status u.status)) 409 _ (λ e.
        checked (guard_last_admin u db) 409 _
          (λ free. change id (with_status UserStatus.deactivated) u h (deactivates free e))))

  reactivate-Effect : (id : ℕ) → Effect db (reactivate_user id db).1
  unfolding reactivate_user
  reactivate-Effect id = on_user-keeps (Effect db) id db _ same (λ u h.
      checked (not (is_deactivated_status u.status)) 409 _
        (λ e. change id (with_status UserStatus.active) u h (reactivates e)))

  reset_password-Effect : (id hash : ℕ) → Effect db (admin_reset_password id hash now db).1
  unfolding admin_reset_password
  reset_password-Effect id hash = on_user-keeps (Effect db) id db _ same (λ u h.
      checked (is_deleted_status u.status) 409 _
        (λ e. change id (with_temp_password hash now) u h (resets hash now)))

  resend-Effect : (id token_id hash : ℕ) → Effect db (resend_invite c id token_id hash now db).1
  unfolding resend_invite
  resend-Effect id token_id hash =
      on_user-keeps (Effect db) id db _ same
        (λ u h. checked (not (is_invited_status u.status)) 409 _ (λ e. nothing refl refl))

  delete-Effect : (id : ℕ) → Effect db (delete_user c caller id db).1
  unfolding delete_user
  delete-Effect id = on_user-keeps (Effect db) id db _ same (λ u h.
      checked (u.id == caller) 400 _ (λ e. checked (holds c.admin_email u.email) 409 _ (λ e.
        Effect-if db (is_deleted_status u.status) (done, db) _ (λ e. same)
          (λ e.
            checked (guard_last_admin u db) 409 _
              (λ free. change id (with_status UserStatus.deleted) u h (deletes free))))))

  reset_2fa-Effect : (id : ℕ) → Effect db (admin_reset_2fa_of id now db).1
  unfolding admin_reset_2fa_of
  reset_2fa-Effect id =
      on_user-keeps (Effect db) id db _ same
        (λ u h. changes id u (with_watermark now) h (marks now) refl refl)

  pub handle-Effect : (r : Request) → Effect db (handle c caller now r db).1
  unfolding handle invite_user
  handle-Effect (invite i) =
      checked (any (λ u. u.email == i.email) db.users) 409 _
        (λ e. invited-Effect i (find_profile i.profile_id db.profiles) refl)
  handle-Effect (update id profile name) = update-Effect id profile name
  handle-Effect (unlock id) = unlock-Effect id
  handle-Effect (deactivate id) = deactivate-Effect id
  handle-Effect (reactivate id) = reactivate-Effect id
  handle-Effect (reset_password id hash) = reset_password-Effect id hash
  handle-Effect (resend id token_id hash) = resend-Effect id token_id hash
  handle-Effect (delete id) = delete-Effect id
  handle-Effect (reset_2fa id) = reset_2fa-Effect id
