-- ===== src/Accounts/Counting.antt =====
-- Tables of users under the change of one row.
use sf_bulk_loader.Prelude.{
  ℕ, ◌+◌, ◌≡◌, refl, inl, inr, Bool, true, some, List, [], ◌∷◌, arith, ◌==◌, if◌then◌else◌,
  Bool-cases, Option-cases, All, count_by, count_by-cons,
}
use sf_bulk_loader.Accounts.{User, Db, Response, find_user, change_user}
use sf_bulk_loader.Accounts.Admin.{on_user}

pub head-found :
    (x u : User) (id : ℕ) (us : List User)
    → (x.id == id) ≡ true
    → find_user id (x ∷ us) ≡ some u
    → x ≡ u
unfolding find_user
head-found x u id us e h = let q : some x ≡ some u = rw e at h in cc

pub find-change_self :
    (id : ℕ) (f : User → User) (u : User) (us : List User)
    → find_user id us ≡ some u
    → (f u).id ≡ u.id
    → find_user id (change_user id f us) ≡ some (f u)
unfolding find_user change_user
find-change_self id f u [] h k = ground arith
find-change_self id f u (x ∷ us) h k = elim (Bool-cases (x.id == id)) [
  | inl e ↦
      let same : x ≡ u = head-found x u id us e h in
      let key : ((f u).id == id) ≡ true = rw k (rw (← same) e) in rw e (rw same (rw key refl))
  | inr e ↦ rw e (rw e (find-change_self id f u us (rw e at h) k))
]

-- Only the row that is found changes in a count.
pub count_by-change_user :
    (p : User → Bool) (id : ℕ) (f : User → User) (u : User) (us : List User)
    → find_user id us ≡ some u
    → count_by p (change_user id f us) + (if p u then 1 else 0)
      ≡ count_by p us + (if p (f u) then 1 else 0)
unfolding find_user change_user
count_by-change_user p id f u [] h = ground arith
count_by-change_user p id f u (x ∷ us) h = elim (Bool-cases (x.id == id)) [
  | inl e ↦
      let same : x ≡ u = head-found x u id us e h in
      rw e (rw same (omega (arith, count_by-cons p (f u) us, count_by-cons p u us)))
  | inr e ↦
      let rest = count_by-change_user p id f u us (rw e at h) in
      rw e (omega (arith, rest, count_by-cons p x (change_user id f us), count_by-cons p x us))
]

pub All-change_user {ℓ} :
    (P : User → Type ℓ) (id : ℕ) (f : User → User) (u : User) (us : List User)
    → find_user id us ≡ some u
    → (P u → P (f u))
    → All P us
    → All P (change_user id f us)
unfolding find_user change_user
All-change_user P id f u [] h k all = tt
All-change_user P id f u (x ∷ us) h k all = elim (Bool-cases (x.id == id)) [
  | inl e ↦
      let same : x ≡ u = head-found x u id us e h in rw e (rw same (k (rw (← same) all.0)), all.1)
  | inr e ↦ rw e (all.0, All-change_user P id f u us (rw e at h) k all.1)
]

-- A handler that starts with the search of a user.
pub on_user-keeps {ℓ} :
    (P : Db → Type ℓ) (id : ℕ) (db : Db) (handler : User → Response × Db)
    → P db
    → ((u : User) → find_user id db.users ≡ some u → P (handler u).1)
    → P (on_user id db handler).1
unfolding on_user
on_user-keeps P id db handler old new = elim (Option-cases (find_user id db.users)) [
  | inl e ↦ rw (e, on_user) old
  | inr (u, e) ↦ rw (e, on_user) (new u e)
]
