-- ===== src/Accounts/Races.antt =====
-- Confirmations of password resets that run at the same time, backend/app/api/auth_reset.py: each reads
-- and checks in one step and writes in another, and between the two others run, other resets are asked
-- for, and users change.
use sf_bulk_loader.Prelude.{ℕ, ◌≡◌, Bool, Option, none, some, List, ◌∷◌, ◌++◌, ◌==◌, count_by}
use sf_bulk_loader.Accounts.{User, Token, Db, PyChar}
use sf_bulk_loader.Accounts.Resets.{add_reset, check_reset, apply_reset}

-- A confirmation that has read and checked, and has yet to write.
pub record Confirm : Type 0 where
  pub hash : ℕ
  pub now : ℕ
  pub token : Token
  pub user : User

-- `successes` are the identifiers of the tokens that a confirmation was answered with success for.
pub record World : Type 0 where
  pub db : Db
  pub under_way : List Confirm
  pub successes : List ℕ

unfoldable pub written : Confirm → List Confirm → Option Db → World → World
written c rest none w = record w { under_way = rest }
written c rest (some db) w = record w {
  db = db;
  under_way = rest;
  successes = c.token.id ∷ w.successes;
}

unfoldable pub finish : Confirm → List Confirm → World → World
unfolding written apply_reset
finish c rest w = written c rest (apply_reset c.hash c.now (c.token, c.user) w.db) w

unfoldable pub has_id : ℕ → Token → Bool
has_id id t = t.id == id

-- The identifier of a new token is that of no other.
pub data Step : World → World → Type 0 where
  asks :
      (w : World) (token_id token_hash ttl now : ℕ) (u : User)
      → count_by (has_id token_id) w.db.resets ≡ 0
      → Step w (record w { db = add_reset token_id token_hash ttl now u w.db })
  reads :
      (w : World) (hash_password : List PyChar → ℕ) (now token_hash : ℕ) (password : List PyChar)
      (t : Token) (u : User)
      → check_reset now token_hash password w.db ≡ some (t, u)
      → Step w (record w {
        under_way =
            record { hash = hash_password password; now = now; token = t; user = u } ∷ w.under_way;
      })
  writes :
      (w : World) (c : Confirm) (before after : List Confirm)
      → w.under_way ≡ before ++ c ∷ after
      → Step w (finish c (before ++ after) w)
  moves : (w : World) (us : List User) → Step w (record w { db = record w.db { users = us } })

pub data Steps : World → World → Type 0 where
  stays : (w : World) → Steps w w
  steps : {w w' w'' : World} → Step w w' → Steps w' w'' → Steps w w''
