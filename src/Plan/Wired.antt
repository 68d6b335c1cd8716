-- ===== src/Plan/Wired.antt =====
-- The well-formedness of the stored steps, and how the changes of a table keep it.
use sf_bulk_loader.Prelude.{
  ℕ, ◌<◌, ◌≡◌, refl, sym, inl, inr, ◌==◌, true, false, Option, none, some, List, [], ◌∷◌, ◌++◌,
  arith, All, Bool-cases,
}
use sf_bulk_loader.Job.{Uuid}
use sf_bulk_loader.Plan.{is_query, LoadStep, Database, find_step}
use sf_bulk_loader.Plan.Validators.{validate_step}
use sf_bulk_loader.Plan.References.{reference_ok, validate_step_input_reference}

-- A step with this plan and sequence may read the output of the step `ref`.
pub record Links (steps : List LoadStep) (plan_id : Uuid) (sequence : ℕ) (ref : Uuid) : Type 0 where
  pub referenced : LoadStep
  pub found : find_step ref steps ≡ some referenced
  pub same_plan : referenced.load_plan_id ≡ plan_id
  pub query : is_query referenced.operation ≡ true
  pub earlier : referenced.sequence < sequence

abbrev pub Reference : List LoadStep → Uuid → ℕ → Option Uuid → Type 0
Reference steps plan_id sequence none = Unit
Reference steps plan_id sequence (some ref) = Links steps plan_id sequence ref

abbrev pub Linked : List LoadStep → LoadStep → Type 0
Linked steps s = Reference steps s.load_plan_id s.sequence s.input_from_step_id

abbrev pub IsShaped : LoadStep → Type 0
IsShaped s = validate_step s ≡ true

-- Every row passes the validators of the schema, and reads at most from a query step of its own plan
-- that has a smaller sequence number.
pub record IsWired (db : Database) : Type 0 where
  pub shaped : All IsShaped db.steps
  pub linked : All (Linked db.steps) db.steps

pub find_step-id :
    (ref : Uuid) (steps : List LoadStep) (u : LoadStep) → find_step ref steps ≡ some u → u.id ≡ ref
unfolding find_step
find_step-id ref [] u e = ground arith
find_step-id ref (s ∷ steps) u e = ground (arith, find_step-id ref steps u)

pub find_step-All :
    (P : LoadStep → Type 0) (ref : Uuid) (steps : List LoadStep) (u : LoadStep)
    → find_step ref steps ≡ some u
    → All P steps
    → P u
unfolding find_step
find_step-All P ref [] u e a = ground arith
find_step-All P ref (s ∷ steps) u e a = elim (Bool-cases (s.id == ref)) [
  | inl h ↦ rw (sym (some-injective s u (rw h at e))) a.0
  | inr h ↦ find_step-All P ref steps u (rw h at e) a.1
]
  where
    some-injective : (a b : LoadStep) → some a ≡ some b → a ≡ b
    some-injective a b h = ground arith

pub find_step-append :
    (ref : Uuid) (steps more : List LoadStep) (u : LoadStep)
    → find_step ref steps ≡ some u
    → find_step ref (steps ++ more) ≡ some u
unfolding find_step
find_step-append ref [] more u e = ground arith
find_step-append ref (s ∷ steps) more u e = ground (arith, find_step-append ref steps more u)

-- A reference survives a change of the table under which each row found stays found, with its plan,
-- its place in the order and a query.
pub Reference-along :
    (steps steps' : List LoadStep) (plan_id : Uuid) (n n' : ℕ) (r : Option Uuid)
    → ((ref : Uuid) (u : LoadStep)
        → r ≡ some ref
        → find_step ref steps ≡ some u
        → u.load_plan_id ≡ plan_id
        → is_query u.operation ≡ true
        → u.sequence < n
        → Links steps' plan_id n' ref)
    → Reference steps plan_id n r
    → Reference steps' plan_id n' r
Reference-along steps steps' plan_id n n' none keep l = tt
Reference-along steps steps' plan_id n n' (some ref) keep l =
    keep ref l.referenced refl l.found l.same_plan l.query l.earlier

-- What the check of a reference has found.
pub reference_ok-Links :
    (steps : List LoadStep) (plan_id : Uuid) (n : ℕ) (ref : Uuid) (o : Option LoadStep)
    → find_step ref steps ≡ o
    → reference_ok plan_id o (some n) ≡ true
    → Links steps plan_id n ref
unfolding reference_ok
reference_ok-Links steps plan_id n ref none e h = ground arith
reference_ok-Links steps plan_id n ref (some u) e h = record {
  referenced = u;
  found = e;
  same_plan = ground arith;
  query = ground arith;
  earlier = ground arith;
}

pub validated-Reference :
    (steps : List LoadStep) (plan_id : Uuid) (n : ℕ) (own : Option Uuid) (r : Option Uuid)
    → validate_step_input_reference steps plan_id r (some n) own ≡ true
    → Reference steps plan_id n r
unfolding validate_step_input_reference
validated-Reference steps plan_id n own none h = tt
validated-Reference steps plan_id n own (some ref) h =
    reference_ok-Links steps plan_id n ref (find_step ref steps) refl (ground arith)

-- The check refuses a step's reference to itself.
pub validated-other :
    (steps : List LoadStep) (plan_id : Uuid) (n : Option ℕ) (own ref : Uuid)
    → validate_step_input_reference steps plan_id (some ref) n (some own) ≡ true
    → (own == ref) ≡ false
unfolding validate_step_input_reference
validated-other steps plan_id n own ref h = ground arith
