-- ===== src/Plan/Patches.antt =====
-- Updating a step: it keeps the table well formed if no other step reads its output, and may break it
-- otherwise, since the handler checks only the reference of the step itself.
use sf_bulk_loader.Prelude.{
  ℕ, ◌≡◌, refl, sym, inl, inr, ◌==◌, true, false, Option, none, some, List, [], ◌∷◌, arith, All,
  All-map, All-zip, Bool-cases, ==-flip, holds,
}
use sf_bulk_loader.Job.{Uuid}
use sf_bulk_loader.Plan.{LoadStep, Database, ok, find_step}
use sf_bulk_loader.Plan.Validators.{
  validate_step, validate_query_dml_fields, validate_input_source_exclusivity,
}
use sf_bulk_loader.Plan.References.{validate_step_input_reference}
use sf_bulk_loader.Plan.Requests.{
  LoadStepUpdate, effective, required, with_required, apply_patch, replace_step, commit_step,
  update_found, update_step, get_step, step_of_plan,
}
use sf_bulk_loader.Plan.Wired.{
  Reference, Linked, IsShaped, IsWired, Reference-along, find_step-id, validated-Reference,
  validated-other,
}
use sf_bulk_loader.Plan.Growth.{Unreferenced}

-- What an accepted update has checked of the row that it stores.
record Updated (s s' : LoadStep) (db db' : Database) : Type 0 where
  same_id : s'.id ≡ s.id
  same_plan : s'.load_plan_id ≡ s.load_plan_id
  shape : IsShaped s'
  link :
      validate_step_input_reference db.steps s'.load_plan_id s'.input_from_step_id
        (some s'.sequence)
        (some s'.id)
      ≡ true
  result : db' ≡ record db { steps = replace_step s' db.steps }

apply_patch-fields :
    (u : LoadStepUpdate) (s s' : LoadStep)
    → apply_patch u s ≡ some s'
    → (s'.id ≡ s.id)
      × (s'.load_plan_id ≡ s.load_plan_id)
      × (effective u.operation (some s.operation) ≡ some s'.operation)
      × (effective u.sequence (some s.sequence) ≡ some s'.sequence)
      × (effective u.soql s.soql ≡ s'.soql)
      × (effective u.csv_file_pattern s.csv_file_pattern ≡ s'.csv_file_pattern)
      × (effective u.input_connection_id s.input_connection_id ≡ s'.input_connection_id)
      × (effective u.input_from_step_id s.input_from_step_id ≡ s'.input_from_step_id)
unfolding apply_patch with_required required effective
apply_patch-fields u s s' e = ground arith

record Checked (u : LoadStepUpdate) (s : LoadStep) (db db' : Database) : Type 0 where
  fields_ok :
      validate_query_dml_fields
        (effective u.operation (some s.operation))
        (effective u.soql s.soql)
        (effective u.csv_file_pattern s.csv_file_pattern)
        (effective u.input_from_step_id s.input_from_step_id)
      ≡ true
  source_ok :
      validate_input_source_exclusivity
        (effective u.input_from_step_id s.input_from_step_id)
        (effective u.csv_file_pattern s.csv_file_pattern)
        (effective u.input_connection_id s.input_connection_id)
      ≡ true
  reference_ok :
      validate_step_input_reference db.steps s.load_plan_id
        (effective u.input_from_step_id s.input_from_step_id)
        (effective u.sequence (some s.sequence))
        (some s.id)
      ≡ true
  stored : commit_step (apply_patch u s) db ≡ ok db'

update_found-Checked :
    (u : LoadStepUpdate) (db db' : Database) (s : LoadStep)
    → update_found u db s ≡ ok db'
    → Checked u s db db'
unfolding update_found
update_found-Checked u db db' s e = record {
  fields_ok = ground arith;
  source_ok = ground arith;
  reference_ok = ground arith;
  stored = ground arith;
}

update_found-Updated :
    (u : LoadStepUpdate) (db db' : Database) (s : LoadStep) (o : Option LoadStep)
    → apply_patch u s ≡ o
    → Checked u s db db'
    → (s' : LoadStep) × Updated s s' db db'
unfolding commit_step validate_step
update_found-Updated u db db' s none p c = let stored = rw p at c.stored in ground arith
update_found-Updated u db db' s (some s') p c =
    let (id, plan, operation, sequence, soql, pattern, connection, ref) =
      apply_patch-fields u s s' p in
    let fields_ok = rw (operation, soql, pattern, ref) at c.fields_ok in
    let source_ok = rw (ref, pattern, connection) at c.source_ok in
    let stored = rw p at c.stored in
    (
      s',
      record {
        same_id = id;
        same_plan = plan;
        shape = rw fields_ok source_ok;
        link = rw (id, plan) (rw (ref, sequence) at c.reference_ok);
        result = ground arith;
      },
    )

pub find_step-replace :
    (ref : Uuid) (s' : LoadStep) (steps : List LoadStep) (u : LoadStep)
    → (s'.id == ref) ≡ false
    → find_step ref steps ≡ some u
    → find_step ref (replace_step s' steps) ≡ some u
unfolding find_step replace_step
find_step-replace ref s' [] u h e = e
find_step-replace ref s' (s ∷ steps) u h e = ground (arith, find_step-replace ref s' steps u h)

Reference-replace :
    (steps : List LoadStep) (s' : LoadStep) (plan_id : Uuid) (n : ℕ) (r : Option Uuid)
    → holds r s'.id ≡ false
    → Reference steps plan_id n r
    → Reference (replace_step s' steps) plan_id n r
Reference-replace steps s' plan_id n r free l =
    Reference-along steps (replace_step s' steps) plan_id n n r
      (λ ref u e found plan query earlier. record {
        referenced = u;
        found = find_step-replace ref s' steps u (==-flip ref s'.id (rw e at free)) found;
        same_plan = plan;
        query = query;
        earlier = earlier;
      })
      l

All-replace :
    (P : LoadStep → Type 0) (s' : LoadStep) (steps : List LoadStep)
    → P s'
    → All P steps
    → All P (replace_step s' steps)
unfolding replace_step
All-replace P s' [] h a = tt
All-replace P s' (s ∷ steps) h a = elim (Bool-cases (s.id == s'.id)) [
  | inl e ↦ rw e (h, All-replace P s' steps h a.1)
  | inr e ↦ rw e (a.0, All-replace P s' steps h a.1)
]

validated-free :
    (steps : List LoadStep) (plan_id : Uuid) (n : Option ℕ) (own : Uuid) (r : Option Uuid)
    → validate_step_input_reference steps plan_id r n (some own) ≡ true
    → holds r own ≡ false
validated-free steps plan_id n own none h = refl
validated-free steps plan_id n own (some ref) h =
    ==-flip own ref (validated-other steps plan_id n own ref h)

IsWired-replace :
    (s s' : LoadStep) (db db' : Database)
    → IsWired db
    → Unreferenced s.id db.steps
    → Updated s s' db db'
    → IsWired db'
IsWired-replace s s' db db' w free u =
    let steps' = replace_step s' db.steps in
    let free' = rw (sym u.same_id) at free in
    let own_free =
      validated-free db.steps s'.load_plan_id (some s'.sequence) s'.id s'.input_from_step_id
        u.link in
    rw u.result (record {
      shaped = All-replace IsShaped s' db.steps u.shape w.shaped;
      linked =
          All-replace (Linked steps') s' db.steps
            (Reference-replace db.steps s' s'.load_plan_id s'.sequence s'.input_from_step_id
              own_free
              (validated-Reference db.steps s'.load_plan_id s'.sequence (some s'.id)
                s'.input_from_step_id u.link))
            (All-map (λ t. Linked db.steps t × (holds t.input_from_step_id s'.id ≡ false))
              (Linked steps')
              (λ t p.
                Reference-replace db.steps s' t.load_plan_id t.sequence t.input_from_step_id p.1
                  p.0)
              db.steps
              (All-zip (Linked db.steps) (λ t. holds t.input_from_step_id s'.id ≡ false) db.steps
                w.linked free'));
    })

update_step-passes :
    (plan_id id : Uuid) (u : LoadStepUpdate) (db db' : Database) (o : Option LoadStep)
    → get_step plan_id id db.steps ≡ o
    → update_step plan_id id u db ≡ ok db'
    → (s : LoadStep) × (o ≡ some s) × (update_found u db s ≡ ok db')
unfolding update_step
update_step-passes plan_id id u db db' none g e = ground (arith, g)
update_step-passes plan_id id u db db' (some s) g e = (s, refl, ground (arith, g))

step_of_plan-same :
    (plan_id : Uuid) (o : Option LoadStep) (s : LoadStep)
    → step_of_plan plan_id o ≡ some s
    → o ≡ some s
unfolding step_of_plan
step_of_plan-same plan_id none s h = h
step_of_plan-same plan_id (some t) s h = ground arith

-- The row that an update works on.
update_step-found :
    (plan_id id : Uuid) (u : LoadStepUpdate) (db db' : Database)
    → update_step plan_id id u db ≡ ok db'
    → (s : LoadStep) × (s.id ≡ id) × Checked u s db db'
unfolding get_step
update_step-found plan_id id u db db' e =
    let (s, g, f) = update_step-passes plan_id id u db db' (get_step plan_id id db.steps) refl e in
    let found = step_of_plan-same plan_id (find_step id db.steps) s g in
    (s, find_step-id id db.steps s found, update_found-Checked u db db' s f)

pub update_step-IsWired :
    (plan_id id : Uuid) (u : LoadStepUpdate) (db db' : Database)
    → IsWired db
    → Unreferenced id db.steps
    → update_step plan_id id u db ≡ ok db'
    → IsWired db'
update_step-IsWired plan_id id u db db' w free e =
    let (s, same, c) = update_step-found plan_id id u db db' e in
    let (s', upd) = update_found-Updated u db db' s (apply_patch u s) refl c in
    IsWired-replace s s' db db' w (rw (sym same) at free) upd
