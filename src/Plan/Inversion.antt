-- ===== src/Plan/Inversion.antt =====
-- The update that the handler should refuse: a step that others read is moved behind them.
use sf_bulk_loader.Prelude.{
  ℕ, ◌≤◌, ◌<◌, ◌≡◌, refl, inl, inr, ◌==◌, true, false, none, some, List, [], ◌∷◌, arith, Bool-cases,
  and-true,
}
use sf_bulk_loader.Job.{Uuid}
use sf_bulk_loader.Plan.{is_query, LoadStep, Database, ok, find_step, has_text}
use sf_bulk_loader.Plan.Validators.{
  validate_step, validate_query_dml_fields, validate_input_source_exclusivity,
}
use sf_bulk_loader.Plan.References.{validate_step_input_reference}
use sf_bulk_loader.Plan.Requests.{
  LoadStepUpdate, unset, set, effective, required, with_required, apply_patch, replace_step,
  commit_step, update_found, update_step, get_step, step_of_plan, given, validate_name_patch,
  validate_input_connection_direction,
}
use sf_bulk_loader.Plan.Wired.{Links, Linked, IsShaped, IsWired, find_step-All}
use sf_bulk_loader.Plan.Patches.{find_step-replace}

-- A patch of the sequence number alone.
abbrev pub only_sequence : ℕ → LoadStepUpdate
only_sequence n = record {
  sequence = set (some n);
  object_name = unset;
  operation = unset;
  external_id_field = unset;
  csv_file_pattern = unset;
  soql = unset;
  partition_size = unset;
  assignment_rule_id = unset;
  input_connection_id = unset;
  name = unset;
  input_from_step_id = unset;
}

-- A query step that passes the validators refers to no other step.
query-refers_to_none :
    (s : LoadStep) → IsShaped s → is_query s.operation ≡ true → s.input_from_step_id ≡ none
unfolding validate_step validate_query_dml_fields
query-refers_to_none s h q = elim (Bool-cases (has_text s.soql)) [
  | inl t ↦ ground (arith, q, t)
  | inr t ↦ ground (arith, q, t)
]

shaped-parts :
    (s : LoadStep)
    → IsShaped s
    → (validate_query_dml_fields (some s.operation) s.soql s.csv_file_pattern s.input_from_step_id
        ≡ true)
      × (validate_input_source_exclusivity s.input_from_step_id s.csv_file_pattern
            s.input_connection_id
          ≡ true)
unfolding validate_step
shaped-parts s h =
    and-true
      (validate_query_dml_fields (some s.operation) s.soql s.csv_file_pattern s.input_from_step_id)
      (validate_input_source_exclusivity s.input_from_step_id s.csv_file_pattern
        s.input_connection_id)
      h

sequence_patch-stored :
    (n : ℕ) (db : Database) (s : LoadStep)
    → IsShaped s
    → s.input_from_step_id ≡ none
    → update_found (only_sequence n) db s
      ≡ ok (record db { steps = replace_step (record s { sequence = n }) db.steps })
unfolding update_found effective given validate_name_patch validate_input_connection_direction
    validate_step_input_reference commit_step apply_patch with_required required
sequence_patch-stored n db s h r =
    let (fields_ok, source_ok) = shaped-parts s h in rw (fields_ok, source_ok, r) refl

get_step-found :
    (plan_id id : Uuid) (steps : List LoadStep) (s : LoadStep)
    → find_step id steps ≡ some s
    → s.load_plan_id ≡ plan_id
    → get_step plan_id id steps ≡ some s
unfolding get_step step_of_plan
get_step-found plan_id id steps s f p = ground (arith, f)

update_sequence-accepted :
    (plan_id id : Uuid) (n : ℕ) (db : Database) (s : LoadStep)
    → find_step id db.steps ≡ some s
    → s.load_plan_id ≡ plan_id
    → IsShaped s
    → s.input_from_step_id ≡ none
    → update_step plan_id id (only_sequence n) db
      ≡ ok (record db { steps = replace_step (record s { sequence = n }) db.steps })
unfolding update_step given validate_query_dml_fields
update_sequence-accepted plan_id id n db s f p h r =
    rw (get_step-found plan_id id db.steps s f p) (sequence_patch-stored n db s h r)

find_step-replaced :
    (s' s : LoadStep) (steps : List LoadStep)
    → find_step s'.id steps ≡ some s
    → find_step s'.id (replace_step s' steps) ≡ some s'
unfolding find_step replace_step
find_step-replaced s' s [] f = ground arith
find_step-replaced s' s (t ∷ steps) f = ground (arith, find_step-replaced s' s steps)

Links-sequence :
    (steps : List LoadStep) (plan_id n : ℕ) (ref : Uuid) (u : LoadStep)
    → find_step ref steps ≡ some u
    → Links steps plan_id n ref
    → (u.load_plan_id ≡ plan_id) × (is_query u.operation ≡ true) × (u.sequence < n)
Links-sequence steps plan_id n ref u f l = (ground (arith, l), ground (arith, l), ground (arith, l))

-- In a well-formed table, let `d` read the output of the step `s`. An update that only sets the
-- sequence number of `s`, to one that is not smaller than that of `d`, is accepted, and the table that
-- it stores is not well formed.
pub update_sequence-unwires :
    (plan_id n : ℕ) (db : Database) (s d : LoadStep)
    → IsWired db
    → find_step s.id db.steps ≡ some s
    → s.load_plan_id ≡ plan_id
    → find_step d.id db.steps ≡ some d
    → d.input_from_step_id ≡ some s.id
    → d.sequence ≤ n
    → (db' : Database) × (update_step plan_id s.id (only_sequence n) db ≡ ok db') × ¬ IsWired db'
update_sequence-unwires plan_id n db s d w fs p fd r late =
    let link = rw r at (find_step-All (Linked db.steps) d.id db.steps d fd w.linked) in
    let (_, query, earlier) = Links-sequence db.steps d.load_plan_id d.sequence s.id s fs link in
    let shape = find_step-All IsShaped s.id db.steps s fs w.shaped in
    let s' = record s { sequence = n } in
    let other = apart s d earlier fs fd in
    (
      record db { steps = replace_step s' db.steps },
      update_sequence-accepted plan_id s.id n db s fs p shape (query-refers_to_none s shape query),
      λ w'.
          let steps' = replace_step s' db.steps in
          let fd' = find_step-replace d.id s' db.steps d other fd in
          let link' = rw r at (find_step-All (Linked steps') d.id steps' d fd' w'.linked) in
          let (_, _, bad) =
            Links-sequence steps' d.load_plan_id d.sequence s.id s'
              (find_step-replaced s' s db.steps fs) link' in
          omega arith,
    )
  where
    apart :
        (s d : LoadStep)
        → s.sequence < d.sequence
        → find_step s.id db.steps ≡ some s
        → find_step d.id db.steps ≡ some d
        → (s.id == d.id) ≡ false
    apart s d h fs fd = elim (Bool-cases (s.id == d.id)) [ inr e ↦ e | inl e ↦ ground arith ]
