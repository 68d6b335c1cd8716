-- ===== src/Scenarios/Plans.antt =====
-- A plan with a query step and a step that inserts its output.
use sf_bulk_loader.Prelude.{◌≡◌, refl, none, some, [], ◌∷◌, All, arith, ◌+◌, map}
use sf_bulk_loader.Plan.{
  Operation, is_query, LoadStep, Database, ok, http, find_step, has_plan, has_text,
}
use sf_bulk_loader.Plan.Validators.{validate_step}
use sf_bulk_loader.Plan.References.{
  validate_step_input_reference, validate_unique_step_name, reorder_steps,
}
use sf_bulk_loader.Plan.Requests.{LoadStepCreate, add_step, update_step, reorder}
use sf_bulk_loader.Plan.Wired.{IsWired}
use sf_bulk_loader.Plan.Orders.{IsPlaced, reorder-IsPlaced}
use sf_bulk_loader.Job.{Uuid}
use sf_bulk_loader.Plan.Duplicate.{duplicate_plan, steps_of}
use sf_bulk_loader.Plan.Clones.{renamed}
use sf_bulk_loader.Plan.Copies.{duplicate_plan-IsCopy}
use sf_bulk_loader.Plan.Editing.{
  create, update, delete, order, handle, stored, handle_all, requests-IsWired,
}
use sf_bulk_loader.Plan.Inversion.{only_sequence, update_sequence-unwires}

abbrev contacts : LoadStep
contacts = record {
  id = 1;
  load_plan_id = 7;
  sequence = 1;
  object_name = "Contact";
  operation = Operation.query;
  external_id_field = none;
  csv_file_pattern = none;
  soql = some "SELECT Id FROM Contact";
  partition_size = none;
  assignment_rule_id = none;
  input_connection_id = none;
  name = some "contacts";
  input_from_step_id = none;
}

abbrev touch : LoadStep
touch = record contacts {
  id = 2;
  sequence = 2;
  operation = Operation.update;
  soql = none;
  name = none;
  input_from_step_id = some 1;
}

abbrev table : Database
table = record {
  plans = 7 ∷ [];
  connections = λ c. none;
  job_steps = [];
  steps = contacts ∷ touch ∷ [];
}

abbrev another : LoadStepCreate
another = record {
  sequence = none;
  object_name = "Lead";
  operation = Operation.delete;
  external_id_field = none;
  csv_file_pattern = some "leads_*.csv";
  soql = none;
  partition_size = none;
  assignment_rule_id = none;
  input_connection_id = none;
  name = none;
  input_from_step_id = none;
}

table-IsWired : IsWired table
unfolding validate_step find_step is_query has_text
table-IsWired = record {
  shaped = (refl, (refl, tt));
  linked = (
    tt,
    (
      record {
        referenced = contacts;
        found = refl;
        same_plan = refl;
        query = refl;
        earlier = omega arith;
      },
      tt,
    ),
  );
}

-- A list that names a step twice is accepted.
abbrev moved : Database
moved = record table {
  steps = record contacts { sequence = 2 } ∷ record touch { sequence = 3 } ∷ [];
}

repeated_id : reorder 7 (1 ∷ 1 ∷ 2 ∷ []) table ≡ ok moved
unfolding reorder has_plan reorder_steps
repeated_id = refl

inverted_order : reorder 7 (2 ∷ 1 ∷ []) table ≡ http 422
unfolding reorder has_plan reorder_steps
inverted_order = refl

requests-IsWired_example : IsWired (
    handle_all
      (create 3 7 another
        ∷ update 7 2 (only_sequence 5)
        ∷ delete 7 1
        ∷ order 7 (1 ∷ 2 ∷ 3 ∷ [])
        ∷ [])
      table)
unfolding handle stored add_step has_plan has_text is_query validate_step
    validate_step_input_reference validate_unique_step_name
requests-IsWired_example =
    requests-IsWired
      (create 3 7 another
        ∷ update 7 2 (only_sequence 5)
        ∷ delete 7 1
        ∷ order 7 (1 ∷ 2 ∷ 3 ∷ [])
        ∷ [])
      table table-IsWired (tt, ((refl, (refl, (refl, tt))), (tt, (tt, tt))))

reorder-IsPlaced_example : All (IsPlaced 7 (1 ∷ 1 ∷ 2 ∷ [])) moved.steps
reorder-IsPlaced_example = reorder-IsPlaced 7 (1 ∷ 1 ∷ 2 ∷ []) table moved repeated_id

update_sequence-unwires_example :
    (db' : Database) × (update_step 7 1 (only_sequence 2) table ≡ ok db') × ¬ IsWired db'
unfolding find_step
update_sequence-unwires_example =
    update_sequence-unwires 7 2 table contacts touch table-IsWired refl refl refl refl (omega arith)

-- The copy's identifiers are those of the source plus 100.
abbrev shifted : Uuid → Uuid
shifted a = a + 100

shifted-is_new : (a : Uuid) → find_step (shifted a) table.steps ≡ none
unfolding find_step
shifted-is_new a = ground arith

duplicate_plan-IsCopy_example :
    (db' : Database) × (duplicate_plan shifted 8 7 table ≡ ok db')
    × IsWired db'
    × (steps_of 8 db'.steps ≡ map (renamed shifted 8) (steps_of 7 table.steps))
unfolding has_plan
duplicate_plan-IsCopy_example =
    duplicate_plan-IsCopy shifted 8 7 table table-IsWired refl (λ a b h. omega (arith, h))
      shifted-is_new (refl, (refl, tt))
