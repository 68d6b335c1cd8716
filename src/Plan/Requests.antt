-- ===== src/Plan/Requests.antt =====
-- backend/app/api/load_steps.py: the requests that create, update, delete and reorder steps. The
-- identifier of a new row is an argument.
use Prim.Native.String.{String}
use text.Mathlib.Text.{◌==◌ as str_eq}
use sf_bulk_loader.Prelude.{
  ℕ, ◌==◌, Bool, true, false, not, ◌&&◌, ◌||◌, Option, none, some, List, [], ◌∷◌, ◌++◌,
  if◌then◌else◌, any, holds,
}
use sf_bulk_loader.Job.{Uuid}
use sf_bulk_loader.Plan.{
  Operation, LoadStep, Database, Response, ok, http, integrity_error, find_step, has_plan,
}
use sf_bulk_loader.Plan.Validators.{
  validate_input_source_exclusivity, validate_query_dml_fields, validate_step,
}
use sf_bulk_loader.Plan.References.{
  next_sequence, validate_step_input_reference, validate_unique_step_name, reorder_steps,
}

-- `direction in ("in", "both")`, after the exemption of the local output tree.
unfoldable pub direction_ok : Option String → Bool
direction_ok none = false
direction_ok (some direction) = str_eq direction "in" || str_eq direction "both"

unfoldable pub validate_input_connection_direction : Database → Option String → Bool
unfolding direction_ok
validate_input_connection_direction db none = true
validate_input_connection_direction db (some c) =
    if str_eq c "local-output" then true else direction_ok (db.connections c)

-- The fields of `LoadStepCreate`.
pub record LoadStepCreate : Type 0 where
  pub sequence : Option ℕ
  pub object_name : String
  pub operation : Operation
  pub external_id_field : Option String
  pub csv_file_pattern : Option String
  pub soql : Option String
  pub partition_size : Option ℕ
  pub assignment_rule_id : Option String
  pub input_connection_id : Option String
  pub name : Option String
  pub input_from_step_id : Option Uuid

unfoldable pub sequence_or_next : Option ℕ → Uuid → List LoadStep → ℕ
unfolding next_sequence
sequence_or_next none plan_id steps = next_sequence plan_id steps
sequence_or_next (some n) plan_id steps = n

-- `LoadStep(load_plan_id=plan_id, **step_data)`
unfoldable pub new_step : Uuid → Uuid → ℕ → LoadStepCreate → LoadStep
new_step id plan_id sequence data_ = record {
  id = id;
  load_plan_id = plan_id;
  sequence = sequence;
  object_name = data_.object_name;
  operation = data_.operation;
  external_id_field = data_.external_id_field;
  csv_file_pattern = data_.csv_file_pattern;
  soql = data_.soql;
  partition_size = data_.partition_size;
  assignment_rule_id = data_.assignment_rule_id;
  input_connection_id = data_.input_connection_id;
  name = data_.name;
  input_from_step_id = data_.input_from_step_id;
}

-- The schema's validator runs before the handler.
unfoldable pub add_step : Uuid → Uuid → LoadStepCreate → Database → Response Database
unfolding new_step sequence_or_next validate_input_connection_direction
add_step new_id plan_id data_ db =
    let sequence = sequence_or_next data_.sequence plan_id db.steps in
    let step = new_step new_id plan_id sequence data_ in
    if not (validate_step step)
    then http 422
    else if not (has_plan plan_id db)
    then http 404
    else if not (validate_input_connection_direction db data_.input_connection_id)
    then http 422
    else if not (
        validate_step_input_reference db.steps plan_id data_.input_from_step_id (some sequence)
          none)
    then http 422
    else if not (validate_unique_step_name db.steps plan_id data_.name none)
    then http 422
    else ok (record db { steps = db.steps ++ step ∷ [] })

-- A field of `model_dump(exclude_unset=True)`: it is not in the patch, or it is there with a value.
pub data Field (A : Type 0) : Type 0 where
  unset : Field A
  set : A → Field A

pub record LoadStepUpdate : Type 0 where
  pub sequence : Field (Option ℕ)
  pub object_name : Field (Option String)
  pub operation : Field (Option Operation)
  pub external_id_field : Field (Option String)
  pub csv_file_pattern : Field (Option String)
  pub soql : Field (Option String)
  pub partition_size : Field (Option ℕ)
  pub assignment_rule_id : Field (Option String)
  pub input_connection_id : Field (Option String)
  pub name : Field (Option String)
  pub input_from_step_id : Field (Option Uuid)

-- `update_data[f] if f in update_data else step.f`; also what `setattr` leaves in the column.
unfoldable pub effective : {A : Type 0} → Field A → A → A
effective unset old = old
effective (set new) old = new

-- The value of a patch as the schema's validator sees it: None where it is not set.
unfoldable pub given : {A : Type 0} → Field (Option A) → Option A
given unset = none
given (set v) = v

-- `select(LoadStep).where(LoadStep.id == step_id, LoadStep.load_plan_id == plan_id)`
unfoldable pub step_of_plan : Uuid → Option LoadStep → Option LoadStep
step_of_plan plan_id none = none
step_of_plan plan_id (some s) = if s.load_plan_id == plan_id then some s else none

unfoldable pub get_step : Uuid → Uuid → List LoadStep → Option LoadStep
unfolding step_of_plan find_step
get_step plan_id step_id steps = step_of_plan plan_id (find_step step_id steps)

-- A column that is NOT NULL, after `setattr`: `none` is the constraint's violation.
unfoldable pub required : {A : Type 0} → Field (Option A) → A → Option A
required unset old = some old
required (set v) old = v

-- `for field, value in update_data.items(): setattr(step, field, value)`, and the commit.
unfoldable pub with_required :
    LoadStepUpdate → LoadStep → Option ℕ → Option String → Option Operation → Option LoadStep
unfolding effective
with_required u s (some sequence) (some object_name) (some operation) = some (record s {
  sequence = sequence;
  object_name = object_name;
  operation = operation;
  external_id_field = effective u.external_id_field s.external_id_field;
  csv_file_pattern = effective u.csv_file_pattern s.csv_file_pattern;
  soql = effective u.soql s.soql;
  partition_size = effective u.partition_size s.partition_size;
  assignment_rule_id = effective u.assignment_rule_id s.assignment_rule_id;
  input_connection_id = effective u.input_connection_id s.input_connection_id;
  name = effective u.name s.name;
  input_from_step_id = effective u.input_from_step_id s.input_from_step_id;
})
with_required u s _ _ _ = none

unfoldable pub apply_patch : LoadStepUpdate → LoadStep → Option LoadStep
unfolding required with_required
apply_patch u s =
    with_required u s (required u.sequence s.sequence) (required u.object_name s.object_name)
      (required u.operation s.operation)

unfoldable pub replace_step : LoadStep → List LoadStep → List LoadStep
replace_step s' [] = []
replace_step s' (s ∷ steps) =
    let rest = replace_step s' steps in if s.id == s'.id then s' ∷ rest else s ∷ rest

unfoldable pub validate_name_patch : List LoadStep → LoadStep → Field (Option String) → Bool
validate_name_patch steps s unset = true
validate_name_patch steps s (set name) =
    validate_unique_step_name steps s.load_plan_id name (some s.id)

unfoldable pub commit_step : Option LoadStep → Database → Response Database
unfolding replace_step
commit_step none db = integrity_error
commit_step (some s') db = ok (record db { steps = replace_step s' db.steps })

-- The handler after `_get_step_or_404`.
unfoldable pub update_found : LoadStepUpdate → Database → LoadStep → Response Database
unfolding effective given apply_patch validate_name_patch commit_step
update_found u db s =
    let operation = effective u.operation (some s.operation) in
    let soql = effective u.soql s.soql in
    let pattern = effective u.csv_file_pattern s.csv_file_pattern in
    let input_from = effective u.input_from_step_id s.input_from_step_id in
    let connection = effective u.input_connection_id s.input_connection_id in
    let sequence = effective u.sequence (some s.sequence) in
    if not (validate_input_connection_direction db (given u.input_connection_id))
    then http 422
    else if not (validate_query_dml_fields operation soql pattern input_from)
    then http 422
    else if not (validate_input_source_exclusivity input_from pattern connection)
    then http 422
    else if not
        (validate_step_input_reference db.steps s.load_plan_id input_from sequence (some s.id))
    then http 422
    else if not (validate_name_patch db.steps s u.name)
    then http 422
    else commit_step (apply_patch u s) db

-- The model validator of `LoadStepUpdate` sees the patch alone.
unfoldable pub update_step : Uuid → Uuid → LoadStepUpdate → Database → Response Database
unfolding given update_found get_step
update_step plan_id step_id u db =
    if not (
      validate_query_dml_fields (given u.operation) (given u.soql) (given u.csv_file_pattern)
        (given u.input_from_step_id))
    then http 422
    else elim (get_step plan_id step_id db.steps) [ none ↦ http 404 | some s ↦ update_found u db s ]

-- The row goes, and `ON DELETE SET NULL` clears what refers to it.
unfoldable pub remove_step : Uuid → List LoadStep → List LoadStep
remove_step id [] = []
remove_step id (s ∷ steps) =
    let rest = remove_step id steps in
    if s.id == id
    then rest
    else if holds s.input_from_step_id id
    then record s { input_from_step_id = none } ∷ rest
    else s ∷ rest

unfoldable pub delete_step : Uuid → Uuid → Database → Response Database
unfolding get_step remove_step
delete_step plan_id step_id db = elim (get_step plan_id step_id db.steps) [
  | none ↦ http 404
  | some s ↦
      if any (λ d. (d.load_plan_id == plan_id) && holds d.input_from_step_id step_id) db.steps
      then http 422
      else if any (λ j. j == step_id) db.job_steps
      then integrity_error
      else ok (record db { steps = remove_step step_id db.steps })
]

-- The route of `reorder_steps`.
unfoldable pub reorder : Uuid → List Uuid → Database → Response Database
reorder plan_id step_ids db =
    if has_plan plan_id db then reorder_steps plan_id step_ids db else http 404
