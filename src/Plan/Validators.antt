-- ===== src/Plan/Validators.antt =====
-- backend/app/schemas/load_step.py: the cross-field validators of a step. `true` stands for a
-- return, `false` for a `ValueError`, which every caller turns into a 422.
use Prim.Native.String.{String}
use sf_bulk_loader.Prelude.{
  Bool, true, false, not, ◌&&◌, Option, none, some, is_some, if◌then◌else◌,
}
use sf_bulk_loader.Job.{Uuid}
use sf_bulk_loader.Plan.{Operation, is_query, LoadStep, has_text}

unfoldable pub validate_input_source_exclusivity :
    Option Uuid → Option String → Option String → Bool
validate_input_source_exclusivity none pattern connection = true
validate_input_source_exclusivity (some id) pattern connection =
    if is_some pattern then false else if is_some connection then false else true

unfoldable pub validate_query_dml_fields :
    Option Operation → Option String → Option String → Option Uuid → Bool
unfolding has_text is_query
validate_query_dml_fields none soql pattern input_from = true
validate_query_dml_fields (some operation) soql pattern input_from =
    if is_query operation
    then if not (has_text soql)
      then false
      else if is_some pattern
      then false
      else if is_some input_from
      then false
      else true
    else if not (has_text pattern) && not (is_some input_from)
    then false
    else if is_some soql
    then false
    else true

-- The model validator of `LoadStepBase`, on the fields of a row.
unfoldable pub validate_step : LoadStep → Bool
unfolding validate_input_source_exclusivity validate_query_dml_fields
validate_step s =
    validate_query_dml_fields (some s.operation) s.soql s.csv_file_pattern s.input_from_step_id
    && validate_input_source_exclusivity s.input_from_step_id s.csv_file_pattern
        s.input_connection_id
