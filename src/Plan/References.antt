-- ===== src/Plan/References.antt =====
-- backend/app/services/load_step_service.py: sequence assignment, the checks of references and
-- names, and the reordering of a plan.
use Prim.Native.String.{String}
use text.Mathlib.Text.{◌==◌ as str_eq}
use sf_bulk_loader.Prelude.{
  ℕ, ◌+◌, max, ◌==◌, Bool, true, false, not, ◌&&◌, ◌||◌, Option, none, some, List, [], ◌∷◌,
  if◌then◌else◌, any, ltb, leb, map, holds,
}
use sf_bulk_loader.Job.{Uuid}
use sf_bulk_loader.Plan.{is_query, LoadStep, Database, Response, ok, http, find_step}

-- `select(func.max(LoadStep.sequence))`, with the 0 of `max_seq or 0` for NULL.
unfoldable pub max_sequence : Uuid → List LoadStep → ℕ
max_sequence plan_id [] = 0
max_sequence plan_id (s ∷ steps) =
    let rest = max_sequence plan_id steps in
    if s.load_plan_id == plan_id then max s.sequence rest else rest

unfoldable pub next_sequence : Uuid → List LoadStep → ℕ
unfolding max_sequence
next_sequence plan_id steps = max_sequence plan_id steps + 1

-- The row that is referred to. `own_sequence` is `none` where the code passes None.
unfoldable pub reference_ok : Uuid → Option LoadStep → Option ℕ → Bool
unfolding is_query
reference_ok plan_id none own_sequence = false
reference_ok plan_id (some referenced) own_sequence =
    if not (referenced.load_plan_id == plan_id)
    then false
    else if not (is_query referenced.operation)
    then false
    else elim own_sequence [ none ↦ true | some own ↦ not (leb own referenced.sequence) ]

unfoldable pub validate_step_input_reference :
    List LoadStep → Uuid → Option Uuid → Option ℕ → Option Uuid → Bool
unfolding reference_ok find_step
validate_step_input_reference steps plan_id none own_sequence own_id = true
validate_step_input_reference steps plan_id (some ref) own_sequence own_id =
    if holds own_id ref then false else reference_ok plan_id (find_step ref steps) own_sequence

-- A row of the plan with this name that is not the step itself.
unfoldable pub same_name : String → Option String → Bool
same_name name none = false
same_name name (some other) = str_eq other name

unfoldable pub validate_unique_step_name : List LoadStep → Uuid → Option String → Option Uuid → Bool
unfolding same_name
validate_unique_step_name steps plan_id none own_id = true
validate_unique_step_name steps plan_id (some name) own_id = not (
    any (λ s. (s.load_plan_id == plan_id) && same_name name s.name && not (holds own_id s.id))
      steps)

-- `{step_id: idx for idx, step_id in enumerate(step_ids, start=1)}`: of two entries with one key the
-- later one stays. The result of `.get(id, 0)`.
unfoldable pub proposed_sequence : ℕ → List Uuid → Uuid → ℕ
proposed_sequence idx [] id = 0
proposed_sequence idx (x ∷ xs) id =
    let later = proposed_sequence (idx + 1) xs id in
    if ltb 0 later then later else if x == id then idx else 0

-- `set(step_ids) != set(existing.keys())`
unfoldable pub same_ids : Uuid → List Uuid → List LoadStep → Bool
same_ids plan_id step_ids steps =
    not (any (λ id. not (any (λ s. (s.load_plan_id == plan_id) && (s.id == id)) steps)) step_ids)
    && not (any (λ s. (s.load_plan_id == plan_id) && not (any (λ id. id == s.id) step_ids)) steps)

unfoldable pub is_offending : List Uuid → LoadStep → Bool
unfolding proposed_sequence
is_offending step_ids s = elim s.input_from_step_id [
  | none ↦ false
  | some ref ↦
      (ref == s.id) || leb (proposed_sequence 1 step_ids s.id) (proposed_sequence 1 step_ids ref)
]

unfoldable pub set_sequence : Uuid → List Uuid → LoadStep → LoadStep
unfolding proposed_sequence
set_sequence plan_id step_ids s =
    if s.load_plan_id == plan_id
    then record s { sequence = proposed_sequence 1 step_ids s.id }
    else s

unfoldable pub reorder_steps : Uuid → List Uuid → Database → Response Database
unfolding same_ids is_offending set_sequence
reorder_steps plan_id step_ids db =
    if not (same_ids plan_id step_ids db.steps)
    then http 400
    else if any (λ s. (s.load_plan_id == plan_id) && is_offending step_ids s) db.steps
    then http 422
    else ok (record db { steps = map (set_sequence plan_id step_ids) db.steps })
