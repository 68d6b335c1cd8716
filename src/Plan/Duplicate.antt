-- ===== src/Plan/Duplicate.antt =====
-- backend/app/services/load_plan_service.py: `duplicate_plan`. The new identifiers are arguments:
-- `fresh` gives the one that is generated for a step of the source. Of the plan itself the model has
-- its identifier only.
use sf_bulk_loader.Prelude.{
  ◌==◌, Option, none, some, List, [], ◌∷◌, ◌++◌, if◌then◌else◌, select, map,
}
use sf_bulk_loader.Job.{Uuid}
use sf_bulk_loader.Plan.{LoadStep, Database, Response, ok, http, has_plan}

-- `source.load_steps`, in the order of the table.
unfoldable pub steps_of : Uuid → List LoadStep → List LoadStep
steps_of plan_id steps = select (λ s. s.load_plan_id == plan_id) steps

-- `id_map.get(id)` of `{src_id: uuid4() for src_id, _ in source_snapshots}`
unfoldable pub id_map : (Uuid → Uuid) → List LoadStep → Uuid → Option Uuid
id_map fresh [] id = none
id_map fresh (s ∷ steps) id =
    let rest = id_map fresh steps id in if s.id == id then some (fresh id) else rest

-- Pass 1: the columns are copied, but for the identifiers and the reference.
unfoldable pub clone_step : (Uuid → Uuid) → Uuid → LoadStep → LoadStep
clone_step fresh new_plan_id s = record s {
  id = fresh s.id;
  load_plan_id = new_plan_id;
  input_from_step_id = none;
}

-- `if source_input_from is not None: new_step.input_from_step_id = id_map.get(source_input_from)`
unfoldable pub patch_reference : (Uuid → Option Uuid) → Option Uuid → LoadStep → LoadStep
patch_reference ids none new = new
patch_reference ids (some source_input_from) new = record new {
  input_from_step_id = ids source_input_from;
}

-- Pass 2, over the snapshots of the source and the new rows.
unfoldable pub patch_all : (Uuid → Option Uuid) → List (Option Uuid) → List LoadStep → List LoadStep
unfolding patch_reference
patch_all ids (source_input_from ∷ snapshots) (new ∷ rows) =
    patch_reference ids source_input_from new ∷ patch_all ids snapshots rows
patch_all ids _ rows = rows

unfoldable pub clones : (Uuid → Uuid) → Uuid → List LoadStep → List LoadStep
unfolding patch_all clone_step id_map
clones fresh new_plan_id source =
    patch_all (id_map fresh source) (map (λ s. s.input_from_step_id) source)
      (map (clone_step fresh new_plan_id) source)

unfoldable pub duplicate_plan : (Uuid → Uuid) → Uuid → Uuid → Database → Response Database
unfolding clones steps_of
duplicate_plan fresh new_plan_id plan_id db =
    if has_plan plan_id db
    then ok (record db {
      plans = db.plans ++ new_plan_id ∷ [];
      steps = db.steps ++ clones fresh new_plan_id (steps_of plan_id db.steps);
    })
    else http 404
