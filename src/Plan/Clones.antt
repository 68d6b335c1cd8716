-- ===== src/Plan/Clones.antt =====
-- The rows that `duplicate_plan` makes are those of the source under their new names.
use sf_bulk_loader.Prelude.{
  ◌≡◌, refl, ap₂, ◌∙◌, ◌==◌, true, Option, none, some, List, [], ◌∷◌, map, All, All-map,
  All-selected, arith, ==_iff,
}
use sf_bulk_loader.Job.{Uuid}
use sf_bulk_loader.Plan.{LoadStep, find_step}
use sf_bulk_loader.Plan.Wired.{Reference, Linked}
use sf_bulk_loader.Plan.Duplicate.{steps_of, id_map, clone_step, patch_reference, patch_all, clones}

abbrev pub map_reference : (Uuid → Uuid) → Option Uuid → Option Uuid
map_reference fresh none = none
map_reference fresh (some ref) = some (fresh ref)

-- The step under the new names.
abbrev pub renamed : (Uuid → Uuid) → Uuid → LoadStep → LoadStep
renamed fresh new_plan_id s = record s {
  id = fresh s.id;
  load_plan_id = new_plan_id;
  input_from_step_id = map_reference fresh s.input_from_step_id;
}

-- A reference that the rows know.
abbrev Knows : List LoadStep → Option Uuid → Type 0
Knows source none = Unit
Knows source (some ref) = (u : LoadStep) × (find_step ref source ≡ some u)

id_map-found :
    (fresh : Uuid → Uuid) (source : List LoadStep) (ref : Uuid) (u : LoadStep)
    → find_step ref source ≡ some u
    → id_map fresh source ref ≡ some (fresh ref)
unfolding id_map find_step
id_map-found fresh [] ref u e = ground arith
id_map-found fresh (s ∷ source) ref u e = ground (arith, id_map-found fresh source ref u)

pub find_step-steps_of :
    (plan_id ref : Uuid) (steps : List LoadStep) (u : LoadStep)
    → find_step ref steps ≡ some u
    → u.load_plan_id ≡ plan_id
    → find_step ref (steps_of plan_id steps) ≡ some u
unfolding find_step steps_of
find_step-steps_of plan_id ref [] u e p = e
find_step-steps_of plan_id ref (s ∷ steps) u e p =
    ground (arith, find_step-steps_of plan_id ref steps u)

patched :
    (fresh : Uuid → Uuid) (new_plan_id : Uuid) (source : List LoadStep) (s : LoadStep)
    (r : Option Uuid)
    → Knows source r
    → patch_reference (id_map fresh source) r (clone_step fresh new_plan_id s) ≡ record s {
      id = fresh s.id;
      load_plan_id = new_plan_id;
      input_from_step_id = map_reference fresh r;
    }
unfolding patch_reference clone_step
patched fresh new_plan_id source s none k = refl
patched fresh new_plan_id source s (some ref) (u, e) = rw (id_map-found fresh source ref u e) refl

patch_all-renamed :
    (fresh : Uuid → Uuid) (new_plan_id : Uuid) (source rows : List LoadStep)
    → All (λ s. Knows source s.input_from_step_id) rows
    → patch_all
        (id_map fresh source)
        (map (λ s. s.input_from_step_id) rows)
        (map (clone_step fresh new_plan_id) rows)
      ≡ map (renamed fresh new_plan_id) rows
unfolding patch_all
patch_all-renamed fresh new_plan_id source [] k = refl
patch_all-renamed fresh new_plan_id source (s ∷ rows) k =
    ap₂ (λ x xs. x ∷ xs) (patched fresh new_plan_id source s s.input_from_step_id k.0)
      (patch_all-renamed fresh new_plan_id source rows k.1)

Linked-Knows :
    (plan_id : Uuid) (steps : List LoadStep) (s : LoadStep)
    → Linked steps s × ((s.load_plan_id == plan_id) ≡ true)
    → Knows (steps_of plan_id steps) s.input_from_step_id
Linked-Knows plan_id steps s (l, p) = go s.input_from_step_id l
  where
    go :
        (r : Option Uuid)
        → Reference steps s.load_plan_id s.sequence r
        → Knows (steps_of plan_id steps) r
    go none l = tt
    go (some ref) l = (
      l.referenced,
      find_step-steps_of plan_id ref steps l.referenced l.found
          (l.same_plan ∙ (==_iff s.load_plan_id plan_id).0 p),
    )

pub steps_of-All :
    (P : LoadStep → Type 0) (plan_id : Uuid) (steps : List LoadStep)
    → All P steps
    → All (λ s. P s × ((s.load_plan_id == plan_id) ≡ true)) (steps_of plan_id steps)
unfolding steps_of
steps_of-All P plan_id steps a = All-selected P (λ s. s.load_plan_id == plan_id) steps a

-- The rows of the copy are those of the source under their new names.
pub clones-renamed :
    (fresh : Uuid → Uuid) (new_plan_id plan_id : Uuid) (steps : List LoadStep)
    → All (Linked steps) steps
    → clones fresh new_plan_id (steps_of plan_id steps)
      ≡ map (renamed fresh new_plan_id) (steps_of plan_id steps)
unfolding clones
clones-renamed fresh new_plan_id plan_id steps l =
    let source = steps_of plan_id steps in
    patch_all-renamed fresh new_plan_id source source (
      All-map (λ s. Linked steps s × ((s.load_plan_id == plan_id) ≡ true))
        (λ s. Knows source s.input_from_step_id) (Linked-Knows plan_id steps) source
        (steps_of-All (Linked steps) plan_id steps l))
