-- ===== src/Plan/Growth.antt =====
-- Adding and deleting steps keeps the table well formed.
use sf_bulk_loader.Prelude.{
  ◌≡◌, refl, inl, inr, ◌==◌, true, false, not, ◌&&◌, Option, none, some, List, [], ◌∷◌, ◌++◌, arith,
  All, All-map, All-append, All-zip, select, All-select, any, any-false, Bool-cases, holds,
}
use sf_bulk_loader.Job.{Uuid}
use sf_bulk_loader.Plan.{LoadStep, Database, ok, find_step}
use sf_bulk_loader.Plan.References.{validate_step_input_reference}
use sf_bulk_loader.Plan.Requests.{
  LoadStepCreate, new_step, sequence_or_next, add_step, remove_step, delete_step, get_step,
  step_of_plan,
}
use sf_bulk_loader.Plan.Wired.{
  Reference, Linked, IsShaped, IsWired, find_step-append, Reference-along, validated-Reference,
}

pub Linked-append :
    (steps more : List LoadStep) (s : LoadStep) → Linked steps s → Linked (steps ++ more) s
Linked-append steps more s l =
    Reference-along steps (steps ++ more) s.load_plan_id s.sequence s.sequence s.input_from_step_id
      (λ ref u _ found plan query earlier. record {
        referenced = u;
        found = find_step-append ref steps more u found;
        same_plan = plan;
        query = query;
        earlier = earlier;
      })
      l

IsWired-snoc :
    (db : Database) (s : LoadStep)
    → IsWired db
    → IsShaped s
    → Linked db.steps s
    → IsWired (record db { steps = db.steps ++ s ∷ [] })
IsWired-snoc db s w shape link =
    let grown = db.steps ++ s ∷ [] in
    record {
      shaped = All-append IsShaped db.steps (s ∷ []) w.shaped (shape, tt);
      linked =
          All-append (Linked grown) db.steps (s ∷ [])
            (All-map (Linked db.steps) (Linked grown) (Linked-append db.steps (s ∷ [])) db.steps
              w.linked)
            (Linked-append db.steps (s ∷ []) s link, tt);
    }

-- What an accepted request has passed.
record Accepted (new_id plan_id : Uuid) (d : LoadStepCreate) (db db' : Database) : Type 0 where
  step : LoadStep
  shape : IsShaped step
  link :
      validate_step_input_reference db.steps step.load_plan_id step.input_from_step_id
        (some step.sequence)
        none
      ≡ true
  result : db' ≡ record db { steps = db.steps ++ step ∷ [] }

add_step-Accepted :
    (new_id plan_id : Uuid) (d : LoadStepCreate) (db db' : Database)
    → add_step new_id plan_id d db ≡ ok db'
    → Accepted new_id plan_id d db db'
unfolding add_step new_step
add_step-Accepted new_id plan_id d db db' e = record {
  step = new_step new_id plan_id (sequence_or_next d.sequence plan_id db.steps) d;
  shape = ground arith;
  link = ground arith;
  result = ground arith;
}

pub add_step-IsWired :
    (new_id plan_id : Uuid) (d : LoadStepCreate) (db db' : Database)
    → IsWired db
    → add_step new_id plan_id d db ≡ ok db'
    → IsWired db'
add_step-IsWired new_id plan_id d db db' w e =
    let a = add_step-Accepted new_id plan_id d db db' e in
    rw a.result (
      IsWired-snoc db a.step w a.shape (
        validated-Reference db.steps a.step.load_plan_id a.step.sequence none
          a.step.input_from_step_id a.link))

-- No row refers to the step.
abbrev pub Unreferenced : Uuid → List LoadStep → Type 0
Unreferenced id steps = All (λ s. holds s.input_from_step_id id ≡ false) steps

remove-select :
    (id : Uuid) (steps : List LoadStep)
    → Unreferenced id steps
    → remove_step id steps ≡ select (λ s. not (s.id == id)) steps
unfolding remove_step
remove-select id [] h = refl
remove-select id (s ∷ steps) h = ground (arith, remove-select id steps h.1)

find_step-select :
    (id ref : Uuid) (steps : List LoadStep) (u : LoadStep)
    → (ref == id) ≡ false
    → find_step ref steps ≡ some u
    → find_step ref (select (λ s. not (s.id == id)) steps) ≡ some u
unfolding find_step
find_step-select id ref [] u h e = e
find_step-select id ref (s ∷ steps) u h e = ground (arith, find_step-select id ref steps u h)

Linked-select :
    (id : Uuid) (steps : List LoadStep) (s : LoadStep)
    → Linked steps s × (holds s.input_from_step_id id ≡ false)
    → Linked (select (λ s. not (s.id == id)) steps) s
Linked-select id steps s (l, h) =
    Reference-along steps (select (λ s. not (s.id == id)) steps) s.load_plan_id s.sequence
      s.sequence s.input_from_step_id
      (λ ref u e found plan query earlier. record {
        referenced = u;
        found = find_step-select id ref steps u (rw e at h) found;
        same_plan = plan;
        query = query;
        earlier = earlier;
      })
      l

IsWired-remove :
    (db : Database) (id : Uuid)
    → IsWired db
    → Unreferenced id db.steps
    → IsWired (record db { steps = remove_step id db.steps })
IsWired-remove db id w h =
    let kept = select (λ s. not (s.id == id)) db.steps in
    let free = λ (s : LoadStep). holds s.input_from_step_id id ≡ false in
    rw (remove-select id db.steps h) (record {
      shaped = All-select IsShaped (λ s. not (s.id == id)) db.steps w.shaped;
      linked =
          All-select (Linked kept) (λ s. not (s.id == id)) db.steps
            (All-map (λ s. Linked db.steps s × free s) (Linked kept) (Linked-select id db.steps)
              db.steps (All-zip (Linked db.steps) free db.steps w.linked h));
    })

-- A row of another plan cannot refer to a step of this one.
other_plan-free :
    (steps : List LoadStep) (plan_id id : Uuid) (u s : LoadStep)
    → find_step id steps ≡ some u
    → u.load_plan_id ≡ plan_id
    → Linked steps s × (((s.load_plan_id == plan_id) && holds s.input_from_step_id id) ≡ false)
    → holds s.input_from_step_id id ≡ false
other_plan-free steps plan_id id u s found plan (l, h) = go s.input_from_step_id l h
  where
    go :
        (r : Option Uuid)
        → Reference steps s.load_plan_id s.sequence r
        → ((s.load_plan_id == plan_id) && holds r id) ≡ false
        → holds r id ≡ false
    go none l h = refl
    go (some ref) l h = elim (Bool-cases (ref == id)) [
      | inr e ↦ e
      | inl e ↦ ground (arith, l.found, l.same_plan)
    ]

delete_step-frees :
    (plan_id id : Uuid) (steps : List LoadStep) (u : LoadStep)
    → find_step id steps ≡ some u
    → u.load_plan_id ≡ plan_id
    → All (Linked steps) steps
    → any (λ d. (d.load_plan_id == plan_id) && holds d.input_from_step_id id) steps ≡ false
    → Unreferenced id steps
delete_step-frees plan_id id steps u found plan l none_depends =
    let dependent =
      λ (d : LoadStep). (d.load_plan_id == plan_id) && holds d.input_from_step_id id in
    All-map (λ s. Linked steps s × (dependent s ≡ false))
      (λ s. holds s.input_from_step_id id ≡ false)
      (λ s. other_plan-free steps plan_id id u s found plan) steps
      (All-zip (Linked steps) (λ s. dependent s ≡ false) steps l
        (any-false dependent steps none_depends))

-- What an accepted request to delete has passed.
record Deleted (plan_id id : Uuid) (db db' : Database) : Type 0 where
  step : LoadStep
  found : find_step id db.steps ≡ some step
  plan : step.load_plan_id ≡ plan_id
  none_depends :
      any (λ d. (d.load_plan_id == plan_id) && holds d.input_from_step_id id) db.steps ≡ false
  result : db' ≡ record db { steps = remove_step id db.steps }

delete_step-Deleted :
    (plan_id id : Uuid) (db db' : Database) (o : Option LoadStep)
    → find_step id db.steps ≡ o
    → delete_step plan_id id db ≡ ok db'
    → Deleted plan_id id db db'
unfolding delete_step get_step step_of_plan
delete_step-Deleted plan_id id db db' none f e = ground arith
delete_step-Deleted plan_id id db db' (some s) f e = record {
  step = s;
  found = f;
  plan = ground arith;
  none_depends = ground arith;
  result = ground arith;
}

pub delete_step-IsWired :
    (plan_id id : Uuid) (db db' : Database)
    → IsWired db
    → delete_step plan_id id db ≡ ok db'
    → IsWired db'
delete_step-IsWired plan_id id db db' w e =
    let d = delete_step-Deleted plan_id id db db' (find_step id db.steps) refl e in
    rw d.result (
      IsWired-remove db id w
        (delete_step-frees plan_id id db.steps d.step d.found d.plan w.linked d.none_depends))
