-- ===== src/Plan/Orders.antt =====
-- Reordering: it keeps the table well formed, and it numbers the steps of the plan by the list.
use sf_bulk_loader.Prelude.{
  ℕ, suc, ◌+◌, ◌<◌, ◌≡◌, refl, ◌∙◌, ◌⊎◌, inl, inr, ◌==◌, true, false, not, ◌&&◌, some, List, [],
  ◌∷◌, arith, All, All-over_map, All-zip, any, any-false, Bool-cases, map, get_elem?,
}
use sf_bulk_loader.Job.{Uuid}
use sf_bulk_loader.Plan.{LoadStep, Database, ok, find_step}
use sf_bulk_loader.Plan.Validators.{validate_step}
use sf_bulk_loader.Plan.References.{
  proposed_sequence, same_ids, is_offending, set_sequence, reorder_steps,
}
use sf_bulk_loader.Plan.Requests.{reorder}
use sf_bulk_loader.Plan.Wired.{Linked, IsShaped, IsWired, Reference-along, find_step-id}

find_step-set_sequence :
    (plan_id ref : Uuid) (ids : List Uuid) (steps : List LoadStep) (u : LoadStep)
    → find_step ref steps ≡ some u
    → find_step ref (map (set_sequence plan_id ids) steps) ≡ some (set_sequence plan_id ids u)
unfolding find_step set_sequence
find_step-set_sequence plan_id ref ids [] u e = ground arith
find_step-set_sequence plan_id ref ids (s ∷ steps) u e =
    ground (arith, find_step-set_sequence plan_id ref ids steps u)

-- The step `s` is of another plan, or its reference is not inverted.
abbrev Fits : Uuid → List Uuid → LoadStep → Type 0
Fits plan_id ids s = ((s.load_plan_id == plan_id) && is_offending ids s) ≡ false

sequence-earlier :
    (plan_id ref : Uuid) (ids : List Uuid) (s u : LoadStep)
    → Fits plan_id ids s
    → s.input_from_step_id ≡ some ref
    → u.id ≡ ref
    → u.load_plan_id ≡ s.load_plan_id
    → u.sequence < s.sequence
    → (set_sequence plan_id ids u).sequence < (set_sequence plan_id ids s).sequence
unfolding is_offending set_sequence
sequence-earlier plan_id ref ids s u fits e id plan earlier = ground arith

-- What a new number leaves as it is.
record Renumbered (s s' : LoadStep) : Type 0 where
  plan : s'.load_plan_id ≡ s.load_plan_id
  operation : s'.operation ≡ s.operation
  reference : s'.input_from_step_id ≡ s.input_from_step_id
  shape : validate_step s' ≡ validate_step s

set_sequence-Renumbered :
    (plan_id : Uuid) (ids : List Uuid) (s : LoadStep) → Renumbered s (set_sequence plan_id ids s)
unfolding set_sequence validate_step
set_sequence-Renumbered plan_id ids s = elim (Bool-cases (s.load_plan_id == plan_id)) [
  | inl e ↦ rw e (record { plan = refl; operation = refl; reference = refl; shape = refl })
  | inr e ↦ rw e (record { plan = refl; operation = refl; reference = refl; shape = refl })
]

Linked-set_sequence :
    (plan_id : Uuid) (ids : List Uuid) (steps : List LoadStep) (s : LoadStep)
    → Linked steps s × Fits plan_id ids s
    → Linked (map (set_sequence plan_id ids) steps) (set_sequence plan_id ids s)
Linked-set_sequence plan_id ids steps s (l, fits) =
    let same = set_sequence-Renumbered plan_id ids s in
    let move = set_sequence plan_id ids in
    rw (same.reference, same.plan)
      (Reference-along steps (map move steps) s.load_plan_id s.sequence (move s).sequence
        s.input_from_step_id
        (λ ref u e found plan query earlier.
          let same_u = set_sequence-Renumbered plan_id ids u in
          record {
            referenced = move u;
            found = find_step-set_sequence plan_id ref ids steps u found;
            same_plan = same_u.plan ∙ plan;
            query = rw same_u.operation query;
            earlier =
                sequence-earlier plan_id ref ids s u fits e (find_step-id ref steps u found) plan
                  earlier;
          })
        l)

-- What an accepted request to reorder has passed.
record Reordered (plan_id : Uuid) (ids : List Uuid) (db db' : Database) : Type 0 where
  complete : same_ids plan_id ids db.steps ≡ true
  none_offends : any (λ s. (s.load_plan_id == plan_id) && is_offending ids s) db.steps ≡ false
  result : db' ≡ record db { steps = map (set_sequence plan_id ids) db.steps }

reorder-Reordered :
    (plan_id : Uuid) (ids : List Uuid) (db db' : Database)
    → reorder plan_id ids db ≡ ok db'
    → Reordered plan_id ids db db'
unfolding reorder reorder_steps
reorder-Reordered plan_id ids db db' e = record {
  complete = ground arith;
  none_offends = ground arith;
  result = ground arith;
}

pub reorder-IsWired :
    (plan_id : Uuid) (ids : List Uuid) (db db' : Database)
    → IsWired db
    → reorder plan_id ids db ≡ ok db'
    → IsWired db'
reorder-IsWired plan_id ids db db' w e =
    let r = reorder-Reordered plan_id ids db db' e in
    let move = set_sequence plan_id ids in
    rw r.result (record {
      shaped =
          All-over_map IsShaped IsShaped move
            (λ s h. (set_sequence-Renumbered plan_id ids s).shape ∙ h) db.steps w.shaped;
      linked =
          All-over_map (λ s. Linked db.steps s × Fits plan_id ids s) (Linked (map move db.steps))
            move (Linked-set_sequence plan_id ids db.steps) db.steps
            (All-zip (Linked db.steps) (Fits plan_id ids) db.steps w.linked (
              any-false (λ s. (s.load_plan_id == plan_id) && is_offending ids s) db.steps
                r.none_offends));
    })

-- A step of another plan, or one whose number points to an entry of the list that is its own.
abbrev pub IsPlaced : Uuid → List Uuid → LoadStep → Type 0
IsPlaced plan_id ids s =
    ((s.load_plan_id == plan_id) ≡ false)
    ⊎ ((k : ℕ) × (s.sequence ≡ k + 1) × (get_elem? ids k ≡ some s.id))

proposed-none :
    (idx : ℕ) (ids : List Uuid) (id : Uuid)
    → any (λ x. x == id) ids ≡ false
    → proposed_sequence idx ids id ≡ 0
unfolding proposed_sequence
proposed-none idx [] id h = refl
proposed-none idx (x ∷ xs) id h = ground (arith, proposed-none (idx + 1) xs id)

-- The last entry of an identifier gives its number.
proposed-entry :
    (idx : ℕ) (ids : List Uuid) (id : Uuid)
    → 0 < idx
    → any (λ x. x == id) ids ≡ true
    → (k : ℕ) × (proposed_sequence idx ids id ≡ k + idx) × (get_elem? ids k ≡ some id)
unfolding proposed_sequence
proposed-entry idx [] id p h = ground arith
proposed-entry idx (x ∷ xs) id p h = elim (Bool-cases (any (λ y. y == id) xs)) [
  | inl later ↦
      let (k, e, g) = proposed-entry (idx + 1) xs id (omega arith) later in (suc k, ground arith, g)
  | inr none_later ↦ (0, ground (arith, proposed-none (idx + 1) xs id none_later), ground arith)
]

-- `set(step_ids)` holds the identifiers of the plan.
same_ids-listed :
    (plan_id : Uuid) (ids : List Uuid) (steps : List LoadStep)
    → same_ids plan_id ids steps ≡ true
    → All (λ s. ((s.load_plan_id == plan_id) && not (any (λ id. id == s.id) ids)) ≡ false) steps
unfolding same_ids
same_ids-listed plan_id ids steps h =
    any-false (λ s. (s.load_plan_id == plan_id) && not (any (λ id. id == s.id) ids)) steps
      (ground arith)

set_sequence-IsPlaced :
    (plan_id : Uuid) (ids : List Uuid) (s : LoadStep)
    → ((s.load_plan_id == plan_id) && not (any (λ id. id == s.id) ids)) ≡ false
    → IsPlaced plan_id ids (set_sequence plan_id ids s)
unfolding set_sequence
set_sequence-IsPlaced plan_id ids s h = elim (Bool-cases (s.load_plan_id == plan_id)) [
  | inl e ↦ rw e (inr (proposed-entry 1 ids s.id (omega arith) (ground arith)))
  | inr e ↦ rw e (inl e)
]

-- An accepted request to reorder a plan numbers its steps by the list: the number of a step, counted
-- from 1, is a place at which the list has the step's identifier; rows of other plans aside.
pub reorder-IsPlaced :
    (plan_id : Uuid) (ids : List Uuid) (db db' : Database)
    → reorder plan_id ids db ≡ ok db'
    → All (IsPlaced plan_id ids) db'.steps
reorder-IsPlaced plan_id ids db db' e =
    let r = reorder-Reordered plan_id ids db db' e in
    rw r.result (
      All-over_map (λ s. ((s.load_plan_id == plan_id) && not (any (λ id. id == s.id) ids)) ≡ false)
        (IsPlaced plan_id ids) (set_sequence plan_id ids) (set_sequence-IsPlaced plan_id ids)
        db.steps (same_ids-listed plan_id ids db.steps r.complete))
