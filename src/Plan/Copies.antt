-- ===== src/Plan/Copies.antt =====
-- A copy of a plan has its steps, with the references carried over, and is well formed.
use Prim.Native.String.{String}
use sf_bulk_loader.Prelude.{
  ◌≡◌, refl, sym, ap, ◌∙◌, inl, inr, ◌==◌, true, false, Option, none, some, List, [], ◌∷◌, ◌++◌,
  map, All, All-append, All-map, All-over_map, select-append, select_none, select-All, arith,
  Bool-cases, ==_iff,
}
use sf_bulk_loader.Job.{Uuid}
use sf_bulk_loader.Plan.{Operation, LoadStep, Database, ok, find_step, has_plan}
use sf_bulk_loader.Plan.Validators.{
  validate_step, validate_query_dml_fields, validate_input_source_exclusivity,
}
use sf_bulk_loader.Plan.Wired.{Reference, Linked, IsShaped, IsWired}
use sf_bulk_loader.Plan.Growth.{Linked-append}
use sf_bulk_loader.Plan.Clones.{
  map_reference, renamed, clones-renamed, steps_of-All, find_step-steps_of,
}
use sf_bulk_loader.Plan.Duplicate.{steps_of, duplicate_plan}

fresh-test :
    (fresh : Uuid → Uuid) (a b : Uuid)
    → ((a b : Uuid) → fresh a ≡ fresh b → a ≡ b)
    → (fresh a == fresh b) ≡ (a == b)
fresh-test fresh a b inj = elim (Bool-cases (fresh a == fresh b)) [
  | inl e ↦ e ∙ sym ((==_iff a b).1 (inj a b ((==_iff (fresh a) (fresh b)).0 e)))
  | inr e ↦ elim (Bool-cases (a == b)) [
    | inr f ↦ e ∙ sym f
    | inl f ↦
        ap (λ x. fresh a == fresh x) (sym ((==_iff a b).0 f))
        ∙ (==_iff (fresh a) (fresh a)).1 refl
        ∙ sym f
  ]
]

find_step-renamed :
    (fresh : Uuid → Uuid) (new_plan_id ref : Uuid) (rows : List LoadStep) (u : LoadStep)
    → ((a b : Uuid) → fresh a ≡ fresh b → a ≡ b)
    → find_step ref rows ≡ some u
    → find_step (fresh ref) (map (renamed fresh new_plan_id) rows)
      ≡ some (renamed fresh new_plan_id u)
unfolding find_step
find_step-renamed fresh new_plan_id ref [] u inj e = ground arith
find_step-renamed fresh new_plan_id ref (s ∷ rows) u inj e =
    let test = fresh-test fresh s.id ref inj in
    elim (Bool-cases (s.id == ref)) [
      | inl h ↦ rw (test, h) (ap (λ x. some (renamed fresh new_plan_id x)) (some-same (rw h at e)))
      | inr h ↦ rw (test, h) (find_step-renamed fresh new_plan_id ref rows u inj (rw h at e))
    ]
  where
    some-same : {a b : LoadStep} → some a ≡ some b → a ≡ b
    some-same h = ground arith

find_step-back :
    (ref : Uuid) (xs ys : List LoadStep)
    → find_step ref xs ≡ none
    → find_step ref (xs ++ ys) ≡ find_step ref ys
unfolding find_step
find_step-back ref [] ys h = refl
find_step-back ref (x ∷ xs) ys h = elim (Bool-cases (x.id == ref)) [
  | inl e ↦ let k = rw e at h in ground arith
  | inr e ↦ rw e (find_step-back ref xs ys (rw e at h))
]

fields :
    (fresh : Uuid → Uuid) (o : Operation) (soql pattern : Option String) (r : Option Uuid)
    → validate_query_dml_fields (some o) soql pattern (map_reference fresh r)
      ≡ validate_query_dml_fields (some o) soql pattern r
unfolding validate_query_dml_fields
fields fresh o soql pattern none = refl
fields fresh o soql pattern (some ref) = refl

source :
    (fresh : Uuid → Uuid) (pattern connection : Option String) (r : Option Uuid)
    → validate_input_source_exclusivity (map_reference fresh r) pattern connection
      ≡ validate_input_source_exclusivity r pattern connection
unfolding validate_input_source_exclusivity
source fresh pattern connection none = refl
source fresh pattern connection (some ref) = refl

shape-renamed :
    (fresh : Uuid → Uuid) (new_plan_id : Uuid) (s : LoadStep)
    → IsShaped s
    → IsShaped (renamed fresh new_plan_id s)
unfolding validate_step
shape-renamed fresh new_plan_id s h =
    rw
      (
        fields fresh s.operation s.soql s.csv_file_pattern s.input_from_step_id,
        source fresh s.csv_file_pattern s.input_connection_id s.input_from_step_id,
      )
      h

-- A reference of the source is carried over to the copy.
Linked-renamed :
    (fresh : Uuid → Uuid) (new_plan_id plan_id : Uuid) (steps : List LoadStep) (s : LoadStep)
    → ((a b : Uuid) → fresh a ≡ fresh b → a ≡ b)
    → ((a : Uuid) → find_step (fresh a) steps ≡ none)
    → Linked steps s × ((s.load_plan_id == plan_id) ≡ true)
    → Linked
        (steps ++ map (renamed fresh new_plan_id) (steps_of plan_id steps))
        (renamed fresh new_plan_id s)
Linked-renamed fresh new_plan_id plan_id steps s inj unused (l, p) = go s.input_from_step_id l
  where
    go :
        (r : Option Uuid)
        → Reference steps s.load_plan_id s.sequence r
        → Reference
            (steps ++ map (renamed fresh new_plan_id) (steps_of plan_id steps))
            new_plan_id
            s.sequence
            (map_reference fresh r)
    go none l = tt
    go (some ref) l =
        let u = l.referenced in
        let mine =
          find_step-steps_of plan_id ref steps u l.found
            (l.same_plan ∙ (==_iff s.load_plan_id plan_id).0 p) in
        record {
          referenced = renamed fresh new_plan_id u;
          found =
              find_step-back (fresh ref) steps
                (map (renamed fresh new_plan_id) (steps_of plan_id steps)) (unused ref)
              ∙ find_step-renamed fresh new_plan_id ref (steps_of plan_id steps) u inj mine;
          same_plan = refl;
          query = l.query;
          earlier = l.earlier;
        }

copy-own :
    (fresh : Uuid → Uuid) (new_plan_id : Uuid) (steps source : List LoadStep)
    → All (λ s. (s.load_plan_id == new_plan_id) ≡ false) steps
    → steps_of new_plan_id (steps ++ map (renamed fresh new_plan_id) source)
      ≡ map (renamed fresh new_plan_id) source
unfolding steps_of
copy-own fresh new_plan_id steps source free =
    let own = λ (s : LoadStep). s.load_plan_id == new_plan_id in
    let copy = map (renamed fresh new_plan_id) source in
    select-append own steps copy
    ∙ rw (select_none own steps free) (select-All own copy (all-own source))
  where
    all-own :
        (rows : List LoadStep)
        → All (λ s. (s.load_plan_id == new_plan_id) ≡ true) (map (renamed fresh new_plan_id) rows)
    all-own [] = tt
    all-own (s ∷ rows) = ((==_iff new_plan_id new_plan_id).1 refl, all-own rows)

-- In a well-formed table, a plan is copied under identifiers that are new and distinct: the copy has
-- the steps of the source under their new names, each reference pointing to the copy of the step that
-- the original's points to, and the table stays well formed.
pub duplicate_plan-IsCopy :
    (fresh : Uuid → Uuid) (new_plan_id plan_id : Uuid) (db : Database)
    → IsWired db
    → has_plan plan_id db ≡ true
    → ((a b : Uuid) → fresh a ≡ fresh b → a ≡ b)
    → ((a : Uuid) → find_step (fresh a) db.steps ≡ none)
    → All (λ s. (s.load_plan_id == new_plan_id) ≡ false) db.steps
    → (db' : Database) × (duplicate_plan fresh new_plan_id plan_id db ≡ ok db')
      × IsWired db'
      × (steps_of new_plan_id db'.steps
          ≡ map (renamed fresh new_plan_id) (steps_of plan_id db.steps))
unfolding duplicate_plan
duplicate_plan-IsCopy fresh new_plan_id plan_id db w known inj unused free =
    let source = steps_of plan_id db.steps in
    let copy = map (renamed fresh new_plan_id) source in
    let db' = record db { plans = db.plans ++ new_plan_id ∷ []; steps = db.steps ++ copy } in
    (
      db',
      rw (known, clones-renamed fresh new_plan_id plan_id db.steps w.linked) refl,
      record {
        shaped = All-append IsShaped db.steps copy w.shaped (
            All-over_map (λ s. IsShaped s × ((s.load_plan_id == plan_id) ≡ true)) IsShaped
              (renamed fresh new_plan_id) (λ s h. shape-renamed fresh new_plan_id s h.0) source
              (steps_of-All IsShaped plan_id db.steps w.shaped));
        linked =
            All-append (Linked (db.steps ++ copy)) db.steps copy
              (All-map (Linked db.steps) (Linked (db.steps ++ copy)) (Linked-append db.steps copy)
                db.steps w.linked)
              (All-over_map (λ s. Linked db.steps s × ((s.load_plan_id == plan_id) ≡ true))
                (Linked (db.steps ++ copy)) (renamed fresh new_plan_id)
                (λ s. Linked-renamed fresh new_plan_id plan_id db.steps s inj unused) source
                (steps_of-All (Linked db.steps) plan_id db.steps w.linked));
      },
      copy-own fresh new_plan_id db.steps source free,
    )
