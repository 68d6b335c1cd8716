-- ===== src/Notify/Once.antt =====
-- A run's subscribers are notified once.
use sf_bulk_loader.Prelude.{
  ℕ, ◌+◌, ◌≤◌, ◌<◌, ◌≡◌, refl, Bool, true, false, ◌||◌, List, [], ◌∷◌, length, count_by, leb, ◌==◌,
  ◌∙◌, sym, zero, suc, ==_iff, Bool-cases, arith, inl, inr, ap,
}
use sf_bulk_loader.Job.{Uuid, RunStatus}
use sf_bulk_loader.Notify.{Notifier, fired_cache_cap, has_fired, fire_terminal_notifications}

le-leb : (a b : ℕ) → b < a → leb a b ≡ false
le-leb a b h = ground arith

-- The calls of `fire_terminal_notifications`, in order.
unfoldable pub fire_all : List (Uuid × RunStatus) → Notifier → Notifier
fire_all [] n = n
fire_all (c ∷ calls) n = fire_all calls (fire_terminal_notifications c.0 c.1 n)

unfoldable pub calls_for : Uuid → List (Uuid × RunStatus) → ℕ
calls_for id calls = count_by (λ c. c.0 == id) calls

-- A call for a run that is in the set changes nothing.
pub fire-known :
    (id : Uuid) (st : RunStatus) (n : Notifier)
    → has_fired id n.fired_run_ids ≡ true
    → fire_terminal_notifications id st n ≡ n
unfolding fire_terminal_notifications
fire-known id st n h = elim (Bool-cases n.initialised) [
  | inl e ↦ rw e (rw h refl)
  | inr e ↦ rw e refl
]

-- A call for another run, with room in the set.
fire-new :
    (id : Uuid) (st : RunStatus) (n : Notifier)
    → n.initialised ≡ true
    → has_fired id n.fired_run_ids ≡ false
    → length n.fired_run_ids < fired_cache_cap
    → fire_terminal_notifications id st n
      ≡ record n { fired_run_ids = id ∷ n.fired_run_ids; dispatched = (id, st) ∷ n.dispatched }
unfolding fire_terminal_notifications
fire-new id st n i h l =
    let full = le-leb fired_cache_cap (length n.fired_run_ids) l in rw i (rw h (rw full refl))

-- How many dispatches any number of calls makes: none if the run has been in the set before.
unfoldable pub once : Bool → ℕ → ℕ
once true calls = 0
once false zero = 0
once false (suc calls) = 1

-- A call for another run leaves the count of a run.
calls_for-other :
    (id : Uuid) (c : Uuid × RunStatus) (calls : List (Uuid × RunStatus))
    → (c.0 == id) ≡ false
    → calls_for id (c ∷ calls) ≡ calls_for id calls
unfolding calls_for
calls_for-other id c calls e = rw e refl

calls_for-same :
    (id : Uuid) (c : Uuid × RunStatus) (calls : List (Uuid × RunStatus))
    → (c.0 == id) ≡ true
    → calls_for id (c ∷ calls) ≡ suc (calls_for id calls)
unfolding calls_for
calls_for-same id c calls e = rw e refl

has_fired-same :
    (id x : Uuid) (ids : List Uuid) → (x == id) ≡ true → has_fired id ids ≡ has_fired x ids
has_fired-same id x ids e = let p = (==_iff x id).0 e in rw p refl

has_fired-cons :
    (id x : Uuid) (ids : List Uuid) (b : Bool)
    → (x == id) ≡ b
    → has_fired id (x ∷ ids) ≡ (b || has_fired id ids)
unfolding has_fired
has_fired-cons id x ids b e = rw e refl

-- A call for a run that was notified before adds nothing.
once-known :
    (id : Uuid) (c : Uuid × RunStatus) (calls : List (Uuid × RunStatus)) (ids : List Uuid)
    → has_fired c.0 ids ≡ true
    → once (has_fired id ids) (calls_for id (c ∷ calls))
      ≡ once (has_fired id ids) (calls_for id calls)
unfolding once
once-known id c calls ids h = elim (Bool-cases (c.0 == id)) [
  | inl e ↦ let known = has_fired-same id c.0 ids e ∙ h in rw known refl
  | inr e ↦ ap (once (has_fired id ids)) (calls_for-other id c calls e)
]

-- One step of the induction, for a call that dispatches.
once-new :
    (id : Uuid) (c : Uuid × RunStatus) (calls dispatched : List (Uuid × RunStatus))
    (ids : List Uuid)
    → has_fired c.0 ids ≡ false
    → calls_for id (c ∷ dispatched) + once (has_fired id (c.0 ∷ ids)) (calls_for id calls)
      ≡ calls_for id dispatched + once (has_fired id ids) (calls_for id (c ∷ calls))
unfolding once
once-new id c calls dispatched ids h = elim (Bool-cases (c.0 == id)) [
  | inl e ↦
      let unknown = has_fired-same id c.0 ids e ∙ h in
      let known = has_fired-cons id c.0 ids true e in
      rw known (
        rw unknown
          (rw (calls_for-same id c dispatched e) (rw (calls_for-same id c calls e) (omega arith))))
  | inr e ↦
      rw (has_fired-cons id c.0 ids false e)
        (rw (calls_for-other id c dispatched e) (rw (calls_for-other id c calls e) refl))
]

once-none :
    (id : Uuid) (n : Notifier)
    → calls_for id n.dispatched
      ≡ calls_for id n.dispatched + once (has_fired id n.fired_run_ids) (calls_for id [])
unfolding once calls_for
once-none id n = elim (Bool-cases (has_fired id n.fired_run_ids)) [
  | inl e ↦ rw e (omega arith)
  | inr e ↦ rw e (omega arith)
]

-- Of any calls that fit into what the set has room for, the first for a run that is not in the set
-- dispatches, and no other.
pub fire_all-once :
    (calls : List (Uuid × RunStatus)) (n : Notifier) (id : Uuid)
    → n.initialised ≡ true
    → length n.fired_run_ids + length calls ≤ fired_cache_cap
    → calls_for id (fire_all calls n).dispatched
      ≡ calls_for id n.dispatched + once (has_fired id n.fired_run_ids) (calls_for id calls)
unfolding fire_all
fire_all-once [] n id i l = once-none id n
fire_all-once (c ∷ calls) n id i l = elim (Bool-cases (has_fired c.0 n.fired_run_ids)) [
  | inl h ↦
      ap (λ m. calls_for id (fire_all calls m).dispatched) (fire-known c.0 c.1 n h)
      ∙ fire_all-once calls n id i (omega arith)
      ∙ ap (λ k. calls_for id n.dispatched + k) (sym (once-known id c calls n.fired_run_ids h))
  | inr h ↦
      let n' = record n {
        fired_run_ids = c.0 ∷ n.fired_run_ids;
        dispatched = (c.0, c.1) ∷ n.dispatched;
      } in
      ap (λ m. calls_for id (fire_all calls m).dispatched) (fire-new c.0 c.1 n i h (omega arith))
      ∙ fire_all-once calls n' id i (omega arith)
      ∙ once-new id c calls n.dispatched n.fired_run_ids h
]
