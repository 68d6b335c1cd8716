-- ===== src/Notify/Runs.antt =====
-- The calls of `fire_terminal_notifications` that one run makes, in the hands of the guard.
use sf_bulk_loader.Prelude.{
  ◌≡◌, refl, ◌∙◌, ap, ◌⊎◌, inl, inr, true, false, Option, none, some, List, [], ◌∷◌, ==_iff,
}
use sf_bulk_loader.Job.{Uuid, RunStatus}
use sf_bulk_loader.Run.{LoadPlan, World, State, raised_other, execute_run}
use sf_bulk_loader.Run.Terminal.{notified, execute_run-Settled}
use sf_bulk_loader.Notify.{Notifier, has_fired, fire_terminal_notifications}
use sf_bulk_loader.Notify.Once.{fire-known}

-- The calls of a run, newest first, made from the oldest.
unfoldable pub fire_run : Uuid → List RunStatus → Notifier → Notifier
fire_run id [] n = n
fire_run id (st ∷ older) n = fire_terminal_notifications id st (fire_run id older n)

unfoldable add_dispatch :
    Uuid → Option RunStatus → List (Uuid × RunStatus) → List (Uuid × RunStatus)
add_dispatch id none dispatched = dispatched
add_dispatch id (some st) dispatched = (id, st) ∷ dispatched

added :
    (id : Uuid) (st : RunStatus) (dispatched : List (Uuid × RunStatus))
    → add_dispatch id (some st) dispatched ≡ (id, st) ∷ dispatched
unfolding add_dispatch
added id st dispatched = refl

unadded :
    (id : Uuid) (dispatched : List (Uuid × RunStatus))
    → add_dispatch id none dispatched ≡ dispatched
unfolding add_dispatch
unadded id dispatched = refl

head_known : (id : Uuid) (ids : List Uuid) → has_fired id (id ∷ ids) ≡ true
unfolding has_fired
head_known id ids = let e = (==_iff id id).1 refl in rw e refl

-- After one call or more the run is in the set, and its first status was dispatched.
record Fired (id : Uuid) (st : RunStatus) (n m : Notifier) : Type 0 where
  known : has_fired id m.fired_run_ids ≡ true
  first : m.dispatched ≡ (id, st) ∷ n.dispatched

fire-Fired :
    (id : Uuid) (st : RunStatus) (n : Notifier)
    → n.initialised ≡ true
    → has_fired id n.fired_run_ids ≡ false
    → Fired id st n (fire_terminal_notifications id st n)
unfolding fire_terminal_notifications
fire-Fired id st n i h = rw i (rw h (record { known = head_known id _; first = refl }))

-- The status that is told first, of at least one.
unfoldable oldest : RunStatus → List RunStatus → RunStatus
oldest st [] = st
oldest st (older ∷ rest) = oldest older rest

notified-oldest :
    (st : RunStatus) (older : List RunStatus) → notified (st ∷ older) ≡ some (oldest st older)
unfolding oldest
notified-oldest st [] = refl
notified-oldest st (x ∷ rest) = notified-oldest x rest

fire_run-Fired :
    (id : Uuid) (st : RunStatus) (older : List RunStatus) (n : Notifier)
    → n.initialised ≡ true
    → has_fired id n.fired_run_ids ≡ false
    → Fired id (oldest st older) n (fire_run id (st ∷ older) n)
unfolding fire_run oldest
fire_run-Fired id st [] n i h = fire-Fired id st n i h
fire_run-Fired id st (x ∷ rest) n i h =
    let before = fire_run-Fired id x rest n i h in
    let same = fire-known id st (fire_run id (x ∷ rest) n) before.known in
    record {
      known = ap (λ m. has_fired id m.fired_run_ids) same ∙ before.known;
      first = ap (λ m. m.dispatched) same ∙ before.first;
    }

fire_run-dispatched :
    (id : Uuid) (fired : List RunStatus) (n : Notifier)
    → n.initialised ≡ true
    → has_fired id n.fired_run_ids ≡ false
    → (fire_run id fired n).dispatched ≡ add_dispatch id (notified fired) n.dispatched
unfolding fire_run add_dispatch
fire_run-dispatched id [] n i h = refl
fire_run-dispatched id (st ∷ older) n i h =
    rw (notified-oldest st older) ((fire_run-Fired id st older n i h).first)

-- Whatever the steps, the phases and the API do, and however often a run calls the guard: if the set
-- does not have the run, and the dispatcher is there, exactly one dispatch is made for the run, with
-- the status that its row has at the end; there is none only if an unhandled exception has met a run
-- that the API had aborted.
pub execute_run-dispatched :
    (plan : LoadPlan) (w : World) (s : State) (id : Uuid) (n : Notifier)
    → s.fired ≡ []
    → n.initialised ≡ true
    → has_fired id n.fired_run_ids ≡ false
    → ((fire_run id (execute_run plan w s).1.fired n).dispatched
        ≡ (id, (execute_run plan w s).1.row.status) ∷ n.dispatched)
      ⊎ (((execute_run plan w s).0 ≡ raised_other)
          × ((execute_run plan w s).1.row.status ≡ RunStatus.aborted)
          × ((fire_run id (execute_run plan w s).1.fired n).dispatched ≡ n.dispatched))
execute_run-dispatched plan w s id n f i h =
    let o = execute_run plan w s in
    let d = fire_run-dispatched id o.1.fired n i h in
    elim ((execute_run-Settled plan w s f).told) [
      | inl p ↦
          inl
            (d ∙ ap (λ q. add_dispatch id q n.dispatched) p ∙ added id o.1.row.status n.dispatched)
      | inr p ↦ inr (
        p.0,
        p.1,
        d ∙ ap (λ q. add_dispatch id (notified q) n.dispatched) p.2 ∙ unadded id n.dispatched,
      )
    ]
