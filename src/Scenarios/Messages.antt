-- ===== src/Scenarios/Messages.antt =====
-- Messages about the end of a run.
use sf_bulk_loader.Prelude.{◌≡◌, ◌⊎◌, refl, true, false, none, some, List, [], ◌∷◌, count_by, All}
use sf_bulk_loader.Job.{RunStatus, Uuid, is_terminal}
use sf_bulk_loader.Notify.{
  Notifier, NotificationSubscription, email, teams_webhook, terminal_any, terminal_fail_only,
  Answer, result, NotificationDelivery, dispatch_run, fire_terminal_notifications, has_fired,
}
use sf_bulk_loader.Notify.Once.{fire_all}
use sf_bulk_loader.Notify.Runs.{fire_run, execute_run-dispatched}
use sf_bulk_loader.Run.{Outcome, execute_run, raised_other}
use sf_bulk_loader.Scenarios.Runs.{plan, world, state_at}
use sf_bulk_loader.Notify.Subscribers.{
  rows_of, asks_for, IsConsistent, is_subscribed, is_stored_for, dispatch_run-IsNotified,
}

-- Run 1 ends as aborted twice, run 2 once.
abbrev calls : List (Uuid × RunStatus)
calls = (1, RunStatus.aborted) ∷ (2, RunStatus.completed) ∷ (1, RunStatus.failed) ∷ []

abbrev fresh : Notifier
fresh = record { initialised = true; fired_run_ids = []; dispatched = [] }

first_only :
    (fire_all calls fresh).dispatched ≡ (2, RunStatus.completed) ∷ (1, RunStatus.aborted) ∷ []
unfolding fire_all fire_terminal_notifications
first_only = refl

abbrev teams : NotificationSubscription
teams = record { id = 7; plan_id = none; channel = teams_webhook; trigger = terminal_fail_only }

abbrev mail : NotificationSubscription
mail = record { id = 8; plan_id = some 3; channel = email; trigger = terminal_any }

abbrev elsewhere : NotificationSubscription
elsewhere = record { id = 9; plan_id = some 4; channel = email; trigger = terminal_any }

abbrev table : List NotificationSubscription
table = teams ∷ mail ∷ elsewhere ∷ []

abbrev accepted : Answer
accepted = record {
  stored = true;
  send = result (record {
    accepted = true;
    attempts = 2;
    error_detail = none;
    email_delivery_id = none;
    pending = false;
  });
}

abbrev two_rows : List NotificationDelivery
two_rows = dispatch_run (λ channel. true) (λ sub. accepted) table (some 3) 1 RunStatus.failed

two_subscribers : (rows_of 7 two_rows ≡ 1) × (rows_of 8 two_rows ≡ 1) × (rows_of 9 two_rows ≡ 0)
unfolding rows_of dispatch_run
two_subscribers = (refl, refl, refl)

dispatch_run-IsNotified_example :
    ((id : Uuid)
      → rows_of id two_rows ≡ count_by (is_stored_for (λ sub. accepted) id) (teams ∷ mail ∷ []))
    × All IsConsistent two_rows
unfolding is_subscribed is_terminal asks_for
dispatch_run-IsNotified_example =
    dispatch_run-IsNotified (λ channel. true) (λ sub. accepted) table 3 1 RunStatus.failed

abbrev ended : Outcome
ended = execute_run plan world (state_at RunStatus.pending)

execute_run-dispatched_example :
    ((fire_run 5 ended.1.fired fresh).dispatched ≡ (5, ended.1.row.status) ∷ [])
    ⊎ ((ended.0 ≡ raised_other)
        × (ended.1.row.status ≡ RunStatus.aborted)
        × ((fire_run 5 ended.1.fired fresh).dispatched ≡ []))
unfolding has_fired
execute_run-dispatched_example =
    execute_run-dispatched plan world (state_at RunStatus.pending) 5 fresh refl refl refl

told_completed : (fire_run 5 ended.1.fired fresh).dispatched ≡ (5, RunStatus.completed) ∷ []
unfolding fire_run fire_terminal_notifications execute_run
told_completed = refl
