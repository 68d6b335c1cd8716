-- ===== src/Notify.antt =====
-- The notifications of a run that has ended: `fire_terminal_notifications` of
-- backend/app/services/notifications/__init__.py with its guard against repetitions, and the dispatcher
-- of backend/app/services/notifications/dispatcher.py. What the channels answer is a parameter; the
-- context of a message is left out.
pub mod Once
pub mod Runs
pub mod Subscribers
use sf_bulk_loader.Prelude.{
  ℕ, Bool, true, false, not, ◌&&◌, ◌||◌, Option, none, some, List, [], ◌∷◌, length, any, select,
  holds, leb, ◌==◌, if◌then◌else◌,
}
use sf_bulk_loader.Job.{Uuid, RunStatus}

abbrev pub fired_cache_cap : ℕ
fired_cache_cap = 2048

-- The module's globals, and the calls of `dispatch_run`, newest first. The set is a list.
pub record Notifier : Type 0 where
  pub initialised : Bool
  pub fired_run_ids : List Uuid
  pub dispatched : List (Uuid × RunStatus)

unfoldable pub has_fired : Uuid → List Uuid → Bool
has_fired run_id ids = any (λ x. x == run_id) ids

unfoldable pub fire_terminal_notifications : Uuid → RunStatus → Notifier → Notifier
unfolding has_fired
fire_terminal_notifications run_id run_status n =
    if not n.initialised then n else if has_fired run_id n.fired_run_ids then n else record n {
      fired_run_ids =
          run_id ∷ (if leb fired_cache_cap (length n.fired_run_ids) then [] else n.fired_run_ids);
      dispatched = (run_id, run_status) ∷ n.dispatched;
    }

pub data NotificationChannel : Type 0 where
  email : NotificationChannel
  webhook : NotificationChannel
  teams_webhook : NotificationChannel

pub data NotificationTrigger : Type 0 where
  terminal_any : NotificationTrigger
  terminal_fail_only : NotificationTrigger

pub record NotificationSubscription : Type 0 where
  pub id : Uuid
  pub plan_id : Option Uuid
  pub channel : NotificationChannel
  pub trigger : NotificationTrigger

pub data ErrorText : Type 0 where
  no_channel_registered : ErrorText
  exception_message : ErrorText
  detail : ℕ → ErrorText

pub record ChannelResult : Type 0 where
  pub accepted : Bool
  pub attempts : ℕ
  pub error_detail : Option ErrorText
  pub email_delivery_id : Option Uuid
  pub pending : Bool

pub data SendReply : Type 0 where
  result : ChannelResult → SendReply
  send_exception : SendReply

-- What happens to one dispatch: whether its row can be stored, and the answer of the channel.
pub record Answer : Type 0 where
  pub stored : Bool
  pub send : SendReply

pub data DeliveryStatus : Type 0 where
  pending : DeliveryStatus
  sent : DeliveryStatus
  failed : DeliveryStatus

pub record NotificationDelivery : Type 0 where
  pub subscription_id : Uuid
  pub run_id : Option Uuid
  pub is_test : Bool
  pub status : DeliveryStatus
  pub attempt_count : ℕ
  pub last_error : Option ErrorText
  pub email_delivery_id : Option Uuid
  pub has_sent_at : Bool

unfoldable pub result_of : SendReply → ChannelResult
result_of (result r) = r
result_of send_exception = record {
  accepted = false;
  attempts = 1;
  error_detail = some exception_message;
  email_delivery_id = none;
  pending = false;
}

unfoldable pub new_delivery : NotificationSubscription → Option Uuid → Bool → NotificationDelivery
new_delivery sub run_id is_test = record {
  subscription_id = sub.id;
  run_id = run_id;
  is_test = is_test;
  status = DeliveryStatus.pending;
  attempt_count = 0;
  last_error = none;
  email_delivery_id = none;
  has_sent_at = false;
}

unfoldable pub settled : ChannelResult → NotificationDelivery → NotificationDelivery
settled r d =
    let d' = record d { attempt_count = r.attempts; email_delivery_id = r.email_delivery_id } in
    if r.pending && not r.accepted
    then record d' { status = DeliveryStatus.pending; last_error = r.error_detail }
    else if r.accepted
    then record d' { status = DeliveryStatus.sent; has_sent_at = true; last_error = none }
    else record d' { status = DeliveryStatus.failed; last_error = r.error_detail }

-- `_dispatch`: the row, or `none` for an exception of the session, which leaves no row.
unfoldable pub dispatch :
    (NotificationChannel → Bool)
    → (NotificationSubscription → Answer)
    → NotificationSubscription
    → Option Uuid
    → Bool
    → Option NotificationDelivery
unfolding result_of new_delivery settled
dispatch registered answers sub run_id is_test =
    let delivery = new_delivery sub run_id is_test in
    if not (answers sub).stored
    then none
    else if not (registered sub.channel)
    then some (record delivery {
      status = DeliveryStatus.failed;
      last_error = some no_channel_registered;
    })
    else some (settled (result_of (answers sub).send) delivery)

unfoldable pub same_trigger : NotificationTrigger → NotificationTrigger → Bool
same_trigger terminal_any terminal_any = true
same_trigger terminal_fail_only terminal_fail_only = true
same_trigger _ _ = false

unfoldable pub triggers_for_status : RunStatus → List NotificationTrigger
triggers_for_status RunStatus.completed = terminal_any ∷ []
triggers_for_status RunStatus.completed_with_errors = terminal_any ∷ terminal_fail_only ∷ []
triggers_for_status RunStatus.failed = terminal_any ∷ terminal_fail_only ∷ []
triggers_for_status RunStatus.aborted = terminal_any ∷ terminal_fail_only ∷ []
triggers_for_status _ = []

-- The `where` of the query.
unfoldable pub is_selected : List NotificationTrigger → Uuid → NotificationSubscription → Bool
unfolding same_trigger
is_selected triggers plan_id sub =
    any (same_trigger sub.trigger) triggers
    && (holds sub.plan_id plan_id || (elim sub.plan_id [ none ↦ true | some _ ↦ false ]))

unfoldable pub add_delivery :
    Option NotificationDelivery → List NotificationDelivery → List NotificationDelivery
add_delivery none deliveries = deliveries
add_delivery (some d) deliveries = d ∷ deliveries

-- The loop of `dispatch_run`: the rows of a dispatch that raises are missing.
unfoldable pub fan_out :
    (NotificationChannel → Bool)
    → (NotificationSubscription → Answer)
    → Uuid
    → List NotificationSubscription
    → List NotificationDelivery
unfolding dispatch add_delivery
fan_out registered answers run_id [] = []
fan_out registered answers run_id (sub ∷ subs) =
    add_delivery (dispatch registered answers sub (some run_id) false)
      (fan_out registered answers run_id subs)

-- `run` is the plan of the run, or `none` if the run is not found.
unfoldable pub dispatch_matching :
    (NotificationChannel → Bool)
    → (NotificationSubscription → Answer)
    → List NotificationSubscription
    → (run : Option Uuid) → Uuid
    → List NotificationTrigger
    → List NotificationDelivery
unfolding is_selected fan_out
dispatch_matching registered answers table run run_id [] = []
dispatch_matching registered answers table none run_id (t ∷ triggers) = []
dispatch_matching registered answers table (some plan_id) run_id (t ∷ triggers) =
    fan_out registered answers run_id (select (is_selected (t ∷ triggers) plan_id) table)

unfoldable pub dispatch_run :
    (NotificationChannel → Bool)
    → (NotificationSubscription → Answer)
    → List NotificationSubscription
    → Option Uuid
    → Uuid
    → RunStatus
    → List NotificationDelivery
unfolding triggers_for_status dispatch_matching
dispatch_run registered answers table run run_id run_status =
    dispatch_matching registered answers table run run_id (triggers_for_status run_status)
