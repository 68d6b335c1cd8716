-- ===== src/Notify/Subscribers.antt =====
-- Who is notified of a run that has ended, and what the rows of the deliveries say.
use sf_bulk_loader.Prelude.{
  ℕ, ◌≡◌, refl, sym, ◌∙◌, ap, inl, inr, Bool, true, false, not, ◌&&◌, ◌||◌, Option, none, some,
  List, [], ◌∷◌, ◌+◌, any, count_by, count_by-cons, select, select-ext, select-none, holds, All,
  ◌==◌, if◌then◌else◌, Bool-cases, arith,
}
use sf_bulk_loader.Job.{Uuid, RunStatus, is_terminal}
use sf_bulk_loader.Notify.{
  NotificationChannel, NotificationTrigger, terminal_any, terminal_fail_only,
  NotificationSubscription, Answer, ChannelResult, DeliveryStatus, NotificationDelivery, dispatch,
  triggers_for_status, is_selected, add_delivery, fan_out, dispatch_matching, dispatch_run,
  result_of, settled, new_delivery, same_trigger,
}

-- The runs that a trigger asks for.
unfoldable pub asks_for : NotificationTrigger → RunStatus → Bool
asks_for terminal_any status = is_terminal status
asks_for terminal_fail_only RunStatus.completed = false
asks_for terminal_fail_only status = is_terminal status

unfoldable pub is_subscribed : RunStatus → Uuid → NotificationSubscription → Bool
is_subscribed status plan_id sub =
    asks_for sub.trigger status
    && (holds sub.plan_id plan_id || (elim sub.plan_id [ none ↦ true | some _ ↦ false ]))

-- A row has a time of sending exactly when it is sent, and a row that is sent has no error.
abbrev pub IsConsistent : NotificationDelivery → Type 0
IsConsistent d = elim d.status [
  | DeliveryStatus.sent ↦ (d.has_sent_at ≡ true) × (d.last_error ≡ none)
  | _ ↦ d.has_sent_at ≡ false
]

IsConsistent-if :
    (b : Bool) (x y : NotificationDelivery)
    → IsConsistent x
    → IsConsistent y
    → IsConsistent (if b then x else y)
IsConsistent-if true x y h k = h
IsConsistent-if false x y h k = k

settled-IsConsistent :
    (r : ChannelResult) (sub : NotificationSubscription) (run_id : Option Uuid) (is_test : Bool)
    → IsConsistent (settled r (new_delivery sub run_id is_test))
unfolding settled new_delivery
settled-IsConsistent r sub run_id is_test =
    IsConsistent-if (r.pending && not r.accepted) _ _ refl
      (IsConsistent-if r.accepted _ _ (refl, refl) refl)

settled-subscription_id :
    (r : ChannelResult) (d : NotificationDelivery)
    → (settled r d).subscription_id ≡ d.subscription_id
unfolding settled
settled-subscription_id r d = ground arith

asked-any :
    (t : NotificationTrigger) (st : RunStatus)
    → any (same_trigger t) (triggers_for_status st) ≡ asks_for t st
unfolding same_trigger triggers_for_status asks_for is_terminal
asked-any t st = ground arith

is_selected-is_subscribed :
    (st : RunStatus) (plan_id : Uuid) (sub : NotificationSubscription)
    → is_selected (triggers_for_status st) plan_id sub ≡ is_subscribed st plan_id sub
unfolding is_selected is_subscribed
is_selected-is_subscribed st plan_id sub = rw (asked-any sub.trigger st) refl

unselected : (plan_id : Uuid) (sub : NotificationSubscription) → is_selected [] plan_id sub ≡ false
unfolding is_selected
unselected plan_id sub = refl

-- How many of the rows are of a subscription.
unfoldable pub rows_of : Uuid → List NotificationDelivery → ℕ
rows_of id rows = count_by (λ d. d.subscription_id == id) rows

rows_of-cons :
    (id x : Uuid) (d : NotificationDelivery) (rows : List NotificationDelivery)
    → d.subscription_id ≡ x
    → rows_of id (d ∷ rows) ≡ rows_of id rows + (if x == id then 1 else 0)
unfolding rows_of
rows_of-cons id x d rows p =
    count_by-cons (λ d. d.subscription_id == id) d rows
    ∙ ap (λ y. rows_of id rows + (if y == id then 1 else 0)) p

rows_of-nil : (id : Uuid) → rows_of id [] ≡ 0
unfolding rows_of
rows_of-nil id = refl

unfoldable pub is_stored_for :
    (NotificationSubscription → Answer) → Uuid → NotificationSubscription → Bool
is_stored_for answers id sub = (answers sub).stored && (sub.id == id)

module _ (registered : NotificationChannel → Bool)
    (answers : NotificationSubscription → Answer) where
  dispatch-rows_of :
      (sub : NotificationSubscription) (run_id : Uuid) (id : Uuid)
      (rows : List NotificationDelivery)
      → rows_of id (add_delivery (dispatch registered answers sub (some run_id) false) rows)
        ≡ rows_of id rows + (if is_stored_for answers id sub then 1 else 0)
  unfolding dispatch add_delivery new_delivery is_stored_for
  dispatch-rows_of sub run_id id rows = elim (Bool-cases (answers sub).stored) [
    | inl e ↦ elim (Bool-cases (registered sub.channel)) [
      | inl f ↦ rw e (
          rw f (
            rows_of-cons id sub.id
              (settled (result_of (answers sub).send) (new_delivery sub (some run_id) false)) rows
              (settled-subscription_id (result_of (answers sub).send)
                (new_delivery sub (some run_id) false))))
      | inr f ↦ rw e (rw f (rows_of-cons id sub.id _ rows refl))
    ]
    | inr e ↦ rw e (omega arith)
  ]

  dispatch-IsConsistent :
      (sub : NotificationSubscription) (run_id : Uuid) (rows : List NotificationDelivery)
      → All IsConsistent rows
      → All IsConsistent (add_delivery (dispatch registered answers sub (some run_id) false) rows)
  unfolding dispatch add_delivery new_delivery
  dispatch-IsConsistent sub run_id rows h = elim (Bool-cases (answers sub).stored) [
    | inl e ↦ elim (Bool-cases (registered sub.channel)) [
      | inl f ↦
          rw e
            (rw f (settled-IsConsistent (result_of (answers sub).send) sub (some run_id) false, h))
      | inr f ↦ rw e (rw f (refl, h))
    ]
    | inr e ↦ rw e h
  ]

  fan_out-rows_of :
      (run_id id : Uuid) (subs : List NotificationSubscription)
      → rows_of id (fan_out registered answers run_id subs)
        ≡ count_by (is_stored_for answers id) subs
  unfolding fan_out
  fan_out-rows_of run_id id [] = rows_of-nil id
  fan_out-rows_of run_id id (sub ∷ subs) =
      dispatch-rows_of sub run_id id (fan_out registered answers run_id subs)
      ∙ ap (λ k. k + (if is_stored_for answers id sub then 1 else 0))
          (fan_out-rows_of run_id id subs)
      ∙ sym (count_by-cons (is_stored_for answers id) sub subs)

  fan_out-nil : (run_id : Uuid) → fan_out registered answers run_id [] ≡ []
  unfolding fan_out
  fan_out-nil run_id = refl

  fan_out-IsConsistent :
      (run_id : Uuid) (subs : List NotificationSubscription)
      → All IsConsistent (fan_out registered answers run_id subs)
  unfolding fan_out
  fan_out-IsConsistent run_id [] = tt
  fan_out-IsConsistent run_id (sub ∷ subs) =
      dispatch-IsConsistent sub run_id (fan_out registered answers run_id subs)
        (fan_out-IsConsistent run_id subs)

  dispatch_run-selected :
      (table : List NotificationSubscription) (plan_id run_id : Uuid) (st : RunStatus)
      → dispatch_run registered answers table (some plan_id) run_id st
        ≡ fan_out registered answers run_id
            (select (is_selected (triggers_for_status st) plan_id) table)
  unfolding dispatch_run dispatch_matching triggers_for_status
  dispatch_run-selected table plan_id run_id RunStatus.pending = sym (
      ap (fan_out registered answers run_id)
        (select-none (is_selected [] plan_id) (unselected plan_id) table)
      ∙ fan_out-nil run_id)
  dispatch_run-selected table plan_id run_id RunStatus.running = sym (
      ap (fan_out registered answers run_id)
        (select-none (is_selected [] plan_id) (unselected plan_id) table)
      ∙ fan_out-nil run_id)
  dispatch_run-selected table plan_id run_id RunStatus.completed = refl
  dispatch_run-selected table plan_id run_id RunStatus.completed_with_errors = refl
  dispatch_run-selected table plan_id run_id RunStatus.failed = refl
  dispatch_run-selected table plan_id run_id RunStatus.aborted = refl

  -- The rows that `dispatch_run` leaves are those of a fan-out to the subscribers.
  dispatch_run-fan_out :
      (table : List NotificationSubscription) (plan_id run_id : Uuid) (st : RunStatus)
      → dispatch_run registered answers table (some plan_id) run_id st
        ≡ fan_out registered answers run_id (select (is_subscribed st plan_id) table)
  dispatch_run-fan_out table plan_id run_id st =
      dispatch_run-selected table plan_id run_id st
      ∙ ap (fan_out registered answers run_id) (
          select-ext (is_selected (triggers_for_status st) plan_id) (is_subscribed st plan_id)
            (is_selected-is_subscribed st plan_id) table)

-- The notification of a run that exists, for any subscriptions, channels and answers of theirs: every
-- subscription to all plans or the run's, whose trigger asks for the status, gets exactly one row
-- unless the row can not be stored, and no other subscription gets one; a run that has not ended gets
-- none. A row has a time of sending exactly when it is sent, and a sent row has no error.
pub dispatch_run-IsNotified :
    (registered : NotificationChannel → Bool) (answers : NotificationSubscription → Answer)
    (table : List NotificationSubscription) (plan_id run_id : Uuid) (st : RunStatus)
    → ((id : Uuid)
        → rows_of id (dispatch_run registered answers table (some plan_id) run_id st)
          ≡ count_by (is_stored_for answers id) (select (is_subscribed st plan_id) table))
      × All IsConsistent (dispatch_run registered answers table (some plan_id) run_id st)
dispatch_run-IsNotified registered answers table plan_id run_id st =
    let subs = select (is_subscribed st plan_id) table in
    rw (dispatch_run-fan_out registered answers table plan_id run_id st) (
      (λ id. fan_out-rows_of registered answers run_id id subs),
      fan_out-IsConsistent registered answers run_id subs,
    )
