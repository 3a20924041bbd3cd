-- ===== src/Order/Service/Transitions.antt =====
-- What the three methods that write do to the tables, on every branch.
use order_billing_system.Base.Tests.{◌≡◌, ◌≢◌, ◌↔◌, refl, ◌∙◌, ◌⊎◌, inl, inr, true, arith, not}
use order_billing_system.Base.Texts.{String, str_eq, eq_iff}
use order_billing_system.Base.Integers.{ℤ}
use order_billing_system.Shared.Errors.{
  GoError, app, err_internal_error, HasCode, internal_code, order_state_code,
}
use order_billing_system.Shared.Effects.{Act, pure, or_fail, notify, ◌>>◌}
use order_billing_system.Shared.Effects.Contracts.{
  Ends, Ends-ok, Ends-err, Ends-or_fail, Ends-if, Ends-bind, Ends-weaken,
}
use order_billing_system.Order.Model.{
  Order, Event, paid, cancelled, order_status_created, order_status_paid, order_status_cancelled,
  event_order_paid, event_order_cancelled,
}
use order_billing_system.Order.Environment.{
  Environment, OrderMetric, Tables, Documented, orders_paid_total, orders_cancelled_total,
}
use order_billing_system.Order.Service.{OrderService, write_with_outbox, pay, cancel}
use order_billing_system.Order.Service.Writes.{Committed, write_outcome}

-- The end that the three methods share: the write, the counter, and the order returned.
abbrev pub written :
    (env : Environment)
    → OrderService
    → Order
    → Event
    → String
    → String
    → OrderMetric
    → Act env.World Order
written env s order ev ev_type message metric = do
  or_fail (write_with_outbox env s order ev ev_type) (λ _. app (err_internal_error message))
  notify (env.increment metric)
  pure order

module _ (env : Environment) (doc : Documented env) (s : OrderService) where
  pub written_outcome :
      (order : Order) (ev : Event) (ev_type message : String) (metric : OrderMetric) (w : env.World)
      → Ends
          (λ o w'. (o ≡ order) × Committed env doc s order ev_type ev (doc.tables w) w')
          (λ e w'. HasCode "ERR_INTERNAL" e × (doc.tables w' ≡ doc.tables w))
          (written env s order ev ev_type message metric w)
  written_outcome order ev ev_type message metric w =
      let write = write_with_outbox env s order ev ev_type in
      let failed : GoError → GoError = λ _. app (err_internal_error message) in
      let finish : Unit {0} → Act env.World Order =
        λ _. notify (env.increment metric) >> pure order in
      Ends-bind {Q = λ e w'. HasCode "ERR_INTERNAL" e × (doc.tables w' ≡ doc.tables w)}
        (or_fail write failed) finish w
        (Ends-or_fail write failed w (write_outcome env doc s order ev ev_type w)
          (λ e kept. (internal_code message, kept)))
        (λ _ (row, queued, rows).
          Ends-ok order _ (refl, (row, queued, doc.increment_keeps metric _ ∙ rows)))
        (λ e h. h)

  -- The order is CREATED and is now PAID, with a payment event queued.
  abbrev pub Paid : Tables → Order → Order → env.World → Type 0
  Paid before order changed w' =
      (order.status ≡ order_status_created)
      × (changed ≡ record order { status = order_status_paid })
      × ((at : ℤ) × Committed env doc s changed event_order_paid
            (paid (record { order_id = changed.id; paid_at = at })) before w')

  -- Only the status decides which error a payment meets.
  abbrev pub NotPaid : Tables → Order → GoError → env.World → Type 0
  NotPaid before order e w' =
      ((HasCode "ERR_INVALID_ORDER_STATE" e × (order.status ≢ order_status_created))
        ⊎ (HasCode "ERR_INTERNAL" e × (order.status ≡ order_status_created)))
      × (doc.tables w' ≡ before)

  pub pay_outcome :
      (order : Order) (w : env.World)
      → Ends (Paid (doc.tables w) order) (NotPaid (doc.tables w) order) (pay env s order w)
  unfolding pay
  pay_outcome order w =
      Ends-if (not (str_eq order.status order_status_created)) _ _ w
        (λ other. Ends-err _ w (inl (order_state_code _, ground (arith, created_iff)), refl))
        (λ same. rw (doc.time_now_keeps w) at (change (ground (arith, created_iff))))
    where
      created_iff :
          (str_eq order.status order_status_created ≡ true) ↔ (order.status ≡ order_status_created)
      created_iff = eq_iff order.status order_status_created

      changed : Order
      changed = record order { status = order_status_paid }

      event : Event
      event = paid (record { order_id = order.id; paid_at = (env.time_now w).0.unix })

      change :
          order.status ≡ order_status_created
          → Ends
              (Paid (doc.tables (env.time_now w).1) order)
              (NotPaid (doc.tables (env.time_now w).1) order)
              (written env s changed event event_order_paid "failed to update order"
                orders_paid_total
                (env.time_now w).1)
      change is_created =
          Ends-weaken
            (written_outcome changed event event_order_paid "failed to update order"
              orders_paid_total (env.time_now w).1)
            (λ o (named, committed).
              rw named (is_created, refl, ((env.time_now w).0.unix, committed)))
            (λ e (code, kept). (inr (code, is_created), kept))

  -- The order was neither PAID nor CANCELLED and is now CANCELLED, with a cancellation event
  -- queued; or it was CANCELLED, and no row has changed.
  abbrev pub Cancelled : Tables → Order → Order → env.World → Type 0
  Cancelled before order changed w' =
      ((order.status ≢ order_status_paid)
        × (order.status ≢ order_status_cancelled)
        × (changed ≡ record order { status = order_status_cancelled })
        × ((at : ℤ) × Committed env doc s changed event_order_cancelled
              (cancelled (record { order_id = changed.id; cancelled_at = at })) before w'))
      ⊎ ((order.status ≡ order_status_cancelled) × (changed ≡ order) × (doc.tables w' ≡ before))

  abbrev pub NotCancelled : Tables → Order → GoError → env.World → Type 0
  NotCancelled before order e w' =
      ((HasCode "ERR_INVALID_ORDER_STATE" e × (order.status ≡ order_status_paid))
        ⊎ (HasCode "ERR_INTERNAL" e
            × (order.status ≢ order_status_paid)
            × (order.status ≢ order_status_cancelled)))
      × (doc.tables w' ≡ before)

  pub cancel_outcome :
      (order : Order) (w : env.World)
      → Ends
          (Cancelled (doc.tables w) order)
          (NotCancelled (doc.tables w) order)
          (cancel env s order w)
  unfolding cancel
  cancel_outcome order w =
      Ends-if (str_eq order.status order_status_paid) _ _ w
        (λ is_paid. Ends-err _ w (inl (order_state_code _, paid_iff.0 is_paid), refl))
        (λ not_paid.
          Ends-if (str_eq order.status order_status_cancelled) _ _ w
            (λ again. Ends-ok order w (inr (cancelled_iff.0 again, refl, refl)))
            (λ first.
              rw (doc.time_now_keeps w) at
                (change (ground (arith, paid_iff)) (ground (arith, cancelled_iff)))))
    where
      paid_iff : (str_eq order.status order_status_paid ≡ true) ↔ (order.status ≡ order_status_paid)
      paid_iff = eq_iff order.status order_status_paid

      cancelled_iff :
          (str_eq order.status order_status_cancelled ≡ true)
          ↔ (order.status ≡ order_status_cancelled)
      cancelled_iff = eq_iff order.status order_status_cancelled

      changed : Order
      changed = record order { status = order_status_cancelled }

      event : Event
      event = cancelled (record { order_id = order.id; cancelled_at = (env.time_now w).0.unix })

      change :
          order.status ≢ order_status_paid
          → order.status ≢ order_status_cancelled
          → Ends
              (Cancelled (doc.tables (env.time_now w).1) order)
              (NotCancelled (doc.tables (env.time_now w).1) order)
              (written env s changed event event_order_cancelled "failed to update order"
                orders_cancelled_total
                (env.time_now w).1)
      change not_paid not_cancelled =
          Ends-weaken
            (written_outcome changed event event_order_cancelled "failed to update order"
              orders_cancelled_total (env.time_now w).1)
            (λ o (named, committed).
              rw named (inl (not_paid, not_cancelled, refl, ((env.time_now w).0.unix, committed))))
            (λ e (code, kept). (inr (code, not_paid, not_cancelled), kept))
