-- ===== src/Billing/Service/Outcomes.antt =====
-- What the three event handlers of the billing service do to the invoices, on every branch.
use order_billing_system.Base.Tests.{
  ◌≡◌, ◌≢◌, ◌↔◌, refl, ◌⊎◌, inl, inr, true, none, some, arith, not,
}
use order_billing_system.Base.Texts.{str_eq, eq_iff}
use order_billing_system.Base.Integers.{pos}
use order_billing_system.Shared.Errors.{GoError, HasCode, order_state_code}
use order_billing_system.Shared.Effects.Contracts.{Ends, Ends-ok, Ends-err, Ends-if, Ends-weaken}
use order_billing_system.Billing.Model.{
  Invoice, OrderPaidEvent, OrderCancelledEvent, invoice_status_pending, invoice_status_paid,
  invoice_status_cancelled,
}
use order_billing_system.Billing.Environment.{
  Environment, Ledger, Documented, invoices_paid_total, invoices_cancelled_total, invoice_state_inc,
  invoice_state_dec,
}
use order_billing_system.Billing.Service.Writes.{
  put_invoice, Unchanged, update_status_outcome, observed_outcome,
}
use order_billing_system.Billing.Repository.{update_status}
use order_billing_system.Billing.Service.{pay, cancel}

module _ (env : Environment) (doc : Documented env) where
  -- The invoice that was read was PENDING, and the row is now PAID at the time of the event.
  abbrev pub PaidOver : OrderPaidEvent → Invoice → Invoice → Ledger → env.World → Type 0
  PaidOver event inv row before w' =
      (inv.status ≡ invoice_status_pending)
      × (doc.ledger w'
          ≡ put_invoice event.order_id
              (record row {
                status = invoice_status_paid;
                paid_at = some (record { unix = event.paid_at; nanos = pos 0 });
              })
              before)

  -- The invoice was PENDING and is now PAID at the time of the event.
  abbrev pub Paid : OrderPaidEvent → Invoice → Ledger → env.World → Type 0
  Paid event inv = PaidOver event inv inv

  abbrev pub NotPaid : Invoice → Ledger → GoError → env.World → Type 0
  NotPaid inv before e w' =
      ((HasCode "ERR_INVALID_ORDER_STATE" e × (inv.status ≢ invoice_status_pending))
        ⊎ (HasCode "ERR_INTERNAL" e × (inv.status ≡ invoice_status_pending)))
      × Unchanged env doc before w'

  -- The row that is written is the one that is there then, whatever invoice was read before.
  pub pay_over :
      (event : OrderPaidEvent) (inv row : Invoice) (w : env.World)
      → (doc.ledger w).invoices event.order_id ≡ some row
      → Ends
          (λ _. PaidOver event inv row (doc.ledger w))
          (NotPaid inv (doc.ledger w))
          (pay env event inv w)
  unfolding pay
  pay_over event inv row w found =
      Ends-if (not (str_eq inv.status invoice_status_pending)) _ _ w
        (λ other. Ends-err _ w (inl (order_state_code _, ground (arith, pending_iff)), refl))
        (λ same.
          let pending : inv.status ≡ invoice_status_pending = ground (arith, pending_iff) in
          Ends-weaken
            (observed_outcome env doc
              (update_status env event.order_id invoice_status_paid
                (some (record { unix = event.paid_at; nanos = pos 0 })))
              "failed to update invoice status" invoices_paid_total (invoice_state_dec "pending")
              (invoice_state_inc "paid") w _
              (update_status_outcome env doc event.order_id invoice_status_paid
                (some (record { unix = event.paid_at; nanos = pos 0 })) w found))
            (λ _ after. (pending, after)) (λ e (code, kept). (inr (code, pending), kept)))
    where
      pending_iff :
          (str_eq inv.status invoice_status_pending ≡ true) ↔ (inv.status ≡ invoice_status_pending)
      pending_iff = eq_iff inv.status invoice_status_pending

  pub pay_outcome :
      (event : OrderPaidEvent) (inv : Invoice) (w : env.World)
      → (doc.ledger w).invoices event.order_id ≡ some inv
      → Ends (λ _. Paid event inv (doc.ledger w)) (NotPaid inv (doc.ledger w)) (pay env event inv w)
  pay_outcome event inv = pay_over event inv inv

  -- The invoice was PENDING and is now CANCELLED, its payment time as it was; or it was CANCELLED,
  -- and the ledger is unchanged.
  abbrev pub CancelledOver : OrderCancelledEvent → Invoice → Invoice → Ledger → env.World → Type 0
  CancelledOver event inv row before w' =
      ((inv.status ≡ invoice_status_pending)
        × (doc.ledger w'
            ≡ put_invoice event.order_id (record row { status = invoice_status_cancelled }) before))
      ⊎ ((inv.status ≡ invoice_status_cancelled) × Unchanged env doc before w')

  abbrev pub Cancelled : OrderCancelledEvent → Invoice → Ledger → env.World → Type 0
  Cancelled event inv = CancelledOver event inv inv

  abbrev pub NotCancelled : Invoice → Ledger → GoError → env.World → Type 0
  NotCancelled inv before e w' =
      ((HasCode "ERR_INVALID_ORDER_STATE" e
          × (inv.status ≢ invoice_status_pending)
          × (inv.status ≢ invoice_status_cancelled))
        ⊎ (HasCode "ERR_INTERNAL" e × (inv.status ≡ invoice_status_pending)))
      × Unchanged env doc before w'

  pub cancel_over :
      (event : OrderCancelledEvent) (inv row : Invoice) (w : env.World)
      → (doc.ledger w).invoices event.order_id ≡ some row
      → Ends
          (λ _. CancelledOver event inv row (doc.ledger w))
          (NotCancelled inv (doc.ledger w))
          (cancel env event inv w)
  unfolding cancel
  cancel_over event inv row w found =
      Ends-if (str_eq inv.status invoice_status_paid) _ _ w
        (λ is_paid. Ends-err _ w (
          inl (
            order_state_code _,
            ground (arith, paid_iff, pending_iff, distinct.0),
            ground (arith, paid_iff, cancelled_iff, distinct.1),
          ),
          refl,
        ))
        (λ _.
          Ends-if (str_eq inv.status invoice_status_cancelled) _ _ w
            (λ again. Ends-ok tt w (inr (cancelled_iff.0 again, refl)))
            (λ first.
              Ends-if (not (str_eq inv.status invoice_status_pending)) _ _ w
                (λ other. Ends-err _ w (
                  inl (
                    order_state_code _,
                    ground (arith, pending_iff),
                    ground (arith, cancelled_iff),
                  ),
                  refl,
                ))
                (λ same.
                  let pending : inv.status ≡ invoice_status_pending = ground (arith, pending_iff) in
                  Ends-weaken
                    (observed_outcome env doc
                      (update_status env event.order_id invoice_status_cancelled none)
                      "failed to update invoice status" invoices_cancelled_total
                      (invoice_state_dec "pending") (invoice_state_inc "cancelled") w _
                      (update_status_outcome env doc event.order_id invoice_status_cancelled none w
                        found))
                    (λ _ after. inl (pending, after))
                    (λ e (code, kept). (inr (code, pending), kept)))))
    where
      pending_iff :
          (str_eq inv.status invoice_status_pending ≡ true) ↔ (inv.status ≡ invoice_status_pending)
      pending_iff = eq_iff inv.status invoice_status_pending

      paid_iff : (str_eq inv.status invoice_status_paid ≡ true) ↔ (inv.status ≡ invoice_status_paid)
      paid_iff = eq_iff inv.status invoice_status_paid

      cancelled_iff :
          (str_eq inv.status invoice_status_cancelled ≡ true)
          ↔ (inv.status ≡ invoice_status_cancelled)
      cancelled_iff = eq_iff inv.status invoice_status_cancelled

      distinct :
          (invoice_status_paid ≢ invoice_status_pending)
          × (invoice_status_paid ≢ invoice_status_cancelled)
      distinct = (
        ground (arith, eq_iff invoice_status_paid invoice_status_pending),
        ground (arith, eq_iff invoice_status_paid invoice_status_cancelled),
      )

  pub cancel_outcome :
      (event : OrderCancelledEvent) (inv : Invoice) (w : env.World)
      → (doc.ledger w).invoices event.order_id ≡ some inv
      → Ends
          (λ _. Cancelled event inv (doc.ledger w))
          (NotCancelled inv (doc.ledger w))
          (cancel env event inv w)
  cancel_outcome event inv = cancel_over event inv inv
