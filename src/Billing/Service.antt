-- ===== src/Billing/Service.antt =====
-- billing_service/internal/service/billing.go.
pub mod Writes
pub mod Outcomes
pub mod Events
pub mod Repeats
use order_billing_system.Base.Tests.{ℕ, ◌==◌, Option, none, some, not, if◌then◌else◌}
use order_billing_system.Base.Texts.{String, str_eq, sprint}
use order_billing_system.Base.Lists.{[], ◌∷◌}
use order_billing_system.Base.Integers.{pos}
use order_billing_system.Shared.Errors.{
  GoError, app, err_not_found, err_internal_error, err_invalid_order_state,
}
use order_billing_system.Shared.Money
use order_billing_system.Shared.Effects.{
  Time, Act, pure, fail, call, or_fail, attempt, notify, ◌>>=◌, ◌>>◌,
}
use order_billing_system.Billing.Model.{
  Invoice, InvoiceMoney, OrderCreatedEvent, OrderPaidEvent, OrderCancelledEvent,
  invoice_status_pending, invoice_status_paid, invoice_status_cancelled,
}
use order_billing_system.Billing.Environment.{
  Environment, invoices_created_total, invoices_paid_total, invoices_cancelled_total,
  invoice_state_inc, invoice_state_dec,
}
use order_billing_system.Billing.Repository.{create, get, update_status}

-- `i.Money(event.Total)`
pub to_invoice_money : Money.Money → InvoiceMoney
to_invoice_money m = record { amount = m.amount; currency = m.currency }

module _ (env : Environment) where
  -- What follows the check for an existing invoice.
  unfoldable pub create_for : OrderCreatedEvent → Act env.World (Unit {0})
  unfolding to_invoice_money
  create_for event = do
    invoice_id ← call env.new_uuid
    let invoice : Invoice = record {
      id = invoice_id;
      order_id = event.order_id;
      amount = to_invoice_money event.total;
      status = invoice_status_pending;
      created_at = event.created_at;
      paid_at = none;
    }
    or_fail (create env invoice) (λ _. app (err_internal_error "failed to create invoice"))
    notify (env.observe invoices_created_total)
    notify (env.observe (invoice_state_inc "pending"))

  skip_or_create : Option Invoice → OrderCreatedEvent → Act env.World (Unit {0})
  skip_or_create (some existing) event = pure tt
  skip_or_create none event = create_for event

  -- `Get` returns an invoice with a nil error, or nil with an error.
  unfoldable pub handle_order_created : OrderCreatedEvent → Act env.World (Unit {0})
  unfolding skip_or_create
  handle_order_created event = do
    existing ← attempt (get env event.order_id)
    skip_or_create existing event

  unfoldable pub find_invoice : String → Act env.World Invoice
  find_invoice order_id = or_fail (get env order_id) (λ _. app (err_not_found "invoice not found"))

  unfoldable pub pay : OrderPaidEvent → Invoice → Act env.World (Unit {0})
  pay event invoice =
      if not (str_eq invoice.status invoice_status_pending)
      then fail (app (err_invalid_order_state "invoice cannot be paid: not in PENDING status"))
      else do
        or_fail
            (update_status env event.order_id invoice_status_paid
              (some (record { unix = event.paid_at; nanos = pos 0 })))
            (λ _. app (err_internal_error "failed to update invoice status"))
        notify (env.observe invoices_paid_total)
        notify (env.observe (invoice_state_dec "pending"))
        notify (env.observe (invoice_state_inc "paid"))

  unfoldable pub handle_order_paid : OrderPaidEvent → Act env.World (Unit {0})
  handle_order_paid event = find_invoice event.order_id >>= pay event

  unfoldable pub cancel : OrderCancelledEvent → Invoice → Act env.World (Unit {0})
  cancel event invoice =
      if str_eq invoice.status invoice_status_paid
      then fail (app (err_invalid_order_state "paid invoice cannot be cancelled"))
      else if str_eq invoice.status invoice_status_cancelled
      then pure tt
      else if not (str_eq invoice.status invoice_status_pending)
      then fail (
          app (
            err_invalid_order_state
              (sprint ("cannot cancel invoice in status " ∷ invoice.status ∷ []))))
      else do
        or_fail (update_status env event.order_id invoice_status_cancelled none)
            (λ _. app (err_internal_error "failed to update invoice status"))
        notify (env.observe invoices_cancelled_total)
        notify (env.observe (invoice_state_dec "pending"))
        notify (env.observe (invoice_state_inc "cancelled"))

  unfoldable pub handle_order_cancelled : OrderCancelledEvent → Act env.World (Unit {0})
  handle_order_cancelled event = find_invoice event.order_id >>= cancel event
