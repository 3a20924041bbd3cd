-- ===== src/Billing/Lifecycle.antt =====
-- The statuses that the invoice of one order goes through, apart from the code: what the handlers of
-- billing_service/internal/service/billing.go together may do to one row of `invoices`.
pub mod Final
use order_billing_system.Base.Tests.{◌≡◌, Option, none, some}
use order_billing_system.Shared.Effects.{Time}
use order_billing_system.Billing.Model.{
  Invoice, invoice_status_pending, invoice_status_paid, invoice_status_cancelled,
}

-- One handled event, seen from the invoice of one order.
pub data Move : Option Invoice → Option Invoice → Type 0 where
  stays : {row : Option Invoice} → Move row row
  issued : {inv : Invoice} → inv.status ≡ invoice_status_pending → Move none (some inv)
  paid :
      {inv : Invoice} {at : Time}
      → inv.status ≡ invoice_status_pending
      → Move (some inv) (some (record inv { status = invoice_status_paid; paid_at = some at }))
  cancelled :
      {inv : Invoice}
      → inv.status ≡ invoice_status_pending
      → Move (some inv) (some (record inv { status = invoice_status_cancelled }))

-- Any number of handled events, in the order in which they were handled.
pub data Moves : Option Invoice → Option Invoice → Type 0 where
  stop : {row : Option Invoice} → Moves row row
  next : {a b c : Option Invoice} → Move a b → Moves b c → Moves a c
