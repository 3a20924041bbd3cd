-- ===== src/Billing/Concurrent/Race.antt =====
-- A payment and a cancellation of one order whose handlers have both read the invoice before either
-- has written it.
use order_billing_system.Base.Tests.{
  ℕ, ◌==◌, Option, ◌≡◌, refl, sym, ◌∙◌, ap, inl, inr, some, false,
}
use order_billing_system.Base.Texts.{String, eq_refl}
use order_billing_system.Base.Lists.{[], ◌∷◌}
use order_billing_system.Base.Integers.{pos}
use order_billing_system.Shared.Effects.{ok}
use order_billing_system.Billing.Model.{
  Invoice, OrderPaidEvent, OrderCancelledEvent, invoice_status_pending, invoice_status_paid,
  invoice_status_cancelled,
}
use order_billing_system.Billing.Environment.{Environment, Ledger, Documented, update}
use order_billing_system.Billing.Service.{pay, cancel}
use order_billing_system.Billing.Service.Outcomes.{pay_over, cancel_over}
use order_billing_system.Billing.Concurrent.{paying, cancelling, Service, writes, finish, act, run}
use order_billing_system.Billing.Concurrent.Onward.{distinct}

put_self : (k : String) (inv : Invoice) (f : String → Option Invoice) → update f k inv k ≡ some inv
put_self k inv f = rw (eq_refl k) refl

module _ (env : Environment) (doc : Documented env) where
  -- If the handlers of a payment and of a cancellation have both read an invoice while it was PENDING,
  -- then the cancellation that is written after the payment ends the invoice CANCELLED with the time of
  -- its payment, if neither write fails.
  pub run_cancels_paid_invoice :
      (i j : ℕ) (p : OrderPaidEvent) (c : OrderCancelledEvent) (inv : Invoice) (sv : Service env)
      → i == j ≡ false
      → sv.running i ≡ some (paying p inv)
      → sv.running j ≡ some (cancelling c inv)
      → c.order_id ≡ p.order_id
      → (doc.ledger sv.world).invoices p.order_id ≡ some inv
      → inv.status ≡ invoice_status_pending
      → (pay env p inv sv.world).0 ≡ ok tt
      → (cancel env c inv (pay env p inv sv.world).1).0 ≡ ok tt
      → (doc.ledger (run env (writes i ∷ writes j ∷ []) sv).world).invoices p.order_id
        ≡ some (record inv {
          status = invoice_status_cancelled;
          paid_at = some (record { unix = p.paid_at; nanos = pos 0 });
        })
  unfolding run act finish
  run_cancels_paid_invoice i j p c inv sv other pays cancels one_order found pending paid
        cancelled =
      let w1 = (pay env p inv sv.world).1 in
      let (_, rows) = (pay_over env doc p inv inv sv.world found).on_ok tt paid in
      let paid_inv : Invoice = record inv {
        status = invoice_status_paid;
        paid_at = some (record { unix = p.paid_at; nanos = pos 0 });
      } in
      let row : (doc.ledger w1).invoices p.order_id ≡ some paid_inv =
        ap (λ (l : Ledger). l.invoices p.order_id) rows
        ∙ put_self p.order_id paid_inv (doc.ledger sv.world).invoices in
      let row' : (doc.ledger w1).invoices c.order_id ≡ some paid_inv =
        ap (doc.ledger w1).invoices one_order ∙ row in
      rw (pays, other, cancels)
        (elim ((cancel_over env doc c inv paid_inv w1 row').on_ok tt cancelled) [
          | inl (_, over) ↦
              ap (λ (l : Ledger). l.invoices p.order_id) over
              ∙ rw (one_order) (
                  put_self p.order_id (record paid_inv { status = invoice_status_cancelled })
                    (doc.ledger w1).invoices)
          | inr (again, _) ↦ absurd (distinct.1 (sym again ∙ pending))
        ])
