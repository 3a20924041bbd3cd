-- ===== src/Billing/Service/Repeats.antt =====
-- The same event a second time.
use order_billing_system.Base.Tests.{◌≡◌, ◌≢◌, refl, sym, ◌∙◌, ap, inl, inr, Option, some, arith}
use mathlib.Core.Option.{some-injective}
use order_billing_system.Base.Texts.{String, eq_iff, eq_refl}
use order_billing_system.Shared.Errors.{GoError}
use order_billing_system.Shared.Effects.{ok, err, Result-cases}
use order_billing_system.Shared.Effects.Contracts.{Ends, Ends-weaken}
use order_billing_system.Billing.Model.{
  Invoice, OrderPaidEvent, OrderCancelledEvent, invoice_status_pending, invoice_status_paid,
  invoice_status_cancelled,
}
use order_billing_system.Billing.Environment.{Environment, Ledger, Documented, update}
use order_billing_system.Billing.Service.{handle_order_paid, handle_order_cancelled}
use order_billing_system.Billing.Service.Writes.{Unchanged, NotFound}
use order_billing_system.Billing.Service.Events.{
  handle_order_paid_outcome, handle_order_cancelled_outcome,
}

update_self : {A : Type 0} (f : String → Option A) (k : String) (v : A) → update f k v k ≡ some v
update_self f k v = simp eq_refl

paid_not_pending : invoice_status_paid ≢ invoice_status_pending
paid_not_pending = λ e. ground (arith, eq_iff invoice_status_paid invoice_status_pending)

cancelled_not_pending : invoice_status_cancelled ≢ invoice_status_pending
cancelled_not_pending = λ e. ground (arith, eq_iff invoice_status_cancelled invoice_status_pending)

status_of :
    {row : Option Invoice} {a b : Invoice} {status : String}
    → row ≡ some a
    → row ≡ some b
    → a.status ≡ status
    → b.status ≡ status
status_of {a} {b} here there known =
    let same : b ≡ a = some-injective _ _ (sym there ∙ here) in
    ap (λ (i : Invoice). i.status) same ∙ known

module _ (env : Environment) (doc : Documented env) where
  -- A payment that was handled is refused when it comes again, as long as the ledger is as the first
  -- handling left it: the invoice is PAID, and the second handling changes nothing.
  pub handle_order_paid_again :
      (event : OrderPaidEvent) (w v : env.World)
      → (handle_order_paid env event w).0 ≡ ok tt
      → doc.ledger v ≡ doc.ledger (handle_order_paid env event w).1
      → (e : GoError) × ((handle_order_paid env event v).0 ≡ err e)
        × Unchanged env doc (doc.ledger v) (handle_order_paid env event v).1
  handle_order_paid_again event w v done same =
      let k = event.order_id in
      let (inv, row, (pending, after)) =
        (handle_order_paid_outcome env doc event w).on_ok tt done in
      let second = handle_order_paid_outcome env doc event v in
      elim (Result-cases (handle_order_paid env event v).0) [
        | inr (e, refused) ↦
            (e, refused, elim (second.on_err e refused) [ inl h ↦ h.2 | inr h ↦ h.2.1 ])
        | inl (_, again) ↦
            let (inv2, row2, (pending2, _)) = second.on_ok tt again in
            let stored =
              ap (λ (l : Ledger). l.invoices k) (same ∙ after)
              ∙ update_self (doc.ledger w).invoices k _ in
            let paid = some-injective _ _ (sym row2 ∙ stored) in
            absurd (paid_not_pending (sym (ap (λ (i : Invoice). i.status) paid) ∙ pending2))
      ]

  cancelled_row :
      (event : OrderCancelledEvent) (w v : env.World)
      → (handle_order_cancelled env event w).0 ≡ ok tt
      → doc.ledger v ≡ doc.ledger (handle_order_cancelled env event w).1
      → (inv : Invoice) × ((doc.ledger v).invoices event.order_id ≡ some inv)
        × (inv.status ≡ invoice_status_cancelled)
  cancelled_row event w v done same =
      let k = event.order_id in
      let (inv, row, h) = (handle_order_cancelled_outcome env doc event w).on_ok tt done in
      elim h [
        | inl (pending, after) ↦ (
          _,
          ap (λ (l : Ledger). l.invoices k) (same ∙ after)
              ∙ update_self (doc.ledger w).invoices k _,
          refl,
        )
        | inr (already, after) ↦
            (inv, ap (λ (l : Ledger). l.invoices k) (same ∙ after) ∙ row, already)
      ]

  -- A cancellation that was handled may come again, as long as the ledger is as the first handling
  -- left it: the second handling changes nothing, and it fails only if its query does.
  handle_order_cancelled_again :
      (event : OrderCancelledEvent) (w v : env.World)
      → (handle_order_cancelled env event w).0 ≡ ok tt
      → doc.ledger v ≡ doc.ledger (handle_order_cancelled env event w).1
      → Ends
          (λ _. Unchanged env doc (doc.ledger v))
          (NotFound env doc event.order_id v)
          (handle_order_cancelled env event v)
  handle_order_cancelled_again event w v done same =
      let (inv, row, status) = cancelled_row event w v done same in
      Ends-weaken (handle_order_cancelled_outcome env doc event v)
        (λ _ (inv2, row2, h). elim h [
          | inl (pending, _) ↦
              absurd (cancelled_not_pending (sym (status_of row row2 status) ∙ pending))
          | inr (_, kept) ↦ kept
        ])
        (λ e h. elim h [
          | inl missing ↦ missing
          | inr (inv2, row2, (why, kept)) ↦ elim why [
            | inl (_, _, other) ↦ absurd (other (status_of row row2 status))
            | inr (_, pending) ↦
                absurd (cancelled_not_pending (sym (status_of row row2 status) ∙ pending))
          ]
        ])
