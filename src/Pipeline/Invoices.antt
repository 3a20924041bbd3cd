-- ===== src/Pipeline/Invoices.antt =====
-- What a handler that has returned nil has made of the invoice of one order.
use order_billing_system.Base.Tests.{
  ◌≡◌, ◌≢◌, refl, sym, ◌∙◌, ap, inl, inr, none, some, false, arith,
}
use mathlib.Core.Option.{some-injective, none-ne-some}
use order_billing_system.Base.Texts.{String, str_eq, eq_iff, eq_refl}
use order_billing_system.Shared.Effects.{ok}
use order_billing_system.Billing.Model.{
  Invoice, OrderCreatedEvent, OrderPaidEvent, OrderCancelledEvent, invoice_status_pending,
  invoice_status_paid, invoice_status_cancelled,
}
use order_billing_system.Billing.Environment.{Environment, Ledger, Documented}
use order_billing_system.Billing.Service.{
  handle_order_created, handle_order_paid, handle_order_cancelled,
}
use order_billing_system.Billing.Service.Writes.{put_invoice}
use order_billing_system.Billing.Service.Events.{
  handle_order_created_outcome, handle_order_paid_outcome, handle_order_cancelled_outcome,
}
use order_billing_system.Pipeline.Stages.{Billed}

put_here :
    (order_id k : String) (inv : Invoice) (l : Ledger)
    → order_id ≡ k
    → (put_invoice order_id inv l).invoices k ≡ some inv
put_here order_id k inv l here = rw (here, eq_refl k) refl

put_beside :
    (order_id k : String) (inv : Invoice) (l : Ledger)
    → order_id ≢ k
    → (put_invoice order_id inv l).invoices k ≡ l.invoices k
put_beside order_id k inv l other =
    let different : str_eq order_id k ≡ false = ground (arith, eq_iff order_id k) in
    rw different refl

status_differs : (invoice_status_cancelled ≢ invoice_status_pending)
status_differs = λ e. ground (arith, eq_iff invoice_status_cancelled invoice_status_pending)

module _ (env : Environment) (doc : Documented env) (k : String) (w : env.World) where
  pub created_bills :
      (e : OrderCreatedEvent)
      → (handle_order_created env e w).0 ≡ ok tt
      → e.order_id ≡ k
      → (doc.ledger w).invoices k ≡ none
      → Billed ((doc.ledger (handle_order_created env e w).1).invoices k) invoice_status_pending
  created_bills e done here new = elim ((handle_order_created_outcome env doc e w).on_ok tt done) [
    | inl (inv, found, _) ↦
        absurd (none-ne-some inv (sym new ∙ ap (doc.ledger w).invoices (sym here) ∙ found))
    | inr (_, (invoice_id, rows)) ↦ (
      _,
      ap (λ (l : Ledger). l.invoices k) rows ∙ put_here e.order_id k _ (doc.ledger w) here,
      refl,
    )
  ]

  pub created_beside :
      (e : OrderCreatedEvent)
      → (handle_order_created env e w).0 ≡ ok tt
      → e.order_id ≢ k
      → (doc.ledger (handle_order_created env e w).1).invoices k ≡ (doc.ledger w).invoices k
  created_beside e done other = elim ((handle_order_created_outcome env doc e w).on_ok tt done) [
    | inl (_, _, same) ↦ ap (λ (l : Ledger). l.invoices k) same
    | inr (_, (_, rows)) ↦
        ap (λ (l : Ledger). l.invoices k) rows ∙ put_beside e.order_id k _ (doc.ledger w) other
  ]

  pub paid_bills :
      (e : OrderPaidEvent)
      → (handle_order_paid env e w).0 ≡ ok tt
      → e.order_id ≡ k
      → Billed ((doc.ledger (handle_order_paid env e w).1).invoices k) invoice_status_paid
  paid_bills e done here =
      let (_, _, (_, rows)) = (handle_order_paid_outcome env doc e w).on_ok tt done in
      (
        _,
        ap (λ (l : Ledger). l.invoices k) rows ∙ put_here e.order_id k _ (doc.ledger w) here,
        refl,
      )

  pub paid_beside :
      (e : OrderPaidEvent)
      → (handle_order_paid env e w).0 ≡ ok tt
      → e.order_id ≢ k
      → (doc.ledger (handle_order_paid env e w).1).invoices k ≡ (doc.ledger w).invoices k
  paid_beside e done other =
      let (_, _, (_, rows)) = (handle_order_paid_outcome env doc e w).on_ok tt done in
      ap (λ (l : Ledger). l.invoices k) rows ∙ put_beside e.order_id k _ (doc.ledger w) other

  pub cancelled_bills :
      (e : OrderCancelledEvent)
      → (handle_order_cancelled env e w).0 ≡ ok tt
      → e.order_id ≡ k
      → Billed ((doc.ledger w).invoices k) invoice_status_pending
      → Billed ((doc.ledger (handle_order_cancelled env e w).1).invoices k) invoice_status_cancelled
  cancelled_bills e done here (inv, row, pending) =
      let (read, found, answer) = (handle_order_cancelled_outcome env doc e w).on_ok tt done in
      elim answer [
        | inl (_, rows) ↦ (
          _,
          ap (λ (l : Ledger). l.invoices k) rows ∙ put_here e.order_id k _ (doc.ledger w) here,
          refl,
        )
        | inr (again, _) ↦
            let same : read ≡ inv =
              some-injective _ _ (sym found ∙ ap (doc.ledger w).invoices here ∙ row) in
            absurd (status_differs (sym again ∙ ap (λ (x : Invoice). x.status) same ∙ pending))
      ]

  pub cancelled_beside :
      (e : OrderCancelledEvent)
      → (handle_order_cancelled env e w).0 ≡ ok tt
      → e.order_id ≢ k
      → (doc.ledger (handle_order_cancelled env e w).1).invoices k ≡ (doc.ledger w).invoices k
  cancelled_beside e done other =
      let (_, _, answer) = (handle_order_cancelled_outcome env doc e w).on_ok tt done in
      elim answer [
        | inl (_, rows) ↦
            ap (λ (l : Ledger). l.invoices k) rows ∙ put_beside e.order_id k _ (doc.ledger w) other
        | inr (_, same) ↦ ap (λ (l : Ledger). l.invoices k) same
      ]
