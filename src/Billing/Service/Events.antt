-- ===== src/Billing/Service/Events.antt =====
-- The whole handlers `HandleOrderCreated`, `HandleOrderPaid` and `HandleOrderCancelled`.
use order_billing_system.Base.Tests.{◌≡◌, ◌∙◌, ◌⊎◌, inl, inr, none, some, ap}
use order_billing_system.Base.Texts.{String}
use order_billing_system.Shared.Errors.{GoError, HasCode, internal_code, app, err_internal_error}
use order_billing_system.Shared.Effects.{or_fail, notify, ◌>>◌, Result-cases}
use order_billing_system.Shared.Effects.Contracts.{
  Ends, Ends-ok, Ends-bind, Ends-or_fail, Ends-weaken,
}
use order_billing_system.Billing.Model.{
  Invoice, OrderCreatedEvent, OrderPaidEvent, OrderCancelledEvent, invoice_status_pending,
}
use order_billing_system.Billing.Environment.{
  Environment, Documented, invoices_created_total, invoice_state_inc,
}
use order_billing_system.Billing.Repository.{create, get}
use order_billing_system.Billing.Service.{
  to_invoice_money, create_for, handle_order_created, find_invoice, pay, handle_order_paid, cancel,
  handle_order_cancelled,
}
use order_billing_system.Billing.Service.Writes.{
  put_invoice, Unchanged, NotFound, find_invoice_outcome,
}
use order_billing_system.Billing.Service.Outcomes.{
  Paid, NotPaid, pay_outcome, Cancelled, NotCancelled, cancel_outcome,
}

module _ (env : Environment) (doc : Documented env) where
  -- The invoice that a handler has read.
  abbrev pub Read : String → env.World → (Invoice → Type 0) → Type 0
  Read k w P = (inv : Invoice) × ((doc.ledger w).invoices k ≡ some inv) × P inv

  -- A handled payment has made a PENDING invoice PAID at the time of the event. A refused one has
  -- changed nothing, and the error says why: no invoice was read, the invoice read was not PENDING,
  -- or the update failed.
  pub handle_order_paid_outcome :
      (event : OrderPaidEvent) (w : env.World)
      → Ends
          (λ _ w'. Read event.order_id w (λ inv. Paid env doc event inv (doc.ledger w) w'))
          (λ e w'.
            NotFound env doc event.order_id w e w'
            ⊎ Read event.order_id w (λ inv. NotPaid env doc inv (doc.ledger w) e w'))
          (handle_order_paid env event w)
  unfolding handle_order_paid
  handle_order_paid_outcome event w =
      Ends-bind (find_invoice env event.order_id) (pay env event) w
        (find_invoice_outcome env doc event.order_id w)
        (λ inv (row, same).
          let w1 = (find_invoice env event.order_id w).1 in
          let row1 : (doc.ledger w1).invoices event.order_id ≡ some inv = rw same row in
          Ends-weaken (rw same at (pay_outcome env doc event inv w1 row1)) (λ _ h. (inv, row, h))
            (λ e h. inr (inv, row, h)))
        (λ e h. inl h)

  -- A handled cancellation has made a PENDING invoice CANCELLED, or has found it CANCELLED and
  -- changed nothing. A refused one has changed nothing, and the error says why.
  pub handle_order_cancelled_outcome :
      (event : OrderCancelledEvent) (w : env.World)
      → Ends
          (λ _ w'. Read event.order_id w (λ inv. Cancelled env doc event inv (doc.ledger w) w'))
          (λ e w'.
            NotFound env doc event.order_id w e w'
            ⊎ Read event.order_id w (λ inv. NotCancelled env doc inv (doc.ledger w) e w'))
          (handle_order_cancelled env event w)
  unfolding handle_order_cancelled
  handle_order_cancelled_outcome event w =
      Ends-bind (find_invoice env event.order_id) (cancel env event) w
        (find_invoice_outcome env doc event.order_id w)
        (λ inv (row, same).
          let w1 = (find_invoice env event.order_id w).1 in
          let row1 : (doc.ledger w1).invoices event.order_id ≡ some inv = rw same row in
          Ends-weaken (rw same at (cancel_outcome env doc event inv w1 row1)) (λ _ h. (inv, row, h))
            (λ e h. inr (inv, row, h)))
        (λ e h. inl h)

  -- A PENDING invoice over the total of the order, the first for that order.
  abbrev pub Invoiced : OrderCreatedEvent → env.World → env.World → Type 0
  Invoiced event w w' =
      ((doc.ledger w).invoices event.order_id ≡ none)
      × ((invoice_id : String) × (doc.ledger w'
            ≡ put_invoice event.order_id
                (record {
                  id = invoice_id;
                  order_id = event.order_id;
                  amount = record { amount = event.total.amount; currency = event.total.currency };
                  status = invoice_status_pending;
                  created_at = event.created_at;
                  paid_at = none;
                })
                (doc.ledger w)))

  pub create_for_outcome :
      (event : OrderCreatedEvent) (w : env.World)
      → Ends
          (λ _. Invoiced event w)
          (λ e w'. HasCode "ERR_INTERNAL" e × Unchanged env doc (doc.ledger w) w')
          (create_for env event w)
  unfolding create_for create
  create_for_outcome event w =
      let (invoice_id, w1) = env.new_uuid w in
      let invoice : Invoice = record {
        id = invoice_id;
        order_id = event.order_id;
        amount = to_invoice_money event.total;
        status = invoice_status_pending;
        created_at = event.created_at;
        paid_at = none;
      } in
      let same = doc.new_uuid_keeps w in
      let failed : GoError → GoError = λ _. app (err_internal_error "failed to create invoice") in
      let added : Ends (λ _. Invoiced event w) (λ _. Unchanged env doc (doc.ledger w))
          (create env invoice w1) =
        record {
          on_ok = λ _ done.
              let (fresh, rows) = doc.create_invoice_done invoice w1 done in
              (rw same at fresh, (invoice_id, rows ∙ ap (put_invoice event.order_id invoice) same));
          on_err = λ e refused. doc.create_invoice_failed invoice w1 refused ∙ same;
        } in
      Ends-bind {Q = λ e w'. HasCode "ERR_INTERNAL" e × Unchanged env doc (doc.ledger w) w'}
        (or_fail (create env invoice) failed)
        (λ _.
          notify (env.observe invoices_created_total)
          >> notify (env.observe (invoice_state_inc "pending")))
        w1 (Ends-or_fail (create env invoice) failed w1 added (λ e kept. (internal_code _, kept)))
        (λ _ inserted. Ends-ok tt _ (
          inserted.0,
          (
            inserted.1.0,
            doc.observe_keeps (invoice_state_inc "pending") _
                ∙ doc.observe_keeps invoices_created_total _
                ∙ inserted.1.1,
          ),
        ))
        (λ e h. h)

  -- A handled creation has found an invoice of the order and changed nothing, or it has added the
  -- first one, PENDING over the total of the event. A refused one has changed nothing.
  pub handle_order_created_outcome :
      (event : OrderCreatedEvent) (w : env.World)
      → Ends
          (λ _ w'.
            Read event.order_id w (λ _. Unchanged env doc (doc.ledger w) w') ⊎ Invoiced event w w')
          (λ e w'. HasCode "ERR_INTERNAL" e × Unchanged env doc (doc.ledger w) w')
          (handle_order_created env event w)
  unfolding handle_order_created get
  handle_order_created_outcome event w =
      let k = event.order_id in
      let w1 = (env.first_invoice k w).1 in
      let same = doc.first_invoice_keeps k w in
      elim (Result-cases (env.first_invoice k w).0) [
        | inl (inv, found) ↦
            rw found (Ends-ok tt w1 (inl (inv, doc.first_invoice_found k w found, same)))
        | inr (e, missing) ↦ rw missing (
            Ends-weaken (create_for_outcome event w1)
              (λ _ (fresh, added).
                inr (rw same at fresh, (added.0, added.1 ∙ ap (put_invoice k _) same)))
              (λ x (code, kept). (code, kept ∙ same)))
      ]
