-- ===== src/Billing/Concurrent/Rows.antt =====
-- What one write may do to the row of one order, whatever was read before.
use order_billing_system.Base.Tests.{
  ◌≡◌, refl, sym, ◌∙◌, ap, ◌⊎◌, inl, inr, none, some, Option, Bool-cases,
}
use order_billing_system.Base.Texts.{String, str_eq, eq_iff}
use order_billing_system.Shared.Effects.{Time, Result-cases}
use order_billing_system.Billing.Model.{
  Invoice, OrderCreatedEvent, OrderPaidEvent, OrderCancelledEvent, invoice_status_paid,
  invoice_status_cancelled,
}
use order_billing_system.Billing.Environment.{Environment, Ledger, Documented}
use order_billing_system.Billing.Service.{create_for, pay, cancel}
use order_billing_system.Billing.Service.Writes.{put_invoice}
use order_billing_system.Billing.Service.Outcomes.{pay_over, cancel_over}
use order_billing_system.Billing.Service.Events.{create_for_outcome}

pub put_row :
    (order_id j : String) (inv : Invoice) (l : Ledger)
    → ((order_id ≡ j) × ((put_invoice order_id inv l).invoices j ≡ some inv))
      ⊎ ((put_invoice order_id inv l).invoices j ≡ l.invoices j)
put_row order_id j inv l = elim (Bool-cases (str_eq order_id j)) [
  | inl same ↦ inl ((eq_iff order_id j).0 same, rw same refl)
  | inr other ↦ inr (rw other refl)
]

-- The invoice is now PAID or CANCELLED, and was otherwise the one before.
abbrev pub Settles : Invoice → Invoice → Type 0
Settles cur new =
    ((at : Time) × (new ≡ record cur { status = invoice_status_paid; paid_at = some at }))
    ⊎ (new ≡ record cur { status = invoice_status_cancelled })

-- The row is as it was, the first of its order, or settled.
pub data Change (before after : Option Invoice) : Type 0 where
  same : after ≡ before → Change before after
  issued : (new : Invoice) → before ≡ none → after ≡ some new → Change before after
  settled :
      (cur new : Invoice)
      → before ≡ some cur
      → after ≡ some new
      → Settles cur new
      → Change before after

module _ (env : Environment) (doc : Documented env) where
  abbrev pub row_of : env.World → String → Option Invoice
  row_of w j = (doc.ledger w).invoices j

  kept_row :
      (w w' : env.World) (j : String)
      → doc.ledger w' ≡ doc.ledger w
      → Change (row_of w j) (row_of w' j)
  kept_row w w' j kept = same (ap (λ (l : Ledger). l.invoices j) kept)

  settled_row :
      (order_id j : String) (cur new : Invoice) (w w' : env.World)
      → row_of w order_id ≡ some cur
      → Settles cur new
      → doc.ledger w' ≡ put_invoice order_id new (doc.ledger w)
      → Change (row_of w j) (row_of w' j)
  settled_row order_id j cur new w w' found settles rows =
      elim (put_row order_id j new (doc.ledger w)) [
        | inl (here, put) ↦
            settled cur new (ap (doc.ledger w).invoices (sym here) ∙ found)
              (ap (λ (l : Ledger). l.invoices j) rows ∙ put) settles
        | inr beside ↦ same (ap (λ (l : Ledger). l.invoices j) rows ∙ beside)
      ]

  issued_row :
      (order_id j : String) (new : Invoice) (w w' : env.World)
      → row_of w order_id ≡ none
      → doc.ledger w' ≡ put_invoice order_id new (doc.ledger w)
      → Change (row_of w j) (row_of w' j)
  issued_row order_id j new w w' fresh rows = elim (put_row order_id j new (doc.ledger w)) [
    | inl (here, put) ↦
        issued new (ap (doc.ledger w).invoices (sym here) ∙ fresh)
          (ap (λ (l : Ledger). l.invoices j) rows ∙ put)
    | inr beside ↦ same (ap (λ (l : Ledger). l.invoices j) rows ∙ beside)
  ]

  pub create_row :
      (event : OrderCreatedEvent) (j : String) (w : env.World)
      → Change (row_of w j) (row_of (create_for env event w).1 j)
  create_row event j w =
      let outcome = create_for_outcome env doc event w in
      elim (Result-cases (create_for env event w).0) [
        | inr (e, failed) ↦ kept_row w _ j (outcome.on_err e failed).1
        | inl (u, done) ↦
            let (fresh, (invoice_id, rows)) = outcome.on_ok u done in
            issued_row event.order_id j _ w _ fresh rows
      ]

  pub pay_row :
      (event : OrderPaidEvent) (inv cur : Invoice) (j : String) (w : env.World)
      → row_of w event.order_id ≡ some cur
      → Change (row_of w j) (row_of (pay env event inv w).1 j)
  pay_row event inv cur j w found =
      let outcome = pay_over env doc event inv cur w found in
      elim (Result-cases (pay env event inv w).0) [
        | inr (e, failed) ↦ kept_row w _ j (outcome.on_err e failed).1
        | inl (u, done) ↦
            settled_row event.order_id j cur _ w _ found (inl (_, refl)) (outcome.on_ok u done).1
      ]

  pub cancel_row :
      (event : OrderCancelledEvent) (inv cur : Invoice) (j : String) (w : env.World)
      → row_of w event.order_id ≡ some cur
      → Change (row_of w j) (row_of (cancel env event inv w).1 j)
  cancel_row event inv cur j w found =
      let outcome = cancel_over env doc event inv cur w found in
      elim (Result-cases (cancel env event inv w).0) [
        | inr (e, failed) ↦ kept_row w _ j (outcome.on_err e failed).1
        | inl (u, done) ↦ elim (outcome.on_ok u done) [
          | inl (_, rows) ↦ settled_row event.order_id j cur _ w _ found (inr refl) rows
          | inr (_, kept) ↦ kept_row w _ j kept
        ]
      ]
