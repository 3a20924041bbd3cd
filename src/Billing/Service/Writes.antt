-- ===== src/Billing/Service/Writes.antt =====
-- What the reads and writes of the billing service do to the ledger.
use order_billing_system.Base.Tests.{◌≡◌, ◌∙◌, inl, inr, some, Option}
use order_billing_system.Base.Texts.{String}
use order_billing_system.Shared.Errors.{
  GoError, HasCode, not_found_code, internal_code, app, err_internal_error,
}
use order_billing_system.Shared.Effects.{Time, err, Act, or_fail, notify, ◌>>◌, Result-cases}
use order_billing_system.Shared.Effects.Contracts.{Ends, Ends-ok, Ends-err, Ends-or_fail, Ends-bind}
use order_billing_system.Billing.Model.{Invoice}
use order_billing_system.Billing.Environment.{
  Environment, Ledger, Updates, Documented, Metric, update, set_columns,
}
use order_billing_system.Billing.Repository.{get, update_status}
use order_billing_system.Billing.Service.{find_invoice}

-- The ledger with the invoice of one order replaced or added.
abbrev pub put_invoice : String → Invoice → Ledger → Ledger
put_invoice order_id inv l = record l { invoices = update l.invoices order_id inv }

module _ (env : Environment) (doc : Documented env) where
  abbrev pub Unchanged : Ledger → env.World → Type 0
  Unchanged before w' = doc.ledger w' ≡ before

  pub update_status_outcome :
      (k status : String) (at : Option Time) (w : env.World) {inv : Invoice}
      → (doc.ledger w).invoices k ≡ some inv
      → Ends
          (λ _ w'.
            doc.ledger w'
            ≡ put_invoice k
                (set_columns (record { status = status; paid_at = at }) inv)
                (doc.ledger w))
          (λ _. Unchanged (doc.ledger w))
          (update_status env k status at w)
  unfolding update_status
  update_status_outcome k status at w {inv} row =
      let u : Updates = record { status = status; paid_at = at } in
      elim (Result-cases (env.update_invoice k u w).0) [
        | inl (n, done) ↦
            let (one, rows) = doc.update_invoice_done k u w row done in
            rw (done, one) (Ends-ok tt _ rows)
        | inr (e, failed) ↦ rw failed (Ends-err _ _ (doc.update_invoice_failed k u w failed))
      ]

  -- A write whose error becomes an internal one, and the three metrics that follow it.
  pub observed_outcome :
      (m : Act env.World (Unit {0})) (message : String) (a b c : Metric) (w : env.World)
      (after : Ledger)
      → Ends (λ _. Unchanged after) (λ _. Unchanged (doc.ledger w)) (m w)
      → Ends
          (λ _. Unchanged after)
          (λ e w'. HasCode "ERR_INTERNAL" e × Unchanged (doc.ledger w) w')
          ((or_fail m (λ _. app (err_internal_error message))
              >> (notify (env.observe a) >> (notify (env.observe b) >> notify (env.observe c))))
            w)
  observed_outcome m message a b c w after h =
      let failed : GoError → GoError = λ _. app (err_internal_error message) in
      Ends-bind {Q = λ e w'. HasCode "ERR_INTERNAL" e × Unchanged (doc.ledger w) w'}
        (or_fail m failed)
        (λ _. notify (env.observe a) >> (notify (env.observe b) >> notify (env.observe c))) w
        (Ends-or_fail m failed w h (λ e kept. (internal_code message, kept)))
        (λ _ same.
          Ends-ok tt _
            (doc.observe_keeps c _ ∙ doc.observe_keeps b _ ∙ doc.observe_keeps a _ ∙ same))
        (λ e h. h)

  -- The invoice that the handlers read, and why they may have none.
  abbrev pub Found : String → env.World → Invoice → env.World → Type 0
  Found k w inv w' = ((doc.ledger w).invoices k ≡ some inv) × Unchanged (doc.ledger w) w'

  abbrev pub NotFound : String → env.World → GoError → env.World → Type 0
  NotFound k w e w' =
      HasCode "ERR_NOT_FOUND" e
      × ((x : GoError) × ((env.first_invoice k w).0 ≡ err x))
      × Unchanged (doc.ledger w) w'

  pub find_invoice_outcome :
      (k : String) (w : env.World) → Ends (Found k w) (NotFound k w) (find_invoice env k w)
  unfolding find_invoice get
  find_invoice_outcome k w = elim (Result-cases (env.first_invoice k w).0) [
    | inl (inv, found) ↦
        rw found (Ends-ok inv _ (doc.first_invoice_found k w found, doc.first_invoice_keeps k w))
    | inr (x, failed) ↦
        rw failed (Ends-err _ _ (not_found_code _, (x, failed), doc.first_invoice_keeps k w))
  ]
