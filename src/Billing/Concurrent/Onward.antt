-- ===== src/Billing/Concurrent/Onward.antt =====
-- What a change of its row leaves of an invoice.
use order_billing_system.Base.Tests.{◌≡◌, ◌≢◌, sym, ◌∙◌, ap, inl, inr, some, Option, arith}
use mathlib.Core.Option.{some-injective, none-ne-some}
use order_billing_system.Base.Texts.{String, eq_iff}
use order_billing_system.Shared.Effects.{Time}
use order_billing_system.Billing.Model.{
  Invoice, invoice_status_pending, invoice_status_paid, invoice_status_cancelled,
}
use order_billing_system.Billing.Concurrent.Rows.{Settles, Change, same, issued, settled}

pub distinct :
    (invoice_status_paid ≢ invoice_status_pending)
    × (invoice_status_cancelled ≢ invoice_status_pending)
distinct = (
  (λ e. ground (arith, eq_iff invoice_status_paid invoice_status_pending)),
  (λ e. ground (arith, eq_iff invoice_status_cancelled invoice_status_pending)),
)

-- The invoices differ in the status and the time of payment only.
abbrev pub SameInvoice : Invoice → Invoice → Type 0
SameInvoice a b =
    (status : String) × (paid_at : Option Time) × (b
      ≡ record a { status = status; paid_at = paid_at })

-- An invoice that has left PENDING has not come back.
abbrev pub Onward : Invoice → Invoice → Type 0
Onward a b = a.status ≢ invoice_status_pending → b.status ≢ invoice_status_pending

abbrev pub Holds : Invoice → Option Invoice → Type 0
Holds a row = (b : Invoice) × (row ≡ some b) × SameInvoice a b × Onward a b

kept_by_change : (a cur new : Invoice) → SameInvoice a cur → Settles cur new → SameInvoice a new
kept_by_change a cur new (st, paid_at, e) (inl (at, f)) = (
  invoice_status_paid,
  some at,
  f ∙ ap (λ (x : Invoice). record x { status = invoice_status_paid; paid_at = some at }) e,
)
kept_by_change a cur new (st, paid_at, e) (inr f) = (
  invoice_status_cancelled,
  paid_at,
  f ∙ ap (λ (x : Invoice). record x { status = invoice_status_cancelled }) e,
)

onward_by_change : (cur new : Invoice) → Settles cur new → new.status ≢ invoice_status_pending
onward_by_change cur new (inl (at, f)) pending =
    distinct.0 (ap (λ (x : Invoice). x.status) (sym f) ∙ pending)
onward_by_change cur new (inr f) pending =
    distinct.1 (ap (λ (x : Invoice). x.status) (sym f) ∙ pending)

pub Change-Holds :
    (a : Invoice) {before after : Option Invoice}
    → Change before after
    → Holds a before
    → Holds a after
Change-Holds a (same kept) (b, found, alike, onward) = (b, kept ∙ found, alike, onward)
Change-Holds a (issued new fresh added) (b, found, alike, onward) =
    absurd (none-ne-some b (sym fresh ∙ found))
Change-Holds a (settled cur new found put settles) (b, here, alike, onward) =
    let is_cur : b ≡ cur = some-injective _ _ (sym here ∙ found) in
    (
      new,
      put,
      kept_by_change a cur new (rw is_cur at alike) settles,
      (λ left. onward_by_change cur new settles),
    )

abbrev pub Present : Option Invoice → Type 0
Present row = (b : Invoice) × (row ≡ some b)

pub Change-Present :
    {before after : Option Invoice} → Change before after → Present before → Present after
Change-Present (same kept) (b, found) = (b, kept ∙ found)
Change-Present (issued new fresh added) h = (new, added)
Change-Present (settled cur new found put settles) h = (new, put)
