-- ===== src/Billing/Query/Pages.antt =====
-- The pages that `ListInvoices` answers.
use order_billing_system.Base.Tests.{◌≤◌, ◌≡◌, refl, sym, ap, true, arith}
use mathlib.Core.Path.{subst}
use order_billing_system.Base.Texts.{eq_iff}
use order_billing_system.Base.Lists.{Any-mono, length-map, List, [], ◌∷◌, All, Any, length, map}
use order_billing_system.Base.Integers.{ℤ, pos_part}
use order_billing_system.Shared.Grpc.{responds}
use order_billing_system.Billing.Model.{
  Invoice, invoice_status_pending, invoice_status_paid, invoice_status_cancelled,
}
use order_billing_system.Billing.Query.{
  status_unknown, QueryEnvironment, ProtoInvoice, ProtoInvoiceStatus, status_unspecified,
  status_pending, status_paid, status_cancelled, map_domain_status, map_invoice, requested_status,
  list_limit, list_invoices, serve_list_invoices,
}
use order_billing_system.Billing.Query.Bounds.{list_limit_bounds}
use order_billing_system.Billing.Query.Database.{QueryDocumented, matches}
use order_billing_system.Billing.Query.Answers.{answered}

-- A page for no status holds every status, and one for a number that the service does not know holds
-- the PENDING invoices.
abbrev pub IsAsked : ProtoInvoiceStatus → ProtoInvoiceStatus → Type 0
IsAsked status_unspecified shown = Unit
IsAsked status_pending shown = shown ≡ status_pending
IsAsked status_paid shown = shown ≡ status_paid
IsAsked status_cancelled shown = shown ≡ status_cancelled
IsAsked (status_unknown number) shown = shown ≡ status_pending

-- A row that matches the filter is shown under the status that was asked for.
named_as-IsAsked :
    (status : ProtoInvoiceStatus) (inv : Invoice)
    → matches (requested_status status) inv ≡ true
    → IsAsked status (map_domain_status inv.status)
unfolding map_domain_status
named_as-IsAsked status_unspecified inv found = tt
named_as-IsAsked status_pending inv found =
    let e : invoice_status_pending ≡ inv.status =
      (eq_iff invoice_status_pending inv.status).0 found in
    rw (sym e) refl
named_as-IsAsked status_paid inv found =
    let e : invoice_status_paid ≡ inv.status = (eq_iff invoice_status_paid inv.status).0 found in
    rw (sym e) refl
named_as-IsAsked status_cancelled inv found =
    let e : invoice_status_cancelled ≡ inv.status =
      (eq_iff invoice_status_cancelled inv.status).0 found in
    rw (sym e) refl
named_as-IsAsked (status_unknown number) inv found =
    let e : invoice_status_pending ≡ inv.status =
      (eq_iff invoice_status_pending inv.status).0 found in
    rw (sym e) refl

-- The message is that of a row, and has the status that was asked for.
abbrev pub Listed : List Invoice → ProtoInvoiceStatus → ProtoInvoice → Type 0
Listed rows status msg = Any (λ row. msg ≡ map_invoice row) rows × IsAsked status msg.status

map-Listed :
    (rows : List Invoice) (status : ProtoInvoiceStatus) (page : List Invoice)
    → All (λ inv. (matches (requested_status status) inv ≡ true) × Any (λ row. row ≡ inv) rows) page
    → All (Listed rows status) (map map_invoice page)
unfolding map_invoice
map-Listed rows status [] all = tt
map-Listed rows status (inv ∷ page) ((found, from), all) = (
  (Any-mono (λ row e. ap map_invoice (sym e)) from, named_as-IsAsked status inv found),
  map-Listed rows status page all,
)

module _ (env : QueryEnvironment) (doc : QueryDocumented env) where
  -- A page that is answered has at most 100 invoices, whatever limit was asked for; each of them is an
  -- invoice of the table, and has the status that was asked for, if one was. A status that is none of
  -- the enum's counts as PENDING.
  pub serve_list_invoices-Listed :
      (status : ProtoInvoiceStatus) (limit offset : ℤ) (w : env.World) (page : List ProtoInvoice)
      → (serve_list_invoices env status limit offset w).0 ≡ responds page
      → (length page ≤ 100) × All (Listed (doc.rows w) status) page
  unfolding serve_list_invoices list_invoices
  serve_list_invoices-Listed status limit offset w page replied =
      let (found, done, same) =
        answered env (map map_invoice)
          (list_invoices env (requested_status status) limit offset w).0 page replied in
      let (n, bound, positive, at_most, _) = list_limit_bounds limit in
      let limited = ap pos_part bound in
      let (few, listed) =
        doc.find_invoices_done (requested_status status) (list_limit limit) offset w (omega arith)
          done in
      let kept = length-map map_invoice found in
      subst (λ p. (length p ≤ 100) × All (Listed (doc.rows w) status) p) same
        (omega (arith), map-Listed (doc.rows w) status found listed)
