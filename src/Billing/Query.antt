-- ===== src/Billing/Query.antt =====
-- The reading side of billing_service: internal/repository/invoice_read.go,
-- internal/query/invoice_query.go and internal/grpc (mapper.go and server.go).
pub mod Bounds
pub mod Database
pub mod Answers
pub mod Pages
use order_billing_system.Base.Tests.{Option, none, some, if◌then◌else◌}
use order_billing_system.Base.Texts.{String, str_eq, sprint}
use order_billing_system.Base.Lists.{List, [], ◌∷◌, map}
use order_billing_system.Base.Integers.{ℤ, pos, leb_ℤ, ltb_ℤ}
use order_billing_system.Shared.Errors.{
  GoError, app, err_not_found, is_record_not_found, as_app_error, error_text,
}
use order_billing_system.Shared.Effects.{Time, Result, ok, err, Act, pure, or_fail, ◌>>=◌, ◌>>◌}
use order_billing_system.Shared.Grpc.{
  Code, invalid_argument, not_found, failed_precondition, internal, Status, Reply, responds, fails,
}
use order_billing_system.Billing.Model.{
  Invoice, InvoiceMoney, invoice_status_pending, invoice_status_paid, invoice_status_cancelled,
}

-- gorm, as this side calls it.
pub record QueryEnvironment : Type 1 where
  pub World : Type 0
  -- db.Where("order_id = ?", orderID).First(&invoice)
  pub first_invoice : String → Act World Invoice
  -- Order("created_at DESC").Limit(limit).Offset(offset), with Where("status = ?") if one is given
  pub find_invoices : Option String → ℤ → ℤ → Act World (List Invoice)
  -- db.Transaction(func(tx) error { … })
  pub transaction : {A : Type 0} → Act World A → Act World A
  -- tx.Select("COUNT(*) as count, COALESCE(SUM(…), 0) as sum").Where("status = ?").Scan(&result)
  pub count_and_sum : String → Act World (ℤ × ℤ)
  -- tx.Model(&i.Invoice{}).Count(…), with Where("status = ?") if one is given
  pub count : Option String → Act World ℤ

pub record BillingStats : Type 0 where
  pub total_invoices : ℤ
  pub paid_invoices : ℤ
  pub pending_invoices : ℤ
  pub cancelled_invoices : ℤ
  pub total_revenue : InvoiceMoney

-- A proto3 enum is open: a request may carry a number that the service does not know.
pub data ProtoInvoiceStatus : Type 0 where
  status_unspecified status_pending status_paid status_cancelled : ProtoInvoiceStatus
  status_unknown : ℤ → ProtoInvoiceStatus

pub record ProtoInvoice : Type 0 where
  pub id : String
  pub order_id : String
  pub amount : InvoiceMoney
  pub status : ProtoInvoiceStatus
  pub created_at : Time
  pub paid_at : Option Time

-- The limit that `List` of the query service hands on.
unfoldable pub list_limit : ℤ → ℤ
list_limit limit =
    let asked = if leb_ℤ limit (pos 0) then pos 20 else limit in
    if ltb_ℤ (pos 100) asked then pos 100 else asked

read_error : String → GoError → GoError
read_error order_id e =
    if is_record_not_found e
    then app (err_not_found (sprint ("invoice not found for order " ∷ order_id ∷ [])))
    else e

unfoldable pub map_domain_status : String → ProtoInvoiceStatus
map_domain_status s =
    if str_eq s invoice_status_pending
    then status_pending
    else if str_eq s invoice_status_paid
    then status_paid
    else if str_eq s invoice_status_cancelled
    then status_cancelled
    else status_unspecified

abbrev pub map_proto_status : ProtoInvoiceStatus → String
map_proto_status status_pending = invoice_status_pending
map_proto_status status_paid = invoice_status_paid
map_proto_status status_cancelled = invoice_status_cancelled
map_proto_status status_unspecified = invoice_status_pending
map_proto_status (status_unknown number) = invoice_status_pending

unfoldable pub map_invoice : Invoice → ProtoInvoice
unfolding map_domain_status
map_invoice inv = record {
  id = inv.id;
  order_id = inv.order_id;
  amount = record { amount = inv.amount.amount; currency = inv.amount.currency };
  status = map_domain_status inv.status;
  created_at = inv.created_at;
  paid_at = inv.paid_at;
}

unfoldable pub map_error : GoError → Status
map_error e = elim (as_app_error e) [
  | none ↦ record { code = internal; message = error_text e }
  | some app_err ↦
      if str_eq app_err.code "ERR_NOT_FOUND"
      then record { code = not_found; message = app_err.message }
      else if str_eq app_err.code "ERR_INVALID_INPUT"
      then record { code = invalid_argument; message = app_err.message }
      else if str_eq app_err.code "ERR_INVALID_ORDER_STATE"
      then record { code = failed_precondition; message = app_err.message }
      else record { code = internal; message = error_text e }
]

-- The status that `ListInvoices` filters by.
abbrev pub requested_status : ProtoInvoiceStatus → Option String
requested_status status_unspecified = none
requested_status status_pending = some (map_proto_status status_pending)
requested_status status_paid = some (map_proto_status status_paid)
requested_status status_cancelled = some (map_proto_status status_cancelled)
requested_status (status_unknown number) = some (map_proto_status (status_unknown number))

module _ (env : QueryEnvironment) where
  -- `GetByOrderID`, which the query service only hands on.
  unfoldable pub get_by_order_id : String → Act env.World Invoice
  unfolding read_error
  get_by_order_id order_id = or_fail (env.first_invoice order_id) (read_error order_id)

  -- `List` of the query service; the repository's hands its arguments to the database.
  unfoldable pub list_invoices : Option String → ℤ → ℤ → Act env.World (List Invoice)
  list_invoices status limit offset = env.find_invoices status (list_limit limit) offset

  -- The function that `GetStats` hands to the transaction.
  unfoldable pub read_stats : Act env.World BillingStats
  read_stats = do
    (paid_count, paid_sum) ← env.count_and_sum invoice_status_paid
    total ← env.count none
    pending ← env.count (some invoice_status_pending)
    cancelled ← env.count (some invoice_status_cancelled)
    pure (record {
      total_invoices = total;
      paid_invoices = paid_count;
      pending_invoices = pending;
      cancelled_invoices = cancelled;
      total_revenue = record { amount = paid_sum; currency = "USD" };
    })

  unfoldable pub get_stats : Act env.World BillingStats
  get_stats = env.transaction read_stats

  unfoldable pub answer : {A B : Type 0} → (A → B) → Result A → Reply B
  unfolding map_error
  answer f (ok a) = responds (f a)
  answer f (err e) = fails (map_error e)

  -- The three methods of `BillingQueryHandler`.
  unfoldable pub get_invoice_by_order : String → env.World → Reply ProtoInvoice × env.World
  unfolding answer map_invoice map_error
  get_invoice_by_order order_id w =
      let (r, w') = get_by_order_id order_id w in (answer map_invoice r, w')

  unfoldable pub serve_list_invoices :
      ProtoInvoiceStatus → ℤ → ℤ → env.World → Reply (List ProtoInvoice) × env.World
  unfolding answer map_invoice map_error
  serve_list_invoices status limit offset w =
      let (r, w') = list_invoices (requested_status status) limit offset w in
      (answer (map map_invoice) r, w')

  unfoldable pub get_billing_stats : env.World → Reply BillingStats × env.World
  unfolding answer map_error
  get_billing_stats w = let (r, w') = get_stats w in (answer (λ stats. stats) r, w')
