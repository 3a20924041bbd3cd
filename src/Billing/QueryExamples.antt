-- ===== src/Billing/QueryExamples.antt =====
-- The theorems on the reading side of billing_service at a concrete table.
use order_billing_system.Base.Tests.{
  ◌≡◌, refl, sym, inl, inr, ◌≤◌, Bool, true, false, Option, some, if◌then◌else◌,
}
use order_billing_system.Base.Texts.{String, str_eq}
use order_billing_system.Base.Lists.{
  length-take, List, [], ◌∷◌, All, All-mono, All-take, All-drop, Any, here, there, length, select,
  take, drop,
}
use order_billing_system.Base.Integers.{pos, pos_part, ◌+ℤ◌}
use order_billing_system.Shared.Errors.{record_not_found}
use order_billing_system.Shared.Effects.{ok, err}
use order_billing_system.Shared.Grpc.{responds}
use order_billing_system.Billing.Model.{Invoice}
use order_billing_system.Billing.Query.{
  QueryEnvironment, BillingStats, ProtoInvoice, status_paid, map_invoice, answer, list_limit,
  list_invoices, read_stats, get_stats, get_billing_stats, serve_list_invoices,
}
use order_billing_system.Billing.Query.Database.{QueryDocumented, matches, tally, sum_amounts}
use order_billing_system.Billing.Query.Answers.{Tallies, get_billing_stats-Tallies}
use order_billing_system.Billing.Query.Pages.{Listed, serve_list_invoices-Listed}
use order_billing_system.Billing.Samples.{pending_o1, paid_invoice_o1}

-- The world is the table; the rows are listed as they stand.
abbrev query_env : QueryEnvironment
query_env = record {
  World = List Invoice;
  first_invoice = λ k rows. (
    elim (select (λ inv. str_eq k inv.order_id) rows) [
      | [] ↦ err record_not_found
      | inv ∷ _ ↦ ok inv
    ],
    rows,
  );
  find_invoices = λ status limit offset rows.
      (ok (take (pos_part limit) (drop (pos_part offset) (select (matches status) rows))), rows);
  transaction = λ body. body;
  count_and_sum = λ status rows.
      (ok (tally (some status) rows, sum_amounts (select (matches (some status)) rows)), rows);
  count = λ status rows. (ok (tally status rows), rows);
}

abbrev FoundIn : List Invoice → Option String → Invoice → Type 0
FoundIn rows status inv = (matches status inv ≡ true) × Any (λ row. row ≡ inv) rows

result_injective : {a b : List Invoice} → ok a ≡ ok b → a ≡ b
result_injective e = cc

pick-FoundIn :
    (status : Option String) (inv : Invoice) (rows rest : List Invoice) (b : Bool)
    → matches status inv ≡ b
    → All (FoundIn rows status) rest
    → All (FoundIn (inv ∷ rows) status) (if b then inv ∷ rest else rest)
pick-FoundIn status inv rows rest true found all =
    ((found, here refl), All-mono (λ row (is, from). (is, there from)) rest all)
pick-FoundIn status inv rows rest false found all =
    All-mono (λ row (is, from). (is, there from)) rest all

select-FoundIn :
    (status : Option String) (rows : List Invoice)
    → All (FoundIn rows status) (select (matches status) rows)
select-FoundIn status [] = tt
select-FoundIn status (inv ∷ rows) =
    pick-FoundIn status inv rows (select (matches status) rows) (matches status inv) refl
      (select-FoundIn status rows)

query_doc : QueryDocumented query_env
query_doc = record {
  rows = λ rows. rows;
  count_keeps = λ status rows. refl;
  count_done = λ status rows counted. cc;
  count_and_sum_keeps = λ status rows. refl;
  count_and_sum_done = λ status rows counted. (cc, cc);
  transaction_done = λ body rows done. done;
  find_invoices_done = λ status limit offset rows positive found.
      let matching = select (matches status) rows in
      let all = select-FoundIn status rows in
      let skipped = All-drop (FoundIn rows status) (pos_part offset) matching all in
      rw (sym (result_injective found)) (
        length-take (pos_part limit) (drop (pos_part offset) matching),
        All-take (FoundIn rows status) (pos_part limit) (drop (pos_part offset) matching) skipped,
      );
}

abbrev two_rows : List Invoice
two_rows = pending_o1 ∷ record paid_invoice_o1 { id = "inv-2"; order_id = "o-2" } ∷ []

abbrev two_stats : BillingStats
two_stats = record {
  total_invoices = pos 2;
  paid_invoices = pos 1;
  pending_invoices = pos 1;
  cancelled_invoices = pos 0;
  total_revenue = record { amount = paid_invoice_o1.amount.amount; currency = "USD" };
}

stats_answered : (get_billing_stats query_env two_rows).0 ≡ responds two_stats
unfolding get_billing_stats get_stats read_stats answer ◌+ℤ◌
stats_answered = refl

get_billing_stats-Tallies_example :
    Tallies two_rows two_stats
    × (two_stats.total_invoices
        ≡ two_stats.paid_invoices +ℤ two_stats.pending_invoices +ℤ two_stats.cancelled_invoices)
unfolding query_doc
get_billing_stats-Tallies_example =
    get_billing_stats-Tallies query_env query_doc two_rows two_stats stats_answered
      (inl refl, (inr (inl refl), tt))

abbrev paid_page : List ProtoInvoice
paid_page = map_invoice (record paid_invoice_o1 { id = "inv-2"; order_id = "o-2" }) ∷ []

page_answered :
    (serve_list_invoices query_env status_paid (pos 1000) (pos 0) two_rows).0 ≡ responds paid_page
unfolding serve_list_invoices list_invoices list_limit answer map_invoice
page_answered = refl

serve_list_invoices-Listed_example :
    (length paid_page ≤ 100) × All (Listed two_rows status_paid) paid_page
unfolding query_doc
serve_list_invoices-Listed_example =
    serve_list_invoices-Listed query_env query_doc status_paid (pos 1000) (pos 0) two_rows paid_page
      page_answered
