-- ===== src/Billing/Query/Answers.antt =====
-- What the answers of `BillingQueryHandler` say of the invoices.
use order_billing_system.Base.Tests.{
  ℕ, ◌≡◌, refl, ◌∙◌, ap, ◌⊎◌, inl, inr, ◌+◌, Option, none, some, arith,
}
use order_billing_system.Base.Texts.{String}
use order_billing_system.Base.Lists.{List, [], ◌∷◌, All, length, select}
use order_billing_system.Base.Integers.{ℤ, pos, ◌+ℤ◌}
use order_billing_system.Shared.Effects.{Result, ok, err, Act, pure, ◌>>=◌}
use order_billing_system.Shared.Effects.Contracts.{Ends, Ends-ok, Ends-bind}
use order_billing_system.Shared.Grpc.{responds}
use order_billing_system.Billing.Model.{
  Invoice, invoice_status_pending, invoice_status_paid, invoice_status_cancelled,
}
use order_billing_system.Billing.Query.{
  QueryEnvironment, BillingStats, answer, read_stats, get_stats, get_billing_stats,
}
use order_billing_system.Billing.Query.Database.{QueryDocumented, matches, tally, sum_amounts}

abbrev pub HasStatus : Invoice → Type 0
HasStatus inv =
    (inv.status ≡ invoice_status_pending)
    ⊎ (inv.status ≡ invoice_status_paid)
    ⊎ (inv.status ≡ invoice_status_cancelled)

-- How many rows have a status.
abbrev share : String → List Invoice → ℕ
share status rows = length (select (matches (some status)) rows)

shares_add_up :
    (rows : List Invoice)
    → All HasStatus rows
    → length (select (matches none) rows)
      ≡ share invoice_status_paid rows
        + share invoice_status_pending rows
        + share invoice_status_cancelled rows
shares_add_up [] all = refl
shares_add_up (inv ∷ rows) (has, all) =
    let rest = shares_add_up rows all in
    elim has [
      | inl pending ↦ rw (pending) (omega (arith, rest))
      | inr (inl paid) ↦ rw (paid) (omega (arith, rest))
      | inr (inr cancelled) ↦ rw (cancelled) (omega (arith, rest))
    ]

select_all : (rows : List Invoice) → length (select (matches none) rows) ≡ length rows
select_all [] = refl
select_all (inv ∷ rows) = omega (arith, select_all rows)

counts_add_up :
    (rows : List Invoice)
    → All HasStatus rows
    → pos (length rows)
      ≡ tally (some invoice_status_paid) rows
        +ℤ tally (some invoice_status_pending) rows
        +ℤ tally (some invoice_status_cancelled) rows
unfolding ◌+ℤ◌
counts_add_up rows all =
    let parts = shares_add_up rows all in let whole = select_all rows in ground arith

-- What a set of statistics says of the rows.
pub record Tallies (rows : List Invoice) (stats : BillingStats) : Type 0 where
  pub total : stats.total_invoices ≡ pos (length rows)
  pub paid : stats.paid_invoices ≡ tally (some invoice_status_paid) rows
  pub pending : stats.pending_invoices ≡ tally (some invoice_status_pending) rows
  pub cancelled : stats.cancelled_invoices ≡ tally (some invoice_status_cancelled) rows
  pub revenue : stats.total_revenue ≡ record {
    amount = sum_amounts (select (matches (some invoice_status_paid)) rows);
    currency = "USD";
  }

module _ (env : QueryEnvironment) where
  -- A handler that responds has had a result from the query service.
  pub answered :
      {A B : Type 0} (f : A → B) (r : Result A) (resp : B)
      → answer env f r ≡ responds resp
      → (a : A) × (r ≡ ok a) × (f a ≡ resp)
  unfolding answer
  answered f (ok a) resp replied = (a, refl, cc)
  answered f (err e) resp replied = absurd (cc)

module _ (env : QueryEnvironment) (doc : QueryDocumented env) where
  -- A count of the rows as they were when the transaction began.
  count_outcome :
      (status : Option String) (rows : List Invoice) (w : env.World)
      → doc.rows w ≡ rows
      → Ends
          (λ n w'. (n ≡ tally status rows) × (doc.rows w' ≡ rows))
          (λ _ _. Unit)
          (env.count status w)
  count_outcome status rows w here = record {
    on_ok = λ n done.
        (doc.count_done status w done ∙ ap (tally status) here, doc.count_keeps status w ∙ here);
    on_err = λ _ _. tt;
  }

  sum_outcome :
      (status : String) (w : env.World)
      → Ends
          (λ (found : ℤ × ℤ) w'.
            ((found.0 ≡ tally (some status) (doc.rows w))
              × (found.1 ≡ sum_amounts (select (matches (some status)) (doc.rows w))))
            × (doc.rows w' ≡ doc.rows w))
          (λ _ _. Unit)
          (env.count_and_sum status w)
  sum_outcome status w = record {
    on_ok = λ found counted.
        (doc.count_and_sum_done status w counted, doc.count_and_sum_keeps status w);
    on_err = λ _ _. tt;
  }

  -- What is left of the transaction after each of its queries.
  abbrev after_cancelled : ℤ × ℤ → ℤ → ℤ → ℤ → Act env.World BillingStats
  after_cancelled found total pending cancelled = pure (record {
    total_invoices = total;
    paid_invoices = found.0;
    pending_invoices = pending;
    cancelled_invoices = cancelled;
    total_revenue = record { amount = found.1; currency = "USD" };
  })

  abbrev after_pending : ℤ × ℤ → ℤ → ℤ → Act env.World BillingStats
  after_pending found total pending =
      env.count (some invoice_status_cancelled) >>= after_cancelled found total pending

  abbrev after_total : ℤ × ℤ → ℤ → Act env.World BillingStats
  after_total found total = env.count (some invoice_status_pending) >>= after_pending found total

  abbrev after_sum : ℤ × ℤ → Act env.World BillingStats
  after_sum found = env.count none >>= after_total found

  read_stats_outcome :
      (w : env.World)
      → Ends (λ stats _. Tallies (doc.rows w) stats) (λ _ _. Unit {0}) (read_stats env w)
  unfolding read_stats
  read_stats_outcome w =
      let rows = doc.rows w in
      Ends-bind (env.count_and_sum invoice_status_paid) after_sum w
        (sum_outcome invoice_status_paid w)
        (λ found (paid, kept).
          Ends-bind (env.count none) (after_total found) _ (count_outcome none rows _ kept)
            (λ total (all, kept2).
              Ends-bind (env.count (some invoice_status_pending)) (after_pending found total) _
                (count_outcome (some invoice_status_pending) rows _ kept2)
                (λ pending (some_pending, kept3).
                  Ends-bind (env.count (some invoice_status_cancelled))
                    (after_cancelled found total pending) _
                    (count_outcome (some invoice_status_cancelled) rows _ kept3)
                    (λ cancelled (some_cancelled, kept4). Ends-ok _ _ (record {
                      total = all ∙ ap pos (select_all rows);
                      paid = paid.0;
                      pending = some_pending;
                      cancelled = some_cancelled;
                      revenue = λ i. record { amount = paid.1 i; currency = "USD" };
                    }))
                    (λ _ _. tt))
                (λ _ _. tt))
            (λ _ _. tt))
        (λ _ _. tt)

  -- If every invoice has one of the three statuses and nobody writes to the table meanwhile, the
  -- statistics that are answered count all invoices and those of each status, their counts add up to
  -- the total, and the revenue is the sum of the amounts of the PAID ones, in USD.
  pub get_billing_stats-Tallies :
      (w : env.World) (stats : BillingStats)
      → (get_billing_stats env w).0 ≡ responds stats
      → All HasStatus (doc.rows w)
      → Tallies (doc.rows w) stats
        × (stats.total_invoices
            ≡ stats.paid_invoices +ℤ stats.pending_invoices +ℤ stats.cancelled_invoices)
  unfolding get_billing_stats get_stats
  get_billing_stats-Tallies w stats replied all =
      let (found, done, same) = answered env (λ s. s) (get_stats env w).0 stats replied in
      let tallies =
        (read_stats_outcome w).on_ok stats
          (doc.transaction_done (read_stats env) w (done ∙ ap ok same)) in
      (
        tallies,
        rw (tallies.total, tallies.paid, tallies.pending, tallies.cancelled)
            (counts_add_up (doc.rows w) all),
      )
