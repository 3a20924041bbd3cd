-- ===== src/Billing/ConcurrentExamples.antt =====
-- The theorems on concurrent consumers of billing_service at concrete schedules.
use order_billing_system.Base.Tests.{ℕ, ◌==◌, ◌≡◌, ◌≢◌, refl, none, some, Option, if◌then◌else◌}
use order_billing_system.Base.Texts.{String}
use order_billing_system.Base.Lists.{List, [], ◌∷◌}
use order_billing_system.Base.Integers.{pos}
use order_billing_system.Shared.Effects.{Time, ok}
use order_billing_system.Billing.Model.{Invoice, invoice_status_pending, invoice_status_cancelled}
use order_billing_system.Billing.Repository.{update_status}
use order_billing_system.Billing.Service.{pay, cancel}
use order_billing_system.Billing.Concurrent.{
  InFlight, paying, cancelling, Service, Action, reads_to_pay, reads_to_cancel, writes, run,
}
use order_billing_system.Billing.Concurrent.Kept.{run-keeps_invoice}
use order_billing_system.Billing.Concurrent.Race.{run_cancels_paid_invoice}
use order_billing_system.Billing.Samples.{
  sample_env, sample_doc, ledger_with, pending_o1, paid_o1, cancelled_o1,
}

abbrev idle : Service sample_env
idle = record { world = ledger_with pending_o1; running = λ i. none }

-- Both handlers read before either writes.
abbrev interleaved : List Action
interleaved = reads_to_pay 0 paid_o1 ∷ reads_to_cancel 1 cancelled_o1 ∷ writes 1 ∷ writes 0 ∷ []

run-keeps_invoice_example :
    (b : Invoice) × ((run sample_env interleaved idle).world.invoices "o-1" ≡ some b)
    × ((status : String) × (paid_at : Option Time) × (b
          ≡ record pending_o1 { status = status; paid_at = paid_at }))
    × (pending_o1.status ≢ invoice_status_pending → b.status ≢ invoice_status_pending)
unfolding sample_doc
run-keeps_invoice_example =
    run-keeps_invoice sample_env sample_doc "o-1" pending_o1 interleaved idle (λ i. refl) refl

abbrev both_read : ℕ → Option InFlight
both_read i =
    if i == 0 then some (paying paid_o1 pending_o1) else some (cancelling cancelled_o1 pending_o1)

abbrev racing : Service sample_env
racing = record { world = ledger_with pending_o1; running = both_read }

paid_first : (pay sample_env paid_o1 pending_o1 (ledger_with pending_o1)).0 ≡ ok tt
unfolding pay update_status
paid_first = refl

cancelled_second :
    (cancel sample_env cancelled_o1 pending_o1
      (pay sample_env paid_o1 pending_o1 (ledger_with pending_o1)).1).0
    ≡ ok tt
unfolding pay cancel update_status
cancelled_second = refl

run_cancels_paid_invoice_example :
    (run sample_env (writes 0 ∷ writes 1 ∷ []) racing).world.invoices "o-1"
    ≡ some (record pending_o1 {
      status = invoice_status_cancelled;
      paid_at = some (record { unix = paid_o1.paid_at; nanos = pos 0 });
    })
unfolding sample_doc
run_cancels_paid_invoice_example =
    run_cancels_paid_invoice sample_env sample_doc 0 1 paid_o1 cancelled_o1 pending_o1 racing refl
      refl refl refl refl refl paid_first cancelled_second
