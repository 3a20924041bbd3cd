-- ===== src/Billing/Examples.antt =====
-- The theorems on billing_service at concrete messages, events and ledgers.
use order_billing_system.Base.Tests.{ap, ◌≡◌, ◌≢◌, refl, ◌⊎◌, none, arith}
use order_billing_system.Base.Texts.{eq_iff}
use order_billing_system.Base.Lists.{List, [], ◌∷◌}
use order_billing_system.Base.Integers.{pos}
use order_billing_system.Shared.Errors.{GoError, HasCode}
use order_billing_system.Shared.Effects.{ok, err}
use order_billing_system.Shared.Effects.Contracts.{Ends}
use order_billing_system.Shared.Kafka.{Message, Handler}
use order_billing_system.Billing.Model.{invoice_status_pending, invoice_status_paid}
use order_billing_system.Billing.Environment.{Ledger, update}
use order_billing_system.Billing.Service.{
  handle_order_created, handle_order_paid, handle_order_cancelled, find_invoice, pay,
}
use order_billing_system.Billing.Repository.{get, update_status}
use order_billing_system.Billing.Service.Writes.{Unchanged, NotFound}
use order_billing_system.Billing.Service.Outcomes.{Paid, NotPaid, Cancelled, NotCancelled}
use order_billing_system.Billing.Service.Events.{
  Read, Invoiced, handle_order_created_outcome, handle_order_paid_outcome,
  handle_order_cancelled_outcome,
}
use order_billing_system.Billing.Service.Repeats.{handle_order_paid_again}
use order_billing_system.Billing.Handler.{handle, order_handler}
use order_billing_system.Billing.Handler.Dispatch.{Handled, handle_outcome}
use order_billing_system.Billing.Consumer.{process_message, consume, event_key}
use order_billing_system.Billing.Consumer.Commits.{Recorded, Settled, process_settles}
use order_billing_system.Billing.Consumer.Redelivery.{Answers, SameRows, consume_recorded}
use order_billing_system.Billing.Consumer.Effects.{order_handler-LeavesCommits}
use order_billing_system.Billing.Samples.{
  row_or_error, sample_env, sample_doc, sample_topics, empty_ledger, ledger_with, pending_o1,
  paid_invoice_o1, created_o1, paid_o1, cancelled_o1, created_message, paid_message,
}

abbrev handler_o1 : Handler Ledger
handler_o1 = order_handler sample_env sample_topics

abbrev two_messages : List Message
two_messages = created_message ∷ paid_message ∷ []

paid_settled : paid_invoice_o1.status ≢ invoice_status_pending
paid_settled = ground (arith, eq_iff invoice_status_paid invoice_status_pending)

handle_outcome_example :
    Ends
      (λ _. Handled sample_env sample_doc empty_ledger)
      (λ _. Unchanged sample_env sample_doc empty_ledger)
      (handle sample_env sample_topics created_message empty_ledger)
unfolding sample_doc
handle_outcome_example =
    handle_outcome sample_env sample_doc sample_topics created_message empty_ledger

handle_order_created_outcome_example :
    Ends
      (λ _ w'.
        Read sample_env sample_doc "o-1" empty_ledger
          (λ _. Unchanged sample_env sample_doc empty_ledger w')
        ⊎ Invoiced sample_env sample_doc created_o1 empty_ledger w')
      (λ e w'. HasCode "ERR_INTERNAL" e × Unchanged sample_env sample_doc empty_ledger w')
      (handle_order_created sample_env created_o1 empty_ledger)
unfolding sample_doc
handle_order_created_outcome_example =
    handle_order_created_outcome sample_env sample_doc created_o1 empty_ledger

handle_order_paid_outcome_example :
    Ends
      (λ _ w'.
        Read sample_env sample_doc "o-1"
          (ledger_with pending_o1)
          (λ inv. Paid sample_env sample_doc paid_o1 inv (ledger_with pending_o1) w'))
      (λ e w'.
        NotFound sample_env sample_doc "o-1" (ledger_with pending_o1) e w'
        ⊎ Read sample_env sample_doc "o-1"
            (ledger_with pending_o1)
            (λ inv. NotPaid sample_env sample_doc inv (ledger_with pending_o1) e w'))
      (handle_order_paid sample_env paid_o1 (ledger_with pending_o1))
unfolding sample_doc
handle_order_paid_outcome_example =
    handle_order_paid_outcome sample_env sample_doc paid_o1 (ledger_with pending_o1)

handle_order_cancelled_outcome_example :
    Ends
      (λ _ w'.
        Read sample_env sample_doc "o-1"
          (ledger_with pending_o1)
          (λ inv. Cancelled sample_env sample_doc cancelled_o1 inv (ledger_with pending_o1) w'))
      (λ e w'.
        NotFound sample_env sample_doc "o-1" (ledger_with pending_o1) e w'
        ⊎ Read sample_env sample_doc "o-1"
            (ledger_with pending_o1)
            (λ inv. NotCancelled sample_env sample_doc inv (ledger_with pending_o1) e w'))
      (handle_order_cancelled sample_env cancelled_o1 (ledger_with pending_o1))
unfolding sample_doc
handle_order_cancelled_outcome_example =
    handle_order_cancelled_outcome sample_env sample_doc cancelled_o1 (ledger_with pending_o1)

abbrev after_payment : Ledger
after_payment = (handle_order_paid sample_env paid_o1 (ledger_with pending_o1)).1

payment_done : (handle_order_paid sample_env paid_o1 (ledger_with pending_o1)).0 ≡ ok tt
unfolding handle_order_paid find_invoice get pay update_status
payment_done = refl

handle_order_paid_again_example :
    (e : GoError) × ((handle_order_paid sample_env paid_o1 after_payment).0 ≡ err e)
    × Unchanged sample_env sample_doc after_payment
        (handle_order_paid sample_env paid_o1 after_payment).1
unfolding sample_doc
handle_order_paid_again_example =
    handle_order_paid_again sample_env sample_doc paid_o1 (ledger_with pending_o1) after_payment
      payment_done refl

process_settles_example :
    Settled sample_env sample_doc handler_o1 created_message empty_ledger empty_ledger
      (process_message sample_env handler_o1 created_message empty_ledger).1
unfolding sample_doc
process_settles_example =
    process_settles sample_env sample_doc handler_o1
      (order_handler-LeavesCommits sample_env sample_doc sample_topics) created_message empty_ledger

abbrev processed_created : Ledger
processed_created = record empty_ledger {
  processed =
      update (λ k. none) "OrderCreated-o-1"
        (record { event_id = "OrderCreated-o-1"; topic = "order.created"; processed_at = pos 100 });
}

created-Recorded : Recorded sample_env sample_doc (event_key created_message) processed_created
unfolding event_key sample_doc
created-Recorded = (_, refl)

sample-Answers : Answers sample_env sample_doc
unfolding sample_doc
sample-Answers key w (row, here) = (row, ap row_or_error here)

consume_recorded_example :
    SameRows processed_created
      (consume sample_env handler_o1 (created_message ∷ created_message ∷ []) processed_created).1
unfolding sample_doc
consume_recorded_example =
    consume_recorded sample_env sample_doc sample-Answers handler_o1
      (created_message ∷ created_message ∷ []) processed_created
      (created-Recorded, (created-Recorded, tt))
