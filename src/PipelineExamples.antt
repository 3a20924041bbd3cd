-- ===== src/PipelineExamples.antt =====
-- The theorems on the topics between order_service and billing_service at a concrete configuration.
use order_billing_system.Base.Tests.{◌≡◌, refl, none}
use order_billing_system.Base.Lists.{[], ◌∷◌}
use order_billing_system.Base.Integers.{pos}
use order_billing_system.Shared.Config.{Config}
use order_billing_system.Order.Model.{OutboxEvent, event_order_paid, event_status_pending}
use order_billing_system.Billing.Handler.{order_handler, handle, handle_created, handle_paid}
use order_billing_system.Billing.Service.{
  handle_order_created, handle_order_paid, create_for, pay, find_invoice,
}
use order_billing_system.Billing.Repository.{create, get, update_status}
use order_billing_system.Billing.Samples.{sample_env}
use order_billing_system.Wiring.{topic_map, handler_topics}
use order_billing_system.Shared.Effects.{ok}
use order_billing_system.Order.Model.{event_order_created, order_status_paid}
use order_billing_system.Order.Environment.{Tables, upsert}
use order_billing_system.Order.Lifecycle.{Shows, event_types, paid_order}
use order_billing_system.Order.Samples.{created_o1}
use order_billing_system.Billing.Samples.{sample_doc, empty_ledger}
use order_billing_system.Pipeline.Stages.{Tracks}
use order_billing_system.Pipeline.Dispatched.{Carried, handle_rows}
use order_billing_system.Order.Relay.{relay_message}
use order_billing_system.Billing.Consumer.{consume}
use order_billing_system.Pipeline.Early.{Unpaid, consume_early_payment}
use order_billing_system.Pipeline.Agreement.{handle_rows-Tracks}
use order_billing_system.Pipeline.{OwnTopics}

abbrev sample_config : Config
sample_config = record {
  db_dsn = "host=db";
  kafka_brokers = "kafka:9092" ∷ [];
  order_created_topic = "order.created";
  order_paid_topic = "order.paid";
  order_cancelled_topic = "order.cancelled";
}

sample-OwnTopics : OwnTopics sample_config
sample-OwnTopics = record {
  created_paid = λ e. cc;
  created_cancelled = λ e. cc;
  paid_cancelled = λ e. cc;
}

abbrev paid_event : OutboxEvent
paid_event = record {
  id = "e-1";
  order_id = "o-1";
  event_type = event_order_paid;
  topic = "order.paid";
  payload = "{}";
  status = event_status_pending;
  created_at = record { unix = pos 100; nanos = pos 0 };
  processed_at = none;
}

-- The row of an order that was created and paid, with payloads that the sample decoder knows.
abbrev created_row : OutboxEvent
created_row = record paid_event {
  event_type = event_order_created;
  topic = "order.created";
  payload = "o-1";
}

abbrev paid_row : OutboxEvent
paid_row = record paid_event { payload = "o-1" }

abbrev paid_tables : Tables
paid_tables = record {
  orders = upsert (record created_o1 { status = order_status_paid }) (λ id. none);
  outbox = created_row ∷ paid_row ∷ [];
}

created-Carried : Carried sample_env sample_config created_row
unfolding topic_map
created-Carried = record {
  has_order = λ e. cc;
  to_topic = refl;
  of_created = λ is. (_, refl, refl);
  of_paid = λ is. (_, refl, refl);
  of_cancelled = λ is. (_, refl, refl);
}

paid-Carried : Carried sample_env sample_config paid_row
unfolding topic_map
paid-Carried = record {
  has_order = λ e. cc;
  to_topic = refl;
  of_created = λ is. (_, refl, refl);
  of_paid = λ is. (_, refl, refl);
  of_cancelled = λ is. (_, refl, refl);
}

paid-Shows : Shows "o-1" paid_order paid_tables
unfolding event_types
paid-Shows = record { row = (_, refl, refl); events = refl }

all_handled : (handle_rows sample_env sample_config paid_tables.outbox empty_ledger).0 ≡ ok tt
unfolding handle_rows handle handle_created handle_paid handle_order_created handle_order_paid
    create_for create pay find_invoice get update_status
all_handled = refl

handle_rows-Tracks_example :
    Tracks paid_order
      ((handle_rows sample_env sample_config paid_tables.outbox empty_ledger).1.invoices "o-1")
unfolding sample_doc
handle_rows-Tracks_example =
    handle_rows-Tracks sample_env sample_doc sample_config sample-OwnTopics "o-1" paid_order
      paid_tables empty_ledger (created-Carried, (paid-Carried, tt)) paid-Shows refl all_handled

consume_early_payment_example : Unpaid (
    (consume sample_env
        (order_handler sample_env (handler_topics sample_config))
        (relay_message paid_row ∷ relay_message created_row ∷ [])
        empty_ledger).1.invoices
      "o-1")
unfolding sample_doc
consume_early_payment_example =
    consume_early_payment sample_env sample_doc sample_config sample-OwnTopics paid_row paid-Carried
      refl (relay_message created_row) empty_ledger refl
