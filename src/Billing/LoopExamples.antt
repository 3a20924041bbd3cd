-- ===== src/Billing/LoopExamples.antt =====
-- The theorem on the loop of the consumer with a reader that hands out one message again and again,
-- whose event is recorded already.
use order_billing_system.Base.Tests.{refl, none, Bool, true, false}
use order_billing_system.Base.Lists.{List, [], ◌∷◌}
use order_billing_system.Base.Integers.{pos}
use order_billing_system.Shared.Effects.{ok}
use order_billing_system.Shared.Kafka.{Message, Handler}
use order_billing_system.Billing.Environment.{Ledger, update}
use order_billing_system.Billing.Lifecycle.{Moves}
use order_billing_system.Billing.Handler.{order_handler}
use order_billing_system.Billing.Consumer.Loop.{Source, SourceDocumented, start}
use order_billing_system.Billing.Consumer.Loop.Rounds.{start-Moves}
use order_billing_system.Billing.Samples.{
  sample_env, sample_doc, sample_topics, empty_ledger, created_message,
}

abbrev committed : List Message → Bool
committed [] = false
committed (msg ∷ messages) = true

-- The context ends when an offset has been committed.
abbrev sample_source : Source sample_env
sample_source = record {
  ctx_done = λ w. (committed w.commits, w);
  fetch_message = λ w. (ok created_message, w);
  wait_second = λ w. (false, w);
}

source_doc : SourceDocumented sample_env sample_doc sample_source
source_doc = record {
  ctx_done_keeps = λ w. refl;
  fetch_message_keeps = λ w. refl;
  wait_second_keeps = λ w. refl;
}

abbrev handler_o1 : Handler Ledger
handler_o1 = order_handler sample_env sample_topics

abbrev recorded : Ledger
recorded = record empty_ledger {
  processed =
      update (λ k. none) "OrderCreated-o-1"
        (record { event_id = "OrderCreated-o-1"; topic = "order.created"; processed_at = pos 100 });
}

start-Moves_example :
    Moves
      (recorded.invoices "o-1")
      ((start sample_env sample_source handler_o1 3 recorded).1.invoices "o-1")
unfolding sample_doc
start-Moves_example =
    start-Moves sample_env sample_doc sample_topics sample_source source_doc "o-1" 3 recorded
