-- ===== src/Billing/Handler.antt =====
-- billing_service/internal/kafka/handler/handlers.go, and `Send` of
-- kafka/reliability/dlq_producer.go.
pub mod Dispatch
use order_billing_system.Base.Tests.{Option, none, some, if◌then◌else◌}
use order_billing_system.Base.Texts.{String, str_eq}
use order_billing_system.Shared.Errors.{GoError, error_text}
use order_billing_system.Shared.Effects.{Result, ok, err, Act, pure, notify, returns, ◌>>=◌, ◌>>◌}
use order_billing_system.Shared.Kafka.{Message, Handler}
use order_billing_system.Billing.Model.{
  DlqMessage, OrderCreatedEvent, OrderPaidEvent, OrderCancelledEvent,
}
use order_billing_system.Billing.Environment.{Environment}
use order_billing_system.Billing.Service.{
  handle_order_created, handle_order_paid, handle_order_cancelled,
}

-- The three topics that `NewOrderHandler` is given.
pub record Topics : Type 0 where
  pub created : String
  pub paid : String
  pub cancelled : String

abbrev error_or_empty : Option GoError → String
error_or_empty none = ""
error_or_empty (some e) = error_text e

module _ (env : Environment) where
  -- `DLQProducer.Send`: a failure is logged and dropped.
  unfoldable pub dlq_send : DlqMessage → env.World → env.World
  dlq_send msg w = elim (env.marshal_dlq msg) [ ok text ↦ (env.write_dlq text w).1 | err _ ↦ w ]

  unfoldable pub send_to_dlq : Message → Option GoError → env.World → env.World
  unfolding dlq_send
  send_to_dlq msg e w =
      let (now, w') = env.time_now w in
      dlq_send
        (record {
          original_topic = msg.topic;
          event_type = "";
          payload = msg.value;
          error = error_or_empty e;
          failed_at = now.unix;
        })
        w'

  -- `unmarshal`, over what json.Unmarshal has returned: a false `ok` is `none`.
  unfoldable pub unmarshal : {T : Type 0} → Message → Result T → Act env.World (Option T)
  unfolding send_to_dlq
  unmarshal msg (ok event) = pure (some event)
  unmarshal msg (err e) = notify (send_to_dlq msg (some e)) >> pure none

  -- The tests that the three handlers make before they call the service.
  unfoldable pub accept :
      {T : Type 0}
      → Message
      → (T → String)
      → (T → Act env.World (Unit {0}))
      → Option T
      → Act env.World (Unit {0})
  unfolding send_to_dlq
  accept msg order_id service none = pure tt
  accept msg order_id service (some event) =
      if str_eq (order_id event) "" then notify (send_to_dlq msg none) else service event

  unfoldable pub handle_created : Message → Act env.World (Unit {0})
  unfolding unmarshal accept
  handle_created msg = do
    event ← unmarshal msg (env.unmarshal_created msg.value)
    accept msg (λ (e : OrderCreatedEvent). e.order_id) (handle_order_created env) event

  unfoldable pub handle_paid : Message → Act env.World (Unit {0})
  unfolding unmarshal accept
  handle_paid msg = do
    event ← unmarshal msg (env.unmarshal_paid msg.value)
    accept msg (λ (e : OrderPaidEvent). e.order_id) (handle_order_paid env) event

  unfoldable pub handle_cancelled : Message → Act env.World (Unit {0})
  unfolding unmarshal accept
  handle_cancelled msg = do
    event ← unmarshal msg (env.unmarshal_cancelled msg.value)
    accept msg (λ (e : OrderCancelledEvent). e.order_id) (handle_order_cancelled env) event

  -- `Handle`. The map literal sets its keys in order, so of two equal topics the later one counts.
  unfoldable pub handle : Topics → Message → Act env.World (Unit {0})
  handle topics msg =
      if str_eq topics.cancelled msg.topic
      then handle_cancelled msg
      else if str_eq topics.paid msg.topic
      then handle_paid msg
      else if str_eq topics.created msg.topic
      then handle_created msg
      else pure tt

  -- `OrderHandler` as the `MessageHandler` that the consumer is given.
  unfoldable pub order_handler : Topics → Handler env.World
  order_handler topics msg w = let (r, w') = handle topics msg w in (returns r, w')
