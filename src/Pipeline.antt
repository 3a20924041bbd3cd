-- ===== src/Pipeline.antt =====
-- From the outbox of order_service to the consumer of billing_service: the messages of
-- order_service/internal/outbox/relay.go as billing_service/internal/kafka/consumer/consumer.go
-- reads them, and as kafka/handler/handlers.go hands them on over the topics of the two app.go.
pub mod Stages
pub mod Invoices
pub mod Dispatched
pub mod Agreement
pub mod Early
use order_billing_system.Base.Tests.{◌≡◌, ◌≢◌, refl, sym, ◌⊎◌, inl, inr, false, some, arith}
use order_billing_system.Base.Texts.{String, str_eq, eq_iff, eq_refl, sprint}
use order_billing_system.Base.Lists.{[], ◌∷◌}
use order_billing_system.Base.Integers.{ℤ}
use order_billing_system.Shared.Effects.{Act}
use order_billing_system.Shared.Config.{Config}
use order_billing_system.Order.Model.{
  OutboxEvent, event_order_created, event_order_paid, event_order_cancelled,
}
use order_billing_system.Order.Relay.{relay_message}
use order_billing_system.Billing.Environment.{Environment}
use order_billing_system.Billing.Consumer.{event_key}
use order_billing_system.Billing.Handler.{handle, handle_created, handle_paid, handle_cancelled}
use order_billing_system.Wiring.{topic_map, handler_topics}

-- The consumer's idempotency key of a relayed event is made of its type and its order alone: a
-- message that the relay publishes again, in whatever partition and at whatever offset, has the
-- same key.
event_key-relay_message :
    (ev : OutboxEvent) (partition offset : ℤ)
    → ev.order_id ≢ ""
    → ev.event_type ≢ ""
    → event_key (record (relay_message ev) { partition = partition; offset = offset })
      ≡ sprint (ev.event_type ∷ "-" ∷ ev.order_id ∷ [])
unfolding event_key
event_key-relay_message ev partition offset of_order of_type =
    let order_known : str_eq ev.order_id "" ≡ false = ground (arith, eq_iff ev.order_id "") in
    let type_known : str_eq ev.event_type "" ≡ false = ground (arith, eq_iff ev.event_type "") in
    rw (order_known, type_known) refl

-- Each type of event has a topic of its own.
pub record OwnTopics (cfg : Config) : Type 0 where
  pub created_paid : cfg.order_created_topic ≢ cfg.order_paid_topic
  pub created_cancelled : cfg.order_created_topic ≢ cfg.order_cancelled_topic
  pub paid_cancelled : cfg.order_paid_topic ≢ cfg.order_cancelled_topic

str_eq_ne : {a b : String} → a ≢ b → str_eq a b ≡ false
str_eq_ne {a} {b} other = ground (arith, eq_iff a b)

-- The type of the event of a row of the outbox with its topic.
topic_map-cases :
    (cfg : Config) (ev_type : String) {topic : String}
    → topic_map cfg ev_type ≡ some topic
    → ((ev_type ≡ event_order_created) × (topic ≡ cfg.order_created_topic))
      ⊎ (((ev_type ≡ event_order_paid) × (topic ≡ cfg.order_paid_topic))
          ⊎ ((ev_type ≡ event_order_cancelled) × (topic ≡ cfg.order_cancelled_topic)))
unfolding topic_map
topic_map-cases cfg ev_type {topic} known = ground (
  arith,
  eq_iff ev_type event_order_created,
  eq_iff ev_type event_order_paid,
  eq_iff ev_type event_order_cancelled,
)

module _ (env : Environment) where
  -- What the event of a row of the outbox should be handed to.
  abbrev pub Routed : OutboxEvent → Act env.World (Unit {0}) → Type 0
  Routed ev handled =
      ((ev.event_type ≡ event_order_created) × (handled ≡ handle_created env (relay_message ev)))
      ⊎ (((ev.event_type ≡ event_order_paid) × (handled ≡ handle_paid env (relay_message ev)))
          ⊎ ((ev.event_type ≡ event_order_cancelled)
              × (handled ≡ handle_cancelled env (relay_message ev))))

  -- If the two services are given the same three topics, all different, then the message of a row
  -- of the outbox that carries the topic of its event is handed to the handler of that event.
  pub handle-relay_message :
      (cfg : Config) (ev : OutboxEvent)
      → OwnTopics cfg
      → topic_map cfg ev.event_type ≡ some ev.topic
      → Routed ev (handle env (handler_topics cfg) (relay_message ev))
  unfolding handle
  handle-relay_message cfg ev own known = elim (topic_map-cases cfg ev.event_type known) [
    | inl (of_created, topic) ↦ inl (
      of_created,
      rw
          (
            topic,
            str_eq_ne (λ e. own.created_cancelled (sym e)),
            str_eq_ne (λ e. own.created_paid (sym e)),
            eq_refl cfg.order_created_topic,
          )
          refl,
    )
    | inr (inl (of_paid, topic)) ↦ inr (
        inl (
          of_paid,
          rw (topic, str_eq_ne (λ e. own.paid_cancelled (sym e)), eq_refl cfg.order_paid_topic)
              refl,
        ))
    | inr (inr (of_cancelled, topic)) ↦
        inr (inr (of_cancelled, rw (topic, eq_refl cfg.order_cancelled_topic) refl))
  ]
