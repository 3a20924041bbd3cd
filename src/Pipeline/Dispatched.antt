-- ===== src/Pipeline/Dispatched.antt =====
-- A row of the outbox of order_service as the handler of billing_service takes it: its message is
-- decoded and handed to the handler of its event.
use order_billing_system.Base.Tests.{◌≡◌, ◌≢◌, refl, ◌∙◌, ◌⊎◌, inl, inr, some, false, arith}
use mathlib.Core.Path.{fun_ext}
use order_billing_system.Base.Texts.{String, str_eq, eq_iff}
use order_billing_system.Base.Lists.{List, [], ◌∷◌}
use order_billing_system.Shared.Effects.{ok, Act, pure, ◌>>◌}
use order_billing_system.Shared.Kafka.{Message}
use order_billing_system.Shared.Config.{Config}
use order_billing_system.Order.Model.{
  OutboxEvent, event_order_created, event_order_paid, event_order_cancelled,
}
use order_billing_system.Order.Relay.{relay_message}
use order_billing_system.Billing.Model.{OrderCreatedEvent, OrderPaidEvent, OrderCancelledEvent}
use order_billing_system.Billing.Environment.{Environment}
use order_billing_system.Billing.Service.{
  handle_order_created, handle_order_paid, handle_order_cancelled,
}
use order_billing_system.Billing.Handler.{
  unmarshal, accept, handle, handle_created, handle_paid, handle_cancelled,
}
use order_billing_system.Wiring.{topic_map, handler_topics}
use order_billing_system.Pipeline.{OwnTopics, handle-relay_message}

-- The payload of a row decodes to an event of its order, and the row carries the topic of its event.
pub record Carried (env : Environment) (cfg : Config) (row : OutboxEvent) : Type 0 where
  pub has_order : row.order_id ≢ ""
  pub to_topic : topic_map cfg row.event_type ≡ some row.topic
  pub of_created :
      row.event_type ≡ event_order_created
      → (e : OrderCreatedEvent) × (env.unmarshal_created row.payload ≡ ok e)
        × (e.order_id ≡ row.order_id)
  pub of_paid :
      row.event_type ≡ event_order_paid
      → (e : OrderPaidEvent) × (env.unmarshal_paid row.payload ≡ ok e) × (e.order_id ≡ row.order_id)
  pub of_cancelled :
      row.event_type ≡ event_order_cancelled
      → (e : OrderCancelledEvent) × (env.unmarshal_cancelled row.payload ≡ ok e)
        × (e.order_id ≡ row.order_id)

given : (id order_id : String) → id ≡ order_id → order_id ≢ "" → str_eq id "" ≡ false
given id order_id same named = rw same (ground (arith, eq_iff order_id ""))

module _ (env : Environment) where
  decoded_created :
      (msg : Message) (e : OrderCreatedEvent)
      → env.unmarshal_created msg.value ≡ ok e
      → str_eq e.order_id "" ≡ false
      → handle_created env msg ≡ handle_order_created env e
  unfolding handle_created unmarshal accept
  decoded_created msg e known named = fun_ext (λ w. rw (known, named) refl)

  decoded_paid :
      (msg : Message) (e : OrderPaidEvent)
      → env.unmarshal_paid msg.value ≡ ok e
      → str_eq e.order_id "" ≡ false
      → handle_paid env msg ≡ handle_order_paid env e
  unfolding handle_paid unmarshal accept
  decoded_paid msg e known named = fun_ext (λ w. rw (known, named) refl)

  decoded_cancelled :
      (msg : Message) (e : OrderCancelledEvent)
      → env.unmarshal_cancelled msg.value ≡ ok e
      → str_eq e.order_id "" ≡ false
      → handle_cancelled env msg ≡ handle_order_cancelled env e
  unfolding handle_cancelled unmarshal accept
  decoded_cancelled msg e known named = fun_ext (λ w. rw (known, named) refl)

module _ (env : Environment) (cfg : Config) where
  abbrev pub handled : OutboxEvent → Act env.World (Unit {0})
  handled row = handle env (handler_topics cfg) (relay_message row)

  -- The handler over the messages of the rows, up to the first error.
  unfoldable pub handle_rows : List OutboxEvent → Act env.World (Unit {0})
  handle_rows [] = pure tt
  handle_rows (row ∷ rows) = handled row >> handle_rows rows

module _ (env : Environment) (cfg : Config) (own : OwnTopics cfg) where
  -- A row is handled as one of the three events, decoded.
  abbrev pub Dispatched : OutboxEvent → Type 0
  Dispatched row =
      ((row.event_type ≡ event_order_created)
        × ((e : OrderCreatedEvent) × (e.order_id ≡ row.order_id)
            × (handle env (handler_topics cfg) (relay_message row) ≡ handle_order_created env e)))
      ⊎ (((row.event_type ≡ event_order_paid)
            × ((e : OrderPaidEvent) × (e.order_id ≡ row.order_id)
                × (handle env (handler_topics cfg) (relay_message row) ≡ handle_order_paid env e)))
          ⊎ ((row.event_type ≡ event_order_cancelled)
              × ((e : OrderCancelledEvent) × (e.order_id ≡ row.order_id)
                  × (handle env (handler_topics cfg) (relay_message row)
                      ≡ handle_order_cancelled env e))))

  pub dispatched : (row : OutboxEvent) → Carried env cfg row → Dispatched row
  dispatched row h = elim (handle-relay_message env cfg row own h.to_topic) [
    | inl (is, routed) ↦
        let (e, known, same) = h.of_created is in
        inl (
          is,
          (
            e,
            same,
            routed
                ∙ decoded_created env (relay_message row) e known
                    (given e.order_id row.order_id same h.has_order),
          ),
        )
    | inr (inl (is, routed)) ↦
        let (e, known, same) = h.of_paid is in
        inr (
          inl (
            is,
            (
              e,
              same,
              routed
                  ∙ decoded_paid env (relay_message row) e known
                      (given e.order_id row.order_id same h.has_order),
            ),
          ))
    | inr (inr (is, routed)) ↦
        let (e, known, same) = h.of_cancelled is in
        inr (
          inr (
            is,
            (
              e,
              same,
              routed
                  ∙ decoded_cancelled env (relay_message row) e known
                      (given e.order_id row.order_id same h.has_order),
            ),
          ))
  ]
