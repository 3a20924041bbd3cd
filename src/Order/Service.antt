-- ===== src/Order/Service.antt =====
-- order_service/internal/service/order.go, with repository/order_repo.go, outbox/outbox_repo.go
-- (`SaveTx`) and outbox/relay.go (`BuildPayload`).
pub mod Writes
pub mod Reads
pub mod Transitions
pub mod Requests
use order_billing_system.Base.Tests.{◌≡◌, Option, none, some, if◌then◌else◌, not}
use order_billing_system.Base.Texts.{String, str_eq, sprint}
use order_billing_system.Base.Lists.{List, [], ◌∷◌}
use order_billing_system.Shared.Errors.{
  GoError, app, err_not_found, err_invalid_input, err_internal_error, err_invalid_order_state,
}
use order_billing_system.Shared.Effects.{
  Time, Result, ok, err, Act, pure, fail, lift, call, or_fail, notify, ◌>>=◌, ◌>>◌,
}
use order_billing_system.Order.Model.{
  OrderItem, Order, Event, created, paid, cancelled, OutboxEvent, order_status_created,
  order_status_paid, order_status_cancelled, event_order_created, event_order_paid,
  event_order_cancelled, event_status_pending,
}
use order_billing_system.Order.Validation.{validate_items}
use order_billing_system.Order.Total.{Converter, calc_total_usd}
use order_billing_system.Order.Environment.{
  Environment, orders_created_total, orders_paid_total, orders_cancelled_total,
}

-- The fields of `OrderService` that are no clients of other systems.
pub record OrderService : Type 0 where
  pub converter : Converter
  pub topic_map : String → Option String

abbrev or_error : {A W : Type 0} → Option A → GoError → Act W A
or_error none e = fail e
or_error (some a) e = pure a

module _ (env : Environment) where
  -- `OrderRepository.GetOrder`
  pub repo_get_order : String → Act env.World Order
  repo_get_order id = env.first_order id

  -- `OutboxRepository.SaveTx`
  pub save_tx : OutboxEvent → Act env.World (Unit {0})
  save_tx ev = env.create_event ev

  -- `BuildPayload`
  pub build_payload : Event → Result String
  build_payload ev = env.marshal ev

module _ (env : Environment) (s : OrderService) where
  unfoldable pub write_with_outbox : Order → Event → String → Act env.World (Unit {0})
  unfolding save_tx build_payload
  write_with_outbox order ev ev_type = do
    topic ←
        or_error (s.topic_map ev_type)
          (app (err_internal_error (sprint ("unknown event type: " ∷ ev_type ∷ []))))
    payload ←
        or_fail (lift (build_payload env ev))
          (λ _. app (err_internal_error "failed to serialize event"))
    event_id ← call env.new_uuid
    created_at ← call env.time_now
    let row : OutboxEvent = record {
      id = event_id;
      order_id = order.id;
      event_type = ev_type;
      topic = topic;
      payload = payload;
      status = event_status_pending;
      created_at = created_at;
      processed_at = none;
    }
    env.transaction (env.save_order order >> save_tx env row)

  unfoldable pub create_order : List OrderItem → Act env.World Order
  create_order items = do
    lift (validate_items items)
    total_usd ← lift (calc_total_usd items s.converter)
    order_id ← call env.new_uuid
    created_at ← call env.time_now
    let order : Order = record {
      id = order_id;
      items = items;
      total = record { amount = total_usd; currency = "USD" };
      status = order_status_created;
      created_at = created_at;
    }
    let event : Event = created (record {
      order_id = order.id;
      total = order.total;
      items = order.items;
      created_at = order.created_at;
    })
    or_fail (write_with_outbox order event event_order_created)
        (λ _. app (err_internal_error "failed to create order"))
    notify (env.increment orders_created_total)
    pure order

  -- The opening of the three other methods: the check of the id, and the read.
  unfoldable pub get_order : String → Act env.World Order
  unfolding repo_get_order
  get_order id =
      if str_eq id ""
      then fail (app (err_invalid_input "order_id is required"))
      else or_fail (repo_get_order env id) (λ _. app (err_not_found "order not found"))

  -- What follows the read in `MarkOrderPaid`.
  unfoldable pub pay : Order → Act env.World Order
  pay order =
      if not (str_eq order.status order_status_created)
      then fail (
          app (
            err_invalid_order_state (
              sprint (
                "cannot pay order with status " ∷ order.status ∷ ", only CREATED orders can be paid"
                ∷ []))))
      else do
        let changed = record order { status = order_status_paid }
        now ← call env.time_now
        or_fail
            (write_with_outbox changed (paid (record { order_id = changed.id; paid_at = now.unix }))
              event_order_paid)
            (λ _. app (err_internal_error "failed to update order"))
        notify (env.increment orders_paid_total)
        pure changed

  unfoldable pub mark_order_paid : String → Act env.World Order
  mark_order_paid id = get_order id >>= pay

  -- What follows the read in `CancelOrder`.
  unfoldable pub cancel : Order → Act env.World Order
  cancel order =
      if str_eq order.status order_status_paid
      then fail (app (err_invalid_order_state "cannot cancel a paid order"))
      else if str_eq order.status order_status_cancelled
      then pure order
      else do
        let changed = record order { status = order_status_cancelled }
        now ← call env.time_now
        or_fail
            (write_with_outbox changed
              (cancelled (record { order_id = changed.id; cancelled_at = now.unix }))
              event_order_cancelled)
            (λ _. app (err_internal_error "failed to update order"))
        notify (env.increment orders_cancelled_total)
        pure changed

  unfoldable pub cancel_order : String → Act env.World Order
  cancel_order id = get_order id >>= cancel
