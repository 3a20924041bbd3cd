-- ===== src/Order/Relay.antt =====
-- order_service/internal/outbox/relay.go, with `FetchPending` and `MarkSent` of outbox_repo.go.
pub mod Delivered
pub mod Marking
pub mod Loop
pub mod Sending
use order_billing_system.Base.Tests.{ℕ, zero, suc, ◌≡◌, ◌≢◌, Option, none, some, if◌then◌else◌}
use order_billing_system.Base.Texts.{String, str_eq}
use order_billing_system.Base.Lists.{List, [], ◌∷◌, ◌++◌, map, length, All, Any}
use order_billing_system.Base.Integers.{ℤ, pos, leb_ℤ}
use order_billing_system.Shared.Errors.{GoError, wrap}
use order_billing_system.Shared.Effects.{
  Time, Result, ok, err, Act, pure, or_fail, attempt, ignore, ◌>>=◌, ◌>>◌,
}
use order_billing_system.Shared.Kafka.{Message, Header}
use order_billing_system.Order.Model.{OutboxEvent, event_status_pending, event_status_sent}

-- What the relay calls and does not implement: gorm and kafka-go.
pub record RelayEnvironment : Type 1 where
  pub World : Type 0
  -- db.Where("status = ?", …).Order("created_at ASC").Limit(limit).Find(&events)
  pub find_events : String → ℤ → Act World (List OutboxEvent)
  -- db.Model(&OutboxEvent{}).Where("id = ?", id).Updates(status, NOW())
  pub update_event : String → String → Act World (Unit {0})
  -- writer.WriteMessages of one message
  pub write_message : Message → Act World (Unit {0})

-- The rows of the outbox, and the messages that the broker has acknowledged or may hold.
pub record Channel : Type 0 where
  pub outbox : List OutboxEvent
  pub log : List Message

abbrev pub relay_message : OutboxEvent → Message
relay_message ev = record {
  topic = ev.topic;
  partition = pos 0;
  offset = pos 0;
  key = ev.order_id;
  value = ev.payload;
  headers =
      record { key = "event-type"; value = ev.event_type }
      ∷ record { key = "order-id"; value = ev.order_id }
      ∷ [];
}

-- A row after `Updates` of the rows with an id.
abbrev pub set_status : String → String → Time → OutboxEvent → OutboxEvent
set_status id status at row =
    if str_eq row.id id then record row { status = status; processed_at = some at } else row

-- What requests that are served meanwhile add to the outbox: PENDING rows under new ids.
abbrev pub IsNew : List OutboxEvent → OutboxEvent → Type 0
IsNew rows row = (row.status ≡ event_status_pending) × All (λ old. row.id ≢ old.id) rows

-- The second channel is the first, but for rows that requests have inserted.
pub record Grown (before after : Channel) : Type 0 where
  pub inserted : List OutboxEvent
  pub new : All (IsNew before.outbox) inserted
  pub same : after ≡ record before { outbox = before.outbox ++ inserted }

-- No call waits for the requests: each of them ends with the rows that they have inserted meanwhile.
-- No other relay runs.
pub record RelayDocumented (env : RelayEnvironment) : Type 0 where
  pub channel : env.World → Channel
  -- The ids are a primary key.
  pub primary_key :
      (w : env.World) (a : OutboxEvent)
      → Any (λ row. row ≡ a) (channel w).outbox
      → All (λ row. row.id ≡ a.id → row ≡ a) (channel w).outbox
  pub find_events_keeps :
      (status : String) (limit : ℤ) (w : env.World)
      → Grown (channel w) (channel (env.find_events status limit w).1)
  pub find_events_found :
      (status : String) (limit : ℤ) (w : env.World) {events : List OutboxEvent}
      → (env.find_events status limit w).0 ≡ ok events
      → All
          (λ ev.
            (ev.status ≡ status)
            × Any (λ row. row ≡ ev) (channel (env.find_events status limit w).1).outbox)
          events
  pub update_event_done :
      (id status : String) (w : env.World)
      → (env.update_event id status w).0 ≡ ok tt
      → (at : Time) × Grown
          (record (channel w) { outbox = map (set_status id status at) (channel w).outbox })
          (channel (env.update_event id status w).1)
  pub update_event_failed :
      (id status : String) (w : env.World) {e : GoError}
      → (env.update_event id status w).0 ≡ err e
      → Grown (channel w) (channel (env.update_event id status w).1)
  pub write_message_done :
      (msg : Message) (w : env.World)
      → (env.write_message msg w).0 ≡ ok tt
      → Grown
          (record (channel w) { log = (channel w).log ++ msg ∷ [] })
          (channel (env.write_message msg w).1)
  -- A write that is not acknowledged may still have reached the broker.
  pub write_message_failed :
      (msg : Message) (w : env.World) {e : GoError}
      → (env.write_message msg w).0 ≡ err e
      → (extra : List Message) × Grown
          (record (channel w) { log = (channel w).log ++ extra })
          (channel (env.write_message msg w).1)

-- The default of `NewRelay`.
pub batch_size : ℤ → ℤ
batch_size n = if leb_ℤ n (pos 0) then pos 50 else n

module _ (env : RelayEnvironment) where
  unfoldable pub fetch_pending : ℤ → Act env.World (List OutboxEvent)
  fetch_pending limit = env.find_events event_status_pending limit

  unfoldable pub mark_sent : String → Act env.World (Unit {0})
  mark_sent id = env.update_event id event_status_sent

  mark_written : OutboxEvent → Option (Unit {0}) → Act env.World (Unit {0})
  mark_written ev none = pure tt
  mark_written ev (some _) = ignore (mark_sent ev.id)

  -- One round of the loop: a failure is logged, and the loop goes on.
  unfoldable pub relay_event : OutboxEvent → Act env.World (Unit {0})
  unfolding mark_written
  relay_event ev = do
    written ← attempt (env.write_message (relay_message ev))
    mark_written ev written

  unfoldable pub relay_events : List OutboxEvent → Act env.World (Unit {0})
  relay_events [] = pure tt
  relay_events (ev ∷ events) = relay_event ev >> relay_events events

  unfoldable pub process_once : ℤ → Act env.World (Unit {0})
  unfolding fetch_pending
  process_once size = do
    events ← or_fail (fetch_pending size) (λ e. wrap "fetch pending: " e)
    relay_events events

  -- The cycles of `Start`, whose errors are logged, until the context ends it.
  unfoldable pub cycles : ℤ → ℕ → env.World → env.World
  cycles size zero w = w
  cycles size (suc n) w = cycles size n (process_once size w).1
