-- ===== src/Order/Model.antt =====
-- order_service/internal/domain/model/models.go, domain/events/event.go and outbox/outbox_model.go.
use order_billing_system.Base.Tests.{Option}
use order_billing_system.Base.Texts.{String}
use order_billing_system.Base.Lists.{List}
use order_billing_system.Base.Integers.{ℤ}
use order_billing_system.Shared.Effects.{Time}
use order_billing_system.Shared.Money.{Money}

-- `Quantity` is an int, of 64 bits.
pub record OrderItem : Type 0 where
  pub product_id : String
  pub quantity : ℤ
  pub price : Money

-- `OrderStatus` is a string type: a row of the database may hold any text.
abbrev pub order_status_created : String
order_status_created = "CREATED"

abbrev pub order_status_paid : String
order_status_paid = "PAID"

abbrev pub order_status_cancelled : String
order_status_cancelled = "CANCELLED"

pub record Order : Type 0 where
  pub id : String
  pub items : List OrderItem
  pub total : Money
  pub status : String
  pub created_at : Time

-- `EventType`
abbrev pub event_order_created : String
event_order_created = "OrderCreated"

abbrev pub event_order_paid : String
event_order_paid = "OrderPaid"

abbrev pub event_order_cancelled : String
event_order_cancelled = "OrderCancelled"

pub record OrderCreatedEvent : Type 0 where
  pub order_id : String
  pub total : Money
  pub items : List OrderItem
  pub created_at : Time

pub record OrderPaidEvent : Type 0 where
  pub order_id : String
  pub paid_at : ℤ

pub record OrderCancelledEvent : Type 0 where
  pub order_id : String
  pub cancelled_at : ℤ

-- The values that the service hands to `writeWithOutbox` as `ev any`.
pub data Event : Type 0 where
  created : OrderCreatedEvent → Event
  paid : OrderPaidEvent → Event
  cancelled : OrderCancelledEvent → Event

-- `EventStatus`
abbrev pub event_status_pending : String
event_status_pending = "PENDING"

abbrev pub event_status_sent : String
event_status_sent = "SENT"

pub record OutboxEvent : Type 0 where
  pub id : String
  pub order_id : String
  pub event_type : String
  pub topic : String
  pub payload : String
  pub status : String
  pub created_at : Time
  pub processed_at : Option Time
