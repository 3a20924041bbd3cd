-- ===== src/Billing/Model.antt =====
-- billing_service/internal/billing_domain: invoice/invoice.go and events/event.go; and the message
-- types of kafka/reliability/dlq_producer.go and of kafka-go.
use order_billing_system.Base.Tests.{Option}
use order_billing_system.Base.Texts.{String}
use order_billing_system.Base.Lists.{List}
use order_billing_system.Base.Integers.{ℤ}
use order_billing_system.Shared.Effects.{Time}
use order_billing_system.Shared.Money

-- `InvoiceStatus` is a string type: a row of the database may hold any text.
abbrev pub invoice_status_pending : String
invoice_status_pending = "PENDING"

abbrev pub invoice_status_paid : String
invoice_status_paid = "PAID"

abbrev pub invoice_status_cancelled : String
invoice_status_cancelled = "CANCELLED"

-- `invoice.Money`, a type of its own beside `money.Money`.
pub record InvoiceMoney : Type 0 where
  pub amount : ℤ
  pub currency : String

pub record Invoice : Type 0 where
  pub id : String
  pub order_id : String
  pub amount : InvoiceMoney
  pub status : String
  pub created_at : Time
  pub paid_at : Option Time

pub record OrderItem : Type 0 where
  pub product_id : String
  pub quantity : ℤ
  pub price : Money.Money

pub record OrderCreatedEvent : Type 0 where
  pub order_id : String
  pub total : Money.Money
  pub items : List OrderItem
  pub created_at : Time

pub record OrderPaidEvent : Type 0 where
  pub order_id : String
  pub paid_at : ℤ

pub record OrderCancelledEvent : Type 0 where
  pub order_id : String
  pub cancelled_at : ℤ

pub record ProcessedEvent : Type 0 where
  pub event_id : String
  pub topic : String
  pub processed_at : ℤ

pub record DlqMessage : Type 0 where
  pub original_topic : String
  pub event_type : String
  pub payload : String
  pub error : String
  pub failed_at : ℤ
