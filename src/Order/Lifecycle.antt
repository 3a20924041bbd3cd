-- ===== src/Order/Lifecycle.antt =====
-- The abstract course of one order: its stages, and the events that a reader of the outbox of
-- order_service/internal/outbox has been given by then. The requests of
-- order_service/internal/service/order.go refine it.
pub mod Advances
pub mod Refined
use order_billing_system.Base.Tests.{◌≡◌, Option, none, some, if◌then◌else◌}
use order_billing_system.Base.Texts.{String, str_eq}
use order_billing_system.Base.Lists.{List, [], ◌∷◌}
use order_billing_system.Order.Model.{
  Order, OutboxEvent, order_status_created, order_status_paid, order_status_cancelled,
  event_order_created, event_order_paid, event_order_cancelled,
}
use order_billing_system.Order.Environment.{Tables}

pub data Stage : Type 0 where
  absent open_order paid_order cancelled_order : Stage

-- One request, seen from one order.
pub data Next : Stage → Stage → Type 0 where
  stays : {st : Stage} → Next st st
  opens : Next absent open_order
  pays : Next open_order paid_order
  cancels : Next open_order cancelled_order

pub data Course : Stage → Stage → Type 0 where
  ends : {st : Stage} → Course st st
  steps : {a b c : Stage} → Next a b → Course b c → Course a c

-- The types of the events that lead to a stage, oldest first.
abbrev pub announced : Stage → List String
announced absent = []
announced open_order = event_order_created ∷ []
announced paid_order = event_order_created ∷ event_order_paid ∷ []
announced cancelled_order = event_order_created ∷ event_order_cancelled ∷ []

abbrev pub HasStatus : Option Order → String → Type 0
HasStatus row status = (o : Order) × (row ≡ some o) × (o.status ≡ status)

abbrev pub Matches : Stage → Option Order → Type 0
Matches absent row = row ≡ none
Matches open_order row = HasStatus row order_status_created
Matches paid_order row = HasStatus row order_status_paid
Matches cancelled_order row = HasStatus row order_status_cancelled

-- The types of the events of one order, in the order of insertion.
unfoldable pub event_types : String → List OutboxEvent → List String
event_types k [] = []
event_types k (row ∷ rows) =
    let rest = event_types k rows in if str_eq row.order_id k then row.event_type ∷ rest else rest

-- The tables show an order in a stage: its row, and exactly the events that lead there.
pub record Shows (k : String) (st : Stage) (t : Tables) : Type 0 where
  pub row : Matches st (t.orders k)
  pub events : event_types k t.outbox ≡ announced st
