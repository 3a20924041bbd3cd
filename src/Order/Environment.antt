-- ===== src/Order/Environment.antt =====
-- What order_service calls and does not implement: gorm on PostgreSQL, the clock, the uuid
-- generator, `json.Marshal`, kafka-go and Prometheus. `Environment` holds the calls as the
-- sources make them; `Documented` states what their documentation says of them.
use order_billing_system.Base.Tests.{◌≡◌, Option, some, if◌then◌else◌}
use order_billing_system.Base.Texts.{String, str_eq}
use order_billing_system.Base.Lists.{List, [], ◌∷◌, ◌++◌}
use order_billing_system.Shared.Errors.{GoError}
use order_billing_system.Shared.Effects.{Time, Result, ok, err, Act}
use order_billing_system.Order.Model.{Order, OutboxEvent, Event}

-- The counters of shared/observability that this service increments.
pub data OrderMetric : Type 0 where
  orders_created_total orders_paid_total orders_cancelled_total : OrderMetric

pub record Environment : Type 1 where
  pub World : Type 0
  -- time.Now()
  pub time_now : World → Time × World
  -- uuid.NewString()
  pub new_uuid : World → String × World
  -- json.Marshal
  pub marshal : Event → Result String
  -- db.First(&order, "id = ?", id)
  pub first_order : String → Act World Order
  -- db.Transaction(func(tx) error { … })
  pub transaction : Act World (Unit {0}) → Act World (Unit {0})
  -- tx.Save(&order)
  pub save_order : Order → Act World (Unit {0})
  -- tx.Create(event)
  pub create_event : OutboxEvent → Act World (Unit {0})
  -- counter.Inc()
  pub increment : OrderMetric → World → World

-- The committed rows: orders by primary key, and the outbox in the order of insertion.
pub record Tables : Type 0 where
  pub orders : String → Option Order
  pub outbox : List OutboxEvent

-- The rows after an order was updated or inserted by its primary key.
abbrev pub upsert : Order → (String → Option Order) → String → Option Order
upsert o orders id = if str_eq o.id id then some o else orders id

pub record Documented (env : Environment) : Type 0 where
  -- What a query outside every transaction would see.
  pub tables : env.World → Tables
  pub time_now_keeps : (w : env.World) → tables (env.time_now w).1 ≡ tables w
  pub new_uuid_keeps : (w : env.World) → tables (env.new_uuid w).1 ≡ tables w
  pub increment_keeps : (m : OrderMetric) (w : env.World) → tables (env.increment m w) ≡ tables w
  -- A query changes nothing, and a row that it finds is the committed one.
  pub first_order_keeps : (id : String) (w : env.World) → tables (env.first_order id w).1 ≡ tables w
  pub first_order_found :
      (id : String) (w : env.World) {o : Order}
      → (env.first_order id w).0 ≡ ok o
      → ((tables w).orders id ≡ some o) × (o.id ≡ id)
  -- Writes: `Save` updates or inserts by the primary key, `Create` inserts.
  pub save_order_done :
      (o : Order) (w : env.World)
      → (env.save_order o w).0 ≡ ok tt
      → tables (env.save_order o w).1
        ≡ record { orders = upsert o (tables w).orders; outbox = (tables w).outbox }
  pub create_event_done :
      (ev : OutboxEvent) (w : env.World)
      → (env.create_event ev w).0 ≡ ok tt
      → tables (env.create_event ev w).1
        ≡ record { orders = (tables w).orders; outbox = (tables w).outbox ++ ev ∷ [] }
  -- A transaction that returns nil ran its function to nil and committed what it wrote; one that
  -- returns an error was rolled back.
  pub transaction_committed :
      (body : Act env.World (Unit {0})) (w : env.World)
      → (env.transaction body w).0 ≡ ok tt
      → (begun : env.World) × (tables begun ≡ tables w)
        × ((body begun).0 ≡ ok tt)
        × (tables (env.transaction body w).1 ≡ tables (body begun).1)
  pub transaction_rolled_back :
      (body : Act env.World (Unit {0})) (w : env.World) {e : GoError}
      → (env.transaction body w).0 ≡ err e
      → tables (env.transaction body w).1 ≡ tables w
