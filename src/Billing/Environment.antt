-- ===== src/Billing/Environment.antt =====
-- What billing_service calls and does not implement: gorm on PostgreSQL, the clock, the uuid
-- generator, `encoding/json`, kafka-go, the random source and Prometheus. `Environment` holds the
-- calls as the sources make them; `Documented` states what their documentation says of them.
use order_billing_system.Base.Tests.{ℕ, ◌<◌, ◌≡◌, Option, none, some, if◌then◌else◌}
use order_billing_system.Base.Texts.{String, str_eq}
use order_billing_system.Base.Lists.{List, [], ◌∷◌, ◌++◌}
use order_billing_system.Shared.Errors.{GoError}
use order_billing_system.Shared.Effects.{Time, Result, ok, err, Act}
use order_billing_system.Shared.Kafka.{Message}
use order_billing_system.Billing.Model.{
  Invoice, OrderCreatedEvent, OrderPaidEvent, OrderCancelledEvent, ProcessedEvent, DlqMessage,
}

-- The counters and gauges of shared/observability that this service moves.
pub data Metric : Type 0 where
  invoices_created_total invoices_paid_total invoices_cancelled_total : Metric
  invoice_state_inc invoice_state_dec : String → Metric
  kafka_messages_failed kafka_messages_consumed : String → String → Metric

-- The columns that `Updates` sets; without a value `paid_at` is left alone.
pub record Updates : Type 0 where
  pub status : String
  pub paid_at : Option Time

pub record Environment : Type 1 where
  pub World : Type 0
  -- time.Now()
  pub time_now : World → Time × World
  -- uuid.NewString()
  pub new_uuid : World → String × World
  -- json.Unmarshal into each of the three events
  pub unmarshal_created : String → Result OrderCreatedEvent
  pub unmarshal_paid : String → Result OrderPaidEvent
  pub unmarshal_cancelled : String → Result OrderCancelledEvent
  -- json.Marshal
  pub marshal_dlq : DlqMessage → Result String
  -- db.Where("order_id = ?", orderID).First(&invoice)
  pub first_invoice : String → Act World Invoice
  -- db.Create(inv)
  pub create_invoice : Invoice → Act World (Unit {0})
  -- db.Model(&Invoice{}).Where("order_id = ?", orderID).Updates(…), and its RowsAffected
  pub update_invoice : String → Updates → Act World ℕ
  -- db.First(&event, "event_id = ?", eventID)
  pub first_processed : String → Act World ProcessedEvent
  -- db.Create(&event)
  pub create_processed : ProcessedEvent → Act World (Unit {0})
  -- writer.WriteMessages on the dead letter topic
  pub write_dlq : String → Act World (Unit {0})
  -- reader.CommitMessages
  pub commit_message : Message → Act World (Unit {0})
  -- rand.Int63n
  pub random_below : ℕ → World → ℕ × World
  -- select on ctx.Done() and time.After(duration): ctx.Err() if the context ends first
  pub wait : ℕ → Act World (Unit {0})
  -- Inc() and Dec()
  pub observe : Metric → World → World

-- What has become durable: invoices by order, processed events by id, the texts on the dead letter
-- topic and the messages whose offset was committed.
pub record Ledger : Type 0 where
  pub invoices : String → Option Invoice
  pub processed : String → Option ProcessedEvent
  pub dead_letters : List String
  pub commits : List Message

abbrev pub update : {A : Type 0} → (String → Option A) → String → A → String → Option A
update f k v j = if str_eq k j then some v else f j

-- A row after `Updates`.
abbrev pub set_columns : Updates → Invoice → Invoice
set_columns u inv = record inv {
  status = u.status;
  paid_at = elim u.paid_at [ none ↦ inv.paid_at | some t ↦ some t ];
}

pub record Documented (env : Environment) : Type 0 where
  pub ledger : env.World → Ledger
  pub time_now_keeps : (w : env.World) → ledger (env.time_now w).1 ≡ ledger w
  pub new_uuid_keeps : (w : env.World) → ledger (env.new_uuid w).1 ≡ ledger w
  pub observe_keeps : (m : Metric) (w : env.World) → ledger (env.observe m w) ≡ ledger w
  pub wait_keeps : (d : ℕ) (w : env.World) → ledger (env.wait d w).1 ≡ ledger w
  pub random_keeps : (n : ℕ) (w : env.World) → ledger (env.random_below n w).1 ≡ ledger w
  pub random_bound : (n : ℕ) (w : env.World) → 0 < n → (env.random_below n w).0 < n
  -- Queries change nothing, and find the committed row.
  pub first_invoice_keeps :
      (k : String) (w : env.World) → ledger (env.first_invoice k w).1 ≡ ledger w
  pub first_invoice_found :
      (k : String) (w : env.World) {inv : Invoice}
      → (env.first_invoice k w).0 ≡ ok inv
      → (ledger w).invoices k ≡ some inv
  pub first_processed_keeps :
      (k : String) (w : env.World) → ledger (env.first_processed k w).1 ≡ ledger w
  pub first_processed_found :
      (k : String) (w : env.World) {row : ProcessedEvent}
      → (env.first_processed k w).0 ≡ ok row
      → (ledger w).processed k ≡ some row
  -- The unique index on order_id: a created row is the first for its order.
  pub create_invoice_done :
      (inv : Invoice) (w : env.World)
      → (env.create_invoice inv w).0 ≡ ok tt
      → ((ledger w).invoices inv.order_id ≡ none)
        × (ledger (env.create_invoice inv w).1
            ≡ record (ledger w) { invoices = update (ledger w).invoices inv.order_id inv })
  pub create_invoice_failed :
      (inv : Invoice) (w : env.World) {e : GoError}
      → (env.create_invoice inv w).0 ≡ err e
      → ledger (env.create_invoice inv w).1 ≡ ledger w
  pub update_invoice_done :
      (k : String) (u : Updates) (w : env.World) {inv : Invoice} {n : ℕ}
      → (ledger w).invoices k ≡ some inv
      → (env.update_invoice k u w).0 ≡ ok n
      → (n ≡ 1)
        × (ledger (env.update_invoice k u w).1
            ≡ record (ledger w) { invoices = update (ledger w).invoices k (set_columns u inv) })
  pub update_invoice_failed :
      (k : String) (u : Updates) (w : env.World) {e : GoError}
      → (env.update_invoice k u w).0 ≡ err e
      → ledger (env.update_invoice k u w).1 ≡ ledger w
  -- The primary key on event_id.
  pub create_processed_done :
      (row : ProcessedEvent) (w : env.World)
      → (env.create_processed row w).0 ≡ ok tt
      → ledger (env.create_processed row w).1
        ≡ record (ledger w) { processed = update (ledger w).processed row.event_id row }
  pub create_processed_failed :
      (row : ProcessedEvent) (w : env.World) {e : GoError}
      → (env.create_processed row w).0 ≡ err e
      → ledger (env.create_processed row w).1 ≡ ledger w
  -- A write to Kafka that is acknowledged has appended; of one that is not, only the rows are known.
  pub write_dlq_done :
      (value : String) (w : env.World)
      → (env.write_dlq value w).0 ≡ ok tt
      → ledger (env.write_dlq value w).1
        ≡ record (ledger w) { dead_letters = (ledger w).dead_letters ++ value ∷ [] }
  pub write_dlq_failed :
      (value : String) (w : env.World) {e : GoError}
      → (env.write_dlq value w).0 ≡ err e
      → (letters : List String) × (ledger (env.write_dlq value w).1
          ≡ record (ledger w) { dead_letters = letters })
  pub commit_message_done :
      (msg : Message) (w : env.World)
      → (env.commit_message msg w).0 ≡ ok tt
      → ledger (env.commit_message msg w).1
        ≡ record (ledger w) { commits = (ledger w).commits ++ msg ∷ [] }
  pub commit_message_failed :
      (msg : Message) (w : env.World) {e : GoError}
      → (env.commit_message msg w).0 ≡ err e
      → ledger (env.commit_message msg w).1 ≡ ledger w
