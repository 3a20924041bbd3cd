-- ===== src/Shared/Metrics.antt =====
-- shared/observability: `Metrics` of metrics.go, and the registration of its collectors in grpc.go,
-- kafka.go, db.go and business.go.
pub mod Names
pub mod Registered
pub mod Gauges
use order_billing_system.Base.Tests.{ℕ, ◌≡◌, ◌≢◌, Option, none, some}
use order_billing_system.Base.Texts.{String, sprint}
use order_billing_system.Base.Lists.{List, [], ◌∷◌, ◌++◌, All}
use order_billing_system.Shared.Collectors
use order_billing_system.Shared.Collectors.{Collector}
use order_billing_system.Shared.Errors.{GoError, text}
use order_billing_system.Shared.Effects.{Result, ok, err, Act, Result-cases}

-- client_golang's registry. `register` is `Registry.Register`; it returns an error for a collector
-- that it refuses.
pub record Prometheus : Type 1 where
  pub Registry : Type 0
  -- prometheus.NewRegistry()
  pub new_registry : Registry
  pub register : Collector → Act Registry (Unit {0})
  -- prometheus.BuildFQName of namespace, subsystem and name
  pub full_name : String → String → String → String

pub record PrometheusDocumented (prom : Prometheus) : Type 1 where
  -- The names and labels of the collector are such as Prometheus allows.
  pub Valid : Collector → Type 0
  pub registered : prom.Registry → List Collector
  pub new_registered : registered prom.new_registry ≡ []
  -- A valid collector is refused only if its full name is taken.
  pub register_accepts :
      (c : Collector) (r : prom.Registry)
      → Valid c
      → All
          (λ d.
            prom.full_name d.namespace d.subsystem d.name
            ≢ prom.full_name c.namespace c.subsystem c.name)
          (registered r)
      → (prom.register c r).0 ≡ ok tt
  pub register_done :
      (c : Collector) (r : prom.Registry)
      → (prom.register c r).0 ≡ ok tt
      → registered (prom.register c r).1 ≡ registered r ++ c ∷ []
  -- The parts that are not empty, joined by underscores.
  pub full_name_parts :
      (namespace subsystem name : String)
      → namespace ≢ ""
      → subsystem ≢ ""
      → name ≢ ""
      → prom.full_name namespace subsystem name
        ≡ sprint (namespace ∷ "_" ∷ subsystem ∷ "_" ∷ name ∷ [])

-- What a call that may panic ends in.
pub data Guarded (A : Type 0) : Type 0 where
  returns : A → Guarded A
  panics : GoError → Guarded A

infixl 5 ◌>>=◌
abbrev pub ◌>>=◌ : {A B : Type 0} → Guarded A → (A → Guarded B) → Guarded B
returns a >>= f = f a
panics reason >>= f = panics reason

module _ (prom : Prometheus) where
  -- `Metrics`: the fields are nil until they are set.
  pub record Metrics : Type 0 where
    pub registry : prom.Registry
    pub service_name : String
    pub grpc_requests_total : Option Collector
    pub grpc_request_duration : Option Collector
    pub kafka_messages_consumed : Option Collector
    pub kafka_messages_produced : Option Collector
    pub kafka_messages_failed : Option Collector
    pub kafka_processing_duration : Option Collector
    pub db_open_connections : Option Collector
    pub db_in_use_connections : Option Collector
    pub db_idle_connections : Option Collector
    pub invoices_created_total : Option Collector
    pub invoices_paid_total : Option Collector
    pub invoices_cancelled_total : Option Collector
    pub invoice_state_total : Option Collector
    pub orders_created_total : Option Collector
    pub orders_paid_total : Option Collector
    pub orders_cancelled_total : Option Collector

  accept : Result (Unit {0}) × prom.Registry → Guarded prom.Registry
  accept (ok _, registry) = returns registry
  accept (err e, registry) = panics e

  -- `Registry.MustRegister`, one collector after the other; a nil collector is dereferenced.
  unfoldable pub must_register : List (Option Collector) → prom.Registry → Guarded prom.Registry
  unfolding accept
  must_register [] registry = returns registry
  must_register (none ∷ cs) registry = panics (text "nil pointer dereference")
  must_register (some c ∷ cs) registry =
      accept (prom.register c registry) >>= λ after. must_register cs after

  registers : Metrics → List (Option Collector) → Guarded Metrics
  registers m cs =
      must_register cs m.registry >>= λ registry. returns (record m { registry = registry })

  unfoldable pub init_grpc_metrics : String → Metrics → Guarded Metrics
  unfolding registers
  init_grpc_metrics service m =
      let m' : Metrics = record m {
        grpc_requests_total = some (Collectors.grpc_requests_total service);
        grpc_request_duration = some (Collectors.grpc_request_duration service);
      } in
      registers m' (m'.grpc_requests_total ∷ m'.grpc_request_duration ∷ [])

  unfoldable pub init_kafka_metrics : String → Metrics → Guarded Metrics
  unfolding registers
  init_kafka_metrics service m =
      let m' : Metrics = record m {
        kafka_messages_consumed = some (Collectors.kafka_messages_consumed service);
        kafka_messages_produced = some (Collectors.kafka_messages_produced service);
        kafka_messages_failed = some (Collectors.kafka_messages_failed service);
        kafka_processing_duration = some (Collectors.kafka_processing_duration service);
      } in
      registers m' (
        m'.kafka_messages_consumed ∷ m'.kafka_messages_failed ∷ m'.kafka_processing_duration
        ∷ m'.kafka_messages_produced ∷ [])

  unfoldable pub init_db_metrics : String → Metrics → Guarded Metrics
  unfolding registers
  init_db_metrics service m =
      let m' : Metrics = record m {
        db_open_connections = some (Collectors.db_open_connections service);
        db_in_use_connections = some (Collectors.db_in_use_connections service);
        db_idle_connections = some (Collectors.db_idle_connections service);
      } in
      registers m' (m'.db_open_connections ∷ m'.db_in_use_connections ∷ m'.db_idle_connections ∷ [])

  unfoldable pub init_business_metrics : String → Metrics → Guarded Metrics
  unfolding registers
  init_business_metrics service m =
      let m' : Metrics = record m {
        invoices_created_total = some (Collectors.invoices_created_total service);
        invoices_paid_total = some (Collectors.invoices_paid_total service);
        invoices_cancelled_total = some (Collectors.invoices_cancelled_total service);
        invoice_state_total = some (Collectors.invoice_state_total service);
        orders_created_total = some (Collectors.orders_created_total service);
        orders_paid_total = some (Collectors.orders_paid_total service);
        orders_cancelled_total = some (Collectors.orders_cancelled_total service);
      } in
      registers m' (
        m'.invoices_created_total ∷ m'.invoices_paid_total ∷ m'.invoices_cancelled_total
        ∷ m'.invoice_state_total ∷ m'.orders_created_total ∷ m'.orders_paid_total
        ∷ m'.orders_cancelled_total ∷ [])

  abbrev pub unset : String → Metrics
  unset service_name = record {
    registry = prom.new_registry;
    service_name = service_name;
    grpc_requests_total = none;
    grpc_request_duration = none;
    kafka_messages_consumed = none;
    kafka_messages_produced = none;
    kafka_messages_failed = none;
    kafka_processing_duration = none;
    db_open_connections = none;
    db_in_use_connections = none;
    db_idle_connections = none;
    invoices_created_total = none;
    invoices_paid_total = none;
    invoices_cancelled_total = none;
    invoice_state_total = none;
    orders_created_total = none;
    orders_paid_total = none;
    orders_cancelled_total = none;
  }

  unfoldable pub new_metrics : String → String → Guarded Metrics
  new_metrics service_name service =
      init_grpc_metrics service (unset service_name)
      >>= init_kafka_metrics service
      >>= init_db_metrics service
      >>= init_business_metrics service
