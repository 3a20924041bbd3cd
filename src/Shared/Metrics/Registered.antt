-- ===== src/Shared/Metrics/Registered.antt =====
-- `NewMetrics` registers every collector.
use order_billing_system.Base.Tests.{
  ◌≡◌, ◌≢◌, refl, sym, ◌∙◌, ap, Option, some, Bool, true, not, ◌&&◌, arith,
}
use mathlib.Core.Path.{subst}
use order_billing_system.Base.Texts.{String, str_eq, eq_iff}
use order_billing_system.Base.Lists.{
  List, [], ◌∷◌, ◌++◌, map, take, drop, All, All-append, All-take, All-drop, append_assoc,
  append-nil,
}
use order_billing_system.Shared.Effects.{ok}
use order_billing_system.Shared.Collectors
use order_billing_system.Shared.Collectors.{Collector}
use order_billing_system.Shared.Metrics.{
  Prometheus, PrometheusDocumented, returns, Metrics, must_register, init_grpc_metrics,
  init_kafka_metrics, init_db_metrics, init_business_metrics, new_metrics,
}
use order_billing_system.Shared.Metrics.Names.{
  short_name, apart, Apart, apart-Apart, Apart-before, Named, full_name-ne,
}

abbrev pub somes : List Collector → List (Option Collector)
somes [] = []
somes (c ∷ cs) = some c ∷ somes cs

abbrev pub all_collectors : String → List Collector
all_collectors service =
    Collectors.grpc_requests_total service
    ∷ Collectors.grpc_request_duration service
    ∷ Collectors.kafka_messages_consumed service
    ∷ Collectors.kafka_messages_failed service
    ∷ Collectors.kafka_processing_duration service
    ∷ Collectors.kafka_messages_produced service
    ∷ Collectors.db_open_connections service
    ∷ Collectors.db_in_use_connections service
    ∷ Collectors.db_idle_connections service
    ∷ Collectors.invoices_created_total service
    ∷ Collectors.invoices_paid_total service
    ∷ Collectors.invoices_cancelled_total service
    ∷ Collectors.invoice_state_total service
    ∷ Collectors.orders_created_total service
    ∷ Collectors.orders_paid_total service
    ∷ Collectors.orders_cancelled_total service
    ∷ []

-- The fields in the order in which they are registered.
abbrev pub fields : {prom : Prometheus} → Metrics prom → List (Option Collector)
fields m =
    m.grpc_requests_total ∷ m.grpc_request_duration ∷ m.kafka_messages_consumed
    ∷ m.kafka_messages_failed ∷ m.kafka_processing_duration ∷ m.kafka_messages_produced
    ∷ m.db_open_connections ∷ m.db_in_use_connections ∷ m.db_idle_connections
    ∷ m.invoices_created_total ∷ m.invoices_paid_total ∷ m.invoices_cancelled_total
    ∷ m.invoice_state_total ∷ m.orders_created_total ∷ m.orders_paid_total
    ∷ m.orders_cancelled_total ∷ []

abbrev complete : (prom : Prometheus) → prom.Registry → String → String → Metrics prom
complete prom registry service_name service = record {
  registry = registry;
  service_name = service_name;
  grpc_requests_total = some (Collectors.grpc_requests_total service);
  grpc_request_duration = some (Collectors.grpc_request_duration service);
  kafka_messages_consumed = some (Collectors.kafka_messages_consumed service);
  kafka_messages_produced = some (Collectors.kafka_messages_produced service);
  kafka_messages_failed = some (Collectors.kafka_messages_failed service);
  kafka_processing_duration = some (Collectors.kafka_processing_duration service);
  db_open_connections = some (Collectors.db_open_connections service);
  db_in_use_connections = some (Collectors.db_in_use_connections service);
  db_idle_connections = some (Collectors.db_idle_connections service);
  invoices_created_total = some (Collectors.invoices_created_total service);
  invoices_paid_total = some (Collectors.invoices_paid_total service);
  invoices_cancelled_total = some (Collectors.invoices_cancelled_total service);
  invoice_state_total = some (Collectors.invoice_state_total service);
  orders_created_total = some (Collectors.orders_created_total service);
  orders_paid_total = some (Collectors.orders_paid_total service);
  orders_cancelled_total = some (Collectors.orders_cancelled_total service);
}

module _ (prom : Prometheus) (doc : PrometheusDocumented prom) (service : String) where
  abbrev Ours : Collector → Type 0
  Ours c = Named service c × doc.Valid c

  names_differ :
      (before : List Collector) (c : Collector)
      → All Ours before
      → Ours c
      → All (λ d. short_name d ≢ short_name c) before
      → All
          (λ d.
            prom.full_name d.namespace d.subsystem d.name
            ≢ prom.full_name c.namespace c.subsystem c.name)
          before
  names_differ [] c all h other = tt
  names_differ (d ∷ before) c (hd, all) (hc, valid) (first, rest) =
      (full_name-ne prom doc service d c hd.0 hc first, names_differ before c all (hc, valid) rest)

  -- Collectors whose names are not taken are registered one after the other.
  registers_each :
      (before cs : List Collector) (r : prom.Registry)
      → doc.registered r ≡ before
      → All Ours before
      → All Ours cs
      → Apart (map short_name (before ++ cs))
      → (r' : prom.Registry) × (must_register prom (somes cs) r ≡ returns r')
        × (doc.registered r' ≡ before ++ cs)
  unfolding must_register
  registers_each before [] r known all here names = (r, refl, known ∙ sym (append-nil before))
  registers_each before (c ∷ cs) r known all (h, here) names =
      let (named, valid) = h in
      let free = names_differ before c all h (Apart-before before c cs names) in
      let done : (prom.register c r).0 ≡ ok tt = doc.register_accepts c r valid (rw known free) in
      let r1 = (prom.register c r).1 in
      let known1 : doc.registered r1 ≡ before ++ c ∷ [] =
        doc.register_done c r done ∙ ap (λ (l : List Collector). l ++ c ∷ []) known in
      let split : (before ++ c ∷ []) ++ cs ≡ before ++ c ∷ cs = append_assoc before (c ∷ []) cs in
      let (r', registers, known') =
        registers_each (before ++ c ∷ []) cs r1 known1 (All-append Ours before (c ∷ []) all (h, tt))
          here (subst (λ (l : List Collector). Apart (map short_name l)) (sym split) names) in
      (r', rw done registers, known' ∙ split)

  filled : List Collector → Bool
  filled [] = true
  filled (c ∷ cs) = not (str_eq c.subsystem "") && (not (str_eq c.name "") && filled cs)

  each-Ours :
      (cs : List Collector)
      → service ≢ ""
      → All (λ c. c.namespace ≡ service) cs
      → filled cs ≡ true
      → All doc.Valid cs
      → All Ours cs
  unfolding filled
  each-Ours [] given same full valid = tt
  each-Ours (c ∷ cs) given (same, sames) full (valid, valids) = (
    (
      (
        same,
        given,
        (λ e. ground (arith, eq_iff c.subsystem "")),
        (λ e. ground (arith, eq_iff c.name "")),
      ),
      valid,
    ),
    each-Ours cs given sames (ground arith) valids,
  )

  -- `NewMetrics` does not panic, whatever name it is given: it sets every field, and registers every
  -- collector of the fields once, in this order. Prometheus allows the names and labels of the
  -- collectors, and the name of the service is not empty.
  pub new_metrics-registers :
      (service_name : String)
      → service ≢ ""
      → All doc.Valid (all_collectors service)
      → (m : Metrics prom) × (new_metrics prom service_name service ≡ returns m)
        × (doc.registered m.registry ≡ all_collectors service)
        × (fields m ≡ somes (all_collectors service))
  unfolding new_metrics init_grpc_metrics init_kafka_metrics init_db_metrics init_business_metrics
      filled apart
  new_metrics-registers service_name given valid =
      let all : All Ours (all_collectors service) =
        each-Ours (all_collectors service) given (ground arith) refl valid in
      let g = take 2 (all_collectors service) in
      let k = take 4 (drop 2 (all_collectors service)) in
      let d = take 3 (drop 6 (all_collectors service)) in
      let b = drop 9 (all_collectors service) in
      let (r1, done1, known1) =
        registers_each [] g prom.new_registry doc.new_registered tt
          (All-take Ours 2 (all_collectors service) all) (apart-Apart (map short_name g) refl) in
      let (r2, done2, known2) =
        registers_each g k r1 known1 (All-take Ours 2 (all_collectors service) all)
          (All-take Ours 4 (drop 2 (all_collectors service))
            (All-drop Ours 2 (all_collectors service) all))
          (apart-Apart (map short_name (g ++ k)) refl) in
      let (r3, done3, known3) =
        registers_each (g ++ k) d r2 known2 (All-take Ours 6 (all_collectors service) all)
          (All-take Ours 3 (drop 6 (all_collectors service))
            (All-drop Ours 6 (all_collectors service) all))
          (apart-Apart (map short_name (g ++ k ++ d)) refl) in
      let (r4, done4, known4) =
        registers_each (g ++ k ++ d) b r3 known3 (All-take Ours 9 (all_collectors service) all)
          (All-drop Ours 9 (all_collectors service) all)
          (apart-Apart (map short_name (all_collectors service)) refl) in
      (complete prom r4 service_name service, rw (done1, done2, done3, done4) refl, known4, refl)
