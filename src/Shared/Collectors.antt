-- ===== src/Shared/Collectors.antt =====
-- The collectors of shared/observability: their options in grpc.go, kafka.go, db.go and business.go.
use order_billing_system.Base.Tests.{ℕ}
use order_billing_system.Base.Texts.{String}
use order_billing_system.Base.Lists.{List, [], ◌∷◌}

-- The buckets of a histogram: `prometheus.DefBuckets`, or bounds in thousandths of a second.
pub data Buckets : Type 0 where
  def_buckets : Buckets
  bounds : List ℕ → Buckets

pub data Kind : Type 0 where
  counter counter_vec gauge gauge_vec : Kind
  histogram_vec : Buckets → Kind

-- A collector with the options that it was made with.
pub record Collector : Type 0 where
  pub kind : Kind
  pub namespace : String
  pub subsystem : String
  pub name : String
  pub help : String
  pub labels : List String

abbrev topic_labels : List String
topic_labels = "topic" ∷ "event_type" ∷ []

-- A gauge of the subsystem db.
abbrev db_gauge : String → String → String → Collector
db_gauge service name help = record {
  kind = gauge;
  namespace = service;
  subsystem = "db";
  name = name;
  help = help;
  labels = [];
}

-- A counter of the subsystem business.
abbrev business_counter : String → String → String → Collector
business_counter service name help = record {
  kind = counter;
  namespace = service;
  subsystem = "business";
  name = name;
  help = help;
  labels = [];
}

abbrev pub grpc_requests_total : String → Collector
grpc_requests_total service = record {
  kind = counter_vec;
  namespace = service;
  subsystem = "grpc";
  name = "requests_total";
  help = "Total number of gRPC requests";
  labels = "method" ∷ "status" ∷ [];
}

abbrev pub grpc_request_duration : String → Collector
grpc_request_duration service = record {
  kind = histogram_vec def_buckets;
  namespace = service;
  subsystem = "grpc";
  name = "request_duration_seconds";
  help = "gRPC request latency";
  labels = "method" ∷ [];
}

abbrev pub kafka_messages_consumed : String → Collector
kafka_messages_consumed service = record {
  kind = counter_vec;
  namespace = service;
  subsystem = "kafka";
  name = "messages_consumed_total";
  help = "Total consumed Kafka messages";
  labels = topic_labels;
}

abbrev pub kafka_messages_produced : String → Collector
kafka_messages_produced service = record {
  kind = counter_vec;
  namespace = service;
  subsystem = "kafka";
  name = "messages_produced_total";
  help = "Total Produced Kafka messages";
  labels = topic_labels;
}

abbrev pub kafka_messages_failed : String → Collector
kafka_messages_failed service = record {
  kind = counter_vec;
  namespace = service;
  subsystem = "kafka";
  name = "messages_failed_total";
  help = "Total failed Kafka message processing";
  labels = topic_labels;
}

abbrev pub kafka_processing_duration : String → Collector
kafka_processing_duration service = record {
  kind = histogram_vec (bounds (1 ∷ 10 ∷ 50 ∷ 100 ∷ 500 ∷ 1000 ∷ 2000 ∷ 5000 ∷ []));
  namespace = service;
  subsystem = "kafka";
  name = "processing_duration_seconds";
  help = "Kafka message processing duration";
  labels = topic_labels;
}

abbrev pub db_open_connections : String → Collector
db_open_connections service = db_gauge service "open_connections" "Number of open DB connections"

abbrev pub db_in_use_connections : String → Collector
db_in_use_connections service =
    db_gauge service "in_use_connections" "Number of in-use DB connections"

abbrev pub db_idle_connections : String → Collector
db_idle_connections service = db_gauge service "idle_connections" "Number of idle DB connections"

abbrev pub invoices_created_total : String → Collector
invoices_created_total service =
    business_counter service "invoices_created_total" "Total created invoices"

abbrev pub invoices_paid_total : String → Collector
invoices_paid_total service = business_counter service "invoices_paid_total" "Total paid invoices"

abbrev pub invoices_cancelled_total : String → Collector
invoices_cancelled_total service =
    business_counter service "invoices_cancelled_total" "Total cancelled invoices"

abbrev pub invoice_state_total : String → Collector
invoice_state_total service = record {
  kind = gauge_vec;
  namespace = service;
  subsystem = "business";
  name = "invoice_state_total";
  help = "Current number of invoices per state";
  labels = "state" ∷ [];
}

abbrev pub orders_created_total : String → Collector
orders_created_total service =
    business_counter service "orders_created_total" "Total created orders"

abbrev pub orders_paid_total : String → Collector
orders_paid_total service = business_counter service "orders_paid_total" "Total paid orders"

abbrev pub orders_cancelled_total : String → Collector
orders_cancelled_total service =
    business_counter service "orders_cancelled_total" "Total cancelled orders"
