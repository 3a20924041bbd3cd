-- ===== src/ProcessExamples.antt =====
-- The theorems on the metrics and on the processes of the two services at concrete environments.
use order_billing_system.Base.Tests.{◌≡◌, refl, true, false}
use order_billing_system.Base.Texts.{String, sprint}
use order_billing_system.Base.Lists.{List, [], ◌∷◌, ◌++◌, All}
use order_billing_system.Base.Integers.{pos}
use order_billing_system.Shared.Errors.{text}
use order_billing_system.Shared.Effects.{ok, err}
use order_billing_system.Shared.Config.{Config, OrderConfig}
use order_billing_system.Shared.Collectors.{Collector}
use order_billing_system.Shared.Metrics.{
  Prometheus, PrometheusDocumented, Metrics, new_metrics, returns,
}
use order_billing_system.Shared.Metrics.Registered.{
  all_collectors, fields, somes, new_metrics-registers,
}
use order_billing_system.Shared.Process.{
  ProcessEnvironment, ProcessDocumented, Running, spawned, set_reader,
}
use order_billing_system.Shared.Process.Steps.{Finishes}
use order_billing_system.Order.App.{open_order_db, run_order}
use order_billing_system.Order.App.Stops
use order_billing_system.Order.App.Stops.{run_order-Finishes}
use order_billing_system.Billing.App.{run_billing}
use order_billing_system.Billing.App.Stops.{Stopped, run_billing-Finishes}

-- A registry that takes every collector.
abbrev list_registry : Prometheus
list_registry = record {
  Registry = List Collector;
  new_registry = [];
  register = λ c r. (ok tt, r ++ c ∷ []);
  full_name = λ namespace subsystem name. sprint (namespace ∷ "_" ∷ subsystem ∷ "_" ∷ name ∷ []);
}

unfoldable list_doc : PrometheusDocumented list_registry
list_doc = record {
  Valid = λ c. Unit {0};
  registered = λ r. r;
  new_registered = refl;
  register_accepts = λ c r valid free. refl;
  register_done = λ c r done. refl;
  full_name_parts = λ namespace subsystem name a b c. refl;
}

valid_names : (service : String) → All list_doc.Valid (all_collectors service)
unfolding list_doc
valid_names service = (
  tt,
  (tt, (tt, (tt, (tt, (tt, (tt, (tt, (tt, (tt, (tt, (tt, (tt, (tt, (tt, (tt, tt))))))))))))))),
)

new_metrics-registers_example :
    (m : Metrics list_registry) × (new_metrics list_registry "order_service" "order" ≡ returns m)
    × (m.registry ≡ all_collectors "order")
    × (fields m ≡ somes (all_collectors "order"))
unfolding list_doc
new_metrics-registers_example =
    new_metrics-registers list_registry list_doc "order" "order_service" (λ e. cc)
      (valid_names "order")

-- A process whose server does not stop in time.
abbrev slow_process : ProcessEnvironment
slow_process = record {
  World = Running;
  Db = Unit {0};
  init_db = λ dsn w. (ok tt, record w { db_open = true });
  migrate_outbox = λ db w. (ok tt, w);
  listen = λ addr w. (ok tt, w);
  spawn = spawned;
  await_signal = λ w. w;
  close_reader = λ topic w.
      (err (text "closed"), record w { reader_open = set_reader w.reader_open topic false });
  graceful_stop = λ w. (false, w);
  stop = λ w. record w { serving = false };
  close_dlq_writer = λ w. (ok tt, record w { dlq_open = false });
  sql_db = λ db w. (ok tt, w);
  close_db = λ db w. (ok tt, record w { db_open = false });
}

unfoldable slow_doc : ProcessDocumented slow_process
slow_doc = record {
  running = λ w. w;
  init_db_opens = λ dsn w. refl;
  migrate_keeps = λ db w. refl;
  listen_keeps = λ addr w. refl;
  spawn_runs = λ routine w. refl;
  await_keeps = λ w. refl;
  close_reader_closes = λ topic w. refl;
  graceful_stop_ends = λ w. refl;
  stop_ends = λ w. refl;
  close_dlq_writer_closes = λ w. refl;
  sql_db_keeps = λ db w. refl;
  close_db_closes = λ db w. refl;
}

abbrev nothing_runs : Running
nothing_runs = record {
  serving = false;
  reader_open = λ topic. false;
  dlq_open = true;
  db_open = false;
}

abbrev some_config : Config
some_config = record {
  db_dsn = "host=db";
  kafka_brokers = "kafka:9092" ∷ [];
  order_created_topic = "order.created";
  order_paid_topic = "order.paid";
  order_cancelled_topic = "order.cancelled";
}

abbrev order_config : OrderConfig
order_config = record { common = some_config; outbox_batch_size = pos 50 }

run_billing-Finishes_example :
    Finishes slow_process
      (λ w'. Stopped some_config w')
      (λ w'. w'.serving ≡ false)
      (run_billing list_registry slow_process some_config nothing_runs)
unfolding slow_doc
run_billing-Finishes_example =
    run_billing-Finishes list_registry list_doc slow_process slow_doc some_config nothing_runs
      (valid_names "billing")

run_order-Finishes_example :
    Finishes slow_process
      (λ w'.
        (db : Unit {0}) × ((open_order_db slow_process order_config nothing_runs).0 ≡ ok db)
        × Stops.Stopped slow_process slow_doc db w')
      (λ w'. w'.serving ≡ false)
      (run_order list_registry slow_process order_config nothing_runs)
unfolding slow_doc
run_order-Finishes_example =
    run_order-Finishes list_registry list_doc slow_process slow_doc order_config nothing_runs
      (valid_names "order")
