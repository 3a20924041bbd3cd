-- ===== src/Billing/App.antt =====
-- `Run` of billing_service/internal/app/app.go.
pub mod Stops
use order_billing_system.Base.Texts.{String}
use order_billing_system.Shared.Errors.{wrap}
use order_billing_system.Shared.Effects.{Act, Outcome, pure, or_fail, ignore, notify, ◌>>=◌, ◌>>◌}
use order_billing_system.Shared.Config.{Config}
use order_billing_system.Shared.Metrics.{Prometheus, new_metrics}
use order_billing_system.Shared.Process.{
  ProcessEnvironment, collects_db_metrics, consumes, serves_grpc, start_metrics_server, stop_server,
  close_database, run_with,
}

module _ (env : ProcessEnvironment) where
  -- `Consumer.Close`
  unfoldable pub close_consumer : String → Act env.World (Unit {0})
  close_consumer topic = env.close_reader topic

  -- `DLQProducer.Close`
  unfoldable pub close_dlq : Act env.World (Unit {0})
  close_dlq = or_fail env.close_dlq_writer (wrap "failed to close DLQ writer: ")

  -- What follows the signal: the consumers, the server, the dead letter producer, the database.
  unfoldable pub shut_billing_down : Config → env.Db → Act env.World (Unit {0})
  shut_billing_down cfg db = do
    ignore (close_consumer cfg.order_created_topic)
    ignore (close_consumer cfg.order_paid_topic)
    ignore (close_consumer cfg.order_cancelled_topic)
    stop_server env
    ignore close_dlq
    close_database env db

  unfoldable pub serve_billing : Config → env.Db → Act env.World (Unit {0})
  serve_billing cfg db = do
    or_fail (start_metrics_server env) (wrap "failed to start metrics server: ")
    notify (env.spawn collects_db_metrics)
    notify (env.spawn (consumes cfg.order_created_topic))
    notify (env.spawn (consumes cfg.order_paid_topic))
    notify (env.spawn (consumes cfg.order_cancelled_topic))
    or_fail (env.listen ":50052") (wrap "failed to listen on :50052: ")
    notify (env.spawn serves_grpc)
    notify env.await_signal
    shut_billing_down cfg db

module _ (prom : Prometheus) (env : ProcessEnvironment) where
  unfoldable pub run_billing : Config → env.World → Outcome (Unit {0}) × env.World
  run_billing cfg =
      run_with env (new_metrics prom "billing_service" "billing")
        (or_fail (env.init_db cfg.db_dsn) (wrap "failed to connect to database: "))
        (serve_billing env cfg)
