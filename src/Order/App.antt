-- ===== src/Order/App.antt =====
-- `Run` of order_service/internal/app/app.go.
pub mod Stops
use order_billing_system.Base.Texts.{String}
use order_billing_system.Shared.Errors.{wrap}
use order_billing_system.Shared.Effects.{Act, Outcome, pure, or_fail, ignore, notify, ◌>>=◌, ◌>>◌}
use order_billing_system.Shared.Config.{OrderConfig}
use order_billing_system.Shared.Metrics.{Prometheus, new_metrics}
use order_billing_system.Shared.Process.{
  ProcessEnvironment, collects_db_metrics, relays_outbox, serves_grpc, start_metrics_server,
  stop_server, close_database, run_with,
}

module _ (env : ProcessEnvironment) where
  -- The database and the migration of the outbox.
  unfoldable pub open_order_db : OrderConfig → Act env.World env.Db
  open_order_db cfg = do
    db ← or_fail (env.init_db cfg.common.db_dsn) (wrap "failed to connect to database: ")
    or_fail (env.migrate_outbox db) (wrap "failed to migrate outbox table: ")
    pure db

  -- What follows the signal.
  unfoldable pub shut_order_down : env.Db → Act env.World (Unit {0})
  shut_order_down db = stop_server env >> close_database env db

  unfoldable pub serve_orders : env.Db → Act env.World (Unit {0})
  serve_orders db = do
    or_fail (start_metrics_server env) (wrap "failed to start metrics server: ")
    notify (env.spawn collects_db_metrics)
    notify (env.spawn relays_outbox)
    or_fail (env.listen ":50051") (wrap "failed to listen on :50051: ")
    notify (env.spawn serves_grpc)
    notify env.await_signal
    shut_order_down db

module _ (prom : Prometheus) (env : ProcessEnvironment) where
  unfoldable pub run_order : OrderConfig → env.World → Outcome (Unit {0}) × env.World
  run_order cfg =
      run_with env (new_metrics prom "order_service" "order") (open_order_db env cfg)
        (serve_orders env)
