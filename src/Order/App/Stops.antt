-- ===== src/Order/App/Stops.antt =====
-- What is left of order_service when `Run` returns.
use order_billing_system.Base.Tests.{◌≡◌, refl, ◌∙◌, ap, ◌⊎◌, inl, inr, false}
use order_billing_system.Base.Texts.{String}
use order_billing_system.Base.Lists.{All}
use order_billing_system.Shared.Errors.{GoError, wrap}
use order_billing_system.Shared.Effects.{Result, ok, err, or_fail, pure, ◌>>◌, Result-cases}
use order_billing_system.Shared.Effects.Contracts.{
  Ends, Ends-ok, Ends-err, Ends-of_ok, Ends-or_fail, Ends-weaken, Ends-bind, bind_ok,
}
use order_billing_system.Shared.Config.{OrderConfig}
use order_billing_system.Shared.Metrics.{Prometheus, PrometheusDocumented}
use order_billing_system.Shared.Metrics.Registered.{all_collectors, new_metrics-registers}
use order_billing_system.Shared.Process.{
  ProcessEnvironment, ProcessDocumented, Running, opened, collects_db_metrics, relays_outbox,
  serves_grpc, serves_metrics, shuts_down_metrics, start_metrics_server, stop_server,
  close_database,
}
use order_billing_system.Shared.Process.Steps.{
  stop_server_returns, stop_server_stops, close_database_closes, Finishes, run_with-Finishes,
}
use order_billing_system.Order.App.{open_order_db, shut_order_down, serve_orders, run_order}

module _ (env : ProcessEnvironment) (doc : ProcessDocumented env) where
  -- The server is stopped, and the database is closed, or the last call was that of `DB` for its
  -- handle, and it failed.
  abbrev pub Stopped : env.Db → env.World → Type 0
  Stopped db w' =
      ((doc.running w').serving ≡ false)
      × (((doc.running w').db_open ≡ false)
          ⊎ ((w1 : env.World) × (e : GoError) × (env.sql_db db w1 ≡ (err e, w'))))

  shut_down_stops :
      (db : env.Db) (w : env.World) → Ends (λ _. Stopped db) (λ e w'. ⊥) (shut_order_down env db w)
  unfolding shut_order_down
  shut_down_stops db w =
      let w1 = (stop_server env w).1 in
      let (done, closed) = close_database_closes env doc db w1 in
      let still : (doc.running w1).serving ≡ false =
        ap (λ (r : Running). r.serving) (stop_server_stops env doc w) in
      rw (bind_ok (stop_server env) (λ _. close_database env db) w (stop_server_returns env doc w))
        (Ends-of_ok tt done (elim closed [
          | inl same ↦ (
            ap (λ (r : Running). r.serving) same ∙ still,
            inl (ap (λ (r : Running). r.db_open) same),
          )
          | inr ((w2, e, failed), same) ↦
              (ap (λ (r : Running). r.serving) same ∙ still, inr (w2, e, failed))
        ]))

  -- The server was not started.
  abbrev NotServing : env.World → GoError → env.World → Type 0
  NotServing w e w' = (doc.running w').serving ≡ (doc.running w).serving

  -- The goroutines that are started before the port is opened.
  abbrev started : env.World → env.World
  started w =
      env.spawn relays_outbox
        (env.spawn collects_db_metrics (env.spawn serves_metrics (env.spawn shuts_down_metrics w)))

  started_keeps : (w : env.World) → (doc.running (started w)).serving ≡ (doc.running w).serving
  started_keeps w =
      rw
        (
          doc.spawn_runs relays_outbox _,
          doc.spawn_runs collects_db_metrics _,
          doc.spawn_runs serves_metrics _,
          doc.spawn_runs shuts_down_metrics w,
        )
        refl

  serve_orders_outcome :
      (db : env.Db) (w : env.World) → Ends (λ _. Stopped db) (NotServing w) (serve_orders env db w)
  unfolding serve_orders start_metrics_server
  serve_orders_outcome db w = elim (Result-cases (env.listen ":50051" (started w)).0) [
    | inr (e, failed) ↦ rw failed (
        Ends-err _ _ (
          ap (λ (r : Running). r.serving) (doc.listen_keeps ":50051" (started w))
          ∙ started_keeps w))
    | inl (_, done) ↦
        let w1 = (env.listen ":50051" (started w)).1 in
        rw done (
          Ends-weaken (shut_down_stops db (env.await_signal (env.spawn serves_grpc w1))) (λ _ h. h)
            (λ e h. absurd h))
  ]

  opened_serving :
      (r : Result env.Db) (before : Running) → (opened r before).serving ≡ before.serving
  opened_serving (ok db) before = refl
  opened_serving (err e) before = refl

  init_outcome :
      (dsn : String) (w : env.World)
      → Ends
          (λ _ w'. (doc.running w').serving ≡ (doc.running w).serving)
          (NotServing w)
          (env.init_db dsn w)
  init_outcome dsn w =
      let kept =
        ap (λ (r : Running). r.serving) (doc.init_db_opens dsn w)
        ∙ opened_serving (env.init_db dsn w).0 (doc.running w) in
      record { on_ok = λ db done. kept; on_err = λ e failed. kept }

  migrated_outcome :
      (db : env.Db) (other : GoError → GoError) (w : env.World)
      → Ends
          (λ _ w'. (doc.running w').serving ≡ (doc.running w).serving)
          (NotServing w)
          ((or_fail (env.migrate_outbox db) other >> pure db) w)
  migrated_outcome db other w =
      let kept = ap (λ (r : Running). r.serving) (doc.migrate_keeps db w) in
      elim (Result-cases (env.migrate_outbox db w).0) [
        | inl (_, done) ↦ rw done (Ends-ok db _ kept)
        | inr (e, failed) ↦ rw failed (Ends-err _ _ kept)
      ]

  open_db_outcome :
      (cfg : OrderConfig) (w : env.World)
      → Ends
          (λ _ w'. (doc.running w').serving ≡ (doc.running w).serving)
          (NotServing w)
          (open_order_db env cfg w)
  unfolding open_order_db
  open_db_outcome cfg w =
      Ends-bind {Q = NotServing w} {Q' = NotServing w} (or_fail (env.init_db cfg.common.db_dsn) _)
        (λ db. or_fail (env.migrate_outbox db) (wrap "failed to migrate outbox table: ") >> pure db)
        w
        (Ends-or_fail {Q' = NotServing w} (env.init_db cfg.common.db_dsn) _ w
          (init_outcome cfg.common.db_dsn w) (λ e kept. kept))
        (λ db kept.
          Ends-weaken (migrated_outcome db _ _) (λ _ same. same ∙ kept) (λ e same. same ∙ kept))
        (λ e kept. kept)

module _ (prom : Prometheus) (prom_doc : PrometheusDocumented prom) (env : ProcessEnvironment)
    (doc : ProcessDocumented env) where
  -- `Run` of order_service never panics. If it returns nil, then it had opened the database, the gRPC
  -- server has been stopped, and the database closed, unless the last call of the run was that for
  -- gorm's handle of it, and failed; if it returns an error, then the server was not started.
  -- Prometheus allows the names of the collectors.
  pub run_order-Finishes :
      (cfg : OrderConfig) (w : env.World)
      → All prom_doc.Valid (all_collectors "order")
      → Finishes env
          (λ w'. (db : env.Db) × ((open_order_db env cfg w).0 ≡ ok db) × Stopped env doc db w')
          (λ w'. (doc.running w').serving ≡ (doc.running w).serving)
          (run_order prom env cfg w)
  unfolding run_order
  run_order-Finishes cfg w valid =
      let (m, made, _, _) =
        new_metrics-registers prom prom_doc "order" "order_service" (λ e. cc) valid in
      let after = (open_order_db env cfg w).1 in
      let opening = open_db_outcome env doc cfg w in
      rw made (
        run_with-Finishes env m (open_order_db env cfg) (serve_orders env) w
          (λ w'. (db : env.Db) × ((open_order_db env cfg w).0 ≡ ok db) × Stopped env doc db w')
          (λ w'. (doc.running w').serving ≡ (doc.running w).serving)
          (record {
            on_ok = λ db opened_db.
                Ends-weaken (serve_orders_outcome env doc db after) (λ _ h. (db, opened_db, h))
                  (λ e same. same ∙ opening.on_ok db opened_db);
            on_err = opening.on_err;
          }))
