-- ===== src/Billing/App/Stops.antt =====
-- What is left of billing_service when `Run` returns.
use order_billing_system.Base.Tests.{◌≡◌, refl, ◌∙◌, ap, inl, inr, Bool, false}
use order_billing_system.Base.Texts.{String}
use order_billing_system.Base.Lists.{All}
use order_billing_system.Shared.Errors.{GoError}
use order_billing_system.Shared.Effects.{Result, ok, err, Act, ignore, ◌>>◌, Result-cases}
use order_billing_system.Shared.Effects.Contracts.{
  Ends, Ends-err, Ends-of_ok, Ends-or_fail, Ends-weaken, bind_ok,
}
use order_billing_system.Shared.Config.{Config}
use order_billing_system.Shared.Metrics.{Prometheus, PrometheusDocumented}
use order_billing_system.Shared.Metrics.Registered.{all_collectors, new_metrics-registers}
use order_billing_system.Shared.Process.{
  ProcessEnvironment, ProcessDocumented, Running, set_reader, opened, collects_db_metrics, consumes,
  serves_grpc, serves_metrics, shuts_down_metrics, start_metrics_server, stop_server,
  close_database,
}
use order_billing_system.Shared.Process.Steps.{
  closed_here, stays_closed, stop_server_returns, stop_server_stops, close_database_closes,
  Finishes, run_with-Finishes,
}
use order_billing_system.Billing.App.{
  close_consumer, close_dlq, shut_billing_down, serve_billing, run_billing,
}

-- The server is stopped, and the readers of the consumers and the writer of dead letters are closed.
pub record Stopped (cfg : Config) (r : Running) : Type 0 where
  pub not_serving : r.serving ≡ false
  pub no_created : r.reader_open cfg.order_created_topic ≡ false
  pub no_paid : r.reader_open cfg.order_paid_topic ≡ false
  pub no_cancelled : r.reader_open cfg.order_cancelled_topic ≡ false
  pub no_dlq : r.dlq_open ≡ false

module _ (env : ProcessEnvironment) (doc : ProcessDocumented env) (cfg : Config) where
  abbrev after_consumers : env.World → env.World
  after_consumers w =
      (env.close_reader cfg.order_cancelled_topic
        (env.close_reader cfg.order_paid_topic (env.close_reader cfg.order_created_topic w).1).1).1

  abbrev none_open : (String → Bool) → String → Bool
  none_open f =
      set_reader
        (set_reader (set_reader f cfg.order_created_topic false) cfg.order_paid_topic false)
        cfg.order_cancelled_topic false

  consumers_closed :
      (w : env.World)
      → doc.running (after_consumers w)
        ≡ record (doc.running w) { reader_open = none_open (doc.running w).reader_open }
  consumers_closed w =
      rw
        (
          doc.close_reader_closes cfg.order_cancelled_topic _,
          doc.close_reader_closes cfg.order_paid_topic _,
          doc.close_reader_closes cfg.order_created_topic w,
        )
        refl

  -- What runs before the database is closed.
  abbrev quiet : Running → Running
  quiet r = record r { serving = false; reader_open = none_open r.reader_open; dlq_open = false }

  quiet-Stopped : (r : Running) → Stopped cfg (quiet r)
  quiet-Stopped r =
      let f = set_reader r.reader_open cfg.order_created_topic false in
      let g = set_reader f cfg.order_paid_topic false in
      record {
        not_serving = refl;
        no_created = stays_closed g cfg.order_cancelled_topic cfg.order_created_topic (
            stays_closed f cfg.order_paid_topic cfg.order_created_topic
              (closed_here r.reader_open cfg.order_created_topic));
        no_paid =
            stays_closed g cfg.order_cancelled_topic cfg.order_paid_topic
              (closed_here f cfg.order_paid_topic);
        no_cancelled = closed_here g cfg.order_cancelled_topic;
        no_dlq = refl;
      }

  closed-Stopped : (r : Running) → Stopped cfg r → Stopped cfg (record r { db_open = false })
  closed-Stopped r h = record {
    not_serving = h.not_serving;
    no_created = h.no_created;
    no_paid = h.no_paid;
    no_cancelled = h.no_cancelled;
    no_dlq = h.no_dlq;
  }

  -- After the signal nothing is left but, at most, the database.
  shut_down_stops :
      (db : env.Db) (w : env.World)
      → Ends (λ _ w'. Stopped cfg (doc.running w')) (λ e w'. ⊥) (shut_billing_down env cfg db w)
  unfolding shut_billing_down close_consumer close_dlq
  shut_down_stops db w =
      let w1 = after_consumers w in
      let w2 = (stop_server env w1).1 in
      let w3 = (env.close_dlq_writer w2).1 in
      let rest : Unit {0} → Act env.World (Unit {0}) =
        λ _. ignore (close_dlq env) >> close_database env db in
      let (done, closed) = close_database_closes env doc db w3 in
      let before : doc.running w3 ≡ quiet (doc.running w) =
        doc.close_dlq_writer_closes w2
        ∙ ap (λ (r : Running). record r { dlq_open = false })
            (stop_server_stops env doc w1
              ∙ ap (λ (r : Running). record r { serving = false }) (consumers_closed w)) in
      let stopped : Stopped cfg (doc.running w3) = rw before (quiet-Stopped (doc.running w)) in
      rw (bind_ok (stop_server env) rest w1 (stop_server_returns env doc w1)) (
        Ends-of_ok tt done (elim closed [
          | inl same ↦ rw same (closed-Stopped (doc.running w3) stopped)
          | inr (_, same) ↦ rw same stopped
        ]))

  -- The server was not started.
  abbrev NotServing : env.World → GoError → env.World → Type 0
  NotServing w e w' = (doc.running w').serving ≡ (doc.running w).serving

  -- The goroutines that are started before the port is opened.
  abbrev started : env.World → env.World
  started w = env.spawn (consumes cfg.order_cancelled_topic) (
      env.spawn (consumes cfg.order_paid_topic) (
        env.spawn (consumes cfg.order_created_topic) (
          env.spawn collects_db_metrics
            (env.spawn serves_metrics (env.spawn shuts_down_metrics w)))))

  started_keeps : (w : env.World) → (doc.running (started w)).serving ≡ (doc.running w).serving
  started_keeps w =
      rw
        (
          doc.spawn_runs (consumes cfg.order_cancelled_topic) _,
          doc.spawn_runs (consumes cfg.order_paid_topic) _,
          doc.spawn_runs (consumes cfg.order_created_topic) _,
          doc.spawn_runs collects_db_metrics _,
          doc.spawn_runs serves_metrics _,
          doc.spawn_runs shuts_down_metrics w,
        )
        refl

  serve_billing_outcome :
      (db : env.Db) (w : env.World)
      → Ends (λ _ w'. Stopped cfg (doc.running w')) (NotServing w) (serve_billing env cfg db w)
  unfolding serve_billing start_metrics_server
  serve_billing_outcome db w = elim (Result-cases (env.listen ":50052" (started w)).0) [
    | inr (e, failed) ↦ rw failed (
        Ends-err _ _ (
          ap (λ (r : Running). r.serving) (doc.listen_keeps ":50052" (started w))
          ∙ started_keeps w))
    | inl (_, done) ↦
        let w1 = (env.listen ":50052" (started w)).1 in
        rw done (
          Ends-weaken (shut_down_stops db (env.await_signal (env.spawn serves_grpc w1))) (λ _ h. h)
            (λ e h. absurd h))
  ]

  opened_serving :
      (r : Result env.Db) (before : Running) → (opened r before).serving ≡ before.serving
  opened_serving (ok db) before = refl
  opened_serving (err e) before = refl

module _ (prom : Prometheus) (prom_doc : PrometheusDocumented prom) (env : ProcessEnvironment)
    (doc : ProcessDocumented env) where
  -- `Run` of billing_service never panics. If it returns nil, then the gRPC server has been stopped,
  -- and the readers of the three consumers and the writer of dead letters are closed; if it returns an
  -- error, then the server was not started. Prometheus allows the names of the collectors.
  pub run_billing-Finishes :
      (cfg : Config) (w : env.World)
      → All prom_doc.Valid (all_collectors "billing")
      → Finishes env
          (λ w'. Stopped cfg (doc.running w'))
          (λ w'. (doc.running w').serving ≡ (doc.running w).serving)
          (run_billing prom env cfg w)
  unfolding run_billing
  run_billing-Finishes cfg w valid =
      let (m, made, _, _) =
        new_metrics-registers prom prom_doc "billing" "billing_service" (λ e. cc) valid in
      let opened_db : (doc.running (env.init_db cfg.db_dsn w).1).serving ≡ (doc.running w).serving =
        ap (λ (r : Running). r.serving) (doc.init_db_opens cfg.db_dsn w)
        ∙ opened_serving env doc cfg (env.init_db cfg.db_dsn w).0 (doc.running w) in
      rw made (
        run_with-Finishes env m _ (serve_billing env cfg) w (λ w'. Stopped cfg (doc.running w'))
          (λ w'. (doc.running w').serving ≡ (doc.running w).serving)
          (Ends-or_fail {Q = NotServing env doc cfg w} (env.init_db cfg.db_dsn) _ w
            (record {
              on_ok = λ db done.
                  Ends-weaken (serve_billing_outcome env doc cfg db (env.init_db cfg.db_dsn w).1)
                    (λ _ h. h) (λ e kept. kept ∙ opened_db);
              on_err = λ e failed. opened_db;
            })
            (λ e h. h)))
