-- ===== src/Shared/Process.antt =====
-- The process of a service: what `Run` of order_service/internal/app/app.go and
-- billing_service/internal/app/app.go start and stop, and the parts that they share.
pub mod Steps
use order_billing_system.Base.Tests.{◌≡◌, Option, none, some, Bool, true, false, if◌then◌else◌}
use order_billing_system.Base.Texts.{String, str_eq}
use order_billing_system.Shared.Errors.{GoError}
use order_billing_system.Shared.Effects.{
  Result, ok, err, Act, Outcome, returns, panics, ignore, notify, ◌>>=◌, ◌>>◌,
}
use order_billing_system.Shared.Metrics.{Guarded}

-- The goroutines. A consumer is named by its topic.
pub data Routine : Type 0 where
  shuts_down_metrics serves_metrics collects_db_metrics relays_outbox serves_grpc : Routine
  consumes : String → Routine

-- What `Run` calls of the other packages, of gorm, net, grpc and os/signal.
pub record ProcessEnvironment : Type 1 where
  pub World : Type 0
  pub Db : Type 0
  -- database.InitDB
  pub init_db : String → Act World Db
  -- db.AutoMigrate(&outbox.OutboxEvent{})
  pub migrate_outbox : Db → Act World (Unit {0})
  -- net.Listen("tcp", …)
  pub listen : String → Act World (Unit {0})
  -- go
  pub spawn : Routine → World → World
  -- <-ctx.Done()
  pub await_signal : World → World
  -- reader.Close() of the consumer of a topic
  pub close_reader : String → Act World (Unit {0})
  -- The select on GracefulStop and on 30 seconds: true if the server has stopped by itself.
  pub graceful_stop : World → Bool × World
  -- grpcServer.Stop()
  pub stop : World → World
  -- writer.Close() of the producer of dead letters
  pub close_dlq_writer : Act World (Unit {0})
  -- db.DB()
  pub sql_db : Db → Act World (Unit {0})
  -- sqlDB.Close()
  pub close_db : Db → Act World (Unit {0})

-- Whether the gRPC server runs, and what is open: the readers of the consumers by their topics, the
-- writer of dead letters, and the database.
pub record Running : Type 0 where
  pub serving : Bool
  pub reader_open : String → Bool
  pub dlq_open : Bool
  pub db_open : Bool

abbrev pub set_reader : (String → Bool) → String → Bool → String → Bool
set_reader f topic b t = if str_eq topic t then b else f t

abbrev pub spawned : Routine → Running → Running
spawned serves_grpc r = record r { serving = true }
spawned (consumes topic) r = r
spawned shuts_down_metrics r = r
spawned serves_metrics r = r
spawned collects_db_metrics r = r
spawned relays_outbox r = r

abbrev pub opened : {Db : Type 0} → Result Db → Running → Running
opened (ok db) r = record r { db_open = true }
opened (err e) r = r

-- A closed part is closed whether or not Close returns an error. Nothing is known here of when the
-- goroutine of a consumer returns.
pub record ProcessDocumented (env : ProcessEnvironment) : Type 0 where
  pub running : env.World → Running
  pub init_db_opens :
      (dsn : String) (w : env.World)
      → running (env.init_db dsn w).1 ≡ opened (env.init_db dsn w).0 (running w)
  pub migrate_keeps :
      (db : env.Db) (w : env.World) → running (env.migrate_outbox db w).1 ≡ running w
  pub listen_keeps : (addr : String) (w : env.World) → running (env.listen addr w).1 ≡ running w
  pub spawn_runs :
      (routine : Routine) (w : env.World)
      → running (env.spawn routine w) ≡ spawned routine (running w)
  pub await_keeps : (w : env.World) → running (env.await_signal w) ≡ running w
  pub close_reader_closes :
      (topic : String) (w : env.World)
      → running (env.close_reader topic w).1
        ≡ record (running w) { reader_open = set_reader (running w).reader_open topic false }
  pub graceful_stop_ends :
      (w : env.World)
      → running (env.graceful_stop w).1
        ≡ (if (env.graceful_stop w).0 then record (running w) { serving = false } else running w)
  pub stop_ends : (w : env.World) → running (env.stop w) ≡ record (running w) { serving = false }
  pub close_dlq_writer_closes :
      (w : env.World) → running (env.close_dlq_writer w).1 ≡ record (running w) { dlq_open = false }
  pub sql_db_keeps : (db : env.Db) (w : env.World) → running (env.sql_db db w).1 ≡ running w
  pub close_db_closes :
      (db : env.Db) (w : env.World)
      → running (env.close_db db w).1 ≡ record (running w) { db_open = false }

module _ (env : ProcessEnvironment) where
  -- `Metrics.StartServer`, which returns nil in every case.
  unfoldable pub start_metrics_server : Act env.World (Unit {0})
  start_metrics_server w = (ok tt, env.spawn serves_metrics (env.spawn shuts_down_metrics w))

  stop_if : Bool → Act env.World (Unit {0})
  stop_if true w = (ok tt, w)
  stop_if false w = (ok tt, env.stop w)

  -- The end of the gRPC server: gracefully within 30 seconds, or at once.
  unfoldable pub stop_server : Act env.World (Unit {0})
  unfolding stop_if
  stop_server w = let (stopped, w1) = env.graceful_stop w in stop_if stopped w1

  close_if : env.Db → Result (Unit {0}) → Act env.World (Unit {0})
  close_if db (ok _) w = (ok tt, (env.close_db db w).1)
  close_if db (err e) w = (ok tt, w)

  unfoldable pub close_database : env.Db → Act env.World (Unit {0})
  unfolding close_if
  close_database db w = let (r, w1) = env.sql_db db w in close_if db r w1

  -- `NewMetrics` between the opening of the database and all that follows; a panic ends the process.
  unfoldable pub run_with :
      {M : Type 0}
      → Guarded M
      → Act env.World env.Db
      → (env.Db → Act env.World (Unit {0}))
      → env.World
      → Outcome (Unit {0}) × env.World
  run_with metrics opening rest w =
      let (r, w1) = opening w in
      elim r [
        | err e ↦ (returns (err e), w1)
        | ok db ↦ elim metrics [
          | Guarded.panics e ↦ (panics "NewMetrics", w1)
          | Guarded.returns m ↦ let (answer, w2) = rest db w1 in (returns answer, w2)
        ]
      ]
