-- ===== src/Shared/Metrics/Gauges.antt =====
-- `collectDBMetrics` of both internal/app/app.go: the gauges of the database's connections.
use order_billing_system.Base.Tests.{ℕ, ◌+◌, ◌≡◌, refl}
use order_billing_system.Base.Lists.{List, [], ◌∷◌}
use order_billing_system.Shared.Effects.{Result, ok, err, Act}

-- The fields of sql.DBStats that are read; they are small enough to be float64 values.
pub record DbStats : Type 0 where
  pub open_connections : ℕ
  pub in_use : ℕ
  pub idle : ℕ

pub data DbGauge : Type 0 where
  db_open_connections db_in_use_connections db_idle_connections : DbGauge

-- gorm, database/sql and Prometheus.
pub record StatsEnvironment : Type 1 where
  pub World : Type 0
  pub SqlDb : Type 0
  -- db.DB()
  pub sql_db : Act World SqlDb
  -- sqlDB.Stats()
  pub stats : SqlDb → World → DbStats × World
  -- gauge.Set
  pub set_gauge : DbGauge → ℕ → World → World

-- What the gauges show.
abbrev pub show : DbGauge → ℕ → DbStats → DbStats
show db_open_connections n g = record g { open_connections = n }
show db_in_use_connections n g = record g { in_use = n }
show db_idle_connections n g = record g { idle = n }

-- Every connection is in use or idle.
abbrev pub Balanced : DbStats → Type 0
Balanced g = g.open_connections ≡ g.in_use + g.idle

pub record StatsDocumented (env : StatsEnvironment) : Type 0 where
  pub gauges : env.World → DbStats
  pub sql_db_keeps : (w : env.World) → gauges (env.sql_db w).1 ≡ gauges w
  pub stats_keeps : (db : env.SqlDb) (w : env.World) → gauges (env.stats db w).1 ≡ gauges w
  pub stats-Balanced : (db : env.SqlDb) (w : env.World) → Balanced (env.stats db w).0
  pub set_gauge_done :
      (g : DbGauge) (n : ℕ) (w : env.World) → gauges (env.set_gauge g n w) ≡ show g n (gauges w)

-- What the select of the loop receives.
pub data Received : Type 0 where
  ticked ended : Received

module _ (env : StatsEnvironment) where
  set_all : DbStats × env.World → env.World
  set_all (stats, w) = env.set_gauge db_idle_connections stats.idle (
      env.set_gauge db_in_use_connections stats.in_use
        (env.set_gauge db_open_connections stats.open_connections w))

  -- A failed db.DB() is logged, and the loop goes on.
  read_stats : Result env.SqlDb × env.World → env.World
  unfolding set_all
  read_stats (ok db, w) = set_all (env.stats db w)
  read_stats (err e, w) = w

  unfoldable pub collect_db_metrics : List Received → env.World → env.World
  unfolding read_stats
  collect_db_metrics [] w = w
  collect_db_metrics (ended ∷ events) w = w
  collect_db_metrics (ticked ∷ events) w = collect_db_metrics events (read_stats (env.sql_db w))

module _ (env : StatsEnvironment) (doc : StatsDocumented env) where
  set_all_lem : (stats : DbStats) (w : env.World) → doc.gauges (set_all env (stats, w)) ≡ stats
  unfolding set_all
  set_all_lem stats w = rw (doc.set_gauge_done, doc.set_gauge_done, doc.set_gauge_done) refl

  tick-Balanced :
      (r : Result env.SqlDb) (w : env.World)
      → Balanced (doc.gauges w)
      → Balanced (doc.gauges (read_stats env (r, w)))
  unfolding read_stats
  tick-Balanced (ok db) w h =
      rw (set_all_lem (env.stats db w).0 (env.stats db w).1) (doc.stats-Balanced db w)
  tick-Balanced (err e) w h = h

  -- The three gauges come from one reading: however the loop is woken, and whether db.DB() fails, the
  -- open connections that are shown are those in use and those idle, if that was so before.
  collect_db_metrics-Balanced :
      (events : List Received) (w : env.World)
      → Balanced (doc.gauges w)
      → Balanced (doc.gauges (collect_db_metrics env events w))
  unfolding collect_db_metrics
  collect_db_metrics-Balanced [] w h = h
  collect_db_metrics-Balanced (ended ∷ events) w h = h
  collect_db_metrics-Balanced (ticked ∷ events) w h =
      let kept : Balanced (doc.gauges (env.sql_db w).1) = rw (doc.sql_db_keeps w) h in
      collect_db_metrics-Balanced events (read_stats env (env.sql_db w))
        (tick-Balanced (env.sql_db w).0 (env.sql_db w).1 kept)
