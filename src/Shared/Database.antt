-- ===== src/Shared/Database.antt =====
-- `InitDB` of order_service/internal/database/db.go and billing_service/internal/database/db.go,
-- which differ in their migration only.
pub mod Attempts
use order_billing_system.Base.Tests.{ℕ, zero, suc, ◌+◌, ◌≡◌, none, some, Option}
use order_billing_system.Base.Texts.{String, sprint}
use order_billing_system.Base.Lists.{List, [], ◌∷◌}
use order_billing_system.Base.Decimal.{show_ℕ}
use order_billing_system.Shared.Errors.{GoError, wrap}
use order_billing_system.Shared.Effects.{
  Result, ok, err, Act, pure, lift, or_fail, notify, ignore, ◌>>=◌, ◌>>◌,
}

-- `maxRetries`, and `retryInterval` in seconds.
abbrev pub max_retries : ℕ
max_retries = 10

abbrev pub retry_interval : ℕ
retry_interval = 3

-- gorm and time.Sleep.
pub record DatabaseEnvironment : Type 1 where
  pub World : Type 0
  pub Db : Type 0
  -- gorm.Open(postgres.Open(dsn), …)
  pub gorm_open : String → Act World Db
  -- time.Sleep, in seconds
  pub sleep : ℕ → World → World
  -- db.Exec of a statement
  pub exec : Db → String → Act World (Unit {0})
  -- db.AutoMigrate of the tables
  pub auto_migrate : Db → List String → Act World (Unit {0})

module _ (env : DatabaseEnvironment) where
  -- The loop with `left` attempts to go; `last` is what the variables db and err hold.
  unfoldable pub connect_from : ℕ → String → Result env.Db → Act env.World env.Db
  connect_from zero dsn last w = (last, w)
  connect_from (suc left) dsn last w =
      let (r, w1) = env.gorm_open dsn w in
      elim r [
        | ok db ↦ (ok db, w1)
        | err e ↦ connect_from left dsn (err e) (env.sleep retry_interval w1)
      ]

  -- Before the first attempt both variables are nil; with ten attempts that state is never read.
  unfoldable pub connect : GoError → String → Act env.World env.Db
  connect unset dsn = connect_from max_retries dsn (err unset)

  connection_prefix : String
  unfolding show_ℕ
  connection_prefix =
      sprint ("failed to connect to database after " ∷ show_ℕ max_retries ∷ " attempts: " ∷ [])

  -- `InitDB` of order_service.
  unfoldable pub init_order_db : GoError → String → Act env.World env.Db
  unfolding connection_prefix
  init_order_db unset dsn = do
    db ← or_fail (connect unset dsn) (wrap connection_prefix)
    or_fail (env.auto_migrate db ("Order" ∷ [])) (wrap "failed to migrate: ")
    pure db

  -- `runMigrations`
  unfoldable pub run_migrations : env.Db → Act env.World (Unit {0})
  run_migrations db = do
    ignore (env.exec db "ALTER TABLE invoices DROP CONSTRAINT IF EXISTS uni_invoices_order_id")
    ignore (env.exec db "ALTER TABLE invoices DROP CONSTRAINT IF EXISTS invoices_order_id_key")
    env.auto_migrate db ("Invoice" ∷ "ProcessedEvent" ∷ [])

  -- `InitDB` of billing_service.
  unfoldable pub init_billing_db : GoError → String → Act env.World env.Db
  unfolding connection_prefix
  init_billing_db unset dsn = do
    db ← or_fail (connect unset dsn) (wrap connection_prefix)
    or_fail (run_migrations db) (wrap "failed to run migrations: ")
    pure db
