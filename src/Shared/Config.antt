-- ===== src/Shared/Config.antt =====
-- internal/config/config.go of order_service and of billing_service. `getenv` is os.Getenv after
-- godotenv.Load.
pub mod Required
use order_billing_system.Base.Tests.{Option, none, some, if◌then◌else◌}
use order_billing_system.Base.Texts.{String, str_eq, sprint}
use order_billing_system.Base.Lists.{List, [], ◌∷◌}
use order_billing_system.Base.Integers.{ℤ, pos, ltb_ℤ}
use order_billing_system.Shared.Effects.{Result, ok, err}
use order_billing_system.Shared.Strconv.{split, parse_int}

-- The process goes on, or log.Fatalf ends it for a variable that is not set.
pub data Boot (A : Type 0) : Type 0 where
  boots : A → Boot A
  exits : String → Boot A

infixl 5 ◌>>=◌
abbrev pub ◌>>=◌ : {A B : Type 0} → Boot A → (A → Boot B) → Boot B
boots a >>= f = f a
exits key >>= f = exits key

-- `Config` of billing_service.
pub record Config : Type 0 where
  pub db_dsn : String
  pub kafka_brokers : List String
  pub order_created_topic : String
  pub order_paid_topic : String
  pub order_cancelled_topic : String

-- `Config` of order_service has one field more.
pub record OrderConfig : Type 0 where
  pub common : Config
  pub outbox_batch_size : ℤ

module _ (getenv : String → String) where
  -- `mustGetenv`
  unfoldable pub must_getenv : String → Boot String
  must_getenv key = if str_eq (getenv key) "" then exits key else boots (getenv key)

  abbrev ssl_mode : String
  ssl_mode = if str_eq (getenv "DB_SSLMODE") "" then "disable" else getenv "DB_SSLMODE"

  -- `LoadConfig` of billing_service.
  unfoldable pub load_config : Boot Config
  load_config = do
    host ← must_getenv "DB_HOST"
    user ← must_getenv "DB_USER"
    password ← must_getenv "DB_PASSWORD"
    name ← must_getenv "DB_NAME"
    port ← must_getenv "DB_PORT"
    brokers_raw ← must_getenv "KAFKA_BROKERS"
    created ← must_getenv "ORDER_CREATED_TOPIC"
    paid ← must_getenv "ORDER_PAID_TOPIC"
    cancelled ← must_getenv "ORDER_CANCELLED_TOPIC"
    boots (record {
      db_dsn = sprint (
          "host=" ∷ host ∷ " user=" ∷ user ∷ " password=" ∷ password ∷ " dbname=" ∷ name ∷ " port="
          ∷ port ∷ " sslmode=" ∷ ssl_mode ∷ []);
      kafka_brokers = split 44 brokers_raw;
      order_created_topic = created;
      order_paid_topic = paid;
      order_cancelled_topic = cancelled;
    })

  -- The variable `batchSize`.
  unfoldable pub configured_batch_size : ℤ
  configured_batch_size =
      if str_eq (getenv "OUTBOX_BATCH_SIZE") ""
      then pos 50
      else elim (parse_int (getenv "OUTBOX_BATCH_SIZE")) [
        | ok n ↦ if ltb_ℤ (pos 0) n then n else pos 50
        | err e ↦ pos 50
      ]

  -- `LoadConfig` of order_service.
  unfoldable pub load_order_config : Boot OrderConfig
  load_order_config = do
    common ← load_config
    boots (record { common = common; outbox_batch_size = configured_batch_size })
