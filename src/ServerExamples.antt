-- ===== src/ServerExamples.antt =====
-- The theorems on the relay, the interceptors and the gRPC server at concrete values.
use order_billing_system.Base.Tests.{
  ◌≡◌, refl, Option, none, some, arith, if◌then◌else◌, ℕ, ◌+◌, ◌==◌, ◌⊎◌, ◌<◌,
}
use order_billing_system.Base.Texts.{String, str_eq, eq_iff}
use order_billing_system.Base.Lists.{List, [], ◌∷◌, Any}
use order_billing_system.Base.Integers.{pos}
use order_billing_system.Shared.Errors.{err_invalid_order_state, as_app_error, GoError, text}
use order_billing_system.Shared.Effects.{ok, err}
use order_billing_system.Shared.Config.{OrderConfig, boots, load_order_config}
use order_billing_system.Shared.Config.Required.{Loads, load_order_config-Loads}
use order_billing_system.Shared.Database.{DatabaseEnvironment, connect}
use order_billing_system.Shared.Database.Attempts.{Opened, NeverOpened, connect_outcome}
use order_billing_system.Shared.RequestId.{background}
use order_billing_system.Shared.Grpc.{
  failed_precondition, internal, Status, fails, panics, UnaryHandler, Interceptors, serve_unary,
}
use order_billing_system.Shared.Grpc.Chain.{Answered, serve_unary-Answered, panic_uncounted}
use order_billing_system.Order.Model.{Order, order_status_paid}
use order_billing_system.Order.Service.{mark_order_paid, get_order, pay}
use order_billing_system.Order.Grpc.{
  ProtoItem, map_proto_items_domain, map_error, serve_create_order, serve_mark_order_paid,
}
use order_billing_system.Order.Grpc.Replies.{
  Refused, LacksPrice, serve_create_order_nil, serve_mark_order_paid-Refused,
}
use order_billing_system.Order.Samples.{
  sample_env, sample_doc, sample_service, sample_items, created_o1, empty_tables, tables_with,
}

abbrev paid_order : Order
paid_order = record created_o1 { status = order_status_paid }

-- A server whose counter is a list of the statuses that were counted.
abbrev counters : Interceptors (List String)
counters = record { new_uuid = λ w. ("r-1", w); count_request = λ method status w. status ∷ w }

abbrev always_panics : UnaryHandler (List String) String Order
always_panics ctx req w = (panics "boom", w)

abbrev no_method : String → Option (Option String)
no_method req = none

serve_unary-Answered_example :
    Answered (serve_unary counters no_method "/order/Get" always_panics none background "o-1" []).0
serve_unary-Answered_example =
    serve_unary-Answered counters no_method "/order/Get" always_panics none background "o-1" []

panic_uncounted_example :
    serve_unary counters no_method "/order/Get" always_panics
      (some ("r-7" ∷ []))
      background
      "o-1"
      []
    ≡ (fails (record { code = internal; message = "internal server error" }), [])
panic_uncounted_example =
    panic_uncounted counters no_method "/order/Get" always_panics "r-7" [] background "o-1" []
      "boom" [] (λ e. ground (arith, eq_iff "r-7" "")) refl refl

abbrev unpriced_item : Option ProtoItem
unpriced_item = some (record { product_id = "p-1"; quantity = pos 2; price = none })

abbrev priced_item : Option ProtoItem
priced_item = some (record {
  product_id = "p-1";
  quantity = pos 2;
  price = some (record { amount = pos 125; currency = "USD" });
})

sample_decoded : map_proto_items_domain (priced_item ∷ []) ≡ some sample_items
unfolding map_proto_items_domain
sample_decoded = refl

serve_create_order_nil_example :
    ((reason : String)
      → (serve_create_order sample_env sample_service
          (priced_item ∷ unpriced_item ∷ [])
          empty_tables).0
        ≡ panics reason
      → Any LacksPrice (priced_item ∷ unpriced_item ∷ []))
    × (Any LacksPrice (priced_item ∷ unpriced_item ∷ [])
        → (reason : String) × (serve_create_order sample_env sample_service
              (priced_item ∷ unpriced_item ∷ [])
              empty_tables
            ≡ (panics reason, empty_tables)))
serve_create_order_nil_example =
    serve_create_order_nil sample_env sample_service (priced_item ∷ unpriced_item ∷ []) empty_tables

abbrev refused_status : Status
refused_status = record {
  code = failed_precondition;
  message = "cannot pay order with status PAID, only CREATED orders can be paid";
}

paid_refused :
    (serve_mark_order_paid sample_env sample_service "o-1" (tables_with paid_order)).0
    ≡ fails refused_status
unfolding serve_mark_order_paid mark_order_paid get_order pay map_error err_invalid_order_state
    as_app_error
paid_refused = refl

serve_mark_order_paid-Refused_example :
    ((serve_mark_order_paid sample_env sample_service "o-1" (tables_with paid_order)).1
      ≡ tables_with paid_order)
    × Refused sample_env sample_doc sample_service "o-1"
        (tables_with paid_order)
        failed_precondition
unfolding sample_doc
serve_mark_order_paid-Refused_example =
    serve_mark_order_paid-Refused sample_env sample_doc sample_service "o-1"
      (tables_with paid_order) refused_status paid_refused

-- A database that opens at the second attempt; the world counts the calls.
abbrev slow_database : DatabaseEnvironment
slow_database = record {
  World = ℕ;
  Db = Unit;
  gorm_open = λ dsn w. (if w == 0 then err (text "connection refused") else ok tt, w + 1);
  sleep = λ seconds w. w;
  exec = λ db statement w. (ok tt, w + 1);
  auto_migrate = λ db tables w. (ok tt, w + 1);
}

connect_outcome_example :
    ((db : slow_database.Db) × ((connect slow_database (text "") "dsn" 0).0 ≡ ok db)
      × Opened slow_database "dsn" 10 0 db (connect slow_database (text "") "dsn" 0).1)
    ⊎ ((x : GoError) × ((connect slow_database (text "") "dsn" 0).0 ≡ err x)
        × NeverOpened slow_database "dsn" 10 0)
connect_outcome_example = connect_outcome slow_database "dsn" (text "") 0

abbrev sample_getenv : String → String
sample_getenv key = if str_eq key "OUTBOX_BATCH_SIZE" then "-3" else "value"

load_order_config-Loads_example :
    Loads sample_getenv (load_order_config sample_getenv)
    × ((c : OrderConfig)
        → load_order_config sample_getenv ≡ boots c
        → (n : ℕ) × (c.outbox_batch_size ≡ pos n) × (0 < n))
load_order_config-Loads_example = load_order_config-Loads sample_getenv
