-- ===== src/Order/Samples.antt =====
-- A database, a clock and a serializer for order_service that answer every call: they run the
-- definitions, and show that what `Documented` states can hold.
use order_billing_system.Base.Tests.{
  ◌≡◌, refl, ap, sym, ◌∙◌, Bool, true, false, Option, none, some, if◌then◌else◌,
}
use order_billing_system.Base.Texts.{String, str_eq, eq_iff, sprint}
use order_billing_system.Base.Lists.{List, [], ◌∷◌, ◌++◌}
use order_billing_system.Base.Integers.{pos}
use order_billing_system.Shared.Errors.{GoError, record_not_found, text}
use order_billing_system.Shared.Effects.{Time, Result, ok, err, Act}
use order_billing_system.Order.Model.{
  Order, OrderItem, OutboxEvent, order_status_created, event_status_pending,
}
use order_billing_system.Order.Environment.{Environment, Tables, Documented, upsert}
use order_billing_system.Order.Service.{OrderService}

abbrev sample_time : Time
sample_time = record { unix = pos 100; nanos = pos 0 }

-- The row of a query by the primary key; a row that does not carry the key is none of the table's.
abbrev row_or_error : String → Option Order → Result Order
row_or_error id none = err record_not_found
row_or_error id (some o) = if str_eq o.id id then ok o else err record_not_found

abbrev settle : Result (Unit {0}) → Tables → Act Tables (Unit {0})
settle (ok _) after before = (ok tt, after)
settle (err e) after before = (err e, before)

abbrev pub sample_env : Environment
sample_env = record {
  World = Tables;
  time_now = λ w. (sample_time, w);
  new_uuid = λ w. ("o-1", w);
  marshal = λ ev. ok "payload";
  first_order = λ id w. (row_or_error id (w.orders id), w);
  transaction = λ body w. settle (body w).0 (body w).1 w;
  save_order = λ o w. (ok tt, record { orders = upsert o w.orders; outbox = w.outbox });
  create_event = λ ev w. (ok tt, record { orders = w.orders; outbox = w.outbox ++ ev ∷ [] });
  increment = λ m w. w;
}

ok-injective : {A : Type 0} {a b : A} → ok a ≡ ok b → a ≡ b
ok-injective e = cc

row_lem :
    (id : String) (row : Option Order) {o : Order}
    → row_or_error id row ≡ ok o
    → (row ≡ some o) × (o.id ≡ id)
row_lem id none found = cc
row_lem id (some x) {o} found = checked (str_eq x.id id) (eq_iff x.id id).0 found
  where
    checked :
        (b : Bool)
        → (b ≡ true → x.id ≡ id)
        → (if b then ok x else err record_not_found) ≡ ok o
        → (some x ≡ some o) × (o.id ≡ id)
    checked true keyed found =
        let same : x ≡ o = ok-injective found in
        (ap some same, ap (λ (y : Order). y.id) (sym same) ∙ keyed refl)
    checked false keyed found = cc

committed_lem :
    (r : Result (Unit {0})) (after before : Tables)
    → (settle r after before).0 ≡ ok tt
    → (r ≡ ok tt) × ((settle r after before).1 ≡ after)
committed_lem (ok _) after before done = (refl, refl)
committed_lem (err e) after before done = cc

rolled_back_lem :
    (r : Result (Unit {0})) (after before : Tables) {e : GoError}
    → (settle r after before).0 ≡ err e
    → (settle r after before).1 ≡ before
rolled_back_lem (ok _) after before failed = cc
rolled_back_lem (err e) after before failed = refl

unfoldable pub sample_doc : Documented sample_env
unfolding row_lem committed_lem rolled_back_lem ok-injective
sample_doc = record {
  tables = λ w. w;
  time_now_keeps = λ w. refl;
  new_uuid_keeps = λ w. refl;
  increment_keeps = λ m w. refl;
  first_order_keeps = λ id w. refl;
  first_order_found = λ id w found. row_lem id (w.orders id) found;
  save_order_done = λ o w done. refl;
  create_event_done = λ ev w done. refl;
  transaction_committed = λ body w done.
      let (returned, kept) = committed_lem (body w).0 (body w).1 w done in
      (w, refl, returned, kept);
  transaction_rolled_back = λ body w failed. rolled_back_lem (body w).0 (body w).1 w failed;
}

abbrev pub sample_items : List OrderItem
sample_items =
    record {
      product_id = "p-1";
      quantity = pos 2;
      price = record { amount = pos 125; currency = "USD" };
    }
    ∷ []

abbrev pub created_o1 : Order
created_o1 = record {
  id = "o-1";
  items = sample_items;
  total = record { amount = pos 250; currency = "USD" };
  status = order_status_created;
  created_at = sample_time;
}

abbrev pub empty_tables : Tables
empty_tables = record { orders = λ id. none; outbox = [] }

abbrev pub tables_with : Order → Tables
tables_with o = record { orders = upsert o (λ id. none); outbox = [] }

-- A converter that knows USD only, and the topics of the three events.
abbrev pub sample_service : OrderService
sample_service = record {
  converter = λ amount currency. if str_eq currency "USD" then ok amount else err (text "no rate");
  topic_map = λ ev_type. some (sprint ("orders." ∷ ev_type ∷ []));
}

abbrev pub sample_event : OutboxEvent
sample_event = record {
  id = "e-1";
  order_id = "o-1";
  event_type = "OrderPaid";
  topic = "order.paid";
  payload = "payload";
  status = event_status_pending;
  created_at = record { unix = pos 100; nanos = pos 0 };
  processed_at = none;
}
