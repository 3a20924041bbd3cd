-- ===== src/Order/RelayExamples.antt =====
-- The theorems on the relay of order_service at an outbox of at most one row.
use order_billing_system.Base.Tests.{
  ◌≡◌, refl, sym, ◌∙◌, ap, Option, none, some, Bool, true, false, if◌then◌else◌,
}
use order_billing_system.Base.Texts.{String, str_eq, eq_iff}
use order_billing_system.Base.Lists.{List, [], ◌∷◌, ◌++◌, map, All, Any, append-nil}
use order_billing_system.Base.Integers.{pos}
use order_billing_system.Shared.Effects.{Result, ok}
use order_billing_system.Shared.Kafka.{Message}
use order_billing_system.Order.Model.{OutboxEvent}
use order_billing_system.Order.Relay.{
  RelayEnvironment, RelayDocumented, Channel, Grown, set_status, fetch_pending, process_once,
}
use order_billing_system.Order.Relay.Loop.{Ticker, TickerDocumented, start, Ended, start-Delivered}
use order_billing_system.Order.Relay.Sending.{Sent, process_once-Sent}
use order_billing_system.Order.Samples.{sample_event}

-- An outbox of at most one row, a broker that answers every write, and whether its writer is open.
abbrev Shelf : Type 0
Shelf = Option OutboxEvent × List Message × Bool

abbrev rows_of : Option OutboxEvent → List OutboxEvent
rows_of none = []
rows_of (some row) = row ∷ []

abbrev rows_with : String → Option OutboxEvent → List OutboxEvent
rows_with status none = []
rows_with status (some row) = if str_eq row.status status then row ∷ [] else []

abbrev updated_row : String → String → Option OutboxEvent → Option OutboxEvent
updated_row id status none = none
updated_row id status (some row) = some (set_status id status sample_event.created_at row)

abbrev shelf_env : RelayEnvironment
shelf_env = record {
  World = Shelf;
  find_events = λ status limit w. (ok (rows_with status w.0), w);
  update_event = λ id status w. (ok tt, (updated_row id status w.0, w.1, w.2));
  write_message = λ msg w. (ok tt, (w.0, w.1 ++ msg ∷ [], w.2));
}

ok-injective : {A : Type 0} {a b : A} → Result.ok a ≡ ok b → a ≡ b
ok-injective e = cc

rows_lem :
    (status : String) (shelf : Option OutboxEvent)
    → All (λ ev. (ev.status ≡ status) × Any (λ r. r ≡ ev) (rows_of shelf)) (rows_with status shelf)
rows_lem status none = tt
rows_lem status (some row) = pick (str_eq row.status status) (eq_iff row.status status).0
  where
    pick :
        (b : Bool)
        → (b ≡ true → row.status ≡ status)
        → All
            (λ ev. (ev.status ≡ status) × Any (λ r. r ≡ ev) (row ∷ []))
            (if b then row ∷ [] else [])
    pick true same = ((same refl, Any.here refl), tt)
    pick false other = tt

key_lem :
    (shelf : Option OutboxEvent) (a : OutboxEvent)
    → Any (λ r. r ≡ a) (rows_of shelf)
    → All (λ r. r.id ≡ a.id → r ≡ a) (rows_of shelf)
key_lem none a stored = tt
key_lem (some row) a (Any.here same) = ((λ keyed. same), tt)
key_lem (some row) a (Any.there none_left) = elim none_left [ ]

rows_updated :
    (id status : String) (shelf : Option OutboxEvent)
    → rows_of (updated_row id status shelf)
      ≡ map (set_status id status sample_event.created_at) (rows_of shelf)
rows_updated id status none = refl
rows_updated id status (some row) = refl

nothing_new : (c : Channel) → Grown c c
nothing_new c = record {
  inserted = [];
  new = tt;
  same = ap (λ rows. record c { outbox = rows }) (sym (append-nil c.outbox));
}

shelf_doc : RelayDocumented shelf_env
shelf_doc = record {
  channel = λ w. record { outbox = rows_of w.0; log = w.1 };
  primary_key = λ w a stored. key_lem w.0 a stored;
  find_events_keeps = λ status limit w. nothing_new _;
  find_events_found = λ status limit w found. rw (ok-injective found) at (rows_lem status w.0);
  update_event_done = λ id status w done. (
    sample_event.created_at,
    record {
      inserted = [];
      new = tt;
      same =
          ap (λ rows. record { outbox = rows; log = w.1 })
            (rows_updated id status w.0 ∙ sym (append-nil _));
    },
  );
  update_event_failed = λ id status w failed. cc;
  write_message_done = λ msg w done. nothing_new _;
  write_message_failed = λ msg w failed. cc;
}

-- The context ends when a message has been written.
abbrev has_messages : List Message → Bool
has_messages [] = false
has_messages (msg ∷ messages) = true

-- A request inserts the row while the relay waits, if it is not there.
abbrev filled : Option OutboxEvent → Option OutboxEvent
filled none = some sample_event
filled (some row) = some row

abbrev shelf_ticker : Ticker shelf_env
shelf_ticker = record {
  await_tick = λ w. (has_messages w.1, (filled w.0, w.1, w.2));
  close_writer = λ w. (ok tt, (w.0, w.1, false));
}

filled-Grown :
    (shelf : Option OutboxEvent) (log : List Message)
    → Grown
        (record { outbox = rows_of shelf; log = log })
        (record { outbox = rows_of (filled shelf); log = log })
filled-Grown none log = record { inserted = sample_event ∷ []; new = ((refl, tt), tt); same = refl }
filled-Grown (some row) log = nothing_new _

shelf_ticks : TickerDocumented shelf_env shelf_doc shelf_ticker
unfolding shelf_doc
shelf_ticks = record {
  writer_open = λ w. w.2;
  await_tick_keeps = λ w. filled-Grown w.0 w.1;
  close_writer_keeps = λ w. nothing_new _;
  close_writer_closes = λ w. refl;
}

start-Delivered_example :
    Ended shelf_env shelf_doc shelf_ticker shelf_ticks
      (start shelf_env shelf_ticker (pos 50) 3 (none, [], true))
unfolding shelf_doc
start-Delivered_example =
    start-Delivered shelf_env shelf_doc shelf_ticker shelf_ticks (pos 50) 3 (none, [], true) tt

process_once-Sent_example :
    All
      (Sent (shelf_doc.channel (process_once shelf_env (pos 50) (some sample_event, [], true)).1))
      (sample_event ∷ [])
unfolding fetch_pending
process_once-Sent_example =
    process_once-Sent shelf_env shelf_doc (λ msg w. refl) (λ id status w. refl) (pos 50)
      (sample_event ∷ []) (some sample_event, [], true) refl
