-- ===== src/Order/History/Announced.antt =====
-- The outbox announces the status of every order.
use order_billing_system.Base.Tests.{
  ◌≡◌, refl, sym, ◌∙◌, ap, inl, inr, some, Bool, true, false, if◌then◌else◌,
}
use mathlib.Core.Option.{some-injective}
use order_billing_system.Base.Texts.{String, str_eq, eq_iff}
use order_billing_system.Base.Lists.{List, [], ◌∷◌, ◌++◌, Any, Any-append_left, Any-append_last}
use order_billing_system.Shared.Effects.{Act, ◌>>=◌, Result-cases}
use order_billing_system.Shared.Effects.Contracts.{bind_ok, bind_err}
use order_billing_system.Order.Model.{
  Order, OrderItem, Event, OutboxEvent, order_status_created, order_status_paid,
  order_status_cancelled, event_order_created, event_order_paid, event_order_cancelled,
}
use order_billing_system.Order.Environment.{Environment, Tables, Documented}
use order_billing_system.Order.Service.{
  OrderService, create_order, get_order, pay, mark_order_paid, cancel, cancel_order,
}
use order_billing_system.Order.Service.Writes.{commit_rows, Committed}
use order_billing_system.Order.Service.Reads.{get_order_outcome}
use order_billing_system.Order.Service.Transitions.{pay_outcome, cancel_outcome}
use order_billing_system.Order.Service.Requests.{create_order_outcome}
use order_billing_system.Order.History.{Request, creates, pays, cancels, serve, serve_all}

-- The event that goes with a status.
pub data Tells : String → String → Type 0 where
  tells_created : Tells order_status_created event_order_created
  tells_paid : Tells order_status_paid event_order_paid
  tells_cancelled : Tells order_status_cancelled event_order_cancelled

-- A row of the outbox for the order with the event of its status.
abbrev pub Announces : Order → OutboxEvent → Type 0
Announces o row = (row.order_id ≡ o.id) × Tells o.status row.event_type

-- Every order stands under its own id, and the outbox announces it.
pub record Consistent (t : Tables) : Type 0 where
  pub keyed : (id : String) (o : Order) → t.orders id ≡ some o → o.id ≡ id
  pub announced : (id : String) (o : Order) → t.orders id ≡ some o → Any (Announces o) t.outbox

commit-Consistent :
    (order : Order) (row : OutboxEvent) (t : Tables)
    → Consistent t
    → Announces order row
    → Consistent (commit_rows order row t)
commit-Consistent order row t h told = record {
  keyed = λ id o found. key (str_eq order.id id) (eq_iff order.id id).0 o found;
  announced = λ id o found. tell id (str_eq order.id id) o found;
}
  where
    key :
        {id : String} (b : Bool)
        → (b ≡ true → order.id ≡ id)
        → (o : Order) → (if b then some order else t.orders id) ≡ some o
        → o.id ≡ id
    key true own o found = ap (λ (x : Order). x.id) (sym (some-injective _ _ found)) ∙ own refl
    key {id} false other o found = h.keyed id o found

    tell :
        (id : String) (b : Bool) (o : Order)
        → (if b then some order else t.orders id) ≡ some o
        → Any (Announces o) (t.outbox ++ row ∷ [])
    tell id true o found =
        rw (some-injective o order (sym found)) (Any-append_last t.outbox row told)
    tell id false o found = Any-append_left (row ∷ []) (h.announced id o found)

module _ (env : Environment) (doc : Documented env) (s : OrderService) where
  Committed-Consistent :
      {ev : Event} {ev_type : String} (order : Order) {before : Tables} (w' : env.World)
      → Consistent before
      → Committed env doc s order ev_type ev before w'
      → Tells order.status ev_type
      → Consistent (doc.tables w')
  Committed-Consistent order {before} w' h (row, queued, rows) told =
      rw rows (commit-Consistent order row before h (queued.of_order, rw queued.of_type told))

  unchanged-Consistent :
      {before : Tables} (w' : env.World)
      → Consistent before
      → doc.tables w' ≡ before
      → Consistent (doc.tables w')
  unchanged-Consistent w' h same = rw same h

  pub create_order-Consistent :
      (items : List OrderItem) (w : env.World)
      → Consistent (doc.tables w)
      → Consistent (doc.tables (create_order env s items w).1)
  create_order-Consistent items w h =
      let outcome = create_order_outcome env doc s items w in
      elim (Result-cases (create_order env s items w).0) [
        | inl (order, done) ↦
            let (_, _, _, _, status, committed) = outcome.on_ok order done in
            Committed-Consistent order _ h committed (rw status tells_created)
        | inr (e, failed) ↦ unchanged-Consistent _ h (outcome.on_err e failed).1
      ]

  -- What follows the read needs no row to be as it was read.
  pub pay-Consistent :
      (order : Order) (w : env.World)
      → Consistent (doc.tables w)
      → Consistent (doc.tables (pay env s order w).1)
  pay-Consistent order w h =
      let outcome = pay_outcome env doc s order w in
      elim (Result-cases (pay env s order w).0) [
        | inl (changed, done) ↦
            let (_, named, (at, committed)) = outcome.on_ok changed done in
            Committed-Consistent changed _ h committed (rw named tells_paid)
        | inr (e, failed) ↦ unchanged-Consistent _ h (outcome.on_err e failed).1
      ]

  pub cancel-Consistent :
      (order : Order) (w : env.World)
      → Consistent (doc.tables w)
      → Consistent (doc.tables (cancel env s order w).1)
  cancel-Consistent order w h =
      let outcome = cancel_outcome env doc s order w in
      elim (Result-cases (cancel env s order w).0) [
        | inl (changed, done) ↦ elim (outcome.on_ok changed done) [
          | inl (_, _, named, (at, committed)) ↦
              Committed-Consistent changed _ h committed (rw named tells_cancelled)
          | inr (_, _, kept) ↦ unchanged-Consistent _ h kept
        ]
        | inr (e, failed) ↦ unchanged-Consistent _ h (outcome.on_err e failed).1
      ]

  -- A read changes nothing, whatever it finds.
  pub get_order_keeps :
      (id : String) (w : env.World) → doc.tables (get_order env s id w).1 ≡ doc.tables w
  get_order_keeps id w =
      let outcome = get_order_outcome env doc s id w in
      elim (Result-cases (get_order env s id w).0) [
        | inl (order, done) ↦ (outcome.on_ok order done).2
        | inr (e, failed) ↦ (outcome.on_err e failed).1
      ]

  -- A request is its read, and what follows it if an order was read.
  after_read :
      (next : Order → Act env.World Order) (id : String) (w : env.World)
      → ((order : Order) (w1 : env.World)
          → Consistent (doc.tables w1)
          → Consistent (doc.tables (next order w1).1))
      → Consistent (doc.tables w)
      → Consistent (doc.tables ((get_order env s id >>= next) w).1)
  after_read next id w keeps h =
      let read : Consistent (doc.tables (get_order env s id w).1) = rw (get_order_keeps id w) h in
      elim (Result-cases (get_order env s id w).0) [
        | inl (order, done) ↦ rw (bind_ok (get_order env s id) next w done) (keeps order _ read)
        | inr (e, failed) ↦ rw (bind_err (get_order env s id) next w failed) read
      ]

  -- Every request, whatever it answers, keeps each order under its own id and announced by an event
  -- of its status in the outbox.
  pub serve-Consistent :
      (request : Request) (w : env.World)
      → Consistent (doc.tables w)
      → Consistent (doc.tables (serve env s request w))
  unfolding serve mark_order_paid cancel_order
  serve-Consistent (creates items) w h = create_order-Consistent items w h
  serve-Consistent (pays id) w h = after_read (pay env s) id w pay-Consistent h
  serve-Consistent (cancels id) w h = after_read (cancel env s) id w cancel-Consistent h

  -- However many requests are served, each order stands under its own id, and the outbox holds an
  -- event of the order's status for it, if that was so before.
  serve_all-Consistent :
      (requests : List Request) (w : env.World)
      → Consistent (doc.tables w)
      → Consistent (doc.tables (serve_all env s requests w))
  unfolding serve_all
  serve_all-Consistent [] w h = h
  serve_all-Consistent (request ∷ requests) w h =
      serve_all-Consistent requests (serve env s request w) (serve-Consistent request w h)
