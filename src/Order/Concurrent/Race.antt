-- ===== src/Order/Concurrent/Race.antt =====
-- A payment and a cancellation of one order that have both read it before either has written.
use order_billing_system.Base.Tests.{ℕ, ◌==◌, ◌≡◌, refl, sym, ◌∙◌, ap, inl, inr, some, false}
use order_billing_system.Base.Texts.{String, eq_refl}
use order_billing_system.Base.Lists.{[], ◌∷◌, Any, Any-append_left, Any-append_last}
use order_billing_system.Shared.Effects.{ok}
use order_billing_system.Order.Model.{
  Order, Event, OutboxEvent, order_status_created, order_status_cancelled, event_order_paid,
  event_order_cancelled,
}
use order_billing_system.Order.Environment.{Environment, Tables, Documented}
use order_billing_system.Order.Service.{OrderService, pay, cancel}
use order_billing_system.Order.Service.Writes.{Committed}
use order_billing_system.Order.Service.Transitions.{pay_outcome, cancel_outcome}
use order_billing_system.Order.History.Final.{distinct}
use order_billing_system.Order.Concurrent.{paying, cancelling, Server, writes, finish, act, run}

-- A row of the outbox for an order with an event of the type.
abbrev pub Announced : String → String → OutboxEvent → Type 0
Announced order_id ev_type row = (row.order_id ≡ order_id) × (row.event_type ≡ ev_type)

module _ (env : Environment) (doc : Documented env) (s : OrderService) where
  stored_row :
      {ev : Event} {ev_type : String} (order : Order) (before : Tables) (w' : env.World)
      → Committed env doc s order ev_type ev before w'
      → (doc.tables w').orders order.id ≡ some order
  stored_row order before w' (row, _, rows) =
      ap (λ (t : Tables). t.orders order.id) rows ∙ rw (eq_refl order.id) refl

  stored_event :
      {ev : Event} {ev_type : String} (order : Order) (before : Tables) (w' : env.World)
      → Committed env doc s order ev_type ev before w'
      → Any (Announced order.id ev_type) (doc.tables w').outbox
  stored_event order before w' (row, queued, rows) =
      rw rows (Any-append_last before.outbox row (queued.of_order, queued.of_type))

  stored_keeps :
      {ev : Event} {ev_type : String} (order : Order) {P : OutboxEvent → Type 0} (before : Tables)
      (w' : env.World)
      → Committed env doc s order ev_type ev before w'
      → Any P before.outbox
      → Any P (doc.tables w').outbox
  stored_keeps order before w' (row, _, rows) held = rw rows (Any-append_left (row ∷ []) held)

  -- The order is CANCELLED, and both its payment and its cancellation are announced.
  abbrev pub PaidAndCancelled : Order → env.World → Type 0
  PaidAndCancelled o w =
      ((doc.tables w).orders o.id ≡ some (record o { status = order_status_cancelled }))
      × Any (Announced o.id event_order_paid) (doc.tables w).outbox
      × Any (Announced o.id event_order_cancelled) (doc.tables w).outbox

  both_written :
      (o : Order) (w : env.World) {p c : Order}
      → o.status ≡ order_status_created
      → (pay env s o w).0 ≡ ok p
      → (cancel env s o (pay env s o w).1).0 ≡ ok c
      → PaidAndCancelled o (cancel env s o (pay env s o w).1).1
  both_written o w {p} {c} created paid cancelled =
      let w1 = (pay env s o w).1 in
      let w2 = (cancel env s o w1).1 in
      let (_, named, (_, written)) = (pay_outcome env doc s o w).on_ok p paid in
      let own : p.id ≡ o.id = ap (λ (x : Order). x.id) named in
      let announced : Any (Announced o.id event_order_paid) (doc.tables w1).outbox =
        rw own at (stored_event p (doc.tables w) w1 written) in
      elim ((cancel_outcome env doc s o w1).on_ok c cancelled) [
        | inl (_, _, renamed, (_, overwritten)) ↦
            let same : c.id ≡ o.id = ap (λ (x : Order). x.id) renamed in
            (
              ap (doc.tables w2).orders (sym same)
                  ∙ stored_row c (doc.tables w1) w2 overwritten
                  ∙ ap some renamed,
              stored_keeps c (doc.tables w1) w2 overwritten announced,
              rw same at (stored_event c (doc.tables w1) w2 overwritten),
            )
        | inr (again, _, _) ↦ absurd (distinct.1 (sym again ∙ created))
      ]

  -- If a payment and a cancellation have both read an order while it was CREATED, then the
  -- cancellation that is written after the payment makes the paid order CANCELLED, and both events are
  -- queued, if neither write fails.
  pub run_lost_payment :
      (i j : ℕ) (o : Order) (sv : Server env) {p c : Order}
      → i == j ≡ false
      → sv.running i ≡ some (paying o)
      → sv.running j ≡ some (cancelling o)
      → o.status ≡ order_status_created
      → (pay env s o sv.world).0 ≡ ok p
      → (cancel env s o (pay env s o sv.world).1).0 ≡ ok c
      → PaidAndCancelled o (run env s (writes i ∷ writes j ∷ []) sv).world
  unfolding run act finish
  run_lost_payment i j o sv other pays cancels created paid cancelled =
      rw (pays, other, cancels) (both_written o sv.world created paid cancelled)
