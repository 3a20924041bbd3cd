-- ===== src/Order/Concurrent/Rows.antt =====
-- What one action may do to the row of one order, and to the tables as a whole.
use order_billing_system.Base.Tests.{
  ℕ, ◌≡◌, refl, sym, ◌∙◌, ap, ◌⊎◌, inl, inr, none, some, Option, Bool-cases,
}
use order_billing_system.Base.Texts.{String, str_eq, eq_iff}
use order_billing_system.Base.Lists.{List, [], ◌∷◌}
use order_billing_system.Shared.Effects.{ok, Result-cases}
use order_billing_system.Order.Model.{
  Order, OrderItem, Event, OutboxEvent, order_status_created, order_status_paid,
  order_status_cancelled,
}
use order_billing_system.Order.Environment.{Environment, Tables, Documented}
use order_billing_system.Order.Service.{OrderService, create_order, pay, cancel}
use order_billing_system.Order.Service.Writes.{commit_rows, Committed}
use order_billing_system.Order.Service.Transitions.{pay_outcome, cancel_outcome}
use order_billing_system.Order.Service.Requests.{create_order_outcome}
use order_billing_system.Order.History.Announced.{
  Consistent, create_order-Consistent, pay-Consistent, cancel-Consistent, get_order_keeps,
}
use order_billing_system.Order.Concurrent.{
  InFlight, paying, cancelling, Server, Action, creates, reads_to_pay, reads_to_cancel, writes,
  finish, act, run,
}

-- The row of a written order, and the rows beside it.
commit_row :
    (order : Order) (row : OutboxEvent) (t : Tables) (k : String)
    → ((order.id ≡ k) × ((commit_rows order row t).orders k ≡ some order))
      ⊎ ((commit_rows order row t).orders k ≡ t.orders k)
commit_row order row t k = elim (Bool-cases (str_eq order.id k)) [
  | inl same ↦ inl ((eq_iff order.id k).0 same, rw same refl)
  | inr other ↦ inr (rw other refl)
]

-- An order that is now PAID or CANCELLED, and was otherwise the one given.
abbrev pub Settles : Order → Order → Type 0
Settles o changed =
    (changed ≡ record o { status = order_status_paid })
    ⊎ (changed ≡ record o { status = order_status_cancelled })

module _ (env : Environment) (doc : Documented env) (s : OrderService) where
  abbrev pub row_of : env.World → String → Option Order
  row_of w k = (doc.tables w).orders k

  -- The row under `k` is as it was, or it holds an order that was read under `k`, settled.
  abbrev pub Overwrites : Order → String → env.World → env.World → Type 0
  Overwrites o k w w' =
      (row_of w' k ≡ row_of w k)
      ⊎ ((changed : Order) × Settles o changed × (o.id ≡ k) × (row_of w' k ≡ some changed))

  written_row :
      {ev : Event} {ev_type : String} (o changed : Order) (k : String) (w w' : env.World)
      → Settles o changed
      → changed.id ≡ o.id
      → Committed env doc s changed ev_type ev (doc.tables w) w'
      → Overwrites o k w w'
  written_row o changed k w w' settled own (row, _, rows) =
      elim (commit_row changed row (doc.tables w) k) [
        | inl (here, found) ↦
            inr (changed, settled, sym own ∙ here, ap (λ (t : Tables). t.orders k) rows ∙ found)
        | inr beside ↦ inl (ap (λ (t : Tables). t.orders k) rows ∙ beside)
      ]

  pub pay_row : (o : Order) (k : String) (w : env.World) → Overwrites o k w (pay env s o w).1
  pay_row o k w =
      let outcome = pay_outcome env doc s o w in
      elim (Result-cases (pay env s o w).0) [
        | inl (changed, done) ↦
            let (_, named, (_, committed)) = outcome.on_ok changed done in
            written_row o changed k w _ (inl named) (ap (λ (x : Order). x.id) named) committed
        | inr (e, failed) ↦ inl (ap (λ (t : Tables). t.orders k) (outcome.on_err e failed).1)
      ]

  pub cancel_row : (o : Order) (k : String) (w : env.World) → Overwrites o k w (cancel env s o w).1
  cancel_row o k w =
      let outcome = cancel_outcome env doc s o w in
      elim (Result-cases (cancel env s o w).0) [
        | inl (changed, done) ↦ elim (outcome.on_ok changed done) [
          | inl (_, _, named, (_, committed)) ↦
              written_row o changed k w _ (inr named) (ap (λ (x : Order). x.id) named) committed
          | inr (_, _, kept) ↦ inl (ap (λ (t : Tables). t.orders k) kept)
        ]
        | inr (e, failed) ↦ inl (ap (λ (t : Tables). t.orders k) (outcome.on_err e failed).1)
      ]

  -- The row that a creation writes is that of the order it returns.
  pub create_row :
      (items : List OrderItem) (k : String) (w : env.World)
      → (row_of (create_order env s items w).1 k ≡ row_of w k)
        ⊎ ((o : Order) × ((create_order env s items w).0 ≡ ok o)
            × (o.status ≡ order_status_created)
            × (o.id ≡ k))
  create_row items k w =
      let outcome = create_order_outcome env doc s items w in
      elim (Result-cases (create_order env s items w).0) [
        | inl (o, done) ↦
            let (_, _, _, _, status, (row, _, rows)) = outcome.on_ok o done in
            elim (commit_row o row (doc.tables w) k) [
              | inl (here, _) ↦ inr (o, done, status, here)
              | inr beside ↦ inl (ap (λ (t : Tables). t.orders k) rows ∙ beside)
            ]
        | inr (e, failed) ↦ inl (ap (λ (t : Tables). t.orders k) (outcome.on_err e failed).1)
      ]

  finish-Consistent :
      (p : Option InFlight) (i : ℕ) (sv : Server env)
      → Consistent (doc.tables sv.world)
      → Consistent (doc.tables (finish env s p i sv).world)
  unfolding finish
  finish-Consistent none i sv h = h
  finish-Consistent (some (paying o)) i sv h = pay-Consistent env doc s o sv.world h
  finish-Consistent (some (cancelling o)) i sv h = cancel-Consistent env doc s o sv.world h

  act-Consistent :
      (action : Action) (sv : Server env)
      → Consistent (doc.tables sv.world)
      → Consistent (doc.tables (act env s action sv).world)
  unfolding act
  act-Consistent (creates items) sv h = create_order-Consistent env doc s items sv.world h
  act-Consistent (reads_to_pay i id) sv h = rw (get_order_keeps env doc s id sv.world) h
  act-Consistent (reads_to_cancel i id) sv h = rw (get_order_keeps env doc s id sv.world) h
  act-Consistent (writes i) sv h = finish-Consistent (sv.running i) i sv h

  -- In whatever order concurrent requests read and write, each order stands under its own id, and the
  -- outbox holds an event of the order's status for it, if that was so before.
  pub run-Consistent :
      (actions : List Action) (sv : Server env)
      → Consistent (doc.tables sv.world)
      → Consistent (doc.tables (run env s actions sv).world)
  unfolding run
  run-Consistent [] sv h = h
  run-Consistent (action ∷ actions) sv h =
      run-Consistent actions (act env s action sv) (act-Consistent action sv h)
