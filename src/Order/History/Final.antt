-- ===== src/Order/History/Final.antt =====
-- PAID and CANCELLED orders stay as they are.
use order_billing_system.Base.Tests.{
  ◌≡◌, ◌≢◌, refl, sym, ◌∙◌, ap, ◌⊎◌, inl, inr, some, arith, Bool, true, false, if◌then◌else◌,
}
use mathlib.Core.Option.{some-injective}
use order_billing_system.Base.Texts.{String, str_eq, eq_iff}
use order_billing_system.Base.Lists.{List, [], ◌∷◌, All}
use order_billing_system.Shared.Effects.{Result-cases}
use order_billing_system.Order.Model.{
  Order, Event, OutboxEvent, order_status_created, order_status_paid, order_status_cancelled,
}
use order_billing_system.Order.Environment.{Environment, Tables, Documented}
use order_billing_system.Order.Service.{OrderService, mark_order_paid, cancel_order}
use order_billing_system.Order.Service.Writes.{commit_rows, Committed}
use order_billing_system.Order.Service.Requests.{mark_order_paid_outcome, cancel_order_outcome}
use order_billing_system.Order.History.{Request, creates, pays, cancels, serve, serve_all}

-- A request that changes an order and creates none.
pub data IsChange : Request → Type 0 where
  of_pays : {id : String} → IsChange (pays id)
  of_cancels : {id : String} → IsChange (cancels id)

-- Neither a payment nor a cancellation is due.
abbrev pub Final : Order → Type 0
Final o = (o.status ≡ order_status_paid) ⊎ (o.status ≡ order_status_cancelled)

-- The row of another order is not written.
other_row :
    (order : Order) (row : OutboxEvent) (t : Tables) (k : String)
    → order.id ≢ k
    → (commit_rows order row t).orders k ≡ t.orders k
other_row order row t k other = pick (str_eq order.id k) (eq_iff order.id k).0
  where
    pick :
        (b : Bool) → (b ≡ true → order.id ≡ k) → (if b then some order else t.orders k) ≡ t.orders k
    pick true same = absurd (other (same refl))
    pick false same = refl

pub distinct :
    (order_status_paid ≢ order_status_created) × (order_status_cancelled ≢ order_status_created)
distinct = (
  (λ e. ground (arith, eq_iff order_status_paid order_status_created)),
  (λ e. ground (arith, eq_iff order_status_cancelled order_status_created)),
)

module _ (env : Environment) (doc : Documented env) (s : OrderService) (k : String) (o : Order)
    (final : Final o) where
  abbrev Stands : env.World → Type 0
  Stands w = (doc.tables w).orders k ≡ some o

  kept_row : (w w' : env.World) → Stands w → doc.tables w' ≡ doc.tables w → Stands w'
  kept_row w w' h same = ap (λ (t : Tables). t.orders k) same ∙ h

  -- A request that has read the row of `k` has read `o`.
  read_final :
      (w : env.World) {id changed_id : String} {order : Order}
      → Stands w
      → (doc.tables w).orders id ≡ some order
      → order.id ≡ id
      → changed_id ≡ order.id
      → changed_id ≡ k
      → order ≡ o
  read_final w {id} h row own kept same =
      let here : id ≡ k = sym own ∙ sym kept ∙ same in
      some-injective _ _ (sym row ∙ ap (doc.tables w).orders here ∙ h)

  not_created : o.status ≢ order_status_created
  not_created created = elim final [
    | inl paid ↦ distinct.0 (sym paid ∙ created)
    | inr cancelled ↦ distinct.1 (sym cancelled ∙ created)
  ]

  written_elsewhere :
      {ev_type : String} {ev : Event} (changed : Order) (w w' : env.World)
      → Stands w
      → Committed env doc s changed ev_type ev (doc.tables w) w'
      → changed.id ≢ k
      → Stands w'
  written_elsewhere changed w w' h (row, queued, rows) other =
      ap (λ (t : Tables). t.orders k) rows ∙ other_row changed row (doc.tables w) k other ∙ h

  pays-Stands : (id : String) (w : env.World) → Stands w → Stands (mark_order_paid env s id w).1
  pays-Stands id w h =
      let outcome = mark_order_paid_outcome env doc s id w in
      elim (Result-cases (mark_order_paid env s id w).0) [
        | inl (changed, done) ↦
            let (order, row, own, (created, named, (at, committed))) = outcome.on_ok changed done in
            written_elsewhere changed w _ h committed (λ same.
              let read = read_final w h row own (ap (λ (x : Order). x.id) named) same in
              not_created (ap (λ (x : Order). x.status) (sym read) ∙ created))
        | inr (e, failed) ↦ elim (outcome.on_err e failed) [
          | inl missing ↦ kept_row w _ h missing.1
          | inr (order, row, own, (_, kept)) ↦ kept_row w _ h kept
        ]
      ]

  cancels-Stands : (id : String) (w : env.World) → Stands w → Stands (cancel_order env s id w).1
  cancels-Stands id w h =
      let outcome = cancel_order_outcome env doc s id w in
      elim (Result-cases (cancel_order env s id w).0) [
        | inl (changed, done) ↦
            let (order, row, own, answer) = outcome.on_ok changed done in
            elim answer [
              | inl (unpaid, uncancelled, named, (at, committed)) ↦
                  written_elsewhere changed w _ h committed (λ same.
                    let read = read_final w h row own (ap (λ (x : Order). x.id) named) same in
                    let status = ap (λ (x : Order). x.status) read in
                    elim final [
                      | inl paid ↦ unpaid (status ∙ paid)
                      | inr cancelled ↦ uncancelled (status ∙ cancelled)
                    ])
              | inr (_, _, kept) ↦ kept_row w _ h kept
            ]
        | inr (e, failed) ↦ elim (outcome.on_err e failed) [
          | inl missing ↦ kept_row w _ h missing.1
          | inr (order, row, own, (_, kept)) ↦ kept_row w _ h kept
        ]
      ]

  serve-Stands :
      (request : Request) (w : env.World)
      → IsChange request
      → Stands w
      → Stands (serve env s request w)
  unfolding serve
  serve-Stands (pays id) w change h = pays-Stands id w h
  serve-Stands (cancels id) w change h = cancels-Stands id w h
  serve-Stands (creates items) w change h = elim change [ ]

  -- An order that is PAID or CANCELLED is never changed by payments and cancellations, whatever
  -- orders they name.
  serve_all-keeps_final :
      (requests : List Request) (w : env.World)
      → All IsChange requests
      → (doc.tables w).orders k ≡ some o
      → (doc.tables (serve_all env s requests w)).orders k ≡ some o
  unfolding serve_all
  serve_all-keeps_final [] w all h = h
  serve_all-keeps_final (request ∷ requests) w (change, changes) h =
      serve_all-keeps_final requests (serve env s request w) changes
        (serve-Stands request w change h)
