-- ===== src/Order/Lifecycle/Refined.antt =====
-- Every request moves each order along its course, and the outbox along with it.
use order_billing_system.Base.Tests.{◌≡◌, sym, ◌∙◌, ap, inl, inr, none, some}
use order_billing_system.Base.Texts.{String}
use order_billing_system.Base.Lists.{List, [], ◌∷◌}
use order_billing_system.Shared.Effects.{ok, Result-cases}
use order_billing_system.Order.Model.{Order, Event}
use order_billing_system.Order.Environment.{Environment, Documented}
use order_billing_system.Order.Service.{OrderService, create_order, mark_order_paid, cancel_order}
use order_billing_system.Order.Service.Writes.{Committed}
use order_billing_system.Order.Service.Requests.{
  create_order_outcome, mark_order_paid_outcome, cancel_order_outcome,
}
use order_billing_system.Order.History.{Request, creates, pays, cancels, serve, serve_all}
use order_billing_system.Order.Lifecycle.{Stage, stays, Course, ends, steps, Shows}
use order_billing_system.Order.Lifecycle.Advances.{
  Advances, open-Advances, pay-Advances, cancel-Advances, Moved, commit-Moved,
}

module _ (env : Environment) (doc : Documented env) (s : OrderService) where
  -- The id of a created order is that of no row.
  abbrev pub IsNew : Request → env.World → Type 0
  IsNew (creates items) w =
      (o : Order) → (create_order env s items w).0 ≡ ok o → (doc.tables w).orders o.id ≡ none
  IsNew (pays id) w = Unit
  IsNew (cancels id) w = Unit

  abbrev pub NewIds : List Request → env.World → Type 0
  NewIds [] w = Unit
  NewIds (request ∷ requests) w = IsNew request w × NewIds requests (serve env s request w)

module _ (env : Environment) (doc : Documented env) (s : OrderService) (k : String) where
  kept :
      (st : Stage) (w w' : env.World)
      → Shows k st (doc.tables w)
      → doc.tables w' ≡ doc.tables w
      → Moved k st (doc.tables w')
  kept st w w' h same = (st, stays, rw same h)

  committed :
      (st : Stage) {ev : Event} {ev_type : String} (order : Order) (w w' : env.World)
      → Shows k st (doc.tables w)
      → Committed env doc s order ev_type ev (doc.tables w) w'
      → (order.id ≡ k → Advances st order ev_type)
      → Moved k st (doc.tables w')
  committed st order w w' h (row, queued, rows) advances =
      rw rows (commit-Moved k st order row (doc.tables w) h queued.of_order queued.of_type advances)

  -- The row of the order that was read, seen from `k`.
  row_here :
      (w : env.World) {id changed_id : String} {order : Order}
      → (doc.tables w).orders id ≡ some order
      → order.id ≡ id
      → changed_id ≡ order.id
      → changed_id ≡ k
      → (doc.tables w).orders k ≡ some order
  row_here w row own same here = ap (doc.tables w).orders (sym here ∙ same ∙ own) ∙ row

  serve-Moved :
      (st : Stage) (request : Request) (w : env.World)
      → IsNew env doc s request w
      → Shows k st (doc.tables w)
      → Moved k st (doc.tables (serve env s request w))
  unfolding serve
  serve-Moved st (creates items) w new h =
      let outcome = create_order_outcome env doc s items w in
      elim (Result-cases (create_order env s items w).0) [
        | inl (order, done) ↦
            let (_, _, _, _, status, written) = outcome.on_ok order done in
            committed st order w _ h written (λ here.
              open-Advances st _ order h.row (ap (doc.tables w).orders (sym here) ∙ new order done)
                status)
        | inr (e, failed) ↦ kept st w _ h (outcome.on_err e failed).1
      ]
  serve-Moved st (pays id) w new h =
      let outcome = mark_order_paid_outcome env doc s id w in
      elim (Result-cases (mark_order_paid env s id w).0) [
        | inl (changed, done) ↦
            let (order, row, own, (created, named, (_, written))) = outcome.on_ok changed done in
            committed st changed w _ h written (λ here.
              pay-Advances st _ order changed h.row
                (row_here w row own (ap (λ (x : Order). x.id) named) here) created
                (ap (λ (x : Order). x.status) named))
        | inr (e, failed) ↦ elim (outcome.on_err e failed) [
          | inl missing ↦ kept st w _ h missing.1
          | inr (_, _, _, (_, same)) ↦ kept st w _ h same
        ]
      ]
  serve-Moved st (cancels id) w new h =
      let outcome = cancel_order_outcome env doc s id w in
      elim (Result-cases (cancel_order env s id w).0) [
        | inl (changed, done) ↦
            let (order, row, own, answer) = outcome.on_ok changed done in
            elim answer [
              | inl (unpaid, uncancelled, named, (_, written)) ↦
                  committed st changed w _ h written (λ here.
                    cancel-Advances st _ order changed h.row
                      (row_here w row own (ap (λ (x : Order). x.id) named) here) unpaid uncancelled
                      (ap (λ (x : Order). x.status) named))
              | inr (_, _, same) ↦ kept st w _ h same
            ]
        | inr (e, failed) ↦ elim (outcome.on_err e failed) [
          | inl missing ↦ kept st w _ h missing.1
          | inr (_, _, _, (_, same)) ↦ kept st w _ h same
        ]
      ]

  -- Requests that are served one after the other move every order along the course absent, open, and
  -- then paid or cancelled, and the events of the order in the outbox are at any time exactly those
  -- that lead to its stage, in that order, if this was so before and no created order gets an id that
  -- is taken.
  pub serve_all-Course :
      (requests : List Request) (w : env.World) (st : Stage)
      → NewIds env doc s requests w
      → Shows k st (doc.tables w)
      → (st' : Stage) × Course st st' × Shows k st' (doc.tables (serve_all env s requests w))
  unfolding serve_all
  serve_all-Course [] w st new h = (st, ends, h)
  serve_all-Course (request ∷ requests) w st (new, later) h =
      let (st1, next, shown) = serve-Moved st request w new h in
      let (st', path, end) = serve_all-Course requests (serve env s request w) st1 later shown in
      (st', steps next path, end)
