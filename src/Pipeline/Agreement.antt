-- ===== src/Pipeline/Agreement.antt =====
-- The invoices of billing_service after it has handled the outbox of order_service, row by row in the
-- order of insertion.
use order_billing_system.Base.Tests.{◌≡◌, ◌≢◌, sym, ◌∙◌, ap, inl, inr, none, Bool-cases, arith}
use mathlib.Core.Path.{subst}
use order_billing_system.Base.Texts.{String, str_eq, eq_iff}
use order_billing_system.Base.Lists.{List, [], ◌∷◌, ◌++◌, All}
use order_billing_system.Shared.Effects.{Result, ok, ◌>>◌, Result-cases}
use order_billing_system.Shared.Effects.Contracts.{bind_ok, bind_err}
use order_billing_system.Shared.Config.{Config}
use order_billing_system.Order.Model.{OutboxEvent}
use order_billing_system.Order.Environment.{Tables}
use order_billing_system.Order.Lifecycle.{Stage, absent, announced, event_types, Shows}
use order_billing_system.Billing.Environment.{Environment, Documented}
use order_billing_system.Pipeline.{OwnTopics}
use order_billing_system.Pipeline.Stages.{
  Tracks, Leads, opens, pays, cancels, next_stage, last_stage, types_differ,
}
use order_billing_system.Pipeline.Invoices.{
  created_bills, created_beside, paid_bills, paid_beside, cancelled_bills, cancelled_beside,
}
use order_billing_system.Pipeline.Dispatched.{Carried, handled, handle_rows, dispatched}

module _ (env : Environment) (doc : Documented env) (cfg : Config) (own : OwnTopics cfg) where
  module _ (k : String) (w : env.World) where
    -- A row of another order leaves the invoice alone.
    row_beside :
        (row : OutboxEvent)
        → Carried env cfg row
        → (handled env cfg row w).0 ≡ ok tt
        → row.order_id ≢ k
        → (doc.ledger (handled env cfg row w).1).invoices k ≡ (doc.ledger w).invoices k
    row_beside row h done other = elim (dispatched env cfg own row h) [
      | inl (_, (e, same, as_event)) ↦
          rw as_event
            (created_beside env doc k w e (rw as_event at done) (λ here. other (sym same ∙ here)))
      | inr (inl (_, (e, same, as_event))) ↦
          rw as_event
            (paid_beside env doc k w e (rw as_event at done) (λ here. other (sym same ∙ here)))
      | inr (inr (_, (e, same, as_event))) ↦
          rw as_event
            (cancelled_beside env doc k w e (rw as_event at done) (λ here. other (sym same ∙ here)))
    ]

    -- A row of the order moves the invoice to the status of the next stage.
    row_here :
        (row : OutboxEvent) {st st' : Stage}
        → Carried env cfg row
        → (handled env cfg row w).0 ≡ ok tt
        → row.order_id ≡ k
        → Leads st row.event_type st'
        → Tracks st ((doc.ledger w).invoices k)
        → Tracks st' ((doc.ledger (handled env cfg row w).1).invoices k)
    row_here row h done here (opens is) tracks = elim (dispatched env cfg own row h) [
      | inl (_, (e, same, as_event)) ↦
          rw as_event (created_bills env doc k w e (rw as_event at done) (same ∙ here) tracks)
      | inr (inl (is_paid, _)) ↦ absurd (types_differ.0 (sym is ∙ is_paid))
      | inr (inr (is_cancelled, _)) ↦ absurd (types_differ.1 (sym is ∙ is_cancelled))
    ]
    row_here row h done here (pays is) tracks = elim (dispatched env cfg own row h) [
      | inl (is_created, _) ↦ absurd (types_differ.0 (sym is_created ∙ is))
      | inr (inl (_, (e, same, as_event))) ↦
          rw as_event (paid_bills env doc k w e (rw as_event at done) (same ∙ here))
      | inr (inr (is_cancelled, _)) ↦ absurd (types_differ.2 (sym is ∙ is_cancelled))
    ]
    row_here row h done here (cancels is) tracks = elim (dispatched env cfg own row h) [
      | inl (is_created, _) ↦ absurd (types_differ.1 (sym is_created ∙ is))
      | inr (inl (is_paid, _)) ↦ absurd (types_differ.2 (sym is_paid ∙ is))
      | inr (inr (_, (e, same, as_event))) ↦
          rw as_event (cancelled_bills env doc k w e (rw as_event at done) (same ∙ here) tracks)
    ]

  rows_done :
      (row : OutboxEvent) (rows : List OutboxEvent) (w : env.World)
      → ((handled env cfg row >> handle_rows env cfg rows) w).0 ≡ ok tt
      → ((handled env cfg row w).0 ≡ ok tt)
        × ((handled env cfg row >> handle_rows env cfg rows) w
            ≡ handle_rows env cfg rows (handled env cfg row w).1)
  rows_done row rows w done = elim (Result-cases (handled env cfg row w).0) [
    | inl (u, first) ↦
        (first, bind_ok (handled env cfg row) (λ _. handle_rows env cfg rows) w first)
    | inr (e, failed) ↦
        let stopped = bind_err (handled env cfg row) (λ _. handle_rows env cfg rows) w failed in
        absurd (cc (sym done, ap (λ (o : Result (Unit {0}) × env.World). o.0) stopped))
  ]

  tracked :
      (k : String) (rows : List OutboxEvent) (st last : Stage) (w : env.World)
      → All (Carried env cfg) rows
      → announced st ++ event_types k rows ≡ announced last
      → Tracks st ((doc.ledger w).invoices k)
      → (handle_rows env cfg rows w).0 ≡ ok tt
      → Tracks last ((doc.ledger (handle_rows env cfg rows w).1).invoices k)
  unfolding handle_rows event_types
  tracked k [] st last w all events tracks done = last_stage st last _ events tracks
  tracked k (row ∷ rows) st last w (h, all) events tracks done =
      let (first, same) = rows_done row rows w done in
      let rest : (handle_rows env cfg rows (handled env cfg row w).1).0 ≡ ok tt =
        ap (λ (o : Result (Unit {0}) × env.World). o.0) (sym same) ∙ done in
      rw same (elim (Bool-cases (str_eq row.order_id k)) [
        | inl here ↦
            let (st', leads, follows) =
              next_stage st last row.event_type (event_types k rows) (rw here at events) in
            tracked k rows st' last (handled env cfg row w).1 all follows
              (row_here k w row h first ((eq_iff row.order_id k).0 here) leads tracks) rest
        | inr beside ↦
            let other : row.order_id ≢ k = λ here. ground (arith, eq_iff row.order_id k) in
            tracked k rows st last (handled env cfg row w).1 all (rw beside at events)
              (subst (Tracks st) (sym (row_beside k w row h first other)) tracks) rest
      ])

  -- If the rows of the outbox are handled in the order of insertion and every one without an error,
  -- then the invoice of an order ends in the status of the order: there is none for an order that is
  -- not there, and it is PENDING for a CREATED order, PAID for a PAID one, and CANCELLED for a
  -- CANCELLED one. There was no invoice of the order before, the outbox shows the order's course, the
  -- topics are different, and each row carries the topic and a payload of its event.
  pub handle_rows-Tracks :
      (k : String) (st : Stage) (t : Tables) (w : env.World)
      → All (Carried env cfg) t.outbox
      → Shows k st t
      → (doc.ledger w).invoices k ≡ none
      → (handle_rows env cfg t.outbox w).0 ≡ ok tt
      → Tracks st ((doc.ledger (handle_rows env cfg t.outbox w).1).invoices k)
  handle_rows-Tracks k st t w all shows new done =
      tracked k t.outbox absent st w all shows.events new done
