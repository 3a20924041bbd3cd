-- ===== src/Billing/Consumer/Effects.antt =====
-- What `processMessage` and the loop of `Start` do to the invoices, with `OrderHandler` as the handler.
use order_billing_system.Base.Tests.{◌≡◌, ◌≢◌, refl, ◌∙◌, ap, ◌⊎◌, inl, inr, Option, some, arith}
use order_billing_system.Base.Texts.{String}
use order_billing_system.Base.Lists.{List, [], ◌∷◌}
use order_billing_system.Shared.Errors.{GoError}
use order_billing_system.Shared.Effects.{ok, ignore, Result-cases}
use order_billing_system.Shared.Kafka.{Message, safe_handle}
use order_billing_system.Billing.Model.{Invoice, ProcessedEvent, invoice_status_pending}
use order_billing_system.Billing.Environment.{Environment, Ledger, Documented}
use order_billing_system.Billing.Handler.{Topics, handle, order_handler}
use order_billing_system.Billing.Handler.Dispatch.{handle_outcome}
use order_billing_system.Billing.Lifecycle.{Move, stays, Moves, stop, next}
use order_billing_system.Billing.Lifecycle.Final.{Settled-Moves, Moves-SameBill, SameBill}
use order_billing_system.Billing.Retry.{retry}
use order_billing_system.Billing.Retry.Outcome.{Stable, retry_outcome}
use order_billing_system.Billing.Consumer.{
  event_key, complete, give_up, conclude, attempt_message, process_message, consume,
}
use order_billing_system.Billing.Consumer.Steps.{
  MaybeCommitted, commit_outcome, give_up_outcome, complete_outcome,
}
use order_billing_system.Billing.Consumer.Returns.{consume_next}
use order_billing_system.Billing.Consumer.Commits.{LeavesCommits, attempted, skipped}

module _ (env : Environment) (doc : Documented env) (topics : Topics) where
  pub order_handler-LeavesCommits : LeavesCommits env doc (order_handler env topics)
  unfolding order_handler
  order_handler-LeavesCommits msg w = elim (Result-cases (handle env topics msg w).0) [
    | inl (_, done) ↦ ((handle_outcome env doc topics msg w).on_ok tt done).commits
    | inr (e, failed) ↦
        ap (λ (l : Ledger). l.commits) ((handle_outcome env doc topics msg w).on_err e failed)
  ]

  abbrev invoices_of : env.World → String → Option Invoice
  invoices_of w = (doc.ledger w).invoices

  -- One delivery, from its first world to its last: the event was found recorded, or the message was
  -- handled with success in a world with the ledger of before, or it was given up in such a world.
  abbrev pub HandledOnce : Message → env.World → env.World → Type 0
  HandledOnce msg w w' =
      (((row : ProcessedEvent) × ((env.first_processed (event_key msg) w).0 ≡ ok row))
        × (w' ≡ (ignore (env.commit_message msg) (env.first_processed (event_key msg) w).1).1))
      ⊎ (((v : env.World) × (doc.ledger v ≡ doc.ledger w)
            × ((handle env topics msg v).0 ≡ ok tt)
            × (w' ≡ (complete env msg (handle env topics msg v).1).1))
          ⊎ ((e : GoError) × (v : env.World) × (doc.ledger v ≡ doc.ledger w)
              × (w' ≡ (give_up env msg e v).1)))

  MaybeCommitted-invoices :
      (msg : Message) (before after : Ledger)
      → MaybeCommitted msg before after
      → after.invoices ≡ before.invoices
  MaybeCommitted-invoices msg before after h = elim h [
    | inl same ↦ ap (λ (l : Ledger). l.invoices) same
    | inr committed ↦ ap (λ (l : Ledger). l.invoices) committed
  ]

  complete_invoices :
      (msg : Message) (w : env.World) → invoices_of (complete env msg w).1 ≡ invoices_of w
  complete_invoices msg w = elim (complete_outcome env doc msg w) [
    | inl same ↦ ap (λ (l : Ledger). l.invoices) same
    | inr (row, settled) ↦ MaybeCommitted-invoices msg _ _ settled
  ]

  give_up_invoices :
      (msg : Message) (e : GoError) (w : env.World)
      → invoices_of (give_up env msg e w).1 ≡ invoices_of w
  give_up_invoices msg e w =
      let (letters, settled) = give_up_outcome env doc msg e w in
      MaybeCommitted-invoices msg _ _ settled

  -- The two ends of a message whose event is not recorded.
  abbrev Attempted : Message → env.World → env.World → Type 0
  Attempted msg w w' =
      ((v : env.World) × (doc.ledger v ≡ doc.ledger w)
        × ((handle env topics msg v).0 ≡ ok tt)
        × (w' ≡ (complete env msg (handle env topics msg v).1).1))
      ⊎ ((e : GoError) × (v : env.World) × (doc.ledger v ≡ doc.ledger w)
          × (w' ≡ (give_up env msg e v).1))

  attempt_effect :
      (msg : Message) (w : env.World)
      → Attempted msg w (attempt_message env (order_handler env topics) msg w).1
  unfolding attempt_message safe_handle order_handler
  attempt_effect msg w =
      let run = safe_handle (order_handler env topics) msg in
      let outcome = retry_outcome env run unchanged 3 w (omega arith) refl in
      elim (Result-cases (retry env 3 run w).0) [
        | inl (_, done) ↦
            rw (done, conclude)
              (let (v, same, handled, end) = outcome.on_ok tt done in
                inl (v, same, handled, ap (λ u. (complete env msg u).1) end))
        | inr (e, failed) ↦
            rw (failed, conclude) (inr (e, (retry env 3 run w).1, outcome.on_err e failed, refl))
      ]
    where
      unchanged :
          Stable env (safe_handle (order_handler env topics) msg) (λ v. doc.ledger v ≡ doc.ledger w)
      unchanged = record {
        after_failure =
            λ v e before failed. (handle_outcome env doc topics msg v).on_err e failed ∙ before;
        after_wait = λ d v before. doc.wait_keeps d v ∙ before;
        after_random = λ n v before. doc.random_keeps n v ∙ before;
      }

  pub process_effect :
      (msg : Message) (w : env.World)
      → HandledOnce msg w (process_message env (order_handler env topics) msg w).1
  process_effect msg w =
      let key = event_key msg in
      let w1 = (env.first_processed key w).1 in
      let same = doc.first_processed_keeps key w in
      elim (Result-cases (env.first_processed key w).0) [
        | inl (row, found) ↦
            rw (skipped env (order_handler env topics) msg w found) (inl ((row, found), refl))
        | inr (e, missing) ↦
            rw (attempted env (order_handler env topics) msg w missing)
              (elim (attempt_effect msg w1) [
                | inl (v, begun, handled, end) ↦ inr (inl (v, begun ∙ same, handled, end))
                | inr (x, v, begun, end) ↦ inr (inr (x, v, begun ∙ same, end))
              ])
      ]

  -- The invoices after one delivery: those before it, or those after one successful handling that
  -- began with the ledger of before.
  pub process_invoices :
      (msg : Message) (w : env.World)
      → let w' = (process_message env (order_handler env topics) msg w).1 in
        (invoices_of w' ≡ invoices_of w)
        ⊎ ((v : env.World) × (doc.ledger v ≡ doc.ledger w)
            × ((handle env topics msg v).0 ≡ ok tt)
            × (invoices_of w' ≡ invoices_of (handle env topics msg v).1))
  process_invoices msg w =
      let w1 = (env.first_processed (event_key msg) w).1 in
      elim (process_effect msg w) [
        | inl (_, end) ↦ inl (
            ap invoices_of end
            ∙ MaybeCommitted-invoices msg _ _ (commit_outcome env doc msg w1)
            ∙ ap (λ (l : Ledger). l.invoices) (doc.first_processed_keeps (event_key msg) w))
        | inr (inl (v, begun, handled, end)) ↦
            inr (v, begun, handled, ap invoices_of end ∙ complete_invoices msg _)
        | inr (inr (e, v, begun, end)) ↦
            inl (
              ap invoices_of end ∙ give_up_invoices msg e v ∙ ap (λ (l : Ledger). l.invoices) begun)
      ]

  pub process-Move :
      (msg : Message) (w : env.World) (k : String)
      → Move
          (invoices_of w k)
          (invoices_of (process_message env (order_handler env topics) msg w).1 k)
  process-Move msg w k = elim (process_invoices msg w) [
    | inl kept ↦ rw kept stays
    | inr (v, begun, handled, end) ↦
        rw end (rw begun at (((handle_outcome env doc topics msg v).on_ok tt handled).moves k))
  ]

  -- Whatever messages are consumed, in whatever order and however often, the invoice of an order only
  -- moves along its statuses: it is issued PENDING, and only a PENDING one becomes PAID or CANCELLED.
  consume-Moves :
      (messages : List Message) (w : env.World) (k : String)
      → Moves
          ((doc.ledger w).invoices k)
          ((doc.ledger (consume env (order_handler env topics) messages w).1).invoices k)
  unfolding consume
  consume-Moves [] w k = stop
  consume-Moves (msg ∷ messages) w k =
      let w' = (process_message env (order_handler env topics) msg w).1 in
      rw (consume_next env (order_handler env topics) msg messages w)
        (next (process-Move msg w k) (consume-Moves messages w' k))

  -- An invoice that is not PENDING is never changed again, whatever messages are consumed.
  consume_settled :
      (messages : List Message) (w : env.World) (k : String) (inv : Invoice)
      → (doc.ledger w).invoices k ≡ some inv
      → inv.status ≢ invoice_status_pending
      → (doc.ledger (consume env (order_handler env topics) messages w).1).invoices k ≡ some inv
  consume_settled messages w k inv here settled =
      Settled-Moves inv settled (consume-Moves messages w k) here ∙ here

  -- An invoice is never removed, and keeps its id, its order, its amount and its creation time,
  -- whatever messages are consumed.
  consume_keeps_bill :
      (messages : List Message) (w : env.World) (k : String) (inv : Invoice)
      → (doc.ledger w).invoices k ≡ some inv
      → (inv2 : Invoice) × ((doc.ledger
              (consume env (order_handler env topics) messages w).1).invoices
            k
          ≡ some inv2)
        × SameBill inv inv2
  consume_keeps_bill messages w k inv here = Moves-SameBill inv (consume-Moves messages w k) here
