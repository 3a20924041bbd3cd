-- ===== src/Pipeline/Early.antt =====
-- A payment whose message is consumed before that of the creation of its order. The topics have a
-- consumer each, so that nothing keeps the order in which the outbox was written.
use order_billing_system.Base.Tests.{◌≡◌, refl, sym, ◌∙◌, ap, ◌⊎◌, inl, inr, Option, none, some}
use mathlib.Core.Option.{none-ne-some}
use order_billing_system.Base.Texts.{String}
use order_billing_system.Base.Lists.{[], ◌∷◌}
use order_billing_system.Shared.Effects.{ok}
use order_billing_system.Shared.Kafka.{Message}
use order_billing_system.Shared.Config.{Config}
use order_billing_system.Order.Model.{OutboxEvent, event_order_paid}
use order_billing_system.Order.Relay.{relay_message}
use order_billing_system.Billing.Model.{Invoice, invoice_status_pending}
use order_billing_system.Billing.Environment.{Environment, Ledger, Documented}
use order_billing_system.Billing.Handler.{handle, order_handler}
use order_billing_system.Billing.Service.Events.{handle_order_paid_outcome}
use order_billing_system.Billing.Lifecycle.{Move, stays, issued, paid, cancelled}
use order_billing_system.Billing.Consumer.{process_message, consume}
use order_billing_system.Billing.Consumer.Returns.{consume_next}
use order_billing_system.Billing.Consumer.Effects.{process_invoices, process-Move}
use order_billing_system.Wiring.{handler_topics}
use order_billing_system.Pipeline.{OwnTopics}
use order_billing_system.Pipeline.Stages.{types_differ}
use order_billing_system.Pipeline.Dispatched.{Carried, dispatched}

-- There is no invoice, or one that has not been paid.
abbrev pub Unpaid : Option Invoice → Type 0
Unpaid row =
    (row ≡ none) ⊎ ((inv : Invoice) × (row ≡ some inv) × (inv.status ≡ invoice_status_pending))

Move-Unpaid : {before after : Option Invoice} → Move before after → before ≡ none → Unpaid after
Move-Unpaid stays new = inl new
Move-Unpaid (issued {inv} pending) new = inr (inv, refl, pending)
Move-Unpaid (paid {inv} {at} pending) new = absurd (none-ne-some inv (sym new))
Move-Unpaid (cancelled {inv} pending) new = absurd (none-ne-some inv (sym new))

module _ (env : Environment) (doc : Documented env) (cfg : Config) (own : OwnTopics cfg)
    (row : OutboxEvent) (carried : Carried env cfg row)
    (is_payment : row.event_type ≡ event_order_paid) where
  -- The handler refuses the payment while there is no invoice of the order.
  refused :
      (v : env.World)
      → (doc.ledger v).invoices row.order_id ≡ none
      → (handle env (handler_topics cfg) (relay_message row) v).0 ≡ ok tt
      → ⊥
  refused v new done = elim (dispatched env cfg own row carried) [
    | inl (is_created, _) ↦ types_differ.0 (sym is_created ∙ is_payment)
    | inr (inl (_, (e, same, as_event))) ↦
        let (inv, found, _) =
          (handle_order_paid_outcome env doc e v).on_ok tt (rw as_event at done) in
        none-ne-some inv (sym new ∙ ap (doc.ledger v).invoices (sym same) ∙ found)
    | inr (inr (is_cancelled, _)) ↦ types_differ.2 (sym is_payment ∙ is_cancelled)
  ]

  payment_skipped :
      (w : env.World)
      → (doc.ledger w).invoices row.order_id ≡ none
      → (doc.ledger
            (process_message env
              (order_handler env (handler_topics cfg))
              (relay_message row)
              w).1).invoices
          row.order_id
        ≡ none
  payment_skipped w new =
      elim (process_invoices env doc (handler_topics cfg) (relay_message row) w) [
        | inl same ↦ ap (λ (f : String → Option Invoice). f row.order_id) same ∙ new
        | inr (v, begun, handled, _) ↦
            absurd (refused v (ap (λ (l : Ledger). l.invoices row.order_id) begun ∙ new) handled)
      ]

  -- If the message of a payment is consumed while the order has no invoice, then once the next message
  -- has been consumed as well, be it that of the creation, there is no invoice of the order, or one
  -- that is PENDING. The topics are different, and the row carries the topic and a payload of its event.
  pub consume_early_payment :
      (next_message : Message) (w : env.World)
      → (doc.ledger w).invoices row.order_id ≡ none
      → Unpaid (
          (doc.ledger
              (consume env
                (order_handler env (handler_topics cfg))
                (relay_message row ∷ next_message ∷ [])
                w).1).invoices
            row.order_id)
  unfolding consume
  consume_early_payment next_message w new =
      let handler = order_handler env (handler_topics cfg) in
      let w1 = (process_message env handler (relay_message row) w).1 in
      rw
        (
          consume_next env handler (relay_message row) (next_message ∷ []) w,
          consume_next env handler next_message [] w1,
        )
        (Move-Unpaid (process-Move env doc (handler_topics cfg) next_message w1 row.order_id)
          (payment_skipped w new))
