-- ===== src/Billing/Handler/Dispatch.antt =====
-- What a handled message does to the ledger, whatever its topic and its payload.
use order_billing_system.Base.Tests.{
  ◌≡◌, refl, sym, ◌∙◌, ap, inl, inr, Option, none, some, true, false, Bool, if◌then◌else◌,
}
use order_billing_system.Base.Texts.{String, str_eq, eq_iff}
use order_billing_system.Base.Lists.{List, [], ◌∷◌, ◌++◌}
use order_billing_system.Shared.Errors.{GoError}
use order_billing_system.Shared.Effects.{Result, ok, err, Act, ◌>>=◌, Result-cases}
use order_billing_system.Shared.Effects.Contracts.{Ends, Ends-ok, Ends-if, Ends-weaken}
use order_billing_system.Shared.Kafka.{Message}
use order_billing_system.Billing.Model.{
  DlqMessage, Invoice, OrderCreatedEvent, OrderPaidEvent, OrderCancelledEvent,
}
use order_billing_system.Billing.Environment.{Environment, Ledger, Documented, update}
use order_billing_system.Billing.Service.{
  handle_order_created, handle_order_paid, handle_order_cancelled,
}
use order_billing_system.Billing.Service.Events.{
  handle_order_created_outcome, handle_order_paid_outcome, handle_order_cancelled_outcome,
}
use order_billing_system.Billing.Service.Writes.{Unchanged, put_invoice}
use order_billing_system.Billing.Lifecycle.{Move, stays, issued, paid, cancelled}
use order_billing_system.Billing.Handler.{
  Topics, dlq_send, send_to_dlq, unmarshal, accept, handle_created, handle_paid, handle_cancelled,
  handle,
}

update-Move :
    (f : String → Option Invoice) (order_id : String) (inv : Invoice)
    → Move (f order_id) (some inv)
    → (k : String) → Move (f k) (update f order_id inv k)
update-Move f order_id inv move k = chosen (str_eq order_id k) (eq_iff order_id k).0
  where
    chosen :
        (same : Bool) → (same ≡ true → order_id ≡ k) → Move (f k) (if same then some inv else f k)
    chosen true at = rw (sym (at refl)) move
    chosen false at = stays

module _ (env : Environment) (doc : Documented env) where
  pub dlq_send_outcome :
      (m : DlqMessage) (w : env.World)
      → (letters : List String) × (doc.ledger (dlq_send env m w)
          ≡ record (doc.ledger w) { dead_letters = letters })
  unfolding dlq_send
  dlq_send_outcome m w = elim (Result-cases (env.marshal_dlq m)) [
    | inr (e, unprintable) ↦ ((doc.ledger w).dead_letters, rw (unprintable, dlq_send))
    | inl (value, printed) ↦ elim (Result-cases (env.write_dlq value w).0) [
      | inl (_, done) ↦ (
        (doc.ledger w).dead_letters ++ value ∷ [],
        rw (printed, dlq_send) (doc.write_dlq_done value w done),
      )
      | inr (e, failed) ↦
          let (letters, kept) = doc.write_dlq_failed value w failed in
          (letters, rw (printed, dlq_send) kept)
    ]
  ]

  send_to_dlq_outcome :
      (msg : Message) (e : Option GoError) (w : env.World)
      → (letters : List String) × (doc.ledger (send_to_dlq env msg e w)
          ≡ record (doc.ledger w) { dead_letters = letters })
  unfolding send_to_dlq
  send_to_dlq_outcome msg e w =
      let (letters, sent) = dlq_send_outcome _ (env.time_now w).1 in
      (
        letters,
        sent ∙ ap (λ (l : Ledger). record l { dead_letters = letters }) (doc.time_now_keeps w),
      )

  -- Neither the record of processed events nor a committed offset has changed, and the invoice of
  -- every order has made one move.
  pub record Handled (before : Ledger) (w' : env.World) : Type 0 where
    pub processed : (doc.ledger w').processed ≡ before.processed
    pub commits : (doc.ledger w').commits ≡ before.commits
    pub moves : (k : String) → Move (before.invoices k) ((doc.ledger w').invoices k)

  letters-Handled :
      {before : Ledger} {w' : env.World} (letters : List String)
      → doc.ledger w' ≡ record before { dead_letters = letters }
      → Handled before w'
  letters-Handled letters e = record {
    processed = ap (λ (l : Ledger). l.processed) e;
    commits = ap (λ (l : Ledger). l.commits) e;
    moves = λ k. rw e stays;
  }

  put-Handled :
      {before : Ledger} {w' : env.World} (order_id : String) (inv : Invoice)
      → doc.ledger w' ≡ put_invoice order_id inv before
      → Move (before.invoices order_id) (some inv)
      → Handled before w'
  put-Handled {before} order_id inv e move = record {
    processed = ap (λ (l : Ledger). l.processed) e;
    commits = ap (λ (l : Ledger). l.commits) e;
    moves = λ k. rw e (update-Move before.invoices order_id inv move k);
  }

  module _ {T : Type 0} (msg : Message) (order_id : T → String)
      (service : T → Act env.World (Unit {0}))
      (serves : (event : T) (w : env.World)
        → Ends
            (λ _. Handled (doc.ledger w))
            (λ _. Unchanged env doc (doc.ledger w))
            (service event w)) where
    event_outcome :
        (r : Result T) (w : env.World)
        → Ends
            (λ _. Handled (doc.ledger w))
            (λ _. Unchanged env doc (doc.ledger w))
            ((unmarshal env msg r >>= accept env msg order_id service) w)
    unfolding unmarshal accept
    event_outcome (ok event) w =
        Ends-if (str_eq (order_id event) "") _ _ w
          (λ empty.
            let (letters, sent) = send_to_dlq_outcome msg none w in
            Ends-ok tt _ (letters-Handled letters sent))
          (λ given. serves event w)
    event_outcome (err e) w =
        let (letters, sent) = send_to_dlq_outcome msg (some e) w in
        Ends-ok tt _ (letters-Handled letters sent)

  created-Handled :
      (event : OrderCreatedEvent) (w : env.World)
      → Ends
          (λ _. Handled (doc.ledger w))
          (λ _. Unchanged env doc (doc.ledger w))
          (handle_order_created env event w)
  created-Handled event w =
      Ends-weaken (handle_order_created_outcome env doc event w)
        (λ _ h. elim h [
          | inl (inv, row, same) ↦ letters-Handled (doc.ledger w).dead_letters same
          | inr (fresh, added) ↦ put-Handled event.order_id _ added.1 (rw fresh (issued refl))
        ])
        (λ e h. h.1)

  paid-Handled :
      (event : OrderPaidEvent) (w : env.World)
      → Ends
          (λ _. Handled (doc.ledger w))
          (λ _. Unchanged env doc (doc.ledger w))
          (handle_order_paid env event w)
  paid-Handled event w =
      Ends-weaken (handle_order_paid_outcome env doc event w)
        (λ _ (inv, row, (pending, after)).
          put-Handled event.order_id _ after (rw row (paid pending)))
        (λ e h. elim h [ inl missing ↦ missing.2 | inr refused ↦ refused.2.1 ])

  cancelled-Handled :
      (event : OrderCancelledEvent) (w : env.World)
      → Ends
          (λ _. Handled (doc.ledger w))
          (λ _. Unchanged env doc (doc.ledger w))
          (handle_order_cancelled env event w)
  cancelled-Handled event w =
      Ends-weaken (handle_order_cancelled_outcome env doc event w)
        (λ _ (inv, row, h). elim h [
          | inl (pending, after) ↦ put-Handled event.order_id _ after (rw row (cancelled pending))
          | inr (_, same) ↦ letters-Handled (doc.ledger w).dead_letters same
        ])
        (λ e h. elim h [ inl missing ↦ missing.2 | inr refused ↦ refused.2.1 ])

  -- A message that is handled leaves the processed events and the offsets alone, whatever its topic
  -- and payload, and moves the invoice of every order along its statuses. A message whose handling fails has changed nothing at all.
  pub handle_outcome :
      (topics : Topics) (msg : Message) (w : env.World)
      → Ends
          (λ _. Handled (doc.ledger w))
          (λ _. Unchanged env doc (doc.ledger w))
          (handle env topics msg w)
  unfolding handle handle_created handle_paid handle_cancelled
  handle_outcome topics msg w =
      Ends-if (str_eq topics.cancelled msg.topic) _ _ w
        (λ _.
          event_outcome msg (λ (event : OrderCancelledEvent). event.order_id)
            (handle_order_cancelled env) cancelled-Handled (env.unmarshal_cancelled msg.value) w)
        (λ _.
          Ends-if (str_eq topics.paid msg.topic) _ _ w
            (λ _.
              event_outcome msg (λ (event : OrderPaidEvent). event.order_id) (handle_order_paid env)
                paid-Handled (env.unmarshal_paid msg.value) w)
            (λ _.
              Ends-if (str_eq topics.created msg.topic) _ _ w
                (λ _.
                  event_outcome msg (λ (event : OrderCreatedEvent). event.order_id)
                    (handle_order_created env) created-Handled (env.unmarshal_created msg.value) w)
                (λ _. Ends-ok tt w (letters-Handled (doc.ledger w).dead_letters refl))))
