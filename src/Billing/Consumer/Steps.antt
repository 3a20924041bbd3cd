-- ===== src/Billing/Consumer/Steps.antt =====
-- What the parts of `processMessage` do to the ledger.
use order_billing_system.Base.Tests.{◌≡◌, ◌∙◌, ap, ◌⊎◌, inl, inr}
use order_billing_system.Base.Texts.{String}
use order_billing_system.Base.Lists.{List, [], ◌∷◌, ◌++◌}
use order_billing_system.Shared.Errors.{GoError, error_text}
use order_billing_system.Shared.Effects.{ignore, Result-cases}
use order_billing_system.Shared.Kafka.{Message}
use order_billing_system.Billing.Model.{DlqMessage, ProcessedEvent}
use order_billing_system.Billing.Environment.{
  Environment, Ledger, Documented, update, kafka_messages_failed, kafka_messages_consumed,
}
use order_billing_system.Billing.Repository.{save}
use order_billing_system.Billing.Handler.{dlq_send}
use order_billing_system.Billing.Handler.Dispatch.{dlq_send_outcome}
use order_billing_system.Billing.Consumer.{extract_header, event_key, give_up, complete}

-- The offset of `msg` was committed, or nothing has changed.
abbrev pub MaybeCommitted : Message → Ledger → Ledger → Type 0
MaybeCommitted msg before after =
    (after ≡ before) ⊎ (after ≡ record before { commits = before.commits ++ msg ∷ [] })

module _ (env : Environment) (doc : Documented env) where
  pub commit_outcome :
      (msg : Message) (w : env.World)
      → MaybeCommitted msg (doc.ledger w) (doc.ledger (ignore (env.commit_message msg) w).1)
  commit_outcome msg w = elim (Result-cases (env.commit_message msg w).0) [
    | inl (_, done) ↦ inr (doc.commit_message_done msg w done)
    | inr (e, failed) ↦ inl (doc.commit_message_failed msg w failed)
  ]

  commit_observed :
      (msg : Message) (w : env.World)
      → MaybeCommitted msg (doc.ledger w) (
          doc.ledger (
            env.observe
              (kafka_messages_consumed msg.topic (extract_header msg "event-type"))
              (ignore (env.commit_message msg) w).1))
  commit_observed msg w = rw doc.observe_keeps (commit_outcome msg w)

  -- A message that was given up has at most left dead letters and its offset.
  pub give_up_outcome :
      (msg : Message) (e : GoError) (w : env.World)
      → (letters : List String) × MaybeCommitted msg
          (record (doc.ledger w) { dead_letters = letters })
          (doc.ledger (give_up env msg e w).1)
  unfolding give_up
  give_up_outcome msg e w =
      let w1 = env.observe (kafka_messages_failed msg.topic (extract_header msg "event-type")) w in
      let (now, w2) = env.time_now w1 in
      let letter : DlqMessage = record {
        original_topic = msg.topic;
        event_type = extract_header msg "event-type";
        payload = msg.value;
        error = error_text e;
        failed_at = now.unix;
      } in
      let (letters, sent) = dlq_send_outcome env doc letter w2 in
      let same = doc.time_now_keeps w1 ∙ doc.observe_keeps _ w in
      let w3 = dlq_send env letter w2 in
      let rows : doc.ledger w3 ≡ record (doc.ledger w) { dead_letters = letters } =
        sent ∙ ap (λ (l : Ledger). record l { dead_letters = letters }) same in
      (letters, rw rows at (commit_outcome msg w3))

  -- A message that was handled is recorded and then perhaps committed, or it is not recorded and
  -- not committed.
  pub complete_outcome :
      (msg : Message) (w : env.World)
      → (doc.ledger (complete env msg w).1 ≡ doc.ledger w)
        ⊎ ((row : ProcessedEvent) × MaybeCommitted msg
              (record (doc.ledger w) {
                processed = update (doc.ledger w).processed (event_key msg) row;
              })
              (doc.ledger (complete env msg w).1))
  unfolding complete save
  complete_outcome msg w =
      let (now, w1) = env.time_now w in
      let row : ProcessedEvent = record {
        event_id = event_key msg;
        topic = msg.topic;
        processed_at = now.unix;
      } in
      let same = doc.time_now_keeps w in
      elim (Result-cases (env.create_processed row w1).0) [
        | inr (e, failed) ↦ inl (rw failed (doc.create_processed_failed row w1 failed ∙ same))
        | inl (_, done) ↦
            let w2 = (env.create_processed row w1).1 in
            let rows : doc.ledger w2 ≡ record (doc.ledger w) {
              processed = update (doc.ledger w).processed (event_key msg) row;
            } =
              doc.create_processed_done row w1 done
              ∙ ap (λ (l : Ledger). record l { processed = update l.processed (event_key msg) row })
                  same in
            inr (row, rw done (rw rows at (commit_observed msg w2)))
      ]
