-- ===== src/Billing/Consumer/Returns.antt =====
-- `processMessage` returns, and the loop of `Start` goes on, whatever a message and its handler do.
use order_billing_system.Base.Tests.{◌≡◌, refl, ◌∙◌, inl, inr}
use order_billing_system.Base.Lists.{List, [], ◌∷◌, ◌++◌}
use order_billing_system.Shared.Errors.{GoError}
use order_billing_system.Shared.Effects.{ok, Result-cases}
use order_billing_system.Shared.Effects.Contracts.{bind_ok}
use order_billing_system.Shared.Kafka.{Message, Handler, safe_handle}
use order_billing_system.Billing.Environment.{Environment}
use order_billing_system.Billing.Retry.{retry}
use order_billing_system.Billing.Repository.{save}
use order_billing_system.Billing.Consumer.{
  event_key, commit_saved, complete, give_up, conclude, attempt_message, process_message, consume,
}
use order_billing_system.Billing.Consumer.Commits.{attempted, skipped}

module _ (env : Environment) (handler : Handler env.World) where
  complete_returns : (msg : Message) (w : env.World) → (complete env msg w).0 ≡ ok tt
  unfolding complete
  complete_returns msg w = elim (Result-cases (save env (event_key msg) msg.topic w).0) [
    | inl (_, done) ↦ rw (done, commit_saved) refl
    | inr (e, failed) ↦ rw (failed, commit_saved) refl
  ]

  give_up_returns : (msg : Message) (e : GoError) (w : env.World) → (give_up env msg e w).0 ≡ ok tt
  unfolding give_up
  give_up_returns msg e w = refl

  attempt_returns : (msg : Message) (w : env.World) → (attempt_message env handler msg w).0 ≡ ok tt
  unfolding attempt_message
  attempt_returns msg w = elim (Result-cases (retry env 3 (safe_handle handler msg) w).0) [
    | inl (_, done) ↦ rw (done, conclude) (complete_returns msg _)
    | inr (e, failed) ↦ rw (failed, conclude) (give_up_returns msg e _)
  ]

  process_returns : (msg : Message) (w : env.World) → (process_message env handler msg w).0 ≡ ok tt
  process_returns msg w = elim (Result-cases (env.first_processed (event_key msg) w).0) [
    | inl (row, found) ↦ rw (skipped env handler msg w found) refl
    | inr (e, missing) ↦ rw (attempted env handler msg w missing) (attempt_returns msg _)
  ]

  pub consume_next :
      (msg : Message) (messages : List Message) (w : env.World)
      → consume env handler (msg ∷ messages) w
        ≡ consume env handler messages (process_message env handler msg w).1
  unfolding consume
  consume_next msg messages w =
      bind_ok (process_message env handler msg) (λ _. consume env handler messages) w
        (process_returns msg w)

  -- The loop takes the messages one after the other and is stopped by none of them, whether its
  -- handler returns nil or an error or panics: consuming two batches is consuming the second in the
  -- world that the first has left.
  consume_append :
      (first second : List Message) (w : env.World)
      → consume env handler (first ++ second) w
        ≡ consume env handler second (consume env handler first w).1
  unfolding consume
  consume_append [] second w = refl
  consume_append (msg ∷ first) second w =
      consume_next msg (first ++ second) w
      ∙ consume_append first second (process_message env handler msg w).1
      ∙ rw (consume_next msg first w) refl
