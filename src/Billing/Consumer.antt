-- ===== src/Billing/Consumer.antt =====
-- billing_service/internal/kafka/consumer/consumer.go.
pub mod Steps
pub mod Commits
pub mod Returns
pub mod Redelivery
pub mod Loop
pub mod Effects
use order_billing_system.Base.Tests.{
  Bool, true, false, not, ◌&&◌, Option, none, some, if◌then◌else◌,
}
use order_billing_system.Base.Texts.{String, str_eq, sprint}
use order_billing_system.Base.Lists.{List, [], ◌∷◌}
use order_billing_system.Base.Decimal.{show_ℤ}
use order_billing_system.Shared.Errors.{GoError, error_text}
use order_billing_system.Shared.Effects.{
  Result, ok, err, Act, pure, call, attempt, reify, ignore, notify, ◌>>=◌, ◌>>◌,
}
use order_billing_system.Shared.Kafka.{Header, Message, Handler, safe_handle}
use order_billing_system.Billing.Environment.{
  Environment, kafka_messages_failed, kafka_messages_consumed,
}
use order_billing_system.Billing.Repository.{exists, save}
use order_billing_system.Billing.Handler.{dlq_send}
use order_billing_system.Billing.Retry.{retry}

-- The loop of `extractHeader`.
pub find_header : String → List Header → String
find_header key [] = ""
find_header key (h ∷ headers) = if str_eq h.key key then h.value else find_header key headers

pub extract_header : Message → String → String
unfolding find_header
extract_header msg key = find_header key msg.headers

-- The key under which `processMessage` records an event.
unfoldable pub event_key : Message → String
unfolding extract_header
event_key msg =
    let order_id = extract_header msg "order-id" in
    let event_type = extract_header msg "event-type" in
    if not (str_eq order_id "") && not (str_eq event_type "")
    then sprint (event_type ∷ "-" ∷ order_id ∷ [])
    else sprint (msg.topic ∷ "-" ∷ show_ℤ msg.partition ∷ "-" ∷ show_ℤ msg.offset ∷ [])

-- `exists` after the idempotency check: false when the check failed.
abbrev known : Option Bool → Bool
known none = false
known (some b) = b

module _ (env : Environment) where
  -- The branch of a message that failed on every attempt.
  unfoldable pub give_up : Message → GoError → Act env.World (Unit {0})
  unfolding extract_header
  give_up msg e = do
    notify (env.observe (kafka_messages_failed msg.topic (extract_header msg "event-type")))
    now ← call env.time_now
    notify (
        dlq_send env (record {
          original_topic = msg.topic;
          event_type = extract_header msg "event-type";
          payload = msg.value;
          error = error_text e;
          failed_at = now.unix;
        }))
    ignore (env.commit_message msg)

  commit_saved : Message → Option (Unit {0}) → Act env.World (Unit {0})
  unfolding extract_header
  commit_saved msg none = pure tt
  commit_saved msg (some _) = do
    ignore (env.commit_message msg)
    notify (env.observe (kafka_messages_consumed msg.topic (extract_header msg "event-type")))

  -- The branch of a message that was handled: it is recorded, and then committed.
  unfoldable pub complete : Message → Act env.World (Unit {0})
  unfolding commit_saved
  complete msg = do saved ← attempt (save env (event_key msg) msg.topic); commit_saved msg saved

  conclude : Message → Result (Unit {0}) → Act env.World (Unit {0})
  conclude msg (ok _) = complete msg
  conclude msg (err e) = give_up msg e

  -- What follows the idempotency check of an event that is not recorded.
  unfoldable pub attempt_message : Handler env.World → Message → Act env.World (Unit {0})
  unfolding conclude
  attempt_message handler msg = do
    result ← reify (retry env 3 (safe_handle handler msg))
    conclude msg result

  unfoldable pub process_message : Handler env.World → Message → Act env.World (Unit {0})
  process_message handler msg = do
    checked ← attempt (exists env (event_key msg))
    if known checked then ignore (env.commit_message msg) else attempt_message handler msg

  -- The loop of `Start` over the messages that were fetched, until the context ends it.
  unfoldable pub consume : Handler env.World → List Message → Act env.World (Unit {0})
  consume handler [] = pure tt
  consume handler (msg ∷ messages) = process_message handler msg >> consume handler messages
