-- ===== src/Billing/Consumer/Loop.antt =====
-- The loop of `Start` in billing_service/internal/kafka/consumer/consumer.go, by rounds.
pub mod Rounds
use order_billing_system.Base.Tests.{ℕ, zero, suc, ◌≡◌, Bool, true, false, if◌then◌else◌}
use order_billing_system.Shared.Effects.{Result, ok, err, Act}
use order_billing_system.Shared.Goroutines.{Progress, stopped, goes_on}
use order_billing_system.Shared.Kafka.{Message, Handler}
use order_billing_system.Billing.Environment.{Environment, Documented}
use order_billing_system.Billing.Consumer.{process_message}

-- What the loop asks of its context and of the reader.
pub record Source (env : Environment) : Type 0 where
  -- Whether the context has ended: the first select, and ctx.Err() != nil.
  pub ctx_done : env.World → Bool × env.World
  -- c.reader.FetchMessage(ctx)
  pub fetch_message : Act env.World Message
  -- The select on ctx.Done() and time.After(time.Second): true if the context ends first.
  pub wait_second : env.World → Bool × env.World

-- None of the three touches what the service has made durable, while no other goroutine writes.
pub record SourceDocumented (env : Environment) (doc : Documented env) (source : Source env)
    : Type 0 where
  pub ctx_done_keeps : (w : env.World) → doc.ledger (source.ctx_done w).1 ≡ doc.ledger w
  pub fetch_message_keeps : (w : env.World) → doc.ledger (source.fetch_message w).1 ≡ doc.ledger w
  pub wait_second_keeps : (w : env.World) → doc.ledger (source.wait_second w).1 ≡ doc.ledger w

module _ (env : Environment) (source : Source env) (handler : Handler env.World) where
  -- After a fetch that failed; `again` is the next round.
  abbrev pub refused : (env.World → Progress × env.World) → env.World → Progress × env.World
  refused again w =
      let (gone, w1) = source.ctx_done w in
      let (ended, w2) = source.wait_second w1 in
      if gone then (stopped, w1) else if ended then (stopped, w2) else again w2

  abbrev pub fetched :
      (env.World → Progress × env.World) → Result Message → env.World → Progress × env.World
  fetched again (ok msg) w = again (process_message env handler msg w).1
  fetched again (err e) w = refused again w

  abbrev pub round : (env.World → Progress × env.World) → env.World → Progress × env.World
  round again w =
      let (done, w1) = source.ctx_done w in
      let (r, w2) = source.fetch_message w1 in if done then (stopped, w1) else fetched again r w2

  -- `Start`, for at most `n` rounds.
  unfoldable pub start : ℕ → env.World → Progress × env.World
  start zero w = (goes_on, w)
  start (suc n) w = let again = start n in round again w
