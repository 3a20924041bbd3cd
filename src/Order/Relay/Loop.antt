-- ===== src/Order/Relay/Loop.antt =====
-- The loop of `Start` in order_service/internal/outbox/relay.go, by rounds.
use order_billing_system.Base.Tests.{ℕ, zero, suc, ◌≡◌, Bool, true, false, if◌then◌else◌}
use order_billing_system.Base.Integers.{ℤ}
use order_billing_system.Shared.Effects.{Act}
use order_billing_system.Shared.Goroutines.{Progress, stopped, goes_on}
use order_billing_system.Order.Relay.{RelayEnvironment, RelayDocumented, Grown, process_once}
use order_billing_system.Order.Relay.Marking.{Delivered, Grown-Delivered}
use order_billing_system.Order.Relay.Delivered.{process_once-Delivered}

-- What the loop waits for, and the writer that it closes.
pub record Ticker (env : RelayEnvironment) : Type 0 where
  -- The select on ctx.Done() and ticker.C: true if the context has ended.
  pub await_tick : env.World → Bool × env.World
  -- r.writer.Close()
  pub close_writer : Act env.World (Unit {0})

-- Meanwhile requests may insert rows, as during the calls of a cycle; neither call touches the rows
-- that there are, or what the broker holds.
pub record TickerDocumented (env : RelayEnvironment) (doc : RelayDocumented env)
    (ticker : Ticker env) : Type 0 where
  pub writer_open : env.World → Bool
  pub await_tick_keeps :
      (w : env.World) → Grown (doc.channel w) (doc.channel (ticker.await_tick w).1)
  pub close_writer_keeps :
      (w : env.World) → Grown (doc.channel w) (doc.channel (ticker.close_writer w).1)
  pub close_writer_closes : (w : env.World) → writer_open (ticker.close_writer w).1 ≡ false

module _ (env : RelayEnvironment) (ticker : Ticker env) where
  -- `Start`, for at most `n` rounds. Errors of a cycle and of `Close` are logged only.
  unfoldable pub start : ℤ → ℕ → env.World → Progress × env.World
  start size zero w = (goes_on, w)
  start size (suc n) w =
      let again = start size n in
      let (done, w1) = ticker.await_tick w in
      if done then (stopped, (ticker.close_writer w1).1) else again (process_once env size w1).1

module _ (env : RelayEnvironment) (doc : RelayDocumented env) (ticker : Ticker env)
    (docs : TickerDocumented env doc ticker) where
  -- Sent rows have been written, and a loop that has returned has closed its writer.
  abbrev pub Ended : Progress × env.World → Type 0
  Ended (progress, w) =
      Delivered (doc.channel w) × (progress ≡ stopped → docs.writer_open w ≡ false)

  Ended-if :
      (b : Bool) (x y : Progress × env.World) → Ended x → Ended y → Ended (if b then x else y)
  Ended-if true x y one other = one
  Ended-if false x y one other = other

  -- However many rounds the relay runs, whenever the context ends, and whatever fails, a row of the
  -- outbox is marked as sent only if a message of it was written, provided that this was so before;
  -- and when the loop has returned, its writer is closed. All the while requests may insert PENDING rows
  -- under new ids; no other relay runs.
  pub start-Delivered :
      (size : ℤ) (n : ℕ) (w : env.World)
      → Delivered (doc.channel w)
      → Ended (start env ticker size n w)
  unfolding start
  start-Delivered size zero w delivered = (delivered, λ e. absurd (cc))
  start-Delivered size (suc n) w delivered =
      let w1 = (ticker.await_tick w).1 in
      let first = docs.await_tick_keeps w in
      Ended-if (ticker.await_tick w).0 (stopped, (ticker.close_writer w1).1)
        (start env ticker size n (process_once env size w1).1)
        (
          Grown-Delivered (docs.close_writer_keeps w1) (Grown-Delivered first delivered),
          λ _. docs.close_writer_closes w1,
        )
        (start-Delivered size n (process_once env size w1).1
          (process_once-Delivered env doc size w1 (Grown-Delivered first delivered)))
