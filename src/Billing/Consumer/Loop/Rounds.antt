-- ===== src/Billing/Consumer/Loop/Rounds.antt =====
-- What the rounds of `Start` do to the invoices.
use order_billing_system.Base.Tests.{
  ℕ, zero, suc, ◌≡◌, ◌∙◌, Bool, true, false, Option, if◌then◌else◌,
}
use mathlib.Core.Path.{subst}
use order_billing_system.Base.Texts.{String}
use order_billing_system.Shared.Effects.{Result, ok, err}
use order_billing_system.Shared.Goroutines.{Progress}
use order_billing_system.Shared.Kafka.{Message}
use order_billing_system.Billing.Model.{Invoice}
use order_billing_system.Billing.Environment.{Environment, Documented}
use order_billing_system.Billing.Handler.{Topics, order_handler}
use order_billing_system.Billing.Lifecycle.{Moves, stop, next}
use order_billing_system.Billing.Consumer.Effects.{process-Move}
use order_billing_system.Billing.Consumer.Loop.{Source, SourceDocumented, refused, fetched, start}

module _ (env : Environment) (doc : Documented env) (topics : Topics) (source : Source env)
    (docs : SourceDocumented env doc source) (k : String) where
  abbrev row : env.World → Option Invoice
  row w = (doc.ledger w).invoices k

  -- The steps of a round that keep the ledger.
  kept :
      (w w' : env.World) {end : Option Invoice}
      → doc.ledger w' ≡ doc.ledger w
      → Moves (row w') end
      → Moves (row w) end
  kept w w' {end} same = subst (λ l. Moves (l.invoices k) end) same

  abbrev Along : (env.World → Progress × env.World) → Type 0
  Along again = (w : env.World) → Moves (row w) (row (again w).1)

  stays_there : (w w' : env.World) → doc.ledger w' ≡ doc.ledger w → Moves (row w) (row w')
  stays_there w w' same = kept w w' same stop

  either :
      (b : Bool) (w : env.World) (x y : Progress × env.World)
      → Moves (row w) (row x.1)
      → Moves (row w) (row y.1)
      → Moves (row w) (row (if b then x else y).1)
  either true w x y one other = one
  either false w x y one other = other

  refused-Moves :
      (again : env.World → Progress × env.World) (w : env.World)
      → Along again
      → Moves (row w) (row (refused env source (order_handler env topics) again w).1)
  refused-Moves again w along =
      let w1 = (source.ctx_done w).1 in
      let w2 = (source.wait_second w1).1 in
      let first = docs.ctx_done_keeps w in
      let second = docs.wait_second_keeps w1 ∙ first in
      either (source.ctx_done w).0 w _ _ (stays_there w w1 first) (
        either (source.wait_second w1).0 w _ _ (stays_there w w2 second)
          (kept w w2 second (along w2)))

  fetched-Moves :
      (again : env.World → Progress × env.World) (r : Result Message) (w : env.World)
      → Along again
      → Moves (row w) (row (fetched env source (order_handler env topics) again r w).1)
  fetched-Moves again (ok msg) w along = next (process-Move env doc topics msg w k) (along _)
  fetched-Moves again (err e) w along = refused-Moves again w along

  -- However many rounds the loop of `Start` runs, whatever the reader hands out and whenever the
  -- context ends, the invoice of an order only moves along its statuses, while no other goroutine
  -- writes: it is issued PENDING, and only a PENDING one becomes PAID or CANCELLED.
  pub start-Moves :
      (n : ℕ) (w : env.World)
      → Moves
          ((doc.ledger w).invoices k)
          ((doc.ledger (start env source (order_handler env topics) n w).1).invoices k)
  unfolding start
  start-Moves zero w = stop
  start-Moves (suc n) w =
      let w1 = (source.ctx_done w).1 in
      let (r, w2) = source.fetch_message w1 in
      let first = docs.ctx_done_keeps w in
      either (source.ctx_done w).0 w _ _ (stays_there w w1 first) (
        kept w w2 (docs.fetch_message_keeps w1 ∙ first) (
          fetched-Moves (start env source (order_handler env topics) n) r w2
            (λ v. start-Moves n v)))
