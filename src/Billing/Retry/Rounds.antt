-- ===== src/Billing/Retry/Rounds.antt =====
-- One round of the loop of `Retry`, by how it ends.
use order_billing_system.Base.Tests.{ℕ, suc, ◌+◌, ◌≡◌, true, false, ltb}
use order_billing_system.Shared.Errors.{GoError}
use order_billing_system.Shared.Effects.{Result, ok, err, Act}
use order_billing_system.Billing.Environment.{Environment}
use order_billing_system.Billing.Retry.{back_off, retry_from}

module _ (env : Environment) (fn : Act env.World (Unit {0})) where
  pub round_done :
      (attempts left i : ℕ) (last : Result (Unit {0})) (w : env.World)
      → (fn w).0 ≡ ok tt
      → retry_from env attempts (suc left) i fn last w ≡ (ok tt, (fn w).1)
  unfolding retry_from
  round_done attempts left i last w done = rw (done, retry_from)

  pub round_final :
      (attempts left i : ℕ) (last : Result (Unit {0})) (w : env.World) {e : GoError}
      → (fn w).0 ≡ err e
      → ltb (i + 1) attempts ≡ false
      → retry_from env attempts (suc left) i fn last w
        ≡ retry_from env attempts left (i + 1) fn (err e) (fn w).1
  unfolding retry_from
  round_final attempts left i last w failed final = rw (failed, final, retry_from)

  pub round_stopped :
      (attempts left i : ℕ) (last : Result (Unit {0})) (w : env.World) {e x : GoError}
      → (fn w).0 ≡ err e
      → ltb (i + 1) attempts ≡ true
      → (back_off env i (fn w).1).0 ≡ err x
      → retry_from env attempts (suc left) i fn last w ≡ (err x, (back_off env i (fn w).1).1)
  unfolding retry_from
  round_stopped attempts left i last w failed again stopped =
      rw (failed, again, stopped, retry_from)

  pub round_again :
      (attempts left i : ℕ) (last : Result (Unit {0})) (w : env.World) {e : GoError}
      → (fn w).0 ≡ err e
      → ltb (i + 1) attempts ≡ true
      → (back_off env i (fn w).1).0 ≡ ok tt
      → retry_from env attempts (suc left) i fn last w
        ≡ retry_from env attempts left (i + 1) fn (err e) (back_off env i (fn w).1).1
  unfolding retry_from
  round_again attempts left i last w failed again woken = rw (failed, again, woken, retry_from)
