-- ===== src/Billing/Retry/Attempts.antt =====
-- How often `Retry` calls its function, and how long it waits between two calls.
use order_billing_system.Base.Tests.{
  ℕ, zero, suc, ◌+◌, ◌*◌, ◌/◌, ◌^◌, ◌≤◌, ◌<◌, ◌≡◌, refl, inl, inr, ltb, arith, Bool-cases,
}
use native.Mathlib.Nat.{pow-suc}
use order_billing_system.Shared.Effects.{Result, ok, err, Act, Result-cases}
use order_billing_system.Billing.Environment.{Environment, Documented}
use order_billing_system.Billing.Retry.{base_delay, back_off, retry_from, retry}
use order_billing_system.Billing.Retry.Rounds.{round_done, round_final, round_stopped, round_again}

-- A measure of a world that waiting does not raise, and a call of `fn` raises by `c` at most.
pub record Costs (env : Environment) (fn : Act env.World (Unit {0})) (cost : env.World → ℕ) (c : ℕ)
    : Type 0 where
  pub of_call : (w : env.World) → cost (fn w).1 ≤ cost w + c
  pub of_wait : (d : ℕ) (w : env.World) → cost (env.wait d w).1 ≤ cost w
  pub of_random : (n : ℕ) (w : env.World) → cost (env.random_below n w).1 ≤ cost w

module _ (env : Environment) (fn : Act env.World (Unit {0})) where
  cost-back_off :
      {cost : env.World → ℕ} {c : ℕ}
      → Costs env fn cost c
      → (i : ℕ) (w : env.World) → cost (back_off env i w).1 ≤ cost w
  unfolding back_off
  cost-back_off h i w =
      let n = base_delay i / 5 in
      let jitter = env.random_below n w in
      omega (arith, h.of_random n w, h.of_wait (base_delay i + jitter.0) jitter.1)

  cost-retry_from :
      {cost : env.World → ℕ} {c : ℕ}
      → Costs env fn cost c
      → (attempts left i : ℕ) (last : Result (Unit {0})) (w : env.World)
      → cost (retry_from env attempts left i fn last w).1 ≤ cost w + left * c
  unfolding retry_from
  cost-retry_from h attempts zero i last w = omega arith
  cost-retry_from {cost} {c} h attempts (suc left) i last w = elim (Result-cases (fn w).0) [
    | inl (_, done) ↦
        rw (round_done env fn attempts left i last w done) (grind (arith, h.of_call w))
    | inr (e, failed) ↦ elim (Bool-cases (ltb (i + 1) attempts)) [
      | inr final ↦
          rw (round_final env fn attempts left i last w failed final)
            (grind (arith, h.of_call w, cost-retry_from h attempts left (i + 1) (err e) (fn w).1))
      | inl again ↦
          let w1 = (back_off env i (fn w).1).1 in
          elim (Result-cases (back_off env i (fn w).1).0) [
            | inr (x, stopped) ↦
                rw (round_stopped env fn attempts left i last w failed again stopped)
                  (grind (arith, h.of_call w, cost-back_off h i (fn w).1))
            | inl (_, woken) ↦ rw (round_again env fn attempts left i last w failed again woken) (
                grind (
                  arith,
                  h.of_call w,
                  cost-back_off h i (fn w).1,
                  cost-retry_from h attempts left (i + 1) (err e) w1,
                ))
          ]
    ]
  ]

  -- A retry costs at most what `attempts` calls of its function cost: it makes no more calls.
  cost-retry :
      {cost : env.World → ℕ} {c : ℕ}
      → Costs env fn cost c
      → (attempts : ℕ) (w : env.World) → cost (retry env attempts fn w).1 ≤ cost w + attempts * c
  unfolding retry
  cost-retry h attempts w = cost-retry_from h attempts attempts 0 (ok tt) w

power_positive : (i : ℕ) → 0 < 2 ^ i
power_positive zero = omega arith
power_positive (suc i) = simp pow-suc (omega (arith, power_positive i))

fifth_positive : (i : ℕ) → 0 < base_delay i / 5
fifth_positive i = omega (arith, power_positive i)

-- The delay before the next attempt: at least 2^i seconds and less than a fifth more.
pub back_off_delay :
    (env : Environment) (doc : Documented env) (i : ℕ) (w : env.World)
    → (d : ℕ) × (base_delay i ≤ d)
      × (5 * d < 6 * base_delay i)
      × (back_off env i w ≡ env.wait d (env.random_below (base_delay i / 5) w).1)
unfolding back_off
back_off_delay env doc i w =
    let n = base_delay i / 5 in
    let positive : 0 < n = fifth_positive i in
    let short = doc.random_bound n w positive in
    (base_delay i + (env.random_below n w).0, omega arith, omega (arith, short), refl)
