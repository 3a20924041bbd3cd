-- ===== src/Billing/Retry/Outcome.antt =====
-- Where the result of `Retry` comes from.
use order_billing_system.Base.Tests.{
  ℕ, zero, suc, ◌+◌, ◌/◌, ◌<◌, ◌≡◌, ◌≢◌, refl, inl, inr, ltb, arith, Bool-cases,
}
use order_billing_system.Shared.Errors.{GoError}
use order_billing_system.Shared.Effects.{Result, ok, err, Act, Result-cases}
use order_billing_system.Shared.Effects.Contracts.{Ends, Ends-ok, Ends-err}
use order_billing_system.Billing.Environment.{Environment}
use order_billing_system.Billing.Retry.{base_delay, back_off, retry_from, retry}
use order_billing_system.Billing.Retry.Rounds.{round_done, round_final, round_stopped, round_again}

-- What neither a failed call of `fn` nor waiting changes.
pub record Stable (env : Environment) (fn : Act env.World (Unit {0})) (P : env.World → Type 0)
    : Type 0 where
  pub after_failure : (w : env.World) (e : GoError) → P w → (fn w).0 ≡ err e → P (fn w).1
  pub after_wait : (d : ℕ) (w : env.World) → P w → P (env.wait d w).1
  pub after_random : (n : ℕ) (w : env.World) → P w → P (env.random_below n w).1

module _ (env : Environment) (fn : Act env.World (Unit {0})) where
  -- The last call of `fn` succeeded, in a world where `P` holds.
  abbrev pub Succeeded : (env.World → Type 0) → Unit {0} → env.World → Type 0
  Succeeded P _ w' = (v : env.World) × P v × ((fn v).0 ≡ ok tt) × (w' ≡ (fn v).1)

  back_off-Stable :
      {P : env.World → Type 0}
      → Stable env fn P
      → (i : ℕ) (w : env.World) → P w
      → P (back_off env i w).1
  unfolding back_off
  back_off-Stable h i w p = let n = base_delay i / 5 in h.after_wait _ _ (h.after_random n w p)

  ended_outcome :
      {P : env.World → Type 0} (attempts i : ℕ) (last : Result (Unit {0})) (w : env.World)
      → last ≢ ok tt
      → P w
      → Ends (Succeeded P) (λ _. P) (retry_from env attempts 0 i fn last w)
  unfolding retry_from
  ended_outcome attempts i last w lost p = record {
    on_ok = λ u e. absurd (lost e);
    on_err = λ x e. p;
  }

  retry_from_outcome :
      {P : env.World → Type 0}
      → Stable env fn P
      → (attempts left i : ℕ) (last : Result (Unit {0})) (w : env.World) → (left ≡ 0 → last ≢ ok tt)
      → P w
      → Ends (Succeeded P) (λ _. P) (retry_from env attempts left i fn last w)
  retry_from_outcome h attempts zero i last w lost p = ended_outcome attempts i last w (lost refl) p
  retry_from_outcome h attempts (suc left) i last w lost p = elim (Result-cases (fn w).0) [
    | inl (_, done) ↦
        rw (round_done env fn attempts left i last w done) (Ends-ok tt _ (w, p, done, refl))
    | inr (e, failed) ↦
        let p1 = h.after_failure w e p failed in
        elim (Bool-cases (ltb (i + 1) attempts)) [
          | inr final ↦
              rw (round_final env fn attempts left i last w failed final)
                (retry_from_outcome h attempts left (i + 1) (err e) (fn w).1 (λ _ same. cc) p1)
          | inl again ↦
              let p2 = back_off-Stable h i (fn w).1 p1 in
              elim (Result-cases (back_off env i (fn w).1).0) [
                | inr (x, stopped) ↦
                    rw (round_stopped env fn attempts left i last w failed again stopped)
                      (Ends-err x _ p2)
                | inl (_, woken) ↦
                    rw (round_again env fn attempts left i last w failed again woken) (
                      retry_from_outcome h attempts left (i + 1) (err e) (back_off env i (fn w).1).1
                        (λ _ same. cc) p2)
              ]
        ]
  ]

  -- A retry that returns nil ends in a call of its function that returned nil, and all before that
  -- call was failed calls and waiting. One that returns an error was failed calls and waiting only.
  pub retry_outcome :
      {P : env.World → Type 0}
      → Stable env fn P
      → (attempts : ℕ) (w : env.World) → 0 < attempts
      → P w
      → Ends (Succeeded P) (λ _. P) (retry env attempts fn w)
  unfolding retry
  retry_outcome h attempts w some_left p =
      retry_from_outcome h attempts attempts 0 (ok tt) w (λ none_left. absurd (omega arith)) p
