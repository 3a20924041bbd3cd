-- ===== src/Billing/Retry/Tries.antt =====
-- The calls and the pauses of `Retry`, one after the other.
use order_billing_system.Base.Tests.{
  ℕ, zero, suc, ◌+◌, ◌*◌, ◌/◌, ◌≤◌, ◌<◌, ◌≡◌, inl, inr, true, false, ltb, arith,
}
use order_billing_system.Shared.Errors.{GoError}
use order_billing_system.Shared.Effects.{Result, ok, err, Act, Result-cases}
use order_billing_system.Billing.Environment.{Environment, Documented}
use order_billing_system.Billing.Retry.{base_delay, back_off, retry_from, retry}
use order_billing_system.Billing.Retry.Rounds.{round_done, round_final, round_stopped, round_again}
use order_billing_system.Billing.Retry.Attempts.{back_off_delay}

-- A pause of `d` after the failed attempt `i`: at least 2^i seconds and less than a fifth more.
abbrev pub IsPause : ℕ → ℕ → Type 0
IsPause i d = (base_delay i ≤ d) × (5 * d < 6 * base_delay i)

-- What ends a pause, which follows the draw of its random part.
abbrev pub pause : (env : Environment) → ℕ → ℕ → Act env.World (Unit {0})
pause env i d w = env.wait d (env.random_below (base_delay i / 5) w).1

-- The course of a retry from attempt `i` on, to its result and its last world: an attempt succeeds,
-- the last one fails, the context ends a pause, or a pause is over and the next attempt follows.
pub data Tries (env : Environment) (attempts : ℕ) (fn : Act env.World (Unit {0}))
    : ℕ → env.World → Result (Unit {0}) × env.World → Type 0 where
  succeeded :
      (i : ℕ) (w : env.World) → (fn w).0 ≡ ok tt → Tries env attempts fn i w (ok tt, (fn w).1)
  failed_last :
      (i : ℕ) (w : env.World) (e : GoError)
      → i + 1 ≡ attempts
      → (fn w).0 ≡ err e
      → Tries env attempts fn i w (err e, (fn w).1)
  cut_short :
      (i d : ℕ) (w : env.World) (e x : GoError)
      → i + 1 < attempts
      → IsPause i d
      → (fn w).0 ≡ err e
      → (pause env i d (fn w).1).0 ≡ err x
      → Tries env attempts fn i w (err x, (pause env i d (fn w).1).1)
  tried_again :
      (i d : ℕ) (w : env.World) (e : GoError) (end : Result (Unit {0}) × env.World)
      → i + 1 < attempts
      → IsPause i d
      → (fn w).0 ≡ err e
      → (pause env i d (fn w).1).0 ≡ ok tt
      → Tries env attempts fn (i + 1) (pause env i d (fn w).1).1 end
      → Tries env attempts fn i w end

module _ (env : Environment) (doc : Documented env) (fn : Act env.World (Unit {0})) where
  retry_from-Tries :
      (attempts left i : ℕ) (last : Result (Unit {0})) (w : env.World)
      → i + suc left ≡ attempts
      → Tries env attempts fn i w (retry_from env attempts (suc left) i fn last w)
  unfolding retry_from
  retry_from-Tries attempts zero i last w total = elim (Result-cases (fn w).0) [
    | inl (_, done) ↦ rw (round_done env fn attempts zero i last w done) (succeeded i w done)
    | inr (e, failed) ↦
        let final : ltb (i + 1) attempts ≡ false = ground (arith, total) in
        rw (round_final env fn attempts zero i last w failed final)
          (failed_last i w e (omega arith) failed)
  ]
  retry_from-Tries attempts (suc left) i last w total = elim (Result-cases (fn w).0) [
    | inl (_, done) ↦ rw (round_done env fn attempts (suc left) i last w done) (succeeded i w done)
    | inr (e, failed) ↦
        let more : i + 1 < attempts = omega arith in
        let again : ltb (i + 1) attempts ≡ true = ground (arith, more) in
        let (d, low, high, paused) = back_off_delay env doc i (fn w).1 in
        elim (Result-cases (pause env i d (fn w).1).0) [
          | inr (x, stopped) ↦
              let ended : (back_off env i (fn w).1).0 ≡ err x = rw paused stopped in
              rw (round_stopped env fn attempts (suc left) i last w failed again ended, paused)
                (cut_short i d w e x more (low, high) failed stopped)
          | inl (_, woken) ↦
              let over : (back_off env i (fn w).1).0 ≡ ok tt = rw paused woken in
              let rest =
                retry_from-Tries attempts left (i + 1) (err e) (pause env i d (fn w).1).1
                  (omega arith) in
              rw (round_again env fn attempts (suc left) i last w failed again over, paused)
                (tried_again i d w e _ more (low, high) failed woken rest)
        ]
  ]

  -- A retry that is allowed at least one attempt and at most 34, so that no pause exceeds an int64, calls
  -- its function at once, and then again after each failed call but that of the last attempt, with a
  -- pause of at least 2^i seconds and less than a fifth more after attempt i, counted from 0. It returns nil after the first call that returned nil, the
  -- error of the last attempt when all have failed, and the error of the context when that has ended a
  -- pause.
  pub retry-Tries :
      (attempts : ℕ) (w : env.World)
      → 0 < attempts
      → attempts ≤ 34
      → Tries env attempts fn 0 w (retry env attempts fn w)
  unfolding retry
  retry-Tries zero w some_left few = absurd (omega arith)
  retry-Tries (suc left) w some_left few =
      retry_from-Tries (suc left) left 0 (ok tt) w (omega arith)
