-- ===== src/Billing/Retry.antt =====
-- billing_service/internal/kafka/reliability/retry.go.
pub mod Rounds
pub mod Attempts
pub mod Outcome
pub mod Tries
use order_billing_system.Base.Tests.{
  ℕ, zero, suc, ◌+◌, ◌*◌, ◌/◌, ◌^◌, Bool, true, false, ltb, if◌then◌else◌,
}
use order_billing_system.Shared.Errors.{GoError}
use order_billing_system.Shared.Effects.{Result, ok, err, Act, call, ◌>>=◌, ◌>>◌}
use order_billing_system.Billing.Environment.{Environment}

-- `time.Second`, in nanoseconds.
abbrev pub second : ℕ
second = 1_000_000_000

-- `time.Duration(1<<uint(i)) * time.Second`, exact below 2^63 nanoseconds: for i < 33.
abbrev pub base_delay : ℕ → ℕ
base_delay i = 2 ^ i * second

module _ (env : Environment) where
  -- The `select` after a failed attempt that is not the last.
  unfoldable pub back_off : ℕ → Act env.World (Unit {0})
  back_off i = do
    jitter ← call (env.random_below (base_delay i / 5))
    env.wait (base_delay i + jitter)

  -- The loop with `left` rounds to go, from round `i` on; `last` is the variable `err`.
  unfoldable pub retry_from :
      ℕ → ℕ → ℕ → Act env.World (Unit {0}) → Result (Unit {0}) → Act env.World (Unit {0})
  retry_from attempts zero i fn last w = (last, w)
  retry_from attempts (suc left) i fn last w = elim (fn w).0 [
    | ok _ ↦ (ok tt, (fn w).1)
    | err e ↦ elim (ltb (i + 1) attempts) [
      | false ↦ retry_from attempts left (i + 1) fn (err e) (fn w).1
      | true ↦ elim (back_off i (fn w).1).0 [
        | err done ↦ (err done, (back_off i (fn w).1).1)
        | ok _ ↦ retry_from attempts left (i + 1) fn (err e) (back_off i (fn w).1).1
      ]
    ]
  ]

  unfoldable pub retry : ℕ → Act env.World (Unit {0}) → Act env.World (Unit {0})
  unfolding retry_from
  retry attempts fn = retry_from attempts attempts 0 fn (ok tt)
