-- ===== src/Shared/Currency/Error.antt =====
-- How far `ToUSD` is from the exact product.
use order_billing_system.Base.Tests.{
  ap, ℕ, zero, suc, ◌+◌, ◌*◌, ◌/◌, ◌%◌, ◌^◌, ◌≤◌, ◌<◌, ◌≡◌, refl, ◌⊎◌, inl, inr, ltb, arith, true,
  false, ◌==◌, ◌&&◌, Bool-cases, if◌then◌else◌,
}
use native.Mathlib.Nat.{mod-add-div', mod-lt, pow-suc}
use order_billing_system.Base.Integers.{ℤ, pos}
use order_billing_system.Shared.Effects.{ok}
use order_billing_system.Shared.Currency.{Rate, excess_bits, round_53, scaled, convert, to_usd}

excess_lem : (fuel n : ℕ) → (excess_bits fuel n ≡ 0) ⊎ (2 ^ 52 * 2 ^ excess_bits fuel n ≤ n)
unfolding excess_bits
excess_lem zero n = inl refl
excess_lem (suc fuel) n = elim (Bool-cases (ltb n (2 ^ 53))) [
  | inl small ↦ inl (rw small refl)
  | inr large ↦ inr (rw large (step (excess_lem fuel (n / 2)) large))
]
  where
    step :
        (excess_bits fuel (n / 2) ≡ 0) ⊎ (2 ^ 52 * 2 ^ excess_bits fuel (n / 2) ≤ n / 2)
        → ltb n (2 ^ 53) ≡ false
        → 2 ^ 52 * 2 ^ suc (excess_bits fuel (n / 2)) ≤ n
    step (inl none) large = rw none (ground arith)
    step (inr some_bits) large = simp pow-suc (ground (arith, some_bits))

-- Rounding to a multiple of `unit` is off by at most half of it.
nearest_lem :
    (n unit : ℕ)
    → 0 < unit
    → let q = n / unit in
      let twice = 2 * (n % unit) in
      let r =
        (if ltb unit twice
          then suc q * unit
          else if (twice == unit) && (q % 2 == 1)
          then suc q * unit
          else q * unit) in
      (2 * r ≤ 2 * n + unit) × (2 * n ≤ 2 * r + unit)
nearest_lem n unit some_unit = ground (arith, mod-add-div' n unit, mod-lt n some_unit)

unit_positive : (e : ℕ) → 0 < 2 ^ e
unit_positive zero = omega arith
unit_positive (suc e) = simp pow-suc (omega (arith, unit_positive e))

-- The relative error of rounding to 53 bits is at most 2^-53.
round_53_error :
    (n : ℕ) → (2 ^ 53 * round_53 n ≤ 2 ^ 53 * n + n) × (2 ^ 53 * n ≤ 2 ^ 53 * round_53 n + n)
unfolding round_53
round_53_error n =
    let e = excess_bits 128 n in
    let (above, beneath) = nearest_lem n (2 ^ e) (unit_positive e) in
    elim (excess_lem 128 n) [
      | inl none ↦
          let one : 2 ^ e ≡ 1 = ap (λ k. 2 ^ k) none in
          (omega (arith, above, beneath, one), omega (arith, above, beneath, one))
      | inr some_bits ↦
          (omega (arith, above, beneath, some_bits), omega (arith, above, beneath, some_bits))
    ]

-- A number of 53 bits is kept.
round_53_id : (n : ℕ) → n < 2 ^ 53 → round_53 n ≡ n
round_53_id n small = omega (arith, round_53_error n)

abbrev rub : Rate
rub = record { mantissa = 3170534137668829; scale = 58 }

abbrev eur : Rate
eur = record { mantissa = 4908923593833841; scale = 52 }

-- Amounts of up to a trillion minor units.
rub-scaled :
    (n : ℕ)
    → n ≤ 1000000000000
    → (1000 * scaled rub n ≤ 11 * n) × (11 * n ≤ 1000 * scaled rub n + 1000)
unfolding scaled
rub-scaled n small =
    let exact = round_53_id n (omega arith) in
    let error = round_53_error (n * 3170534137668829) in
    rw exact (omega (arith, error), omega (arith, error))

eur-scaled :
    (n : ℕ)
    → n ≤ 1000000000000
    → (100 * scaled eur n ≤ 109 * n) × (109 * n ≤ 100 * scaled eur n + 100)
unfolding scaled
eur-scaled n small =
    let exact = round_53_id n (omega arith) in
    let error = round_53_error (n * 4908923593833841) in
    rw exact (omega (arith, error), omega (arith, error))

ltb-true : (a b : ℕ) → a < b → ltb a b ≡ true
ltb-true a b less = ground arith

-- A size that an `int64` holds is converted as it is.
convert_small :
    (beyond : ℤ) (r : Rate) (n : ℕ)
    → scaled r n < 2 ^ 63
    → convert beyond r (pos n) ≡ pos (scaled r n)
unfolding convert
convert_small beyond r n small = rw (ltb-true (scaled r n) (2 ^ 63) small) refl

-- An amount of at most a trillion minor units of EUR or RUB is converted to the cents of the exact
-- product with 1.09 or 0.011, rounded down, or to one cent less where the product is whole.
pub to_usd_within_a_cent :
    (beyond : ℤ) (n : ℕ)
    → n ≤ 1000000000000
    → ((c : ℕ) × (to_usd beyond (pos n) "EUR" ≡ ok (pos c))
        × (100 * c ≤ 109 * n)
        × (109 * n ≤ 100 * c + 100))
      × ((c : ℕ) × (to_usd beyond (pos n) "RUB" ≡ ok (pos c))
          × (1000 * c ≤ 11 * n)
          × (11 * n ≤ 1000 * c + 1000))
unfolding to_usd
to_usd_within_a_cent beyond n small =
    let (eur_above, eur_beneath) = eur-scaled n small in
    let (rub_above, rub_beneath) = rub-scaled n small in
    (
      (
        scaled eur n,
        ap ok (convert_small beyond eur n (omega (arith, eur_above))),
        eur_above,
        eur_beneath,
      ),
      (
        scaled rub n,
        ap ok (convert_small beyond rub n (omega (arith, rub_above))),
        rub_above,
        rub_beneath,
      ),
    )
