-- ===== src/Shared/Currency.antt =====
-- `StaticConverter` of shared/currency/converter.go.
pub mod Error
use order_billing_system.Base.Tests.{
  ℕ, zero, suc, ◌-◌, ◌*◌, ◌/◌, ◌%◌, ◌^◌, ◌≡◌, refl, ◌==◌, ◌&&◌, ltb, leb, Option, none, some,
  if◌then◌else◌,
}
use order_billing_system.Base.Texts.{String, str_eq, sprint}
use order_billing_system.Base.Lists.{[], ◌∷◌}
use order_billing_system.Base.Integers.{ℤ, pos, negsuc}
use order_billing_system.Shared.Errors.{GoError, text}
use order_billing_system.Shared.Effects.{Result, ok, err}

-- The bits of `n` beyond 53, found within `fuel` halvings.
unfoldable pub excess_bits : ℕ → ℕ → ℕ
excess_bits zero n = 0
excess_bits (suc fuel) n =
    let rest = excess_bits fuel (n / 2) in if ltb n (2 ^ 53) then 0 else suc rest

-- `n` as the nearest number of 53 significant bits, the even one of two. The numbers met here are
-- below 2^128.
unfoldable pub round_53 : ℕ → ℕ
unfolding excess_bits
round_53 n =
    let unit = 2 ^ excess_bits 128 n in
    let q = n / unit in
    let twice = 2 * (n % unit) in
    if ltb unit twice
    then suc q * unit
    else if (twice == unit) && (q % 2 == 1)
    then suc q * unit
    else q * unit

-- A `float64` constant, mantissa / 2^scale.
pub record Rate : Type 0 where
  pub mantissa : ℕ
  pub scale : ℕ

-- `staticRates`: 1.00, 1.09 and 0.011, as the nearest `float64`.
abbrev pub static_rates : String → Option Rate
static_rates c =
    if str_eq c "USD"
    then some (record { mantissa = 1; scale = 0 })
    else if str_eq c "EUR"
    then some (record { mantissa = 4908923593833841; scale = 52 })
    else if str_eq c "RUB"
    then some (record { mantissa = 3170534137668829; scale = 58 })
    else none

-- The size of `float64(amount) * rate` for an amount of size `n`, without its fraction.
unfoldable pub scaled : Rate → ℕ → ℕ
unfolding round_53
scaled r n = round_53 (round_53 n * r.mantissa) / 2 ^ r.scale

-- `int64(float64(amount) * rate)`. The language leaves a float that no `int64` can hold to the
-- implementation: `beyond` is what it makes of one.
unfoldable pub convert : ℤ → Rate → ℤ → ℤ
unfolding scaled
convert beyond r (pos n) = let c = scaled r n in if ltb c (2 ^ 63) then pos c else beyond
convert beyond r (negsuc n) =
    let c = scaled r (suc n) in
    if c == 0 then pos 0 else if leb c (2 ^ 63) then negsuc (c - 1) else beyond

unfoldable pub to_usd : ℤ → ℤ → String → Result ℤ
unfolding convert
to_usd beyond amount from = if str_eq from "USD" then ok amount else elim (static_rates from) [
  | none ↦ err (text (sprint ("unsupported currency: " ∷ from ∷ [])))
  | some rate ↦ ok (convert beyond rate amount)
]

eur_test : to_usd (pos 0) (pos 10000) "EUR" ≡ ok (pos 10900)
unfolding to_usd
eur_test = refl

negative_test : to_usd (pos 0) (negsuc 99) "RUB" ≡ ok (negsuc 0)
unfolding to_usd
negative_test = refl

-- The product of 23000 and the constant rounds to a float just below 253.
truncation_test : to_usd (pos 0) (pos 23000) "RUB" ≡ ok (pos 252)
unfolding to_usd
truncation_test = refl
