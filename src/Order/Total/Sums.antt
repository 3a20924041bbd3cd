-- ===== src/Order/Total/Sums.antt =====
-- When `calcTotalUSD` returns a total, and which.
use order_billing_system.Base.Tests.{ℕ, ◌+◌, ◌*◌, ◌^◌, ◌<◌, ◌≡◌, refl, ◌∙◌, ap, inl, inr, arith}
use order_billing_system.Base.Texts.{String}
use order_billing_system.Base.Lists.{List, [], ◌∷◌, All}
use order_billing_system.Base.Integers.{ℤ, pos, pos_part, ◌+ℤ◌, ◌*ℤ◌, wrap64, wrap64_id}
use order_billing_system.Shared.Effects.{ok}
use order_billing_system.Shared.Currency.{to_usd}
use order_billing_system.Order.Model.{OrderItem}
use order_billing_system.Order.Validation.{validate_items}
use order_billing_system.Order.Validation.Valid.{Allowed, IsValid, validate_items_iff}
use order_billing_system.Order.Total.{line_amount, calc_from, calc_total_usd}

-- The static converter knows every currency that is allowed.
to_usd-Allowed :
    (beyond amount : ℤ) (c : String) → Allowed c → (usd : ℤ) × (to_usd beyond amount c ≡ ok usd)
unfolding to_usd
to_usd-Allowed beyond amount c (inl usd) = rw usd (_, refl)
to_usd-Allowed beyond amount c (inr (inl eur)) = rw eur (_, refl)
to_usd-Allowed beyond amount c (inr (inr rub)) = rw rub (_, refl)

calc_from-Allowed :
    (beyond : ℤ) (i : ℕ) (total : ℤ) (items : List OrderItem)
    → All IsValid items
    → (sum : ℤ) × (calc_from (to_usd beyond) i total items ≡ ok sum)
unfolding calc_from
calc_from-Allowed beyond i total [] valid = (total, refl)
calc_from-Allowed beyond i total (item ∷ items) (v, vs) =
    let (usd, converted) =
      to_usd-Allowed beyond (line_amount item) item.price.currency v.in_currency in
    let (sum, rest) = calc_from-Allowed beyond (i + 1) (wrap64 (total +ℤ usd)) items vs in
    (sum, rw (converted, calc_from) rest)

-- Items that pass validation always have a total with the static converter.
calc_total_usd_validated :
    (beyond : ℤ) (items : List OrderItem)
    → validate_items items ≡ ok tt
    → (sum : ℤ) × (calc_total_usd items (to_usd beyond) ≡ ok sum)
unfolding calc_total_usd
calc_total_usd_validated beyond items valid =
    calc_from-Allowed beyond 0 (pos 0) items ((validate_items_iff items).0 valid).1

-- The total of items in USD, on numbers without bounds.
abbrev pub usd_sum : List OrderItem → ℕ
usd_sum [] = 0
usd_sum (item ∷ items) = pos_part item.price.amount * pos_part item.quantity + usd_sum items

abbrev pub InUsd : OrderItem → Type 0
InUsd item = item.price.currency ≡ "USD"

mul_pos : (p q : ℕ) → pos p *ℤ pos q ≡ pos (p * q)
unfolding ◌*ℤ◌
mul_pos p q = ground arith

add_pos : (p q : ℕ) → pos p +ℤ pos q ≡ pos (p + q)
unfolding ◌+ℤ◌
add_pos p q = ground arith

line_lem :
    (item : OrderItem)
    → IsValid item
    → pos_part item.price.amount * pos_part item.quantity < 2 ^ 63
    → line_amount item ≡ pos (pos_part item.price.amount * pos_part item.quantity)
line_lem item v small =
    let (p, price, _) = v.priced in
    let (q, quantity, _) = v.counted in
    let bound : p * q < 2 ^ 63 = rw (price, quantity) at small in
    rw (price, quantity, mul_pos p q) (wrap64_id (pos (p * q)) bound)

to_usd_self : (beyond amount : ℤ) → to_usd beyond amount "USD" ≡ ok amount
unfolding to_usd
to_usd_self beyond amount = refl

calc_from-usd :
    (beyond : ℤ) (i t : ℕ) (items : List OrderItem)
    → All IsValid items
    → All InUsd items
    → t + usd_sum items < 2 ^ 63
    → calc_from (to_usd beyond) i (pos t) items ≡ ok (pos (t + usd_sum items))
unfolding calc_from
calc_from-usd beyond i t [] valid in_usd small = ap (λ n. ok (pos n)) (omega arith)
calc_from-usd beyond i t (item ∷ items) (v, vs) (usd, usds) small =
    let n = pos_part item.price.amount * pos_part item.quantity in
    let line = line_lem item v (omega arith) in
    let added : wrap64 (pos t +ℤ pos n) ≡ pos (t + n) =
      rw (add_pos t n) (wrap64_id (pos (t + n)) (omega arith)) in
    let converted : to_usd beyond (line_amount item) item.price.currency ≡ ok (pos n) =
      rw (line, usd) (to_usd_self beyond (pos n)) in
    rw (converted, calc_from, added)
      (calc_from-usd beyond (i + 1) (t + n) items vs usds (omega arith)
        ∙ ap (λ k. ok (pos k)) (omega arith))

-- Validated items in USD are totalled exactly, as long as the exact total is below 2^63.
pub calc_total_usd_exact :
    (beyond : ℤ) (items : List OrderItem)
    → validate_items items ≡ ok tt
    → All InUsd items
    → usd_sum items < 2 ^ 63
    → calc_total_usd items (to_usd beyond) ≡ ok (pos (usd_sum items))
unfolding calc_total_usd
calc_total_usd_exact beyond items valid in_usd small =
    calc_from-usd beyond 0 0 items ((validate_items_iff items).0 valid).1 in_usd (omega arith)
    ∙ ap (λ k. ok (pos k)) (omega arith)
