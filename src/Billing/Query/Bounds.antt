-- ===== src/Billing/Query/Bounds.antt =====
-- The page sizes that `List` asks the database for.
use order_billing_system.Base.Tests.{ℕ, ◌≤◌, ◌≡◌, ap, arith, ◌==◌, ltb, if◌then◌else◌}
use order_billing_system.Base.Integers.{ℤ, pos, negsuc, pos_part}
use order_billing_system.Billing.Query.{list_limit}

-- The page size of a limit that is not negative.
abbrev page : ℕ → ℕ
page n = if n == 0 then 20 else if ltb 100 n then 100 else n

page_lem : (n : ℕ) → list_limit (pos n) ≡ pos (page n)
unfolding list_limit
page_lem n = ground arith

negative_lem : (n : ℕ) → list_limit (negsuc n) ≡ pos 20
unfolding list_limit
negative_lem n = ground arith

-- Whatever limit is asked for, the database is asked for one from 1 to 100; a limit in that range is
-- not changed.
pub list_limit_bounds :
    (limit : ℤ)
    → (n : ℕ) × (list_limit limit ≡ pos n)
      × (1 ≤ n)
      × (n ≤ 100)
      × ((m : ℕ) → limit ≡ pos m → 1 ≤ m → m ≤ 100 → n ≡ m)
list_limit_bounds (pos k) = (
  page k,
  page_lem k,
  ground arith,
  ground arith,
  λ m same some_m few. let here : k ≡ m = ap pos_part same in ground arith,
)
list_limit_bounds (negsuc k) =
    (20, negative_lem k, omega arith, omega arith, λ m same some_m few. cc)
