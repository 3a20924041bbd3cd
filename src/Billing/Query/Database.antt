-- ===== src/Billing/Query/Database.antt =====
-- What the reading side relies on of gorm and PostgreSQL, while no other session writes.
use order_billing_system.Base.Tests.{◌≡◌, ◌≤◌, Bool, true, Option, none, some}
use order_billing_system.Base.Texts.{String, str_eq}
use order_billing_system.Base.Lists.{List, [], ◌∷◌, All, Any, length, select}
use order_billing_system.Base.Integers.{ℤ, pos, pos_part, ◌+ℤ◌}
use order_billing_system.Shared.Effects.{Result, ok}
use order_billing_system.Billing.Model.{Invoice}
use order_billing_system.Billing.Query.{QueryEnvironment}

-- `Where("status = ?")`, if a status is given.
abbrev pub matches : Option String → Invoice → Bool
matches none inv = true
matches (some status) inv = str_eq status inv.status

-- COUNT(*)
abbrev pub tally : Option String → List Invoice → ℤ
tally status rows = pos (length (select (matches status) rows))

-- COALESCE(SUM((amount->>'amount')::bigint), 0)
abbrev pub sum_amounts : List Invoice → ℤ
sum_amounts [] = pos 0
sum_amounts (inv ∷ rows) = inv.amount.amount +ℤ sum_amounts rows

pub record QueryDocumented (env : QueryEnvironment) : Type 1 where
  pub rows : env.World → List Invoice
  pub count_keeps : (status : Option String) (w : env.World) → rows (env.count status w).1 ≡ rows w
  pub count_done :
      (status : Option String) (w : env.World) {n : ℤ}
      → (env.count status w).0 ≡ ok n
      → n ≡ tally status (rows w)
  pub count_and_sum_keeps :
      (status : String) (w : env.World) → rows (env.count_and_sum status w).1 ≡ rows w
  pub count_and_sum_done :
      (status : String) (w : env.World) {found : ℤ × ℤ}
      → (env.count_and_sum status w).0 ≡ ok found
      → (found.0 ≡ tally (some status) (rows w))
        × (found.1 ≡ sum_amounts (select (matches (some status)) (rows w)))
  -- A transaction that is committed returned nil.
  pub transaction_done :
      {A : Type 0} (body : env.World → Result A × env.World) (w : env.World) {a : A}
      → (env.transaction body w).0 ≡ ok a
      → (body w).0 ≡ ok a
  -- A page has no more rows than its limit, which is positive here, as gorm takes a negative one for
  -- none; all its rows are rows of the table that match.
  pub find_invoices_done :
      (status : Option String) (limit offset : ℤ) (w : env.World) {page : List Invoice}
      → 1 ≤ pos_part limit
      → (env.find_invoices status limit offset w).0 ≡ ok page
      → (length page ≤ pos_part limit)
        × All (λ inv. (matches status inv ≡ true) × Any (λ row. row ≡ inv) (rows w)) page
