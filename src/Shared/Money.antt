-- ===== src/Shared/Money.antt =====
-- shared/money/money.go. The texts that errors quote are left out.
pub mod Format
use Prim.Native.Char.{Char, code}
use Prim.Native.String.{[], ◌∷◌}
use order_billing_system.Base.Tests.{
  ℕ, suc, ◌+◌, ◌-◌, ◌*◌, ◌^◌, Bool, true, false, ◌&&◌, ◌==◌, leb, ltb, Option, none, some,
  if◌then◌else◌,
}
use order_billing_system.Base.Texts.{String, sprint, str_eq}
use order_billing_system.Base.Lists as L
use order_billing_system.Base.Lists.{List}
use order_billing_system.Base.Integers.{ℤ, pos, negsuc}
use order_billing_system.Base.Decimal.{show_ℤ, read_digits}
use order_billing_system.Shared.Errors.{GoError, text, wrap}
use order_billing_system.Shared.Effects.{Result, ok, err}
use order_billing_system.Shared.Strconv.{split, parse_int}

pub record Money : Type 0 where
  pub amount : ℤ
  pub currency : String

-- `Money.Value`
unfoldable pub value : Money → String
value m = sprint (L.◌∷◌ (show_ℤ m.amount) (L.◌∷◌ "|" (L.◌∷◌ m.currency L.[])))

-- What a driver hands to `Scan`.
pub data Column : Type 0 where
  text_column bytes_column : String → Column
  other_column : Column

from_parts : List String → Result Money
from_parts (L.◌∷◌ amount (L.◌∷◌ currency L.[])) = elim (parse_int amount) [
  | ok n ↦ ok (record { amount = n; currency = currency })
  | err e ↦ err (wrap "invalid amount in Money: " e)
]
from_parts _ = err (text "invalid format for Money (expected amount|currency)")

-- `Money.Scan`: the receiver is set only if it returns nil.
unfoldable pub scan : Column → Result Money
unfolding from_parts
scan (text_column str) = from_parts (split 124 str)
scan (bytes_column str) = from_parts (split 124 str)
scan other_column = err (text "invalid type for Money: expected string or []byte")
