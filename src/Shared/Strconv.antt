-- ===== src/Shared/Strconv.antt =====
-- The calls of Go's `strings` and `strconv` that the sources make. The texts that errors quote are
-- left out.
use Prim.Native.Char.{Char, code}
use Prim.Native.String.{[], ◌∷◌}
use order_billing_system.Base.Tests.{
  ℕ, ◌-◌, ◌^◌, Bool, true, false, ◌==◌, leb, ltb, none, some, if◌then◌else◌,
}
use order_billing_system.Base.Texts.{String}
use order_billing_system.Base.Lists as L
use order_billing_system.Base.Lists.{List}
use order_billing_system.Base.Integers.{ℤ, pos, negsuc}
use order_billing_system.Base.Decimal.{read_digits}
use order_billing_system.Shared.Errors.{text}
use order_billing_system.Shared.Effects.{Result, ok, err}

-- `strings.Split` at a separator of one character, given by its code.
unfoldable pub put_char : ℕ → Char → List String → List String
put_char sep c L.[] = L.[]
put_char sep c (L.◌∷◌ part parts) =
    if code c == sep then L.◌∷◌ "" (L.◌∷◌ part parts) else L.◌∷◌ (c ∷ part) parts

unfoldable pub split : ℕ → String → List String
split sep [] = L.◌∷◌ "" L.[]
split sep (c ∷ s) = put_char sep c (split sep s)

-- The end of `ParseInt`: the bounds of 64 bits.
unfoldable pub in_range : Bool → ℕ → Result ℤ
in_range false n = if ltb n (2 ^ 63) then ok (pos n) else err (text "value out of range")
in_range true n =
    if n == 0
    then ok (pos 0)
    else if leb n (2 ^ 63)
    then ok (negsuc (n - 1))
    else err (text "value out of range")

unfoldable pub read_signed : Bool → String → Result ℤ
read_signed negative [] = err (text "invalid syntax")
read_signed negative (c ∷ s) = elim (read_digits (c ∷ s) 0) [
  | none ↦ err (text "invalid syntax")
  | some n ↦ in_range negative n
]

-- `strconv.ParseInt(s, 10, 64)`
unfoldable pub parse_int : String → Result ℤ
parse_int [] = err (text "invalid syntax")
parse_int (c ∷ s) =
    if code c == 45
    then read_signed true s
    else if code c == 43
    then read_signed false s
    else read_signed false (c ∷ s)
