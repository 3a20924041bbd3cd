-- ===== src/Base/Decimal.antt =====
-- The decimal texts of `fmt.Sprintf("%d", …)`, and the loop of `strconv.ParseUint` over digits.
pub mod Digits
use Prim.Native.Char.{Char, code}
use Prim.Native.String.{◌++◌}
use mathlib.Core.Logic.{dite}
use mathlib.Core.WellFounded.{Acc, WellFounded}
use native.Mathlib.Decide.{dec_lt}
use order_billing_system.Base.Tests.{
  ℕ, zero, suc, ◌+◌, ◌-◌, ◌*◌, ◌/◌, ◌%◌, ◌<◌, ◌≡◌, refl, arith, ◌==◌, leb, Bool, ◌&&◌, Option, none,
  some, if◌then◌else◌,
}
use order_billing_system.Base.Texts.{String}
use order_billing_system.Base.Integers.{ℤ, pos, negsuc}

digit : ℕ → Char
digit d =
    if d == 0
    then "0"
    else if d == 1
    then "1"
    else if d == 2
    then "2"
    else if d == 3
    then "3"
    else if d == 4
    then "4"
    else if d == 5
    then "5"
    else if d == 6
    then "6"
    else if d == 7
    then "7"
    else if d == 8
    then "8"
    else "9"

below : (k n : ℕ) → n < k → Acc ◌<◌ n
below zero n h = absurd (omega arith)
below (suc k) n h = Acc.intro n (λ m lt. below k m (omega arith))

lt_wf : WellFounded ◌<◌
unfolding below
lt_wf = record { apply = λ n. below (suc n) n (omega arith) }

tenth_lt : {n : ℕ} → 0 < n → n / 10 < n
tenth_lt h = omega arith

-- The digits of a positive number, in front of a text.
print_onto : (n : ℕ) → Acc ◌<◌ n → String → String
print_onto n (Acc.intro _ smaller) out =
    dite (dec_lt 0 n)
      (λ h. print_onto (n / 10) (smaller (n / 10) (tenth_lt h)) (String.◌∷◌ (digit (n % 10)) out))
      (λ _. out)

unfoldable pub show_ℕ : ℕ → String
unfolding print_onto digit tenth_lt lt_wf dec_lt
show_ℕ n = if n == 0 then "0" else print_onto n (lt_wf.apply n) ""

unfoldable pub show_ℤ : ℤ → String
unfolding show_ℕ
show_ℤ (pos n) = show_ℕ n
show_ℤ (negsuc n) = "-" ++ show_ℕ (suc n)

-- The number that the digits of a text spell behind `n`.
unfoldable pub read_digits : String → ℕ → Option ℕ
read_digits String.[] n = some n
read_digits (String.◌∷◌ c s) n =
    let rest = read_digits s (n * 10 + (code c - 48)) in
    if leb 48 (code c) && leb (code c) 57 then rest else none

show_ℤ_test : show_ℤ (negsuc 12044) ≡ "-12045"
unfolding show_ℤ
show_ℤ_test = refl
