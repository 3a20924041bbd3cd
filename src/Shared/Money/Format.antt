-- ===== src/Shared/Money/Format.antt =====
-- What `Value` writes is what `Scan` reads.
use Prim.Native.Char.{Char, code}
use Prim.Native.String.{[], ◌∷◌, ◌++◌}
use text.Mathlib.TextLemmas.{nil-append, cons-append, append-nil}
use order_billing_system.Base.Tests.{
  ℕ, suc, ◌^◌, ◌≡◌, ◌≢◌, refl, ◌∙◌, ap, some, Bool, true, false, ◌==◌, leb, ltb, arith,
}
use order_billing_system.Base.Texts.{String}
use order_billing_system.Base.Lists as L
use order_billing_system.Base.Lists.{List}
use order_billing_system.Base.Integers.{ℤ, pos, negsuc, IsInt64}
use order_billing_system.Base.Decimal.{show_ℕ, show_ℤ, read_digits}
use order_billing_system.Base.Decimal.Digits.{AllDigits, read_digits-show_ℕ}
use order_billing_system.Shared.Effects.{ok}
use order_billing_system.Shared.Strconv.{put_char, split, in_range, read_signed, parse_int}
use order_billing_system.Shared.Money.{Money, value, text_column, bytes_column, from_parts, scan}

-- The separator does not occur.
abbrev pub Lacks : String → Type 0
Lacks [] = Unit
Lacks (c ∷ s) = (code c ≢ 124) × Lacks s

put_other :
    (c : Char) (part : String) (parts : List String)
    → code c ≢ 124
    → put_char 124 c (L.◌∷◌ part parts) ≡ L.◌∷◌ (c ∷ part) parts
unfolding put_char
put_other c part parts other = ground arith

split_whole : (s : String) → Lacks s → split 124 s ≡ L.◌∷◌ s L.[]
unfolding split
split_whole [] lacks = refl
split_whole (c ∷ s) (other, lacks) = rw (split_whole s lacks) (put_other c s L.[] other)

one_char : (c : Char) (t : String) → (c ∷ "") ++ t ≡ c ∷ t
one_char c t = cons-append c "" t ∙ ap (λ x. c ∷ x) (nil-append t)

split_parts :
    (s t : String) → Lacks s → Lacks t → split 124 (s ++ ("|" ++ t)) ≡ L.◌∷◌ s (L.◌∷◌ t L.[])
unfolding split put_char
split_parts [] t ls lt = rw (nil-append ("|" ++ t), one_char "|" t, split_whole t lt) refl
split_parts (c ∷ s) t (other, ls) lt =
    rw (cons-append c s ("|" ++ t), split_parts s t ls lt) (put_other c s (L.◌∷◌ t L.[]) other)

digits-Lacks : (s : String) → AllDigits s → Lacks s
digits-Lacks [] all = tt
digits-Lacks (c ∷ s) (low, high, all) = ((λ bar. omega arith), digits-Lacks s all)

show_ℤ-Lacks : (z : ℤ) → Lacks (show_ℤ z)
unfolding show_ℤ
show_ℤ-Lacks (pos n) = digits-Lacks (show_ℕ n) (read_digits-show_ℕ n).0
show_ℤ-Lacks (negsuc n) =
    rw (one_char "-" (show_ℕ (suc n)))
      ((λ bar. omega arith), digits-Lacks (show_ℕ (suc n)) (read_digits-show_ℕ (suc n)).0)

read_signed-digits :
    (negative : Bool) (s : String) (n : ℕ)
    → s ≢ ""
    → read_digits s 0 ≡ some n
    → read_signed negative s ≡ in_range negative n
unfolding read_signed
read_signed-digits negative [] n some_text read = absurd (some_text refl)
read_signed-digits negative (c ∷ s) n some_text read = rw (read, read_signed) refl

parse_int-digits :
    (s : String) (n : ℕ)
    → AllDigits s
    → s ≢ ""
    → read_digits s 0 ≡ some n
    → parse_int s ≡ in_range false n
unfolding parse_int
parse_int-digits [] n all some_text read = absurd (some_text refl)
parse_int-digits (c ∷ s) n (low, high, all) some_text read =
    let no_minus : (code c == 45) ≡ false = ground (arith, low) in
    let no_plus : (code c == 43) ≡ false = ground (arith, low) in
    rw (no_minus, no_plus) (read_signed-digits false (c ∷ s) n some_text read)

parse_int-show_ℤ : (z : ℤ) → IsInt64 z → parse_int (show_ℤ z) ≡ ok z
unfolding parse_int show_ℤ in_range
parse_int-show_ℤ (pos n) fits =
    let (all, read, some_text) = read_digits-show_ℕ n in
    let inside : ltb n (2 ^ 63) ≡ true = ground (arith, fits) in
    parse_int-digits (show_ℕ n) n all some_text read ∙ rw inside refl
parse_int-show_ℤ (negsuc n) fits =
    let (all, read, some_text) = read_digits-show_ℕ (suc n) in
    let inside : leb (suc n) (2 ^ 63) ≡ true = ground (arith, fits) in
    let not_zero : (suc n == 0) ≡ false = ground arith in
    rw (one_char "-" (show_ℕ (suc n))) (
      read_signed-digits true (show_ℕ (suc n)) (suc n) some_text read
      ∙ rw (not_zero, inside) (ap (λ k. ok (negsuc k)) (omega arith)))

-- An amount of money that was written to a column is read back from it, as a text or as bytes, if
-- its amount is an int64 and its currency has no bar.
pub scan-value :
    (m : Money)
    → IsInt64 m.amount
    → Lacks m.currency
    → (scan (text_column (value m)) ≡ ok m) × (scan (bytes_column (value m)) ≡ ok m)
unfolding scan value from_parts
scan-value m fits lacks =
    let parts : split 124 (value m) ≡ L.◌∷◌ (show_ℤ m.amount) (L.◌∷◌ m.currency L.[]) =
      rw (append-nil m.currency)
        (split_parts (show_ℤ m.amount) m.currency (show_ℤ-Lacks m.amount) lacks) in
    let read : from_parts (split 124 (value m)) ≡ ok m =
      rw parts (rw (parse_int-show_ℤ m.amount fits, from_parts) refl) in
    (read, read)
