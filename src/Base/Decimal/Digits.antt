-- ===== src/Base/Decimal/Digits.antt =====
-- The printed digits of a number, read back.
use Prim.Native.Char.{Char, code}
use mathlib.Core.Logic.{dite}
use mathlib.Core.WellFounded.{Acc}
use native.Mathlib.Decide.{dec_lt}
use mathlib.Core.Option.{some-injective}
use order_billing_system.Base.Tests.{
  ℕ, zero, suc, ◌+◌, ◌-◌, ◌*◌, ◌/◌, ◌%◌, ◌≤◌, ◌<◌, ◌≡◌, ◌≢◌, refl, sym, ◌∙◌, ap, some, Bool, true,
  false, ◌==◌, leb, arith, if◌then◌else◌,
}
use order_billing_system.Base.Texts.{String}
use order_billing_system.Base.Decimal.{digit, tenth_lt, print_onto, lt_wf, show_ℕ, read_digits}

code_digit : (d : ℕ) → d < 10 → code (digit d) ≡ 48 + d
unfolding digit
code_digit zero small = refl
code_digit (suc zero) small = refl
code_digit (suc (suc zero)) small = refl
code_digit (suc (suc (suc zero))) small = refl
code_digit (suc (suc (suc (suc zero)))) small = refl
code_digit (suc (suc (suc (suc (suc zero))))) small = refl
code_digit (suc (suc (suc (suc (suc (suc zero)))))) small = refl
code_digit (suc (suc (suc (suc (suc (suc (suc zero))))))) small = refl
code_digit (suc (suc (suc (suc (suc (suc (suc (suc zero)))))))) small = refl
code_digit (suc (suc (suc (suc (suc (suc (suc (suc (suc zero))))))))) small = refl
code_digit (suc (suc (suc (suc (suc (suc (suc (suc (suc (suc n)))))))))) small =
    absurd (omega arith)

-- Every character is a decimal digit.
abbrev pub AllDigits : String → Type 0
AllDigits String.[] = Unit
AllDigits (String.◌∷◌ c s) = (48 ≤ code c) × (code c ≤ 57) × AllDigits s

dite_lem :
    {P C : Type 0} (d : Dec P) (f : P → C) (g : (P → ⊥) → C) (Q : C → Type 0)
    → ((h : P) → Q (f h))
    → ((h : P → ⊥) → Q (g h))
    → Q (dite d f g)
dite_lem (Dec.yes p) f g Q hf hg = hf p
dite_lem (Dec.no n) f g Q hf hg = hg n

read_char :
    (c : Char) (d m : ℕ) (out : String)
    → code c ≡ 48 + d
    → d < 10
    → read_digits (String.◌∷◌ c out) m ≡ read_digits out (m * 10 + d)
unfolding read_digits
read_char c d m out known small =
    let first : leb 48 (code c) ≡ true = ground (arith, known) in
    let last : leb (code c) 57 ≡ true = ground (arith, known) in
    let same : code c - 48 ≡ d = omega (arith, known) in rw (first, last, same) refl

read_digit :
    (n : ℕ) (out : String)
    → read_digits (String.◌∷◌ (digit (n % 10)) out) (n / 10) ≡ read_digits out n
read_digit n out =
    read_char (digit (n % 10)) (n % 10) (n / 10) out (code_digit (n % 10) (omega arith))
      (omega arith)
    ∙ ap (read_digits out) (omega arith)

read_print :
    (n : ℕ) (w : Acc ◌<◌ n) (out : String) → read_digits (print_onto n w out) 0 ≡ read_digits out n
unfolding print_onto
read_print n (Acc.intro _ smaller) out =
    dite_lem (dec_lt 0 n) _ _ (λ s. read_digits s 0 ≡ read_digits out n)
      (λ h.
        read_print (n / 10) (smaller (n / 10) (tenth_lt h)) (String.◌∷◌ (digit (n % 10)) out)
        ∙ read_digit n out)
      (λ h. ap (read_digits out) (omega arith))

print-AllDigits :
    (n : ℕ) (w : Acc ◌<◌ n) (out : String) → AllDigits out → AllDigits (print_onto n w out)
unfolding print_onto
print-AllDigits n (Acc.intro _ smaller) out all =
    let known = code_digit (n % 10) (omega arith) in
    dite_lem (dec_lt 0 n) _ _ AllDigits
      (λ h.
        print-AllDigits (n / 10) (smaller (n / 10) (tenth_lt h)) (String.◌∷◌ (digit (n % 10)) out)
          (omega (arith, known), omega (arith, known), all))
      (λ h. all)

-- What is printed is one or more decimal digits, and they spell the number.
pub read_digits-show_ℕ :
    (n : ℕ) → AllDigits (show_ℕ n) × (read_digits (show_ℕ n) 0 ≡ some n) × (show_ℕ n ≢ "")
unfolding show_ℕ read_digits
read_digits-show_ℕ n = chosen (n == 0) (λ h. ground arith) (λ h same. ground arith)
  where
    chosen :
        (b : Bool)
        → (b ≡ true → n ≡ 0)
        → (b ≡ false → n ≢ 0)
        → let s = (if b then "0" else print_onto n (lt_wf.apply n) "") in
          AllDigits s × (read_digits s 0 ≡ some n) × (s ≢ "")
    chosen true none_left some_left =
        ((omega arith, omega arith, tt), ap some (sym (none_left refl)), λ e. cc)
    chosen false none_left some_left =
        let read = read_print n (lt_wf.apply n) "" in
        (
          print-AllDigits n (lt_wf.apply n) "" tt,
          read,
          λ e. some_left refl (sym (some-injective _ _ (sym (ap (λ t. read_digits t 0) e) ∙ read))),
        )
