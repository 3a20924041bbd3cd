-- ===== src/Billing/Columns.antt =====
-- `Money` of billing_service/internal/billing_domain/invoice/invoice.go as the column of an invoice's
-- amount. encoding/json is the parameter.
use order_billing_system.Base.Tests.{◌≡◌, sym, ◌∙◌, ap, inl, inr}
use mathlib.Core.Path.{subst}
use order_billing_system.Base.Texts.{String}
use order_billing_system.Shared.Errors.{text}
use order_billing_system.Shared.Effects.{Result, ok, err, ◌>=>◌, Result-cases}
use order_billing_system.Shared.Money.{Column, text_column, bytes_column, other_column}
use order_billing_system.Billing.Model.{InvoiceMoney}

module _ (marshal : InvoiceMoney → Result String) (unmarshal : String → Result InvoiceMoney) where
  -- `Money.Value`
  unfoldable pub money_value : InvoiceMoney → Result Column
  money_value amount = marshal amount >=> λ b. ok (bytes_column b)

  -- `Money.Scan` into an empty receiver, which takes bytes only.
  unfoldable pub scan_money : Column → Result InvoiceMoney
  scan_money (bytes_column b) = unmarshal b
  scan_money (text_column s) = err (text "failed to scan Money")
  scan_money other_column = err (text "failed to scan Money")

ok_injective : {a b : Column} → ok a ≡ ok b → a ≡ b
ok_injective e = cc

-- An amount that is written to the column is read back from it, if encoding/json decodes what it has
-- encoded.
scan_money-money_value :
    (marshal : InvoiceMoney → Result String) (unmarshal : String → Result InvoiceMoney)
    (amount : InvoiceMoney)
    → ((b : String) → marshal amount ≡ ok b → unmarshal b ≡ ok amount)
    → (c : Column) → money_value marshal unmarshal amount ≡ ok c
    → scan_money marshal unmarshal c ≡ ok amount
unfolding money_value scan_money
scan_money-money_value marshal unmarshal amount decodes c written =
    elim (Result-cases (marshal amount)) [
      | inl (b, encoded) ↦
          let here : bytes_column b ≡ c =
            ok_injective (ap (λ r. r >=> λ t. ok (bytes_column t)) (sym encoded) ∙ written) in
          subst (λ x. scan_money marshal unmarshal x ≡ ok amount) here (decodes b encoded)
      | inr (e, failed) ↦
          let stopped : err e ≡ ok c =
            ap (λ r. r >=> λ t. ok (bytes_column t)) (sym failed) ∙ written in
          absurd (cc)
    ]
