-- ===== src/Order/Columns.antt =====
-- `JSONItems` of order_service/internal/domain/model/models.go: the column of an order's items.
-- encoding/json is the parameter.
use order_billing_system.Base.Tests.{◌≡◌, sym, ◌∙◌, ap, inl, inr}
use mathlib.Core.Path.{subst}
use order_billing_system.Base.Texts.{String}
use order_billing_system.Base.Lists.{List}
use order_billing_system.Shared.Errors.{text}
use order_billing_system.Shared.Effects.{Result, ok, err, ◌>=>◌, Result-cases}
use order_billing_system.Shared.Money.{Column, text_column, bytes_column, other_column}
use order_billing_system.Order.Model.{OrderItem}

module _ (marshal : List OrderItem → Result String)
    (unmarshal : String → Result (List OrderItem)) where
  -- `JSONItems.Value`
  unfoldable pub items_value : List OrderItem → Result Column
  items_value items = marshal items >=> λ b. ok (text_column b)

  -- `JSONItems.Scan` into an empty receiver, which takes bytes only.
  unfoldable pub scan_items : Column → Result (List OrderItem)
  scan_items (bytes_column b) = unmarshal b
  scan_items (text_column s) = err (text "failed to scan JSONItems")
  scan_items other_column = err (text "failed to scan JSONItems")

-- The driver hands out the text of a JSON column as bytes.
abbrev pub read_back : Column → Column
read_back (text_column s) = bytes_column s
read_back (bytes_column b) = bytes_column b
read_back other_column = other_column

ok_injective : {a b : Column} → ok a ≡ ok b → a ≡ b
ok_injective e = cc

-- Items that are written to the column are read back from it, if encoding/json decodes what it has
-- encoded and the driver hands out bytes.
scan_items-items_value :
    (marshal : List OrderItem → Result String) (unmarshal : String → Result (List OrderItem))
    (items : List OrderItem)
    → ((b : String) → marshal items ≡ ok b → unmarshal b ≡ ok items)
    → (c : Column) → items_value marshal unmarshal items ≡ ok c
    → scan_items marshal unmarshal (read_back c) ≡ ok items
unfolding items_value scan_items
scan_items-items_value marshal unmarshal items decodes c written =
    elim (Result-cases (marshal items)) [
      | inl (b, encoded) ↦
          let here : text_column b ≡ c =
            ok_injective (ap (λ r. r >=> λ t. ok (text_column t)) (sym encoded) ∙ written) in
          subst (λ x. scan_items marshal unmarshal (read_back x) ≡ ok items) here
            (decodes b encoded)
      | inr (e, failed) ↦
          let stopped : err e ≡ ok c =
            ap (λ r. r >=> λ t. ok (text_column t)) (sym failed) ∙ written in
          absurd (cc)
    ]
