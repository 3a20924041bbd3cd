-- ===== src/Order/Validation/Valid.antt =====
-- Which items `validateItems` accepts.
use order_billing_system.Base.Tests.{
  ℕ, ◌+◌, ◌<◌, ◌≡◌, ◌≢◌, refl, sym, ◌∙◌, ap, ◌↔◌, ◌⊎◌, inl, inr, none, some, Bool, true, false,
  ◌||◌, arith, Option-cases, if◌then◌else◌,
}
use mathlib.Core.Option.{none-ne-some}
use order_billing_system.Base.Texts.{String, str_eq, eq_iff}
use order_billing_system.Base.Lists.{List, [], ◌∷◌, All}
use order_billing_system.Base.Integers.{ℤ, pos, negsuc, pos_part, leb_ℤ}
use order_billing_system.Shared.Errors.{AppError}
use order_billing_system.Shared.Effects.{ok}
use order_billing_system.Order.Model.{OrderItem}
use order_billing_system.Order.Validation.{
  allowed_currencies, validate_item, validate_from, validate_items,
}

abbrev pub Positive : ℤ → Type 0
Positive z = (n : ℕ) × (z ≡ pos n) × (0 < n)

abbrev pub Allowed : String → Type 0
Allowed c = (c ≡ "USD") ⊎ (c ≡ "EUR") ⊎ (c ≡ "RUB")

-- What the service asks of an item.
pub record IsValid (item : OrderItem) : Type 0 where
  pub named : item.product_id ≢ ""
  pub counted : Positive item.quantity
  pub priced : Positive item.price.amount
  pub in_currency : Allowed item.price.currency

Positive-iff : (z : ℤ) → (leb_ℤ z (pos 0) ≡ false) ↔ Positive z
Positive-iff (pos n) = (
  (λ h. (n, refl, ground arith)),
  (λ (m, same, h). let k : n ≡ m = ap pos_part same in ground arith),
)
Positive-iff (negsuc n) = ((λ h. absurd (ground arith)), (λ (m, same, h). cc))

one_of : (a b c : Bool) → ((a || b || c) ≡ true) ↔ ((a ≡ true) ⊎ (b ≡ true) ⊎ (c ≡ true))
one_of true b c = ((λ _. inl refl), (λ _. refl))
one_of false true c = ((λ _. inr (inl refl)), (λ _. refl))
one_of false false c =
    ((λ h. inr (inr h)), elim [ inl h ↦ cc | inr h ↦ elim h [ inl k ↦ cc | inr k ↦ k ] ])

Allowed-iff : (c : String) → (allowed_currencies c ≡ true) ↔ Allowed c
unfolding allowed_currencies
Allowed-iff c =
    let listed = one_of (str_eq c "USD") (str_eq c "EUR") (str_eq c "RUB") in
    (
      (λ h. elim (listed.0 h) [
        | inl usd ↦ inl ((eq_iff c "USD").0 usd)
        | inr other ↦ elim other [
          | inl eur ↦ inr (inl ((eq_iff c "EUR").0 eur))
          | inr rub ↦ inr (inr ((eq_iff c "RUB").0 rub))
        ]
      ]),
      (λ h. listed.1 (elim h [
        | inl usd ↦ inl ((eq_iff c "USD").1 usd)
        | inr other ↦ elim other [
          | inl eur ↦ inr (inl ((eq_iff c "EUR").1 eur))
          | inr rub ↦ inr (inr ((eq_iff c "RUB").1 rub))
        ]
      ])),
    )

-- The four tests of a round, passed one after the other.
passed :
    (a b c d : Bool) (w x y z : AppError)
    → ((if a
          then some w
          else if b
          then some x
          else if c
          then some y
          else if d
          then none
          else some z)
        ≡ none)
      ↔ ((a ≡ false) × (b ≡ false) × (c ≡ false) × (d ≡ true))
passed true b c d w x y z = ((λ h. cc), (λ h. cc))
passed false true c d w x y z = ((λ h. cc), (λ h. cc))
passed false false true d w x y z = ((λ h. cc), (λ h. cc))
passed false false false true w x y z = ((λ h. (refl, refl, refl, refl)), (λ h. refl))
passed false false false false w x y z = ((λ h. cc), (λ h. cc))

named_iff : (t : String) → (str_eq t "" ≡ false) ↔ (t ≢ "")
named_iff t = ((λ h e. ground (arith, eq_iff t "")), (λ n. ground (arith, eq_iff t "")))

validate_item_iff : (i : ℕ) (item : OrderItem) → (validate_item i item ≡ none) ↔ IsValid item
unfolding validate_item
validate_item_iff i item =
    let tests =
      passed (str_eq item.product_id "") (leb_ℤ item.quantity (pos 0))
        (leb_ℤ item.price.amount (pos 0)) (allowed_currencies item.price.currency) _ _ _ _ in
    (
      (λ h.
          let (a, b, c, d) = tests.0 h in
          record {
            named = (named_iff item.product_id).0 a;
            counted = (Positive-iff item.quantity).0 b;
            priced = (Positive-iff item.price.amount).0 c;
            in_currency = (Allowed-iff item.price.currency).0 d;
          }),
      (λ v. tests.1 (
        (named_iff item.product_id).1 v.named,
        (Positive-iff item.quantity).1 v.counted,
        (Positive-iff item.price.amount).1 v.priced,
        (Allowed-iff item.price.currency).1 v.in_currency,
      )),
    )

validate_from_iff :
    (i : ℕ) (items : List OrderItem) → (validate_from i items ≡ none) ↔ All IsValid items
unfolding validate_from
validate_from_iff i [] = ((λ h. tt), (λ h. refl))
validate_from_iff i (item ∷ items) =
    let first = validate_item_iff i item in
    let others = validate_from_iff (i + 1) items in
    elim (Option-cases (validate_item i item)) [
      | inl valid ↦ (
        (λ h. (first.0 valid, others.0 (rw (valid, validate_from) at h))),
        (λ (v, vs). rw (valid, validate_from) (others.1 vs)),
      )
      | inr (e, refused) ↦ (
        (λ h. absurd (none-ne-some e (sym (rw (refused, validate_from) at h)))),
        (λ (v, vs). absurd (none-ne-some e (sym (first.1 v) ∙ refused))),
      )
    ]

-- An order is accepted exactly when it has an item and every item has a product, a positive
-- quantity, a positive price and one of the three currencies.
pub validate_items_iff :
    (items : List OrderItem) → (validate_items items ≡ ok tt) ↔ ((items ≢ []) × All IsValid items)
unfolding validate_items
validate_items_iff [] = ((λ h. cc), (λ h. absurd (h.0 refl)))
validate_items_iff (item ∷ items) =
    let all = validate_from_iff 0 (item ∷ items) in
    elim (Option-cases (validate_from 0 (item ∷ items))) [
      | inl valid ↦ ((λ h. ((λ e. cc), all.0 valid)), (λ h. rw valid refl))
      | inr (e, refused) ↦ ((λ h. cc), (λ h. absurd (none-ne-some e (sym (all.1 h.1) ∙ refused))))
    ]
