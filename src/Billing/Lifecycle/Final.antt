-- ===== src/Billing/Lifecycle/Final.antt =====
-- What the moves of an invoice keep.
use order_billing_system.Base.Tests.{◌≡◌, ◌≢◌, refl, sym, ◌∙◌, ap, Option, some}
use mathlib.Core.Option.{some-injective, none-ne-some}
use order_billing_system.Billing.Model.{Invoice, invoice_status_pending}
use order_billing_system.Billing.Lifecycle.{Move, stays, issued, paid, cancelled, Moves, stop, next}

abbrev Settled : Invoice → Type 0
Settled inv = inv.status ≢ invoice_status_pending

-- An invoice that is not PENDING makes no move but the one that changes nothing.
Settled-Move :
    {row after : Option Invoice} (inv : Invoice)
    → Settled inv
    → Move row after
    → row ≡ some inv
    → after ≡ row
Settled-Move inv settled stays here = refl
Settled-Move inv settled (issued pending) here = absurd (none-ne-some _ here)
Settled-Move inv settled (paid {inv = i} pending) here =
    let same : i ≡ inv = some-injective _ _ here in
    absurd (settled (sym (ap (λ (x : Invoice). x.status) same) ∙ pending))
Settled-Move inv settled (cancelled {inv = i} pending) here =
    let same : i ≡ inv = some-injective _ _ here in
    absurd (settled (sym (ap (λ (x : Invoice). x.status) same) ∙ pending))

-- What no move of an invoice changes.
pub record SameBill (a b : Invoice) : Type 0 where
  pub id : b.id ≡ a.id
  pub order_id : b.order_id ≡ a.order_id
  pub amount : b.amount ≡ a.amount
  pub created_at : b.created_at ≡ a.created_at

-- An invoice that is not PENDING stays as it is.
pub Settled-Moves :
    {row after : Option Invoice} (inv : Invoice)
    → Settled inv
    → Moves row after
    → row ≡ some inv
    → after ≡ row
Settled-Moves inv settled stop here = refl
Settled-Moves inv settled (next step rest) here =
    let same = Settled-Move inv settled step here in
    Settled-Moves inv settled rest (same ∙ here) ∙ same

SameBill-refl : {a : Invoice} → SameBill a a
SameBill-refl = record { id = refl; order_id = refl; amount = refl; created_at = refl }

Move-SameBill :
    {row after : Option Invoice} (inv : Invoice)
    → Move row after
    → row ≡ some inv
    → (inv2 : Invoice) × (after ≡ some inv2) × SameBill inv inv2
Move-SameBill inv stays here = (inv, here, SameBill-refl)
Move-SameBill inv (issued pending) here = absurd (none-ne-some _ here)
Move-SameBill inv (paid {inv = i} pending) here = (
  _,
  refl,
  rw (some-injective inv i (sym here))
      (record { id = refl; order_id = refl; amount = refl; created_at = refl }),
)
Move-SameBill inv (cancelled {inv = i} pending) here = (
  _,
  refl,
  rw (some-injective inv i (sym here))
      (record { id = refl; order_id = refl; amount = refl; created_at = refl }),
)

SameBill-trans : {a b c : Invoice} → SameBill a b → SameBill b c → SameBill a c
SameBill-trans h k = record {
  id = k.id ∙ h.id;
  order_id = k.order_id ∙ h.order_id;
  amount = k.amount ∙ h.amount;
  created_at = k.created_at ∙ h.created_at;
}

-- An invoice keeps its id, its order, its amount and its creation time.
pub Moves-SameBill :
    {row after : Option Invoice} (inv : Invoice)
    → Moves row after
    → row ≡ some inv
    → (inv2 : Invoice) × (after ≡ some inv2) × SameBill inv inv2
Moves-SameBill inv stop here = (inv, here, SameBill-refl)
Moves-SameBill inv (next step rest) here =
    let (inv1, there, bill1) = Move-SameBill inv step here in
    let (inv2, end, bill2) = Moves-SameBill inv1 rest there in
    (inv2, end, SameBill-trans bill1 bill2)
