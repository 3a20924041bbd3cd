-- ===== src/Order/Service/Reads.antt =====
-- `GetOrder`: the check of the id and the read.
use order_billing_system.Base.Tests.{◌≡◌, refl, ◌⊎◌, inl, inr, some}
use order_billing_system.Base.Texts.{String, str_eq, eq_iff}
use order_billing_system.Shared.Errors.{HasCode, invalid_input_code, not_found_code, GoError}
use order_billing_system.Shared.Effects.{err}
use order_billing_system.Shared.Effects.Contracts.{Ends, Ends-err, Ends-or_fail, Ends-if}
use order_billing_system.Order.Model.{Order}
use order_billing_system.Order.Environment.{Environment, Documented}
use order_billing_system.Order.Service.{OrderService, get_order}

module _ (env : Environment) (doc : Documented env) where
  -- What `GetOrder` has found, and that no row has changed.
  abbrev pub Found : String → env.World → Order → env.World → Type 0
  Found id w o w' =
      ((doc.tables w).orders id ≡ some o) × (o.id ≡ id) × (doc.tables w' ≡ doc.tables w)

  -- Why `GetOrder` has returned an error, and that no row has changed.
  abbrev pub NotRead : String → env.World → GoError → env.World → Type 0
  NotRead id w e w' =
      ((HasCode "ERR_INVALID_INPUT" e × (id ≡ ""))
        ⊎ (HasCode "ERR_NOT_FOUND" e × ((x : GoError) × ((env.first_order id w).0 ≡ err x))))
      × (doc.tables w' ≡ doc.tables w)

module _ (env : Environment) (doc : Documented env) (s : OrderService) where
  -- An order that `GetOrder` returns is the row under the id. An error is for an empty id or a failed
  -- query. No row has changed.
  pub get_order_outcome :
      (id : String) (w : env.World)
      → Ends (Found env doc id w) (NotRead env doc id w) (get_order env s id w)
  unfolding get_order
  get_order_outcome id w =
      Ends-if (str_eq id "") _ _ w
        (λ empty. Ends-err _ w (inl (invalid_input_code _, (eq_iff id "").0 empty), refl))
        (λ given.
          Ends-or_fail (env.first_order id) _ w (first_order_outcome)
            (λ e h. (inr (not_found_code _, h.0), h.1)))
    where
      first_order_outcome :
          Ends
            (Found env doc id w)
            (λ e w'.
              ((x : GoError) × ((env.first_order id w).0 ≡ err x)) × (doc.tables w' ≡ doc.tables w))
            (env.first_order id w)
      first_order_outcome = record {
        on_ok = λ o e.
            let (row, own) = doc.first_order_found id w e in (row, own, doc.first_order_keeps id w);
        on_err = λ x e. ((x, e), doc.first_order_keeps id w);
      }
