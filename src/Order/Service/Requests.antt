-- ===== src/Order/Service/Requests.antt =====
-- The whole requests `MarkOrderPaid`, `CancelOrder` and `CreateOrder`.
use order_billing_system.Base.Tests.{◌≡◌, refl, ◌∙◌, ◌⊎◌, inl, inr, some}
use order_billing_system.Base.Texts.{String}
use order_billing_system.Base.Integers.{ℤ}
use order_billing_system.Base.Lists.{List}
use order_billing_system.Shared.Errors.{GoError, HasCode}
use order_billing_system.Shared.Effects.{ok, err, Result-cases}
use order_billing_system.Shared.Effects.Contracts.{Ends, Ends-err, Ends-bind, Ends-weaken}
use order_billing_system.Order.Model.{
  Order, OrderItem, Event, created, order_status_created, event_order_created,
}
use order_billing_system.Order.Validation.{validate_items}
use order_billing_system.Order.Total.{calc_total_usd}
use order_billing_system.Order.Environment.{Environment, Tables, Documented, orders_created_total}
use order_billing_system.Order.Service.{
  OrderService, create_order, get_order, mark_order_paid, pay, cancel, cancel_order,
}
use order_billing_system.Order.Service.Reads.{NotRead, get_order_outcome}
use order_billing_system.Order.Service.Writes.{Committed}
use order_billing_system.Order.Service.Transitions.{
  written_outcome, Paid, NotPaid, pay_outcome, Cancelled, NotCancelled, cancel_outcome,
}

module _ (env : Environment) (doc : Documented env) (s : OrderService) where
  -- The order that the request has read.
  abbrev pub Read : String → env.World → (Order → Type 0) → Type 0
  Read id w P =
      (order : Order) × ((doc.tables w).orders id ≡ some order) × (order.id ≡ id) × P order

  -- A payment that returns an order has read a CREATED one under the id, has made it PAID and has
  -- queued its event, in one transaction. A payment that returns an error has changed no row, and the
  -- code tells why: an empty id, no order, an order that is not CREATED, or a failed write.
  pub mark_order_paid_outcome :
      (id : String) (w : env.World)
      → Ends
          (λ changed w'. Read id w (λ order. Paid env doc s (doc.tables w) order changed w'))
          (λ e w'.
            NotRead env doc id w e w'
            ⊎ Read id w (λ order. NotPaid env doc s (doc.tables w) order e w'))
          (mark_order_paid env s id w)
  unfolding mark_order_paid
  mark_order_paid_outcome id w =
      Ends-bind (get_order env s id) (pay env s) w (get_order_outcome env doc s id w)
        (λ order (row, own, same).
          Ends-weaken (rw same at (pay_outcome env doc s order (get_order env s id w).1))
            (λ changed h. (order, row, own, h)) (λ e h. inr (order, row, own, h)))
        (λ e h. inl h)

  -- A cancellation that returns an order has read one that is neither PAID nor CANCELLED, has made it
  -- CANCELLED and has queued its event, in one transaction, or it has read a CANCELLED one and changed
  -- no row. A cancellation that returns an error has changed no row, and the code tells why.
  pub cancel_order_outcome :
      (id : String) (w : env.World)
      → Ends
          (λ changed w'. Read id w (λ order. Cancelled env doc s (doc.tables w) order changed w'))
          (λ e w'.
            NotRead env doc id w e w'
            ⊎ Read id w (λ order. NotCancelled env doc s (doc.tables w) order e w'))
          (cancel_order env s id w)
  unfolding cancel_order
  cancel_order_outcome id w =
      Ends-bind (get_order env s id) (cancel env s) w (get_order_outcome env doc s id w)
        (λ order (row, own, same).
          Ends-weaken (rw same at (cancel_outcome env doc s order (get_order env s id w).1))
            (λ changed h. (order, row, own, h)) (λ e h. inr (order, row, own, h)))
        (λ e h. inl h)

-- The event that announces an order.
abbrev pub created_event : Order → Event
created_event order = created (record {
  order_id = order.id;
  total = order.total;
  items = order.items;
  created_at = order.created_at;
})

module _ (env : Environment) (doc : Documented env) (s : OrderService) where
  -- A new CREATED order over the items, with its total in USD, and its event queued.
  abbrev pub Created : Tables → List OrderItem → Order → env.World → Type 0
  Created before items order w' =
      (validate_items items ≡ ok tt)
      × (calc_total_usd items s.converter ≡ ok order.total.amount)
      × (order.total.currency ≡ "USD")
      × (order.items ≡ items)
      × (order.status ≡ order_status_created)
      × Committed env doc s order event_order_created (created_event order) before w'

  abbrev pub NotCreated : Tables → List OrderItem → GoError → env.World → Type 0
  NotCreated before items e w' =
      ((validate_items items ≡ err e)
        ⊎ (calc_total_usd items s.converter ≡ err e)
        ⊎ HasCode "ERR_INTERNAL" e)
      × (doc.tables w' ≡ before)

  create_valid :
      (items : List OrderItem) (total : ℤ) (w : env.World)
      → validate_items items ≡ ok tt
      → calc_total_usd items s.converter ≡ ok total
      → Ends
          (Created (doc.tables w) items)
          (NotCreated (doc.tables w) items)
          (create_order env s items w)
  unfolding create_order
  create_valid items total w valid summed =
      let (order_id, w1) = env.new_uuid w in
      let (created_at, w2) = env.time_now w1 in
      let order : Order = record {
        id = order_id;
        items = items;
        total = record { amount = total; currency = "USD" };
        status = order_status_created;
        created_at = created_at;
      } in
      let same = doc.time_now_keeps w1 ∙ doc.new_uuid_keeps w in
      rw (valid, summed)
        (Ends-weaken
          (rw same at (
            written_outcome env doc s order (created_event order) event_order_created
              "failed to create order" orders_created_total w2))
          (λ o (named, committed). rw named (valid, summed, refl, refl, refl, committed))
          (λ e (code, kept). (inr (inr code), kept)))

  -- A creation that returns an order had valid items, has totalled them in USD, and has written the
  -- CREATED order together with its event. A creation that returns an error has changed no row, and
  -- the error is that of the validation, that of the conversion, or an internal one.
  pub create_order_outcome :
      (items : List OrderItem) (w : env.World)
      → Ends
          (Created (doc.tables w) items)
          (NotCreated (doc.tables w) items)
          (create_order env s items w)
  unfolding create_order
  create_order_outcome items w = elim (Result-cases (validate_items items)) [
    | inr (e, refused) ↦ rw refused (Ends-err e w (inl refused, refl))
    | inl (_, valid) ↦ elim (Result-cases (calc_total_usd items s.converter)) [
      | inr (e, failed) ↦ rw (valid, failed) (Ends-err e w (inr (inl failed), refl))
      | inl (total, summed) ↦ create_valid items total w valid summed
    ]
  ]
