-- ===== src/Order/Grpc/Replies.antt =====
-- What the gRPC server of order_service makes of requests and of the service's answers.
use order_billing_system.Base.Tests.{
  ◌≡◌, ◌≢◌, refl, sym, ◌∙◌, ap, ◌⊎◌, inl, inr, Option, none, some, Option-cases,
}
use mathlib.Core.Option.{some-injective, none-ne-some}
use order_billing_system.Base.Texts.{String}
use order_billing_system.Base.Lists.{List, [], ◌∷◌, map, All, Any}
use order_billing_system.Base.Integers.{IsInt32, wrap32_id}
use order_billing_system.Shared.Errors.{GoError, HasCode, as_app_error}
use order_billing_system.Shared.Effects.{Result, ok, err, Result-cases}
use order_billing_system.Shared.Grpc.{
  Code, invalid_argument, not_found, failed_precondition, internal, Status, Reply, responds, fails,
  panics,
}
use order_billing_system.Order.Model.{OrderItem, Order, order_status_created}
use order_billing_system.Order.Environment.{Environment, Documented}
use order_billing_system.Order.Service.{OrderService, create_order, mark_order_paid}
use order_billing_system.Order.Service.Reads.{NotRead}
use order_billing_system.Order.Service.Transitions.{NotPaid}
use order_billing_system.Order.Service.Requests.{Read, mark_order_paid_outcome}
use order_billing_system.Order.Grpc.{
  ProtoMoney, ProtoItem, ProtoOrder, map_proto_item, map_proto_items_domain, map_item_proto,
  map_error, to_reply, serve_create_order, serve_mark_order_paid,
}

-- The quantity of an item is an int32.
abbrev pub Sized : Option ProtoItem → Type 0
Sized none = Unit
Sized (some item) = IsInt32 item.quantity

item_round_trip :
    (item : Option ProtoItem) {d : OrderItem}
    → Sized item
    → map_proto_item item ≡ some d
    → some (map_item_proto d) ≡ item
item_round_trip none sized mapped = absurd (none-ne-some _ mapped)
item_round_trip (some item) {d} sized mapped = elim (Option-cases item.price) [
  | inl nil ↦ absurd (none-ne-some _ (rw (nil, map_proto_item) at mapped))
  | inr (m, there) ↦
      let same : d ≡ domain m = sym (some-injective _ _ (rw (there, map_proto_item) at mapped)) in
      rw (same, wrap32_id item.quantity sized)
        (ap (λ (p : Option ProtoMoney). some (record item { price = p })) (sym there))
]
  where
    domain : ProtoMoney → OrderItem
    domain m = record {
      product_id = item.product_id;
      quantity = item.quantity;
      price = record { amount = m.amount; currency = m.currency };
    }

map_proto_items_next :
    (item : Option ProtoItem) (items : List (Option ProtoItem)) {ds : List OrderItem}
    → map_proto_items_domain (item ∷ items) ≡ some ds
    → (d : OrderItem) × (others : List OrderItem) × (map_proto_item item ≡ some d)
      × (map_proto_items_domain items ≡ some others)
      × (ds ≡ d ∷ others)
unfolding map_proto_items_domain
map_proto_items_next item items {ds} mapped =
    joined (map_proto_item item) (map_proto_items_domain items) mapped
  where
    joined :
        (a : Option OrderItem) (b : Option (List OrderItem))
        → (elim a as (λ _. Option (List OrderItem)) [
          | none ↦ none
          | some d ↦ elim b [ none ↦ none | some others ↦ some (d ∷ others) ]
        ])
          ≡ some ds
        → (d : OrderItem) × (others : List OrderItem) × (a ≡ some d)
          × (b ≡ some others)
          × (ds ≡ d ∷ others)
    joined none b mapped = absurd (none-ne-some _ mapped)
    joined (some d) none mapped = absurd (none-ne-some _ mapped)
    joined (some d) (some others) mapped = (d, others, refl, refl, some-injective _ _ (sym mapped))

-- The items of a request that decodes are the items that the order made of them is sent with.
map_proto_items_round_trip :
    (items : List (Option ProtoItem)) (ds : List OrderItem)
    → All Sized items
    → map_proto_items_domain items ≡ some ds
    → map (λ d. some (map_item_proto d)) ds ≡ items
unfolding map_proto_items_domain
map_proto_items_round_trip [] ds sized mapped = rw (some-injective _ _ (sym mapped)) refl
map_proto_items_round_trip (item ∷ items) ds (fits, others_fit) mapped =
    let (d, others, first, rest, same) = map_proto_items_next item items mapped in
    rw same (
      ap (λ (x : Option ProtoItem). x ∷ map (λ d. some (map_item_proto d)) others)
        (item_round_trip item fits first)
      ∙ ap (λ (xs : List (Option ProtoItem)). item ∷ xs)
          (map_proto_items_round_trip items others others_fit rest))

-- The pointer to the item is nil, or that to its price.
abbrev pub LacksPrice : Option ProtoItem → Type 0
LacksPrice none = Unit
LacksPrice (some item) = item.price ≡ none

LacksPrice-nil : (item : Option ProtoItem) → LacksPrice item → map_proto_item item ≡ none
LacksPrice-nil none lacks = refl
LacksPrice-nil (some item) lacks = rw (lacks, map_proto_item) refl

nil-LacksPrice : (item : Option ProtoItem) → map_proto_item item ≡ none → LacksPrice item
nil-LacksPrice none nil = tt
nil-LacksPrice (some item) nil = elim (Option-cases item.price) [
  | inl lacks ↦ lacks
  | inr (m, there) ↦ absurd (none-ne-some _ (sym (rw (there, map_proto_item) at nil)))
]

map_proto_items_nil :
    (items : List (Option ProtoItem)) → Any LacksPrice items → map_proto_items_domain items ≡ none
unfolding map_proto_items_domain
map_proto_items_nil [] missing = elim missing [ ]
map_proto_items_nil (item ∷ items) (Any.here lacks) =
    rw (LacksPrice-nil item lacks, map_proto_items_domain) refl
map_proto_items_nil (item ∷ items) (Any.there others) =
    let rest = map_proto_items_nil items others in
    elim (Option-cases (map_proto_item item)) [
      | inl nil ↦ rw (nil, map_proto_items_domain) refl
      | inr (d, mapped) ↦ rw (mapped, map_proto_items_domain, rest) refl
    ]

nil_items-LacksPrice :
    (items : List (Option ProtoItem)) → map_proto_items_domain items ≡ none → Any LacksPrice items
unfolding map_proto_items_domain
nil_items-LacksPrice [] nil = absurd (none-ne-some _ (sym nil))
nil_items-LacksPrice (item ∷ items) nil = elim (Option-cases (map_proto_item item)) [
  | inl here ↦ Any.here (nil-LacksPrice item here)
  | inr (d, mapped) ↦ elim (Option-cases (map_proto_items_domain items)) [
    | inl others ↦ Any.there (nil_items-LacksPrice items others)
    | inr (ds, rest) ↦
        absurd (none-ne-some _ (sym (rw (mapped, map_proto_items_domain, rest) at nil)))
  ]
]

to_reply-returns : (r : Result Order) {reason : String} → to_reply r ≢ panics reason
to_reply-returns (ok order) e = cc
to_reply-returns (err x) e = cc

-- A CreateOrder request panics exactly when one of its items is nil or has no price, and then nothing
-- has changed.
pub serve_create_order_nil :
    (env : Environment) (s : OrderService) (items : List (Option ProtoItem)) (w : env.World)
    → ((reason : String)
        → (serve_create_order env s items w).0 ≡ panics reason
        → Any LacksPrice items)
      × (Any LacksPrice items
          → (reason : String) × (serve_create_order env s items w ≡ (panics reason, w)))
unfolding serve_create_order
serve_create_order_nil env s items w = (panicked, nil)
  where
    panicked :
        (reason : String)
        → (serve_create_order env s items w).0 ≡ panics reason
        → Any LacksPrice items
    panicked reason e = elim (Option-cases (map_proto_items_domain items)) [
      | inl none_mapped ↦ nil_items-LacksPrice items none_mapped
      | inr (ds, mapped) ↦
          absurd
            (to_reply-returns (create_order env s ds w).0 (rw (mapped, serve_create_order) at e))
    ]

    nil :
        Any LacksPrice items
        → (reason : String) × (serve_create_order env s items w ≡ (panics reason, w))
    nil missing = (
      "invalid memory address or nil pointer dereference",
      rw (map_proto_items_nil items missing, serve_create_order) refl,
    )

-- Each application error goes out under the status code of its kind.
map_error-code :
    (e : GoError)
    → (HasCode "ERR_NOT_FOUND" e → (map_error e).code ≡ not_found)
      × (HasCode "ERR_INVALID_INPUT" e → (map_error e).code ≡ invalid_argument)
      × (HasCode "ERR_INVALID_ORDER_STATE" e → (map_error e).code ≡ failed_precondition)
      × (HasCode "ERR_INTERNAL" e → (map_error e).code ≡ internal)
unfolding map_error as_app_error
map_error-code e = (
  (λ (a, same, code). rw (same, code) refl),
  (λ (a, same, code). rw (same, code) refl),
  (λ (a, same, code). rw (same, code) refl),
  (λ (a, same, code). rw (same, code) refl),
)

fails-injective : (r : Reply ProtoOrder) {a b : Status} → r ≡ fails a → r ≡ fails b → a ≡ b
fails-injective r e f = cc

responds-not-fails :
    (r : Reply ProtoOrder) {o : ProtoOrder} {st : Status} → r ≡ responds o → r ≢ fails st
responds-not-fails r e f = cc

module _ (env : Environment) (doc : Documented env) (s : OrderService) where
  -- Why a payment is answered by a status.
  abbrev pub Refused : String → env.World → Code → Type 0
  Refused id w code =
      ((code ≡ invalid_argument) × (id ≡ ""))
      ⊎ ((code ≡ not_found) × ((x : GoError) × ((env.first_order id w).0 ≡ err x)))
      ⊎ ((code ≡ failed_precondition)
          × Read env doc s id w (λ order. order.status ≢ order_status_created))
      ⊎ ((code ≡ internal) × Read env doc s id w (λ order. order.status ≡ order_status_created))

  Refused-code :
      (id : String) (w w' : env.World) (e : GoError)
      → (NotRead env doc id w e w'
          ⊎ Read env doc s id w (λ order. NotPaid env doc s (doc.tables w) order e w'))
      → (doc.tables w' ≡ doc.tables w) × Refused id w (map_error e).code
  Refused-code id w w' e h =
      let (missing_code, input_code, state_code, internal_error) = map_error-code e in
      elim h [
        | inl (why, kept) ↦ (
          kept,
          elim why [
            | inl (code, empty) ↦ inl (input_code code, empty)
            | inr (code, query_failed) ↦ inr (inl (missing_code code, query_failed))
          ],
        )
        | inr (order, row, own, (why, kept)) ↦ (
          kept,
          elim why [
            | inl (code, status) ↦ inr (inr (inl (state_code code, (order, row, own, status))))
            | inr (code, status) ↦ inr (inr (inr (internal_error code, (order, row, own, status))))
          ],
        )
      ]

  -- A payment that is answered by a status has changed nothing, and its code tells why: an empty id,
  -- a query that found no order or failed, an order that is not CREATED, or a failure while a CREATED
  -- one was written.
  pub serve_mark_order_paid-Refused :
      (id : String) (w : env.World) (st : Status)
      → (serve_mark_order_paid env s id w).0 ≡ fails st
      → (doc.tables (serve_mark_order_paid env s id w).1 ≡ doc.tables w) × Refused id w st.code
  unfolding serve_mark_order_paid
  serve_mark_order_paid-Refused id w st answered =
      elim (Result-cases (mark_order_paid env s id w).0) [
        | inl (order, done) ↦ absurd (responds-not-fails _ (ap to_reply done) answered)
        | inr (e, failed) ↦
            let same : map_error e ≡ st = fails-injective _ (ap to_reply failed) answered in
            rw same at
              (Refused-code id w _ e ((mark_order_paid_outcome env doc s id w).on_err e failed))
      ]
