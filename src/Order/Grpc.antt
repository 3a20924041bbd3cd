-- ===== src/Order/Grpc.antt =====
-- order_service/internal/grpc: mapper.go and server.go.
pub mod Replies
use order_billing_system.Base.Tests.{ℕ, ◌+◌, ◌-◌, ◌%◌, ◌^◌, Option, none, some, ltb, if◌then◌else◌}
use order_billing_system.Base.Texts.{String, str_eq}
use order_billing_system.Base.Lists.{List, [], ◌∷◌, map}
use order_billing_system.Base.Integers.{ℤ, pos, negsuc, wrap32}
use order_billing_system.Shared.Errors.{GoError, AppError, as_app_error, error_text}
use order_billing_system.Shared.Effects.{Time, Result, ok, err}
use order_billing_system.Shared.Grpc.{
  Code, invalid_argument, not_found, failed_precondition, internal, Status, Reply, responds, fails,
  panics,
}
use order_billing_system.Order.Model.{
  OrderItem, Order, order_status_created, order_status_paid, order_status_cancelled,
}
use order_billing_system.Order.Environment.{Environment}
use order_billing_system.Order.Service.{
  OrderService, create_order, get_order, mark_order_paid, cancel_order,
}

-- The messages of proto/order.proto; a pointer may be nil.
pub record ProtoMoney : Type 0 where
  pub amount : ℤ
  pub currency : String

-- `Quantity` is an int32.
pub record ProtoItem : Type 0 where
  pub product_id : String
  pub quantity : ℤ
  pub price : Option ProtoMoney

pub data ProtoStatus : Type 0 where
  status_unspecified status_created status_paid status_cancelled : ProtoStatus

pub record ProtoOrder : Type 0 where
  pub id : String
  pub items : List ProtoItem
  pub total_price : ProtoMoney
  pub status : ProtoStatus
  pub created_at : Time

-- One round of the loop of `mapProtoItemsDomain`: a nil item or price panics.
abbrev pub map_proto_item : Option ProtoItem → Option OrderItem
map_proto_item none = none
map_proto_item (some item) = elim item.price [
  | none ↦ none
  | some price ↦ some (record {
    product_id = item.product_id;
    quantity = item.quantity;
    price = record { amount = price.amount; currency = price.currency };
  })
]

-- `mapProtoItemsDomain`; none is a panic.
unfoldable pub map_proto_items_domain : List (Option ProtoItem) → Option (List OrderItem)
map_proto_items_domain [] = some []
map_proto_items_domain (item ∷ items) =
    let rest = map_proto_items_domain items in
    elim (map_proto_item item) [
      | none ↦ none
      | some first ↦ elim rest [ none ↦ none | some others ↦ some (first ∷ others) ]
    ]

unfoldable pub map_order_status_to_proto : String → ProtoStatus
map_order_status_to_proto status =
    if str_eq status order_status_created
    then status_created
    else if str_eq status order_status_paid
    then status_paid
    else if str_eq status order_status_cancelled
    then status_cancelled
    else status_unspecified

abbrev pub map_item_proto : OrderItem → ProtoItem
map_item_proto item = record {
  product_id = item.product_id;
  quantity = wrap32 item.quantity;
  price = some (record { amount = item.price.amount; currency = item.price.currency });
}

-- `mapProtoItemsProto`
unfoldable pub map_proto_items_proto : Order → ProtoOrder
unfolding map_order_status_to_proto
map_proto_items_proto order = record {
  id = order.id;
  items = map map_item_proto order.items;
  total_price = record { amount = order.total.amount; currency = order.total.currency };
  status = map_order_status_to_proto order.status;
  created_at = order.created_at;
}

unfoldable pub map_error : GoError → Status
map_error e = elim (as_app_error e) [
  | none ↦ record { code = internal; message = error_text e }
  | some app_err ↦
      if str_eq app_err.code "ERR_NOT_FOUND"
      then record { code = not_found; message = app_err.message }
      else if str_eq app_err.code "ERR_INVALID_INPUT"
      then record { code = invalid_argument; message = app_err.message }
      else if str_eq app_err.code "ERR_INVALID_ORDER_STATE"
      then record { code = failed_precondition; message = app_err.message }
      else record { code = internal; message = error_text e }
]

abbrev pub to_reply : Result Order → Reply ProtoOrder
to_reply (ok order) = responds (map_proto_items_proto order)
to_reply (err e) = fails (map_error e)

module _ (env : Environment) (s : OrderService) where
  -- The four methods of `OrderGRPCServer`; a response holds its order.
  unfoldable pub serve_create_order :
      List (Option ProtoItem) → env.World → Reply ProtoOrder × env.World
  unfolding map_proto_items_domain map_proto_items_proto map_error
  serve_create_order items w = elim (map_proto_items_domain items) [
    | none ↦ (panics "invalid memory address or nil pointer dereference", w)
    | some domain_items ↦ let (r, w') = create_order env s domain_items w in (to_reply r, w')
  ]

  unfoldable pub serve_get_order : String → env.World → Reply ProtoOrder × env.World
  serve_get_order id w = let (r, w') = get_order env s id w in (to_reply r, w')

  unfoldable pub serve_mark_order_paid : String → env.World → Reply ProtoOrder × env.World
  serve_mark_order_paid id w = let (r, w') = mark_order_paid env s id w in (to_reply r, w')

  unfoldable pub serve_cancel_order : String → env.World → Reply ProtoOrder × env.World
  serve_cancel_order id w = let (r, w') = cancel_order env s id w in (to_reply r, w')
