-- ===== src/Order/Concurrent.antt =====
-- Requests to order_service that are served at the same time. The gRPC server of
-- order_service/internal/app/app.go runs each call in a goroutine of its own; between the read of
-- `MarkOrderPaid` or `CancelOrder` (order_service/internal/service/order.go) and its transaction
-- others may read and write. A schedule lists these two halves, and whole creations, in the order in
-- which they take place.
pub mod Rows
pub mod Kept
pub mod Race
use order_billing_system.Base.Tests.{ℕ, ◌==◌, Option, none, some, if◌then◌else◌}
use order_billing_system.Base.Texts.{String}
use order_billing_system.Base.Lists.{List, [], ◌∷◌}
use order_billing_system.Shared.Effects.{Result, ok, err, Act}
use order_billing_system.Shared.Goroutines.{set_running}
use order_billing_system.Order.Model.{Order, OrderItem}
use order_billing_system.Order.Environment.{Environment}
use order_billing_system.Order.Service.{OrderService, create_order, get_order, pay, cancel}

-- A request between its read and its write, with the order that it has read.
pub data InFlight : Type 0 where
  paying cancelling : Order → InFlight

abbrev pub read_order : InFlight → Order
read_order (paying o) = o
read_order (cancelling o) = o

pub record Server (env : Environment) : Type 0 where
  pub world : env.World
  pub running : ℕ → Option InFlight

-- What takes place next, with the goroutine that does it.
pub data Action : Type 0 where
  creates : List OrderItem → Action
  reads_to_pay reads_to_cancel : ℕ → String → Action
  writes : ℕ → Action

-- A read that fails ends its request.
abbrev pub began : (Order → InFlight) → Result Order → Option InFlight
began kind (ok o) = some (kind o)
began kind (err e) = none

module _ (env : Environment) (s : OrderService) where
  unfoldable pub start : (Order → InFlight) → ℕ → String → Server env → Server env
  start kind i id sv =
      let (r, w') = get_order env s id sv.world in
      record { world = w'; running = set_running sv.running i (began kind r) }

  unfoldable pub finish : Option InFlight → ℕ → Server env → Server env
  finish none i sv = sv
  finish (some (paying o)) i sv = record {
    world = (pay env s o sv.world).1;
    running = set_running sv.running i none;
  }
  finish (some (cancelling o)) i sv = record {
    world = (cancel env s o sv.world).1;
    running = set_running sv.running i none;
  }

  unfoldable pub act : Action → Server env → Server env
  unfolding start finish
  act (creates items) sv = record sv { world = (create_order env s items sv.world).1 }
  act (reads_to_pay i id) sv = start paying i id sv
  act (reads_to_cancel i id) sv = start cancelling i id sv
  act (writes i) sv = finish (sv.running i) i sv

  unfoldable pub run : List Action → Server env → Server env
  run [] sv = sv
  run (action ∷ actions) sv = run actions (act action sv)
