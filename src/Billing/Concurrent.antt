-- ===== src/Billing/Concurrent.antt =====
-- The consumers of billing_service at the same time. billing_service/internal/app/app.go starts one
-- for each topic, so that the handlers of billing_service/internal/service/billing.go may run between
-- one another's read and write. A schedule lists the reads and the writes in the order in which they
-- take place.
pub mod Rows
pub mod Onward
pub mod Kept
pub mod Race
use order_billing_system.Base.Tests.{ℕ, ◌==◌, Option, none, some, if◌then◌else◌}
use order_billing_system.Base.Lists.{List, [], ◌∷◌}
use order_billing_system.Shared.Effects.{Result, ok, err}
use order_billing_system.Shared.Goroutines.{set_running}
use order_billing_system.Billing.Model.{
  Invoice, OrderCreatedEvent, OrderPaidEvent, OrderCancelledEvent,
}
use order_billing_system.Billing.Environment.{Environment}
use order_billing_system.Billing.Repository.{get}
use order_billing_system.Billing.Service.{create_for, find_invoice, pay, cancel}

-- A handler between its read and its write, with the invoice that it has read; a creation has read
-- none.
pub data InFlight : Type 0 where
  creating : OrderCreatedEvent → InFlight
  paying : OrderPaidEvent → Invoice → InFlight
  cancelling : OrderCancelledEvent → Invoice → InFlight

pub record Service (env : Environment) : Type 0 where
  pub world : env.World
  pub running : ℕ → Option InFlight

pub data Action : Type 0 where
  reads_to_create : ℕ → OrderCreatedEvent → Action
  reads_to_pay : ℕ → OrderPaidEvent → Action
  reads_to_cancel : ℕ → OrderCancelledEvent → Action
  writes : ℕ → Action

-- A creation that finds an invoice is done; a change that finds none ends in an error.
abbrev pub unless_found : InFlight → Result Invoice → Option InFlight
unless_found p (ok inv) = none
unless_found p (err e) = some p

abbrev pub if_found : (Invoice → InFlight) → Result Invoice → Option InFlight
if_found kind (ok inv) = some (kind inv)
if_found kind (err e) = none

module _ (env : Environment) where
  unfoldable pub finish : Option InFlight → ℕ → Service env → Service env
  finish none i sv = sv
  finish (some (creating event)) i sv = record {
    world = (create_for env event sv.world).1;
    running = set_running sv.running i none;
  }
  finish (some (paying event inv)) i sv = record {
    world = (pay env event inv sv.world).1;
    running = set_running sv.running i none;
  }
  finish (some (cancelling event inv)) i sv = record {
    world = (cancel env event inv sv.world).1;
    running = set_running sv.running i none;
  }

  unfoldable pub act : Action → Service env → Service env
  unfolding finish
  act (reads_to_create i event) sv = record {
    world = (get env event.order_id sv.world).1;
    running =
        set_running sv.running i
          (unless_found (creating event) (get env event.order_id sv.world).0);
  }
  act (reads_to_pay i event) sv = record {
    world = (find_invoice env event.order_id sv.world).1;
    running =
        set_running sv.running i
          (if_found (paying event) (find_invoice env event.order_id sv.world).0);
  }
  act (reads_to_cancel i event) sv = record {
    world = (find_invoice env event.order_id sv.world).1;
    running =
        set_running sv.running i
          (if_found (cancelling event) (find_invoice env event.order_id sv.world).0);
  }
  act (writes i) sv = finish (sv.running i) i sv

  unfoldable pub run : List Action → Service env → Service env
  run [] sv = sv
  run (action ∷ actions) sv = run actions (act action sv)
