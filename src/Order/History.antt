-- ===== src/Order/History.antt =====
-- Requests to order_service one after the other, and what they make of the tables together.
pub mod Announced
pub mod Final
use order_billing_system.Base.Texts.{String}
use order_billing_system.Base.Lists.{List, [], ◌∷◌}
use order_billing_system.Order.Model.{OrderItem}
use order_billing_system.Order.Environment.{Environment}
use order_billing_system.Order.Service.{OrderService, create_order, mark_order_paid, cancel_order}

-- The three methods that write, with their arguments.
pub data Request : Type 0 where
  creates : List OrderItem → Request
  pays cancels : String → Request

module _ (env : Environment) (s : OrderService) where
  -- What a request leaves behind, whatever it answers.
  unfoldable pub serve : Request → env.World → env.World
  serve (creates items) w = (create_order env s items w).1
  serve (pays id) w = (mark_order_paid env s id w).1
  serve (cancels id) w = (cancel_order env s id w).1

  unfoldable pub serve_all : List Request → env.World → env.World
  serve_all [] w = w
  serve_all (request ∷ requests) w = serve_all requests (serve request w)
