-- ===== src/Order/CourseExamples.antt =====
-- The theorems on concurrent requests and on the course of an order at concrete requests.
use order_billing_system.Base.Tests.{◌==◌, ◌≡◌, ◌≢◌, refl, none, some, if◌then◌else◌}
use mathlib.Core.Option.{none-ne-some}
use order_billing_system.Base.Texts.{String}
use order_billing_system.Base.Lists.{List, [], ◌∷◌}
use order_billing_system.Shared.Effects.{ok}
use order_billing_system.Order.Model.{Order, order_status_created}
use order_billing_system.Order.Validation.{validate_items}
use order_billing_system.Order.Service.{create_order, pay, cancel, write_with_outbox}
use order_billing_system.Order.History.{Request, serve_all}
use order_billing_system.Order.History.Announced.{Consistent}
use order_billing_system.Order.Lifecycle.{Stage, absent, Course, Shows, event_types}
use order_billing_system.Order.Lifecycle.Refined.{serve_all-Course}
use order_billing_system.Order.Concurrent.{
  paying, cancelling, Server, Action, creates, reads_to_pay, reads_to_cancel, writes, run,
}
use order_billing_system.Order.Concurrent.Rows.{run-Consistent}
use order_billing_system.Order.Concurrent.Kept.{run-keeps_order}
use order_billing_system.Order.Concurrent.Race.{PaidAndCancelled, run_lost_payment}
use order_billing_system.Order.Samples.{
  sample_env, sample_doc, sample_service, sample_items, created_o1, empty_tables, tables_with,
}

abbrev requests : List Request
requests = Request.creates sample_items ∷ Request.pays "o-1" ∷ Request.cancels "o-1" ∷ []

serve_all-Course_example :
    (st' : Stage) × Course absent st'
    × Shows "o-1" st' (serve_all sample_env sample_service requests empty_tables)
unfolding sample_doc event_types
serve_all-Course_example =
    serve_all-Course sample_env sample_doc sample_service "o-1" requests empty_tables absent
      ((λ o done. refl), (tt, (tt, tt))) (record { row = refl; events = refl })

-- A payment and a cancellation that both read before either writes, and a creation that is refused.
abbrev actions : List Action
actions = reads_to_pay 0 "o-1" ∷ reads_to_cancel 1 "o-1" ∷ writes 0 ∷ creates [] ∷ writes 1 ∷ []

abbrev idle_server : Server sample_env
idle_server = record { world = tables_with created_o1; running = λ i. none }

no_items :
    (w : sample_env.World) (o : Order) → (create_order sample_env sample_service [] w).0 ≢ ok o
unfolding create_order validate_items
no_items w o done = cc

run-keeps_order_example :
    (o : Order) × ((run sample_env sample_service actions idle_server).world.orders "o-1" ≡ some o)
    × ((status : String) × (o ≡ record created_o1 { status = status }))
    × (created_o1.status ≢ order_status_created → o.status ≢ order_status_created)
unfolding sample_doc
run-keeps_order_example =
    run-keeps_order sample_env sample_doc sample_service created_o1 actions idle_server (λ i. refl)
      (tt, (tt, (tt, ((λ o done. absurd (no_items _ o done)), (tt, tt))))) refl

abbrev empty_server : Server sample_env
empty_server = record { world = empty_tables; running = λ i. none }

nothing-Consistent : Consistent empty_tables
nothing-Consistent = record {
  keyed = λ id o found. cc;
  announced = λ id o found. absurd (none-ne-some o found);
}

run-Consistent_example :
    Consistent (run sample_env sample_service (creates sample_items ∷ actions) empty_server).world
unfolding sample_doc
run-Consistent_example =
    run-Consistent sample_env sample_doc sample_service (creates sample_items ∷ actions)
      empty_server nothing-Consistent

abbrev both_read : Server sample_env
both_read = record {
  world = tables_with created_o1;
  running = λ i. if i == 0 then some (paying created_o1) else some (cancelling created_o1);
}

run_lost_payment_example :
    PaidAndCancelled sample_env sample_doc sample_service created_o1
      (run sample_env sample_service (writes 0 ∷ writes 1 ∷ []) both_read).world
unfolding pay cancel write_with_outbox
run_lost_payment_example =
    run_lost_payment sample_env sample_doc sample_service 0 1 created_o1 both_read refl refl refl
      refl refl refl
