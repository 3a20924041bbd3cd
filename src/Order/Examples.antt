-- ===== src/Order/Examples.antt =====
-- The theorems on order_service at concrete requests and tables.
use order_billing_system.Base.Tests.{◌⊎◌}
use order_billing_system.Shared.Effects.Contracts.{Ends}
use order_billing_system.Order.Environment.{Tables}
use order_billing_system.Order.Service.{create_order, mark_order_paid, cancel_order}
use order_billing_system.Order.Service.Reads.{NotRead}
use order_billing_system.Order.Service.Transitions.{Paid, NotPaid, Cancelled, NotCancelled}
use order_billing_system.Order.Service.Requests.{
  Read, Created, NotCreated, create_order_outcome, mark_order_paid_outcome, cancel_order_outcome,
}
use order_billing_system.Order.Samples.{
  sample_env, sample_doc, sample_service, sample_items, created_o1, empty_tables, tables_with,
}

abbrev before : Tables
before = tables_with created_o1

create_order_outcome_example :
    Ends
      (Created sample_env sample_doc sample_service empty_tables sample_items)
      (NotCreated sample_env sample_doc sample_service empty_tables sample_items)
      (create_order sample_env sample_service sample_items empty_tables)
unfolding sample_doc
create_order_outcome_example =
    create_order_outcome sample_env sample_doc sample_service sample_items empty_tables

mark_order_paid_outcome_example :
    Ends
      (λ changed w'.
        Read sample_env sample_doc sample_service "o-1" before
          (λ order. Paid sample_env sample_doc sample_service before order changed w'))
      (λ e w'.
        NotRead sample_env sample_doc "o-1" before e w'
        ⊎ Read sample_env sample_doc sample_service "o-1" before
            (λ order. NotPaid sample_env sample_doc sample_service before order e w'))
      (mark_order_paid sample_env sample_service "o-1" before)
unfolding sample_doc
mark_order_paid_outcome_example =
    mark_order_paid_outcome sample_env sample_doc sample_service "o-1" before

cancel_order_outcome_example :
    Ends
      (λ changed w'.
        Read sample_env sample_doc sample_service "o-1" before
          (λ order. Cancelled sample_env sample_doc sample_service before order changed w'))
      (λ e w'.
        NotRead sample_env sample_doc "o-1" before e w'
        ⊎ Read sample_env sample_doc sample_service "o-1" before
            (λ order. NotCancelled sample_env sample_doc sample_service before order e w'))
      (cancel_order sample_env sample_service "o-1" before)
unfolding sample_doc
cancel_order_outcome_example =
    cancel_order_outcome sample_env sample_doc sample_service "o-1" before
