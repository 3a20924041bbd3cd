-- ===== src/Pipeline/Stages.antt =====
-- The stage of an order and the status of its invoice in billing_service.
use order_billing_system.Base.Tests.{◌≡◌, ◌≢◌, Option, none, some, arith}
use order_billing_system.Base.Texts.{String, eq_iff}
use order_billing_system.Base.Lists.{List, [], ◌∷◌, ◌++◌}
use order_billing_system.Order.Model.{event_order_created, event_order_paid, event_order_cancelled}
use order_billing_system.Order.Lifecycle.{
  Stage, absent, open_order, paid_order, cancelled_order, announced,
}
use order_billing_system.Billing.Model.{
  Invoice, invoice_status_pending, invoice_status_paid, invoice_status_cancelled,
}

abbrev pub Billed : Option Invoice → String → Type 0
Billed row status = (inv : Invoice) × (row ≡ some inv) × (inv.status ≡ status)

-- What the invoice of an order should be in each stage.
abbrev pub Tracks : Stage → Option Invoice → Type 0
Tracks absent row = row ≡ none
Tracks open_order row = Billed row invoice_status_pending
Tracks paid_order row = Billed row invoice_status_paid
Tracks cancelled_order row = Billed row invoice_status_cancelled

-- The event that leads from one stage to the next.
pub data Leads : Stage → String → Stage → Type 0 where
  opens : {ev_type : String} → ev_type ≡ event_order_created → Leads absent ev_type open_order
  pays : {ev_type : String} → ev_type ≡ event_order_paid → Leads open_order ev_type paid_order
  cancels :
      {ev_type : String}
      → ev_type ≡ event_order_cancelled
      → Leads open_order ev_type cancelled_order

-- What follows the events that lead to a stage, on the way to a later one.
abbrev pub Follows : Stage → String → List String → Stage → Type 0
Follows st ev_type rest last =
    (st' : Stage) × Leads st ev_type st' × (announced st' ++ rest ≡ announced last)

pub next_stage :
    (st last : Stage) (ev_type : String) (rest : List String)
    → announced st ++ ev_type ∷ rest ≡ announced last
    → Follows st ev_type rest last
next_stage absent absent ev_type rest e = absurd (cc)
next_stage absent open_order ev_type rest e = (open_order, opens (cc), cc)
next_stage absent paid_order ev_type rest e = (open_order, opens (cc), cc)
next_stage absent cancelled_order ev_type rest e = (open_order, opens (cc), cc)
next_stage open_order absent ev_type rest e = absurd (cc)
next_stage open_order open_order ev_type rest e = absurd (cc)
next_stage open_order paid_order ev_type rest e = (paid_order, pays (cc), cc)
next_stage open_order cancelled_order ev_type rest e = (cancelled_order, cancels (cc), cc)
next_stage paid_order absent ev_type rest e = absurd (cc)
next_stage paid_order open_order ev_type rest e = absurd (cc)
next_stage paid_order paid_order ev_type rest e = absurd (cc)
next_stage paid_order cancelled_order ev_type rest e = absurd (cc)
next_stage cancelled_order absent ev_type rest e = absurd (cc)
next_stage cancelled_order open_order ev_type rest e = absurd (cc)
next_stage cancelled_order paid_order ev_type rest e = absurd (cc)
next_stage cancelled_order cancelled_order ev_type rest e = absurd (cc)

-- Only the stage itself has its events and no more.
pub last_stage :
    (st last : Stage) (row : Option Invoice)
    → announced st ++ [] ≡ announced last
    → Tracks st row
    → Tracks last row
last_stage absent absent row e h = h
last_stage open_order open_order row e h = h
last_stage paid_order paid_order row e h = h
last_stage cancelled_order cancelled_order row e h = h
last_stage absent open_order row e h = absurd (cc)
last_stage absent paid_order row e h = absurd (cc)
last_stage absent cancelled_order row e h = absurd (cc)
last_stage open_order absent row e h = absurd (cc)
last_stage open_order paid_order row e h = absurd (cc)
last_stage open_order cancelled_order row e h = absurd (cc)
last_stage paid_order absent row e h = absurd (cc)
last_stage paid_order open_order row e h = absurd (cc)
last_stage paid_order cancelled_order row e h = absurd (cc)
last_stage cancelled_order absent row e h = absurd (cc)
last_stage cancelled_order open_order row e h = absurd (cc)
last_stage cancelled_order paid_order row e h = absurd (cc)

pub types_differ :
    (event_order_created ≢ event_order_paid)
    × (event_order_created ≢ event_order_cancelled)
    × (event_order_paid ≢ event_order_cancelled)
types_differ = (
  (λ e. ground (arith, eq_iff event_order_created event_order_paid)),
  (λ e. ground (arith, eq_iff event_order_created event_order_cancelled)),
  (λ e. ground (arith, eq_iff event_order_paid event_order_cancelled)),
)
