-- ===== src/Order/Lifecycle/Advances.antt =====
-- How a committed change moves an order along its course, and the outbox along with it.
use order_billing_system.Base.Tests.{
  ◌≡◌, ◌≢◌, refl, sym, ◌∙◌, ap, none, some, Option, Bool, true, false, if◌then◌else◌, arith,
}
use mathlib.Core.Option.{some-injective, none-ne-some}
use order_billing_system.Base.Texts.{String, str_eq, eq_iff}
use order_billing_system.Base.Lists.{List, [], ◌∷◌, ◌++◌}
use order_billing_system.Order.Model.{
  Order, OutboxEvent, order_status_created, order_status_paid, order_status_cancelled,
  event_order_created, event_order_paid, event_order_cancelled,
}
use order_billing_system.Order.Environment.{Tables}
use order_billing_system.Order.Service.Writes.{commit_rows}
use order_billing_system.Order.History.Final.{distinct}
use order_billing_system.Order.Lifecycle
use order_billing_system.Order.Lifecycle.{
  Stage, absent, open_order, paid_order, cancelled_order, Next, stays, opens, Course, ends, steps,
  announced, HasStatus, Matches, event_types, Shows,
}

event_types-append :
    (k : String) (rows : List OutboxEvent) (row : OutboxEvent)
    → event_types k (rows ++ row ∷ []) ≡ (
        if str_eq row.order_id k
        then event_types k rows ++ row.event_type ∷ []
        else event_types k rows)
unfolding event_types
event_types-append k [] row = refl
event_types-append k (x ∷ rows) row = ground (arith, event_types-append k rows row)

-- An order is written in the stage that follows, together with the event that leads there.
abbrev pub Advances : Stage → Order → String → Type 0
Advances st order ev_type =
    (st' : Stage) × Next st st'
    × Matches st' (some order)
    × (announced st ++ ev_type ∷ [] ≡ announced st')

has_one_status :
    {row : Option Order} {order : Order} {status : String}
    → HasStatus row status
    → row ≡ some order
    → order.status ≡ status
has_one_status (o, here, named) there =
    ap (λ (x : Order). x.status) (some-injective _ _ (sym there ∙ here)) ∙ named

pub open-Advances :
    (st : Stage) (row : Option Order) (order : Order)
    → Matches st row
    → row ≡ none
    → order.status ≡ order_status_created
    → Advances st order event_order_created
open-Advances absent row order h new status = (open_order, opens, (order, refl, status), refl)
open-Advances open_order row order h new status = absurd (none-ne-some h.0 (sym new ∙ h.1))
open-Advances paid_order row order h new status = absurd (none-ne-some h.0 (sym new ∙ h.1))
open-Advances cancelled_order row order h new status = absurd (none-ne-some h.0 (sym new ∙ h.1))

pub pay-Advances :
    (st : Stage) (row : Option Order) (order changed : Order)
    → Matches st row
    → row ≡ some order
    → order.status ≡ order_status_created
    → changed.status ≡ order_status_paid
    → Advances st changed event_order_paid
pay-Advances absent row order changed h found created paid =
    absurd (none-ne-some order (sym h ∙ found))
pay-Advances open_order row order changed h found created paid =
    (paid_order, Lifecycle.pays, (changed, refl, paid), refl)
pay-Advances paid_order row order changed h found created paid =
    absurd (distinct.0 (sym (has_one_status h found) ∙ created))
pay-Advances cancelled_order row order changed h found created paid =
    absurd (distinct.1 (sym (has_one_status h found) ∙ created))

pub cancel-Advances :
    (st : Stage) (row : Option Order) (order changed : Order)
    → Matches st row
    → row ≡ some order
    → order.status ≢ order_status_paid
    → order.status ≢ order_status_cancelled
    → changed.status ≡ order_status_cancelled
    → Advances st changed event_order_cancelled
cancel-Advances absent row order changed h found unpaid uncancelled named =
    absurd (none-ne-some order (sym h ∙ found))
cancel-Advances open_order row order changed h found unpaid uncancelled named =
    (cancelled_order, Lifecycle.cancels, (changed, refl, named), refl)
cancel-Advances paid_order row order changed h found unpaid uncancelled named =
    absurd (unpaid (has_one_status h found))
cancel-Advances cancelled_order row order changed h found unpaid uncancelled named =
    absurd (uncancelled (has_one_status h found))

module _ (k : String) (st : Stage) where
  -- One step on, or none.
  abbrev pub Moved : Tables → Type 0
  Moved t = (st' : Stage) × Next st st' × Shows k st' t

  pub commit-Moved :
      (order : Order) (row : OutboxEvent) (t : Tables) {ev_type : String}
      → Shows k st t
      → row.order_id ≡ order.id
      → row.event_type ≡ ev_type
      → (order.id ≡ k → Advances st order ev_type)
      → Moved (commit_rows order row t)
  commit-Moved order row t {ev_type} h own named advances =
      pick (str_eq order.id k) (eq_iff order.id k).0
        (event_types-append k t.outbox row
          ∙ ap
              (λ (id : String).
                if str_eq id k
                then event_types k t.outbox ++ row.event_type ∷ []
                else event_types k t.outbox)
              own)
        refl
    where
      pick :
          (b : Bool)
          → (b ≡ true → order.id ≡ k)
          → event_types k (t.outbox ++ row ∷ [])
            ≡ (if b then event_types k t.outbox ++ row.event_type ∷ [] else event_types k t.outbox)
          → (commit_rows order row t).orders k ≡ (if b then some order else t.orders k)
          → Moved (commit_rows order row t)
      pick true here events written =
          let (st', next, matches, leads) = advances (here refl) in
          (
            st',
            next,
            record { row = rw written matches; events = events ∙ rw (h.events, named) leads },
          )
      pick false other events written =
          (st, stays, record { row = rw written h.row; events = events ∙ h.events })
