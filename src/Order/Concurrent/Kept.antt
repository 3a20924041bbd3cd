-- ===== src/Order/Concurrent/Kept.antt =====
-- What no interleaving of requests does to an order.
use order_billing_system.Base.Tests.{ℕ, ◌≡◌, ◌≢◌, refl, sym, ◌∙◌, ap, inl, inr, none, some, Option}
use mathlib.Core.Option.{some-injective, none-ne-some}
use order_billing_system.Base.Texts.{String}
use order_billing_system.Base.Lists.{List, [], ◌∷◌}
use order_billing_system.Shared.Effects.{ok, Result-cases}
use order_billing_system.Shared.Goroutines.{Every, set-Every, stop-Every, idle-Every}
use order_billing_system.Order.Model.{
  Order, OrderItem, order_status_created, order_status_paid, order_status_cancelled,
}
use order_billing_system.Order.Environment.{Environment, Tables, Documented}
use order_billing_system.Order.Service.{OrderService, create_order, get_order}
use order_billing_system.Order.Service.Reads.{get_order_outcome}
use order_billing_system.Order.History.Final.{distinct}
use order_billing_system.Order.History.Announced.{get_order_keeps}
use order_billing_system.Order.Concurrent.{
  InFlight, paying, cancelling, read_order, Server, Action, creates, reads_to_pay, reads_to_cancel,
  writes, began, start, finish, act, run,
}
use order_billing_system.Order.Concurrent.Rows.{
  Settles, row_of, Overwrites, pay_row, cancel_row, create_row,
}

-- The orders differ in their status only.
abbrev pub SameOrder : Order → Order → Type 0
SameOrder a b = (status : String) × (b ≡ record a { status = status })

-- An order that has left CREATED has not come back.
abbrev pub Onward : Order → Order → Type 0
Onward a b = a.status ≢ order_status_created → b.status ≢ order_status_created

settled_not_created :
    (o changed : Order) → Settles o changed → changed.status ≢ order_status_created
settled_not_created o changed (inl e) created =
    distinct.0 (ap (λ (x : Order). x.status) (sym e) ∙ created)
settled_not_created o changed (inr e) created =
    distinct.1 (ap (λ (x : Order). x.status) (sym e) ∙ created)

settled_same : (a o changed : Order) → SameOrder a o → Settles o changed → SameOrder a changed
settled_same a o changed (st, same) (inl e) =
    (order_status_paid, e ∙ ap (λ (x : Order). record x { status = order_status_paid }) same)
settled_same a o changed (st, same) (inr e) = (
  order_status_cancelled,
  e ∙ ap (λ (x : Order). record x { status = order_status_cancelled }) same,
)

module _ (env : Environment) (doc : Documented env) (s : OrderService) where
  -- The id of a created order is that of no row.
  abbrev pub IsNew : Action → Server env → Type 0
  IsNew (creates items) sv =
      (o : Order)
      → (create_order env s items sv.world).0 ≡ ok o
      → row_of env doc s sv.world o.id ≡ none
  IsNew (reads_to_pay i id) sv = Unit
  IsNew (reads_to_cancel i id) sv = Unit
  IsNew (writes i) sv = Unit

  abbrev pub NewIds : List Action → Server env → Type 0
  NewIds [] sv = Unit
  NewIds (action ∷ actions) sv = IsNew action sv × NewIds actions (act env s action sv)

module _ (env : Environment) (doc : Documented env) (s : OrderService) (a : Order) where
  abbrev pub Stands : env.World → Type 0
  Stands w = (o : Order) × (row_of env doc s w a.id ≡ some o) × SameOrder a o × Onward a o

  abbrev ReadSame : InFlight → Type 0
  ReadSame p = (read_order p).id ≡ a.id → SameOrder a (read_order p)

  -- The row of `a`, and whatever a request has read of it, differ from `a` in the status only.
  record Kept (sv : Server env) : Type 0 where
    row : Stands sv.world
    flight : Every ReadSame sv.running

  same_row :
      (w w' : env.World) → Stands w → row_of env doc s w' a.id ≡ row_of env doc s w a.id → Stands w'
  same_row w w' (o, found, kept, onward) same = (o, same ∙ found, kept, onward)

  overwritten :
      (o : Order) (w w' : env.World)
      → Stands w
      → (o.id ≡ a.id → SameOrder a o)
      → Overwrites env doc s o a.id w w'
      → Stands w'
  overwritten o w w' h read (inl same) = same_row w w' h same
  overwritten o w w' h read (inr (changed, settled, own, found)) = (
    changed,
    found,
    settled_same a o changed (read own) settled,
    λ left. settled_not_created o changed settled,
  )

  begun_order :
      (kind : Order → InFlight) (id : String) (w : env.World) (p : InFlight)
      → ((o : Order) → read_order (kind o) ≡ o)
      → Stands w
      → began kind (get_order env s id w).0 ≡ some p
      → ReadSame p
  begun_order kind id w p reads (o, found, same, _) begun own =
      let outcome = get_order_outcome env doc s id w in
      elim (Result-cases (get_order env s id w).0) [
        | inl (x, done) ↦
            let (row, key, _) = outcome.on_ok x done in
            let taken : kind x ≡ p = some-injective _ _ (ap (began kind) (sym done) ∙ begun) in
            let read : read_order p ≡ x = ap read_order (sym taken) ∙ reads x in
            let here : id ≡ a.id = sym key ∙ ap (λ (y : Order). y.id) (sym read) ∙ own in
            let there : x ≡ o =
              some-injective _ _ (sym row ∙ ap (doc.tables w).orders here ∙ found) in
            rw (read ∙ there) same
        | inr (e, failed) ↦ absurd (none-ne-some p (ap (began kind) (sym failed) ∙ begun))
      ]

  start-Kept :
      (kind : Order → InFlight) (i : ℕ) (id : String) (sv : Server env)
      → ((o : Order) → read_order (kind o) ≡ o)
      → Kept sv
      → Kept (start env s kind i id sv)
  unfolding start
  start-Kept kind i id sv reads h = record {
    row =
        same_row sv.world _ h.row
          (ap (λ (t : Tables). t.orders a.id) (get_order_keeps env doc s id sv.world));
    flight =
        set-Every ReadSame sv.running i (began kind (get_order env s id sv.world).0) h.flight
          (λ p. begun_order kind id sv.world p reads h.row);
  }

  finish-Kept :
      (q : Option InFlight) (i : ℕ) (sv : Server env)
      → sv.running i ≡ q
      → Kept sv
      → Kept (finish env s q i sv)
  unfolding finish
  finish-Kept none i sv here h = h
  finish-Kept (some (paying o)) i sv here h = record {
    row =
        overwritten o sv.world _ h.row (h.flight i (paying o) here)
          (pay_row env doc s o a.id sv.world);
    flight = stop-Every ReadSame sv.running i h.flight;
  }
  finish-Kept (some (cancelling o)) i sv here h = record {
    row =
        overwritten o sv.world _ h.row (h.flight i (cancelling o) here)
          (cancel_row env doc s o a.id sv.world);
    flight = stop-Every ReadSame sv.running i h.flight;
  }

  created_beside :
      (items : List OrderItem) (sv : Server env)
      → IsNew env doc s (creates items) sv
      → Stands sv.world
      → Stands (create_order env s items sv.world).1
  created_beside items sv new h = elim (create_row env doc s items a.id sv.world) [
    | inl same ↦ same_row sv.world _ h same
    | inr (o, done, _, own) ↦
        absurd (none-ne-some h.0 (sym (new o done) ∙ ap (doc.tables sv.world).orders own ∙ h.1))
  ]

  act-Kept :
      (action : Action) (sv : Server env)
      → IsNew env doc s action sv
      → Kept sv
      → Kept (act env s action sv)
  unfolding act
  act-Kept (creates items) sv new h = record {
    row = created_beside items sv new h.row;
    flight = h.flight;
  }
  act-Kept (reads_to_pay i id) sv new h = start-Kept paying i id sv (λ o. refl) h
  act-Kept (reads_to_cancel i id) sv new h = start-Kept cancelling i id sv (λ o. refl) h
  act-Kept (writes i) sv new h = finish-Kept (sv.running i) i sv refl h

  run-Kept :
      (actions : List Action) (sv : Server env)
      → NewIds env doc s actions sv
      → Kept sv
      → Kept (run env s actions sv)
  unfolding run
  run-Kept [] sv new h = h
  run-Kept (action ∷ actions) sv (new, later) h =
      run-Kept actions (act env s action sv) later (act-Kept action sv new h)

  -- In whatever order concurrent requests read and write, an order is never removed, keeps all but
  -- its status, and does not come back to CREATED, if no created order gets an id that is taken.
  pub run-keeps_order :
      (actions : List Action) (sv : Server env)
      → ((i : ℕ) → sv.running i ≡ none)
      → NewIds env doc s actions sv
      → (doc.tables sv.world).orders a.id ≡ some a
      → (o : Order) × ((doc.tables (run env s actions sv).world).orders a.id ≡ some o)
        × ((status : String) × (o ≡ record a { status = status }))
        × (a.status ≢ order_status_created → o.status ≢ order_status_created)
  run-keeps_order actions sv idle new found =
      (run-Kept actions sv new (record {
        row = (a, found, (a.status, refl), λ left. left);
        flight = idle-Every ReadSame sv.running idle;
      })).row
