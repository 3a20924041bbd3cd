-- ===== src/Billing/Concurrent/Kept.antt =====
-- What no interleaving of the handlers does to an invoice.
use order_billing_system.Base.Tests.{ℕ, ◌≡◌, ◌≢◌, refl, sym, ◌∙◌, ap, inl, inr, none, some, Option}
use mathlib.Core.Option.{some-injective, none-ne-some}
use mathlib.Core.Path.{subst}
use order_billing_system.Base.Texts.{String}
use order_billing_system.Base.Lists.{List, [], ◌∷◌}
use order_billing_system.Shared.Effects.{Time, Result, ok, err, Result-cases}
use order_billing_system.Shared.Goroutines.{set_running, Every, set-Every, stop-Every, idle-Every}
use order_billing_system.Billing.Model.{Invoice, OrderCreatedEvent, invoice_status_pending}
use order_billing_system.Billing.Environment.{Environment, Ledger, Documented}
use order_billing_system.Billing.Repository.{get}
use order_billing_system.Billing.Service.{find_invoice}
use order_billing_system.Billing.Service.Writes.{find_invoice_outcome}
use order_billing_system.Billing.Concurrent.{
  InFlight, creating, paying, cancelling, Service, Action, reads_to_create, reads_to_pay,
  reads_to_cancel, writes, unless_found, if_found, finish, act, run,
}
use order_billing_system.Billing.Concurrent.Rows.{
  Change, same, row_of, create_row, pay_row, cancel_row,
}
use order_billing_system.Billing.Concurrent.Onward.{Holds, Present, Change-Holds, Change-Present}

module _ (env : Environment) (doc : Documented env) where
  -- The order whose change is in flight has an invoice.
  abbrev Backs : env.World → InFlight → Type 0
  Backs w (creating event) = Unit {0}
  Backs w (paying event inv) = Present (row_of env doc w event.order_id)
  Backs w (cancelling event inv) = Present (row_of env doc w event.order_id)

  abbrev Backed : (ℕ → Option InFlight) → env.World → Type 0
  Backed running w = Every (Backs w) running

  Backs-later :
      (w w' : env.World) (p : InFlight)
      → ((j : String) → Change (row_of env doc w j) (row_of env doc w' j))
      → Backs w p
      → Backs w' p
  Backs-later w w' (creating event) changes h = tt
  Backs-later w w' (paying event inv) changes h = Change-Present (changes event.order_id) h
  Backs-later w w' (cancelling event inv) changes h = Change-Present (changes event.order_id) h

  -- What a step has left.
  record Stepped (sv sv' : Service env) : Type 0 where
    changes : (j : String) → Change (row_of env doc sv.world j) (row_of env doc sv'.world j)
    backed : Backed sv'.running sv'.world

  written :
      (i : ℕ) (sv : Service env) (w' : env.World)
      → Backed sv.running sv.world
      → ((j : String) → Change (row_of env doc sv.world j) (row_of env doc w' j))
      → Stepped sv (record { world = w'; running = set_running sv.running i none })
  written i sv w' h changes = record {
    changes = changes;
    backed =
        stop-Every (Backs w') sv.running i
          (λ j p found. Backs-later sv.world w' p changes (h j p found));
  }

  finish-Stepped :
      (q : Option InFlight) (i : ℕ) (sv : Service env)
      → sv.running i ≡ q
      → Backed sv.running sv.world
      → Stepped sv (finish env q i sv)
  unfolding finish
  finish-Stepped none i sv here h = record { changes = λ j. same refl; backed = h }
  finish-Stepped (some (creating event)) i sv here h =
      written i sv _ h (λ j. create_row env doc event j sv.world)
  finish-Stepped (some (paying event inv)) i sv here h =
      let (cur, found) = h i (paying event inv) here in
      written i sv _ h (λ j. pay_row env doc event inv cur j sv.world found)
  finish-Stepped (some (cancelling event inv)) i sv here h =
      let (cur, found) = h i (cancelling event inv) here in
      written i sv _ h (λ j. cancel_row env doc event inv cur j sv.world found)

  -- A read changes no row.
  read :
      (i : ℕ) (q : Option InFlight) (sv : Service env) (w' : env.World)
      → doc.ledger w' ≡ doc.ledger sv.world
      → Backed sv.running sv.world
      → ((p : InFlight) → q ≡ some p → Backs w' p)
      → Stepped sv (record { world = w'; running = set_running sv.running i q })
  read i q sv w' kept h new =
      let changes : (j : String) → Change (row_of env doc sv.world j) (row_of env doc w' j) =
        λ j. same (ap (λ (l : Ledger). l.invoices j) kept) in
      record {
        changes = changes;
        backed =
            set-Every (Backs w') sv.running i q
              (λ j p found. Backs-later sv.world w' p changes (h j p found)) new;
      }

  -- What a change has found is the row that it will write.
  found_Backs :
      (order_id : String) (kind : Invoice → InFlight) (w : env.World)
      → ((w' : env.World) (inv : Invoice)
          → Present (row_of env doc w' order_id)
          → Backs w' (kind inv))
      → (doc.ledger (find_invoice env order_id w).1 ≡ doc.ledger w)
        × ((p : InFlight)
            → if_found kind (find_invoice env order_id w).0 ≡ some p
            → Backs (find_invoice env order_id w).1 p)
  found_Backs order_id kind w backs =
      let outcome = find_invoice_outcome env doc order_id w in
      let w1 = (find_invoice env order_id w).1 in
      elim (Result-cases (find_invoice env order_id w).0) [
        | inl (inv, done) ↦
            let (row, kept) = outcome.on_ok inv done in
            (
              kept,
              (λ p begun.
                  subst (Backs w1) (some-injective _ _ (ap (if_found kind) (sym done) ∙ begun))
                    (backs w1 inv (inv, ap (λ (l : Ledger). l.invoices order_id) kept ∙ row))),
            )
        | inr (e, failed) ↦ (
          (outcome.on_err e failed).2,
          (λ p begun. absurd (none-ne-some p (ap (if_found kind) (sym failed) ∙ begun))),
        )
      ]

  missing_Backs :
      (event : OrderCreatedEvent) (r : Result Invoice) (w : env.World) (p : InFlight)
      → unless_found (creating event) r ≡ some p
      → Backs w p
  missing_Backs event (ok inv) w p begun = absurd (none-ne-some p begun)
  missing_Backs event (err e) w p begun = subst (Backs w) (some-injective _ _ begun) tt

  act-Stepped :
      (action : Action) (sv : Service env)
      → Backed sv.running sv.world
      → Stepped sv (act env action sv)
  unfolding act get
  act-Stepped (reads_to_create i event) sv h =
      read i _ sv _ (doc.first_invoice_keeps event.order_id sv.world) h
        (λ p begun. missing_Backs event (get env event.order_id sv.world).0 _ p begun)
  act-Stepped (reads_to_pay i event) sv h =
      let (kept, new) =
        found_Backs event.order_id (paying event) sv.world (λ w' inv present. present) in
      read i _ sv _ kept h new
  act-Stepped (reads_to_cancel i event) sv h =
      let (kept, new) =
        found_Backs event.order_id (cancelling event) sv.world (λ w' inv present. present) in
      read i _ sv _ kept h new
  act-Stepped (writes i) sv h = finish-Stepped (sv.running i) i sv refl h

  run-Holds :
      (k : String) (a : Invoice) (actions : List Action) (sv : Service env)
      → Backed sv.running sv.world
      → Holds a (row_of env doc sv.world k)
      → Holds a (row_of env doc (run env actions sv).world k)
  unfolding run
  run-Holds k a [] sv backed h = h
  run-Holds k a (action ∷ actions) sv backed h =
      let stepped = act-Stepped action sv backed in
      run-Holds k a actions (act env action sv) stepped.backed
        (Change-Holds a (stepped.changes k) h)

  -- In whatever order the handlers of concurrent consumers read and write, an invoice is never
  -- removed or replaced, keeps all but its status and its time of payment, and does not come back to
  -- PENDING.
  pub run-keeps_invoice :
      (k : String) (a : Invoice) (actions : List Action) (sv : Service env)
      → ((i : ℕ) → sv.running i ≡ none)
      → (doc.ledger sv.world).invoices k ≡ some a
      → (b : Invoice) × ((doc.ledger (run env actions sv).world).invoices k ≡ some b)
        × ((status : String) × (paid_at : Option Time) × (b
              ≡ record a { status = status; paid_at = paid_at }))
        × (a.status ≢ invoice_status_pending → b.status ≢ invoice_status_pending)
  run-keeps_invoice k a actions sv idle found =
      run-Holds k a actions sv (idle-Every (Backs sv.world) sv.running idle)
        (a, found, (a.status, a.paid_at, refl), (λ left. left))
