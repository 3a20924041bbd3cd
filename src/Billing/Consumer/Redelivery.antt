-- ===== src/Billing/Consumer/Redelivery.antt =====
-- Messages of events that are recorded as processed.
use order_billing_system.Base.Tests.{◌≡◌, refl, ◌∙◌, ap, inl, inr}
use order_billing_system.Base.Texts.{String}
use order_billing_system.Base.Lists.{List, [], ◌∷◌, All}
use order_billing_system.Shared.Effects.{ok}
use order_billing_system.Shared.Kafka.{Message, Handler}
use order_billing_system.Billing.Model.{ProcessedEvent}
use order_billing_system.Billing.Environment.{Environment, Ledger, Documented}
use order_billing_system.Billing.Consumer.{event_key, process_message, consume}
use order_billing_system.Billing.Consumer.Steps.{commit_outcome}
use order_billing_system.Billing.Consumer.Returns.{consume_next}
use order_billing_system.Billing.Consumer.Commits.{Recorded, skipped}

-- The idempotency check answers: it finds a row that is there.
abbrev pub Answers : (env : Environment) → Documented env → Type 0
Answers env doc =
    (key : String) (w : env.World)
    → Recorded env doc key (doc.ledger w)
    → (row : ProcessedEvent) × ((env.first_processed key w).0 ≡ ok row)

-- Only offsets may differ.
pub record SameRows (before after : Ledger) : Type 0 where
  pub invoices : after.invoices ≡ before.invoices
  pub processed : after.processed ≡ before.processed
  pub dead_letters : after.dead_letters ≡ before.dead_letters

SameRows-of :
    {before after : Ledger} {commits : List Message}
    → after ≡ record before { commits = commits }
    → SameRows before after
SameRows-of e = record {
  invoices = ap (λ (l : Ledger). l.invoices) e;
  processed = ap (λ (l : Ledger). l.processed) e;
  dead_letters = ap (λ (l : Ledger). l.dead_letters) e;
}

SameRows-refl : {l : Ledger} → SameRows l l
SameRows-refl = record { invoices = refl; processed = refl; dead_letters = refl }

SameRows-trans : {a b c : Ledger} → SameRows a b → SameRows b c → SameRows a c
SameRows-trans h k = record {
  invoices = k.invoices ∙ h.invoices;
  processed = k.processed ∙ h.processed;
  dead_letters = k.dead_letters ∙ h.dead_letters;
}

module _ (env : Environment) (doc : Documented env) (answers : Answers env doc)
    (handler : Handler env.World) where
  -- Every message of the list is of a recorded event.
  abbrev pub AllRecorded : List Message → Ledger → Type 0
  AllRecorded messages l = All (λ msg. Recorded env doc (event_key msg) l) messages

  still_recorded :
      (messages : List Message) {before after : Ledger}
      → SameRows before after
      → AllRecorded messages before
      → AllRecorded messages after
  still_recorded [] rows all = tt
  still_recorded (msg ∷ messages) rows ((row, here), others) = (
    (row, ap (λ f. f (event_key msg)) rows.processed ∙ here),
    still_recorded messages rows others,
  )

  process-Recorded :
      (msg : Message) (w : env.World)
      → Recorded env doc (event_key msg) (doc.ledger w)
      → SameRows (doc.ledger w) (doc.ledger (process_message env handler msg w).1)
  process-Recorded msg w recorded =
      let (row, found) = answers (event_key msg) w recorded in
      let w1 = (env.first_processed (event_key msg) w).1 in
      let same = SameRows-of (doc.first_processed_keeps (event_key msg) w) in
      rw (skipped env handler msg w found) (elim (commit_outcome env doc msg w1) [
        | inl kept ↦ SameRows-trans same (SameRows-of kept)
        | inr committed ↦ SameRows-trans same (SameRows-of committed)
      ])

  -- Messages of recorded events change no invoice, no record and no dead letter, whatever the handler
  -- would have done with them.
  pub consume_recorded :
      (messages : List Message) (w : env.World)
      → AllRecorded messages (doc.ledger w)
      → SameRows (doc.ledger w) (doc.ledger (consume env handler messages w).1)
  unfolding consume
  consume_recorded [] w all = SameRows-refl
  consume_recorded (msg ∷ messages) w (first, others) =
      let rows = process-Recorded msg w first in
      let w' = (process_message env handler msg w).1 in
      rw (consume_next env handler msg messages w)
        (SameRows-trans rows (consume_recorded messages w' (still_recorded messages rows others)))
