-- ===== src/Order/Relay/Marking.antt =====
-- What `MarkSent` of order_service/internal/outbox/outbox_repo.go and a written message leave of the
-- relay's state while events of a batch are still to go.
use order_billing_system.Base.Tests.{
  ◌≡◌, ◌≢◌, refl, sym, ◌∙◌, ap, arith, some, Bool, true, false, if◌then◌else◌,
}
use mathlib.Core.Path.{subst}
use order_billing_system.Base.Texts.{String, str_eq, eq_iff}
use order_billing_system.Base.Lists.{
  Any-mono, List, [], ◌∷◌, ◌++◌, map, All, All-mono, All-map, All-and, All-append, Any,
  Any-append_left,
}
use order_billing_system.Shared.Effects.{Time}
use order_billing_system.Shared.Kafka.{Message}
use order_billing_system.Order.Model.{OutboxEvent, event_status_pending, event_status_sent}
use order_billing_system.Order.Relay.{Channel, IsNew, Grown, relay_message, set_status}

-- A message of the row is in the log.
abbrev pub Logged : List Message → OutboxEvent → Type 0
Logged log row = Any (λ m. m ≡ relay_message row) log

abbrev pub Told : List Message → OutboxEvent → Type 0
Told log row = row.status ≡ event_status_sent → Logged log row

-- Every row that is marked as sent has a message in the log.
abbrev pub Delivered : Channel → Type 0
Delivered c = All (Told c.log) c.outbox

-- Rows with the id of `ev` have its message.
abbrev Twin : OutboxEvent → OutboxEvent → Type 0
Twin ev row = row.id ≡ ev.id → relay_message row ≡ relay_message ev

abbrev pub SameMessage : List OutboxEvent → OutboxEvent → Type 0
SameMessage rows ev = All (Twin ev) rows

-- There is a row with the id of `ev`, and each such row has its message.
abbrev pub IsKnown : List OutboxEvent → OutboxEvent → Type 0
IsKnown rows ev = SameMessage rows ev × Any (λ row. row.id ≡ ev.id) rows

-- What the loop keeps while `events` are still to go.
abbrev pub Ready : List OutboxEvent → Channel → Type 0
Ready events c = Delivered c × All (IsKnown c.outbox) events

pub append_Ready :
    (events : List OutboxEvent) (c : Channel) (extra : List Message)
    → Ready events c
    → Ready events (record c { log = c.log ++ extra })
append_Ready events c extra (delivered, same) =
    (All-mono (λ row told sent. Any-append_left extra (told sent)) c.outbox delivered, same)

-- A new row has none of the ids that there were.
pub new_id :
    (rows : List OutboxEvent) {id new : String}
    → Any (λ row. row.id ≡ id) rows
    → All (λ row. new ≢ row.id) rows
    → new ≢ id
new_id [] found others same = elim found [ ]
new_id (row ∷ rows) (Any.here own) (other, _) same = other (same ∙ sym own)
new_id (row ∷ rows) (Any.there found) (_, others) same = new_id rows found others same

pending_not_sent : event_status_pending ≢ event_status_sent
pending_not_sent e = ground (arith, eq_iff event_status_pending event_status_sent)

grown_Known :
    (rows inserted : List OutboxEvent) (ev : OutboxEvent)
    → All (IsNew rows) inserted
    → IsKnown rows ev
    → IsKnown (rows ++ inserted) ev
grown_Known rows inserted ev new (same, found) = (
  All-append (Twin ev) rows inserted same
      (All-mono (λ row h keyed. absurd (new_id rows found h.1 keyed)) inserted new),
  Any-append_left inserted found,
)

-- What requests insert is not marked, and belongs to no event of the batch.
grown_Delivered :
    (rows inserted : List OutboxEvent) (log : List Message)
    → All (IsNew rows) inserted
    → All (Told log) rows
    → All (Told log) (rows ++ inserted)
grown_Delivered rows inserted log new delivered =
    All-append (Told log) rows inserted delivered
      (All-mono (λ row h sent. absurd (pending_not_sent (sym h.0 ∙ sent))) inserted new)

pub Grown-log : {c c' : Channel} → Grown c c' → c'.log ≡ c.log
Grown-log grown = ap (λ (c : Channel). c.log) grown.same

pub Grown-Delivered : {c c' : Channel} → Grown c c' → Delivered c → Delivered c'
Grown-Delivered {c} grown delivered =
    subst Delivered (sym grown.same)
      (grown_Delivered c.outbox grown.inserted c.log grown.new delivered)

pub Grown-Ready :
    (events : List OutboxEvent) {c c' : Channel} → Grown c c' → Ready events c → Ready events c'
Grown-Ready events {c} grown (delivered, known) = subst (Ready events) (sym grown.same) (
  grown_Delivered c.outbox grown.inserted c.log grown.new delivered,
  All-mono (λ ev h. grown_Known c.outbox grown.inserted ev grown.new h) events known,
)

mark_message :
    (id : String) (at : Time) (row : OutboxEvent)
    → relay_message (set_status id event_status_sent at row) ≡ relay_message row
mark_message id at row = pick (str_eq row.id id)
  where
    pick :
        (b : Bool)
        → relay_message
            (if b then record row { status = event_status_sent; processed_at = some at } else row)
          ≡ relay_message row
    pick true = refl
    pick false = refl

mark_id :
    (id : String) (at : Time) (row : OutboxEvent)
    → (set_status id event_status_sent at row).id ≡ row.id
mark_id id at row = pick (str_eq row.id id)
  where
    pick :
        (b : Bool)
        → (if b then record row { status = event_status_sent; processed_at = some at } else row).id
          ≡ row.id
    pick true = refl
    pick false = refl

mark_Same :
    (ev : OutboxEvent) (id : String) (at : Time) (rows : List OutboxEvent)
    → SameMessage rows ev
    → SameMessage (map (set_status id event_status_sent at) rows) ev
mark_Same ev id at rows same =
    All-map (Twin ev) (set_status id event_status_sent at)
      (λ row h keyed. mark_message id at row ∙ h (sym (mark_id id at row) ∙ keyed)) rows same

mark_told :
    (ev : OutboxEvent) (at : Time) (log : List Message) (row : OutboxEvent)
    → Logged log ev
    → (row.status ≡ event_status_sent → Logged log row)
    → (row.id ≡ ev.id → relay_message row ≡ relay_message ev)
    → (set_status ev.id event_status_sent at row).status ≡ event_status_sent
    → Logged log row
mark_told ev at log row logged told same = pick (str_eq row.id ev.id) (eq_iff row.id ev.id).0
  where
    pick :
        (b : Bool)
        → (b ≡ true → row.id ≡ ev.id)
        → (if b
            then record row { status = event_status_sent; processed_at = some at }
            else row).status
          ≡ event_status_sent
        → Logged log row
    pick true keyed sent = Any-mono (λ m e. e ∙ sym (same (keyed refl))) logged
    pick false other sent = told sent

pub mark_Any :
    (id other : String) (at : Time) {rows : List OutboxEvent}
    → Any (λ row. row.id ≡ other) rows
    → Any (λ row. row.id ≡ other) (map (set_status id event_status_sent at) rows)
mark_Any id other at {rows = []} found = elim found [ ]
mark_Any id other at {rows = row ∷ rows} (Any.here own) = Any.here (mark_id id at row ∙ own)
mark_Any id other at {rows = row ∷ rows} (Any.there found) = Any.there (mark_Any id other at found)

pub mark_Ready :
    (ev : OutboxEvent) (events : List OutboxEvent) (at : Time) (c : Channel)
    → Ready (ev ∷ events) c
    → Logged c.log ev
    → Ready events (record c { outbox = map (set_status ev.id event_status_sent at) c.outbox })
mark_Ready ev events at c (delivered, ((same, _), others)) logged = (
  All-map (Told c.log) (set_status ev.id event_status_sent at)
      (λ row h sent.
        Any-mono (λ m e. e ∙ sym (mark_message ev.id at row))
          (mark_told ev at c.log row logged h.0 h.1 sent))
      c.outbox (All-and (Told c.log) (Twin ev) c.outbox delivered same),
  All-mono (λ other h. (mark_Same other ev.id at c.outbox h.0, mark_Any ev.id other.id at h.1))
      events others,
)
