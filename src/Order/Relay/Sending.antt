-- ===== src/Order/Relay/Sending.antt =====
-- What a cycle of the relay has done when neither the database nor the broker has failed.
use order_billing_system.Base.Tests.{
  ◌≡◌, refl, sym, ap, Bool, true, false, arith, some, if◌then◌else◌,
}
use mathlib.Core.Path.{subst}
use order_billing_system.Base.Texts.{String, str_eq, eq_iff}
use order_billing_system.Base.Lists.{
  List, [], ◌∷◌, ◌++◌, map, All, All-append, All-map, All-mono, Any, Any-mono, Any-append_left,
  Any-append_last,
}
use order_billing_system.Base.Integers.{ℤ}
use order_billing_system.Shared.Errors.{wrap}
use order_billing_system.Shared.Effects.{Time, Result, ok, or_fail}
use order_billing_system.Shared.Effects.Contracts.{bind_ok, or_fail_ok}
use order_billing_system.Shared.Kafka.{Message}
use order_billing_system.Order.Model.{OutboxEvent, event_status_pending, event_status_sent}
use order_billing_system.Order.Relay.{
  RelayEnvironment, RelayDocumented, Channel, Grown, relay_message, set_status, fetch_pending,
  mark_sent, mark_written, relay_event, relay_events, process_once,
}
use order_billing_system.Order.Relay.Marking.{mark_Any, Grown-log, new_id}
use order_billing_system.Order.Relay.Delivered.{relay_events_next}

abbrev IsSent : OutboxEvent → OutboxEvent → Type 0
IsSent ev row = row.id ≡ ev.id → row.status ≡ event_status_sent

-- The message of the event is in the log, and the row of the event is SENT.
abbrev pub Sent : Channel → OutboxEvent → Type 0
Sent c ev = Any (λ m. m ≡ relay_message ev) c.log × All (IsSent ev) c.outbox

-- The row after it has been marked, with the id that has been asked for or with another one.
marked :
    (id : String) (at : Time) (row ev : OutboxEvent)
    → IsSent ev row
    → IsSent ev (set_status id event_status_sent at row)
marked id at row ev before = pick (str_eq row.id id)
  where
    pick :
        (b : Bool)
        → IsSent ev
            (if b then record row { status = event_status_sent; processed_at = some at } else row)
    pick true keyed = refl
    pick false keyed = before keyed

marks_own :
    (at : Time) (row ev : OutboxEvent) → IsSent ev (set_status ev.id event_status_sent at row)
marks_own at row ev = pick (str_eq row.id ev.id) refl
  where
    pick :
        (b : Bool)
        → str_eq row.id ev.id ≡ b
        → IsSent ev
            (if b then record row { status = event_status_sent; processed_at = some at } else row)
    pick true found keyed = refl
    pick false found keyed = absurd (ground (arith, eq_iff row.id ev.id))

each_marked :
    (at : Time) (ev : OutboxEvent) (rows : List OutboxEvent)
    → All (IsSent ev) (map (set_status ev.id event_status_sent at) rows)
each_marked at ev [] = tt
each_marked at ev (row ∷ rows) = (marks_own at row ev, each_marked at ev rows)

-- A row has the id of the event.
abbrev HasRow : OutboxEvent → Channel → Type 0
HasRow ev c = Any (λ row. row.id ≡ ev.id) c.outbox

Grown-HasRow : (ev : OutboxEvent) {c c' : Channel} → Grown c c' → HasRow ev c → HasRow ev c'
Grown-HasRow ev grown found =
    subst (HasRow ev) (sym grown.same) (Any-append_left grown.inserted found)

-- Rows that requests insert are none of the event's.
Grown-Sent : (ev : OutboxEvent) {c c' : Channel} → Grown c c' → HasRow ev c → Sent c ev → Sent c' ev
Grown-Sent ev {c} grown found (logged, rows) =
    subst (λ d. Sent d ev) (sym grown.same)
      (
        logged,
        All-append (IsSent ev) c.outbox grown.inserted rows (
            All-mono (λ row h keyed. absurd (new_id c.outbox found h.1 keyed)) grown.inserted
              grown.new),
      )

-- The channel after the rows with the id of an event have been marked.
abbrev marked_in : OutboxEvent → Time → Channel → Channel
marked_in ev at c = record c { outbox = map (set_status ev.id event_status_sent at) c.outbox }

module _ (env : RelayEnvironment) (doc : RelayDocumented env)
    (written : (msg : Message) (w : env.World) → (env.write_message msg w).0 ≡ ok tt)
    (updated : (id status : String) (w : env.World)
      → (env.update_event id status w).0 ≡ ok tt) where
  -- The channel after the write of a round, and that after the round.
  relayed :
      (ev : OutboxEvent) (w : env.World)
      → (at : Time) × (c : Channel) × Grown
          (record (doc.channel w) { log = (doc.channel w).log ++ relay_message ev ∷ [] })
          c
        × Grown (marked_in ev at c) (doc.channel (relay_event env ev w).1)
  unfolding relay_event mark_sent
  relayed ev w =
      let msg = relay_message ev in
      let w1 = (env.write_message msg w).1 in
      let (at, rows) =
        doc.update_event_done ev.id event_status_sent w1 (updated ev.id event_status_sent w1) in
      rw (written msg w, mark_written)
        (at, doc.channel w1, doc.write_message_done msg w (written msg w), rows)

  relay_event-HasRow :
      (ev other : OutboxEvent) (w : env.World)
      → HasRow other (doc.channel w)
      → HasRow other (doc.channel (relay_event env ev w).1)
  relay_event-HasRow ev other w found =
      let (at, c, first, second) = relayed ev w in
      Grown-HasRow other second (mark_Any ev.id other.id at (Grown-HasRow other first found))

  relay_event-Sent :
      (ev : OutboxEvent) (w : env.World)
      → HasRow ev (doc.channel w)
      → Sent (doc.channel (relay_event env ev w).1) ev
  relay_event-Sent ev w found =
      let (at, c, first, second) = relayed ev w in
      let logged : Any (λ m. m ≡ relay_message ev) c.log =
        subst (Any (λ m. m ≡ relay_message ev)) (sym (Grown-log first))
          (Any-append_last (doc.channel w).log (relay_message ev) refl) in
      Grown-Sent ev second (mark_Any ev.id ev.id at (Grown-HasRow ev first found))
        (logged, each_marked at ev c.outbox)

  relay_event-keeps_Sent :
      (ev other : OutboxEvent) (w : env.World)
      → HasRow other (doc.channel w)
      → Sent (doc.channel w) other
      → Sent (doc.channel (relay_event env ev w).1) other
  relay_event-keeps_Sent ev other w found (logged, rows) =
      let (at, c, first, second) = relayed ev w in
      let between : Sent c other =
        Grown-Sent other first found (Any-append_left (relay_message ev ∷ []) logged, rows) in
      Grown-Sent other second (mark_Any ev.id other.id at (Grown-HasRow other first found)) (
        between.0,
        All-map (IsSent other) (set_status ev.id event_status_sent at)
            (λ row before. marked ev.id at row other before) c.outbox between.1,
      )

  relay_events-keeps_Sent :
      (events : List OutboxEvent) (other : OutboxEvent) (w : env.World)
      → HasRow other (doc.channel w)
      → Sent (doc.channel w) other
      → Sent (doc.channel (relay_events env events w).1) other
  unfolding relay_events
  relay_events-keeps_Sent [] other w found sent = sent
  relay_events-keeps_Sent (ev ∷ events) other w found sent =
      rw (relay_events_next env doc ev events w) (
        relay_events-keeps_Sent events other (relay_event env ev w).1
          (relay_event-HasRow ev other w found) (relay_event-keeps_Sent ev other w found sent))

  relay_events-Sent :
      (events : List OutboxEvent) (w : env.World)
      → All (λ ev. HasRow ev (doc.channel w)) events
      → All (Sent (doc.channel (relay_events env events w).1)) events
  unfolding relay_events
  relay_events-Sent [] w found = tt
  relay_events-Sent (ev ∷ events) w (found, others) =
      let w1 = (relay_event env ev w).1 in
      subst (λ (end : Result (Unit {0}) × env.World). All (Sent (doc.channel end.1)) (ev ∷ events))
        (sym (relay_events_next env doc ev events w))
        (
          relay_events-keeps_Sent events ev w1 (relay_event-HasRow ev ev w found)
              (relay_event-Sent ev w found),
          relay_events-Sent events w1
              (All-mono (λ other h. relay_event-HasRow ev other w h) events others),
        )

  -- If no write to the broker and no update fails, then after a cycle every event that it has
  -- fetched is SENT, and its message has been written.
  pub process_once-Sent :
      (size : ℤ) (events : List OutboxEvent) (w : env.World)
      → (fetch_pending env size w).0 ≡ ok events
      → All (Sent (doc.channel (process_once env size w).1)) events
  unfolding process_once fetch_pending
  process_once-Sent size events w found =
      rw
        (bind_ok (or_fail (fetch_pending env size) (λ e. wrap "fetch pending: " e))
          (relay_events env) w
          (or_fail_ok (fetch_pending env size) (λ e. wrap "fetch pending: " e) w found))
        (relay_events-Sent events (fetch_pending env size w).1 (
          All-mono (λ ev h. Any-mono (λ row e. ap (λ (r : OutboxEvent). r.id) e) h.1) events
            (doc.find_events_found event_status_pending size w found)))
