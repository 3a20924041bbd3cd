-- ===== src/Order/Relay/Delivered.antt =====
-- `processOnce` marks an event as sent only after its message was written.
use order_billing_system.Base.Tests.{ℕ, zero, suc, ◌≡◌, refl, sym, ap, inl, inr}
use mathlib.Core.Path.{subst}
use order_billing_system.Base.Lists.{List, [], ◌∷◌, All, All-mono, Any, Any-mono, Any-append_last}
use order_billing_system.Base.Integers.{ℤ}
use order_billing_system.Shared.Errors.{GoError, wrap}
use order_billing_system.Shared.Effects.{ok, Act, or_fail, Result-cases}
use order_billing_system.Shared.Effects.Contracts.{bind_ok, bind_err, or_fail_ok, or_fail_err}
use order_billing_system.Order.Model.{OutboxEvent, event_status_pending, event_status_sent}
use order_billing_system.Order.Relay.{
  RelayEnvironment, RelayDocumented, relay_message, fetch_pending, mark_sent, mark_written,
  relay_event, relay_events, process_once, cycles,
}
use order_billing_system.Order.Relay.Marking.{
  Logged, Delivered, IsKnown, Ready, append_Ready, Grown-log, Grown-Delivered, Grown-Ready,
  mark_Ready,
}

module _ (env : RelayEnvironment) (doc : RelayDocumented env) where
  mark_sent-Ready :
      (ev : OutboxEvent) (events : List OutboxEvent) (w : env.World)
      → Ready (ev ∷ events) (doc.channel w)
      → Logged (doc.channel w).log ev
      → Ready events (doc.channel (mark_sent env ev.id w).1)
  unfolding mark_sent
  mark_sent-Ready ev events w ready logged =
      elim (Result-cases (env.update_event ev.id event_status_sent w).0) [
        | inl (_, done) ↦
            let (at, rows) = doc.update_event_done ev.id event_status_sent w done in
            Grown-Ready events rows (mark_Ready ev events at (doc.channel w) ready logged)
        | inr (e, failed) ↦
            Grown-Ready events (doc.update_event_failed ev.id event_status_sent w failed)
              (ready.0, ready.1.1)
      ]

  relay_event-Ready :
      (ev : OutboxEvent) (events : List OutboxEvent) (w : env.World)
      → Ready (ev ∷ events) (doc.channel w)
      → Ready events (doc.channel (relay_event env ev w).1)
  unfolding relay_event
  relay_event-Ready ev events w ready =
      let w1 = (env.write_message (relay_message ev) w).1 in
      elim (Result-cases (env.write_message (relay_message ev) w).0) [
        | inl (_, done) ↦
            let same = doc.write_message_done (relay_message ev) w done in
            let ready1 : Ready (ev ∷ events) (doc.channel w1) =
              Grown-Ready (ev ∷ events) same
                (append_Ready (ev ∷ events) (doc.channel w) (relay_message ev ∷ []) ready) in
            let logged : Logged (doc.channel w1).log ev =
              subst (λ log. Logged log ev) (sym (Grown-log same))
                (Any-append_last (doc.channel w).log (relay_message ev) refl) in
            rw (done, mark_written) (mark_sent-Ready ev events w1 ready1 logged)
        | inr (e, failed) ↦
            let (extra, same) = doc.write_message_failed (relay_message ev) w failed in
            rw (failed, mark_written)
              (Grown-Ready events same
                (append_Ready events (doc.channel w) extra (ready.0, ready.1.1)))
      ]

  relay_event_returns : (ev : OutboxEvent) (w : env.World) → (relay_event env ev w).0 ≡ ok tt
  unfolding relay_event
  relay_event_returns ev w = elim (Result-cases (env.write_message (relay_message ev) w).0) [
    | inl (_, done) ↦ rw (done, mark_written) refl
    | inr (e, failed) ↦ rw (failed, mark_written) refl
  ]

  pub relay_events_next :
      (ev : OutboxEvent) (events : List OutboxEvent) (w : env.World)
      → relay_events env (ev ∷ events) w ≡ relay_events env events (relay_event env ev w).1
  unfolding relay_events
  relay_events_next ev events w =
      bind_ok (relay_event env ev) (λ _. relay_events env events) w (relay_event_returns ev w)

  relay_events-Delivered :
      (events : List OutboxEvent) (w : env.World)
      → Ready events (doc.channel w)
      → Delivered (doc.channel (relay_events env events w).1)
  unfolding relay_events
  relay_events-Delivered [] w ready = ready.0
  relay_events-Delivered (ev ∷ events) w ready =
      rw (relay_events_next ev events w) (
        relay_events-Delivered events (relay_event env ev w).1
          (relay_event-Ready ev events w ready))

  fetched-Ready :
      (events : List OutboxEvent) (w : env.World)
      → All
          (λ ev. (ev.status ≡ event_status_pending) × Any (λ row. row ≡ ev) (doc.channel w).outbox)
          events
      → All (IsKnown (doc.channel w).outbox) events
  fetched-Ready events w found =
      All-mono
        (λ ev (_, stored). (
          All-mono (λ row h keyed. ap relay_message (h keyed)) (doc.channel w).outbox
              (doc.primary_key w ev stored),
          Any-mono (λ row e. ap (λ (r : OutboxEvent). r.id) e) stored,
        ))
        events found

  pub process_once-Delivered :
      (size : ℤ) (w : env.World)
      → Delivered (doc.channel w)
      → Delivered (doc.channel (process_once env size w).1)
  unfolding process_once fetch_pending
  process_once-Delivered size w delivered =
      let w1 = (env.find_events event_status_pending size w).1 in
      let same = doc.find_events_keeps event_status_pending size w in
      elim (Result-cases (env.find_events event_status_pending size w).0) [
        | inl (events, done) ↦
            rw (bind_ok (or_fail find unread) (relay_events env) w (or_fail_ok find unread w done))
              (relay_events-Delivered events w1 (
                Grown-Delivered same delivered,
                fetched-Ready events w1 (doc.find_events_found event_status_pending size w done),
              ))
        | inr (e, failed) ↦
            rw
              (bind_err (or_fail find unread) (relay_events env) w
                (or_fail_err find unread w failed))
              (Grown-Delivered same delivered)
      ]
    where
      find : Act env.World (List OutboxEvent)
      find = env.find_events event_status_pending size

      unread : GoError → GoError
      unread e = wrap "fetch pending: " e

  -- However many cycles the relay runs, and whatever fails in them, a row of the outbox is marked as
  -- sent only if a message of it was written, provided that this was so before.
  cycles-Delivered :
      (size : ℤ) (n : ℕ) (w : env.World)
      → Delivered (doc.channel w)
      → Delivered (doc.channel (cycles env size n w))
  unfolding cycles
  cycles-Delivered size zero w delivered = delivered
  cycles-Delivered size (suc n) w delivered =
      cycles-Delivered size n (process_once env size w).1 (process_once-Delivered size w delivered)
