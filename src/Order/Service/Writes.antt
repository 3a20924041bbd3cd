-- ===== src/Order/Service/Writes.antt =====
-- The transaction that writes an order together with its outbox event.
use order_billing_system.Base.Tests.{◌≡◌, refl, ◌∙◌, ap, inl, inr, none, some, arith, Option-cases}
use order_billing_system.Base.Texts.{String}
use order_billing_system.Base.Lists.{[], ◌∷◌, ◌++◌}
use order_billing_system.Shared.Errors.{GoError}
use order_billing_system.Shared.Effects.{ok, ◌>>◌, Result-cases}
use order_billing_system.Shared.Effects.Contracts.{Ends, Ends-err, Ends-weaken}
use order_billing_system.Order.Model.{Order, Event, OutboxEvent, event_status_pending}
use order_billing_system.Order.Environment.{Environment, Tables, Documented, upsert}
use order_billing_system.Order.Service.{OrderService, save_tx, build_payload, write_with_outbox}

-- A row of the outbox that stands for `ev`, waiting to be published.
pub record Queued (env : Environment) (s : OrderService) (order_id ev_type : String) (ev : Event)
    (row : OutboxEvent) : Type 0 where
  pub of_order : row.order_id ≡ order_id
  pub of_type : row.event_type ≡ ev_type
  pub to_topic : s.topic_map ev_type ≡ some row.topic
  pub carries : env.marshal ev ≡ ok row.payload
  pub waits : row.status ≡ event_status_pending

-- The rows with `order` written and `row` queued.
abbrev pub commit_rows : Order → OutboxEvent → Tables → Tables
commit_rows order row t = record { orders = upsert order t.orders; outbox = t.outbox ++ row ∷ [] }

module _ (env : Environment) (doc : Documented env) where
  -- No row has changed.
  abbrev pub Unchanged : Tables → GoError → env.World → Type 0
  Unchanged before _ w' = doc.tables w' ≡ before

  -- `order` and a row for `ev` are in, and nothing else has changed.
  abbrev pub Committed : OrderService → Order → String → Event → Tables → env.World → Type 0
  Committed s order ev_type ev before w' =
      (row : OutboxEvent) × Queued env s order.id ev_type ev row
      × (doc.tables w' ≡ commit_rows order row before)

  body_done :
      (order : Order) (row : OutboxEvent) (w : env.World)
      → ((env.save_order order >> save_tx env row) w).0 ≡ ok tt
      → doc.tables ((env.save_order order >> save_tx env row) w).1
        ≡ commit_rows order row (doc.tables w)
  unfolding save_tx
  body_done order row w h =
      ground
        (arith, doc.save_order_done order w, doc.create_event_done row (env.save_order order w).1)

  transaction_outcome :
      (order : Order) (row : OutboxEvent) (w : env.World)
      → Ends
          (λ _ w'. doc.tables w' ≡ commit_rows order row (doc.tables w))
          (Unchanged (doc.tables w))
          (env.transaction (env.save_order order >> save_tx env row) w)
  transaction_outcome order row w =
      let body = env.save_order order >> save_tx env row in
      record {
        on_ok = λ u done.
            let (begun, same, ran, kept) = doc.transaction_committed body w done in
            kept ∙ body_done order row begun ran ∙ ap (commit_rows order row) same;
        on_err = λ e failed. doc.transaction_rolled_back body w failed;
      }

module _ (env : Environment) (doc : Documented env) (s : OrderService) where
  write_known :
      (order : Order) (ev : Event) (ev_type : String) (w : env.World) {topic payload : String}
      → s.topic_map ev_type ≡ some topic
      → env.marshal ev ≡ ok payload
      → Ends
          (λ _. Committed env doc s order ev_type ev (doc.tables w))
          (Unchanged env doc (doc.tables w))
          (write_with_outbox env s order ev ev_type w)
  unfolding write_with_outbox build_payload
  write_known order ev ev_type w {topic} {payload} known carried =
      let (event_id, w1) = env.new_uuid w in
      let (created_at, w2) = env.time_now w1 in
      let row : OutboxEvent = record {
        id = event_id;
        order_id = order.id;
        event_type = ev_type;
        topic = topic;
        payload = payload;
        status = event_status_pending;
        created_at = created_at;
        processed_at = none;
      } in
      let same = doc.time_now_keeps w1 ∙ doc.new_uuid_keeps w in
      let queued : Queued env s order.id ev_type ev row = record {
        of_order = refl;
        of_type = refl;
        to_topic = known;
        carries = carried;
        waits = refl;
      } in
      rw (known, carried)
        (Ends-weaken (transaction_outcome env doc order row w2)
          (λ _ rows. (row, queued, rows ∙ ap (commit_rows order row) same)) (λ e kept. kept ∙ same))

  -- The order and its event are written together, or neither is.
  pub write_outcome :
      (order : Order) (ev : Event) (ev_type : String) (w : env.World)
      → Ends
          (λ _. Committed env doc s order ev_type ev (doc.tables w))
          (Unchanged env doc (doc.tables w))
          (write_with_outbox env s order ev ev_type w)
  unfolding write_with_outbox build_payload
  write_outcome order ev ev_type w = elim (Option-cases (s.topic_map ev_type)) [
    | inl unknown ↦ rw unknown (Ends-err _ w refl)
    | inr (topic, known) ↦ elim (Result-cases (env.marshal ev)) [
      | inl (payload, carried) ↦ write_known order ev ev_type w known carried
      | inr (e, failed) ↦ rw (known, failed) (Ends-err _ w refl)
    ]
  ]
