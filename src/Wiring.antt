-- ===== src/Wiring.antt =====
-- The topics that order_service/internal/app/app.go and billing_service/internal/app/app.go hand to
-- their parts.
use order_billing_system.Base.Tests.{Option, none, some, if◌then◌else◌}
use order_billing_system.Base.Texts.{String, str_eq}
use order_billing_system.Shared.Config.{Config}
use order_billing_system.Order.Model.{event_order_created, event_order_paid, event_order_cancelled}
use order_billing_system.Billing.Handler.{Topics}

-- `topicMap` of order_service: the topic of each type of event.
unfoldable pub topic_map : Config → String → Option String
topic_map cfg ev_type =
    if str_eq ev_type event_order_created
    then some cfg.order_created_topic
    else if str_eq ev_type event_order_paid
    then some cfg.order_paid_topic
    else if str_eq ev_type event_order_cancelled
    then some cfg.order_cancelled_topic
    else none

-- The arguments of `NewOrderHandler` in billing_service.
abbrev pub handler_topics : Config → Topics
handler_topics cfg = record {
  created = cfg.order_created_topic;
  paid = cfg.order_paid_topic;
  cancelled = cfg.order_cancelled_topic;
}
