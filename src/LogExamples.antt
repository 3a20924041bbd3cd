-- ===== src/LogExamples.antt =====
-- The theorem on the entries of shared/logger at a concrete request.
use order_billing_system.Base.Tests.{ℕ, refl, none, arith}
use order_billing_system.Base.Texts.{String, eq_iff, sprint}
use order_billing_system.Base.Lists.{List, [], ◌∷◌, ◌++◌}
use order_billing_system.Shared.Errors.{record_not_found}
use order_billing_system.Shared.Effects.{ok}
use order_billing_system.Shared.Grpc.{Reply, responds, Interceptors, request_id_interceptor}
use order_billing_system.Shared.RequestId.{
  Context, with_value, other_key, held_text, background, same, inside,
}
use order_billing_system.Shared.Logger.{LogEnvironment, Logger, init}
use order_billing_system.Shared.Logger.Carried.{LogCall, informs, complains, LogDocumented}
use order_billing_system.Shared.Logger.Requests.{
  logging, FreshIds, CarriesId, request_id_interceptor-CarriesId,
}

-- The world is what has been printed.
abbrev log_env : LogEnvironment
log_env = record {
  World = List String;
  now_text = λ w. ("2026-01-01T00:00:00Z", w);
  marshal_entry = λ entry. ok (
      sprint (
        entry.level ∷ " " ∷ entry.time ∷ " " ∷ entry.service ∷ " " ∷ entry.message ∷ " "
        ∷ entry.error ∷ " " ∷ entry.request_id ∷ []));
  set_output = λ w. w;
  print_line = λ s w. w ++ s ∷ [];
}

log_doc : LogDocumented log_env
log_doc = record { printed = λ w. w; now_text_keeps = λ w. refl; print_line_adds = λ s w. refl }

abbrev log_interceptors : Interceptors (Logger log_env)
log_interceptors = record { new_uuid = λ lg. ("u-1", lg); count_request = λ method status lg. lg }

log_ids : FreshIds log_env log_doc log_interceptors
log_ids = record {
  fresh = λ lg e. ground (arith, eq_iff "u-1" "");
  prints_nothing = λ lg. refl;
  names_nothing = λ lg. refl;
}

-- A failure is logged under the context, and the end of the request under one derived from it.
abbrev some_calls : Context → ℕ → List LogCall
some_calls ctx n =
    complains ctx "failed to get the order" record_not_found
    ∷ informs (with_value ctx (other_key "trace") (held_text "t-1")) "done"
    ∷ []

abbrev responds_zero : ℕ → Reply ℕ
responds_zero n = responds 0

abbrev empty_log : Logger log_env
empty_log = init log_env "order_service" (record { service_name = ""; world = [] })

request_id_interceptor-CarriesId_example :
    CarriesId log_env log_doc log_interceptors log_ids responds_zero some_calls
      (λ ctx n. (same, (inside _ "trace" (held_text "t-1") same, tt)))
      none
      background
      0
      empty_log
      (request_id_interceptor log_interceptors
        (logging log_env responds_zero some_calls)
        none
        background
        0
        empty_log).1
request_id_interceptor-CarriesId_example =
    request_id_interceptor-CarriesId log_env log_doc log_interceptors log_ids responds_zero
      some_calls (λ ctx n. (same, (inside _ "trace" (held_text "t-1") same, tt))) none background 0
      empty_log
