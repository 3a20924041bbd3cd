-- ===== src/Shared/Logger/Requests.antt =====
-- The entries of a request that has come through `RequestIDInterceptor`.
use order_billing_system.Base.Tests.{
  ◌≡◌, ◌≢◌, refl, ◌∙◌, ap, ◌⊎◌, inl, inr, Bool, true, false, Option, arith, if◌then◌else◌,
}
use mathlib.Core.Path.{subst}
use order_billing_system.Base.Texts.{String, str_eq, eq_iff}
use order_billing_system.Base.Lists.{List, ◌++◌, map, All, All-mono}
use order_billing_system.Shared.Grpc.{
  Reply, UnaryHandler, Interceptors, incoming_id, request_id_interceptor,
}
use order_billing_system.Shared.RequestId.{Context, set, get, Derived, get-Derived, get-set}
use order_billing_system.Shared.Effects.{ok, returns}
use order_billing_system.Shared.Logger.{LogEntry, LogEnvironment, Logger}
use order_billing_system.Shared.Logger.Carried.{
  LogCall, context_of, log_all, line, EntriesOf, LogDocumented, log_all-Prints,
}

-- A handler of requests, as far as its logging goes: it logs the calls under its context.
abbrev pub logging :
    {A B : Type 0} (env : LogEnvironment)
    → (A → Reply B)
    → (Context → A → List LogCall)
    → UnaryHandler (Logger env) A B
logging env reply calls ctx req lg = (reply req, (log_all env (calls ctx req) lg).1)

-- The uuid generator gives no empty id, and neither prints nor renames the service.
pub record FreshIds (env : LogEnvironment) (doc : LogDocumented env)
    (interceptors : Interceptors (Logger env)) : Type 0 where
  pub fresh : (lg : Logger env) → (interceptors.new_uuid lg).0 ≢ ""
  pub prints_nothing :
      (lg : Logger env) → doc.printed (interceptors.new_uuid lg).1.world ≡ doc.printed lg.world
  pub names_nothing :
      (lg : Logger env) → (interceptors.new_uuid lg).1.service_name ≡ lg.service_name

module _ {A B : Type 0} (env : LogEnvironment) (doc : LogDocumented env)
    (interceptors : Interceptors (Logger env)) (ids : FreshIds env doc interceptors)
    (reply : A → Reply B) (calls : Context → A → List LogCall)
    (derived : (ctx : Context) (req : A)
      → All (λ c. Derived ctx (context_of c)) (calls ctx req)) where
  -- The lines of the calls under one context have been printed, with one id, the caller's or a new one.
  abbrev pub CarriesId : Option (List String) → Context → A → Logger env → Logger env → Type 0
  CarriesId metadata ctx req lg end =
      (id : String) × (id ≢ "")
      × ((id ≡ incoming_id metadata) ⊎ (incoming_id metadata ≡ ""))
      × (entries : List LogEntry) × (doc.printed end.world
          ≡ doc.printed lg.world ++ map (line env) entries)
      × EntriesOf env lg.service_name id (calls (set ctx id) req) entries

  -- Every call of a handler that got `id` through its context finds it.
  found :
      (ctx : Context) (id : String) (req : A)
      → All (λ c. get (context_of c) ≡ returns (ok id)) (calls (set ctx id) req)
  found ctx id req =
      All-mono (λ c d. get-Derived (set ctx id) (context_of c) d ∙ get-set ctx id)
        (calls (set ctx id) req) (derived (set ctx id) req)

  -- Every entry that is logged while a request is handled, under the context that the interceptor
  -- hands on or one derived from it, carries one and the same request id, which is not empty: the one
  -- that the caller sent, or a new one if it sent none, whatever the context of the request held before.
  -- There is one entry for each call, in their order, with its level, message and error, and the name of
  -- the service.
  pub request_id_interceptor-CarriesId :
      (metadata : Option (List String)) (ctx : Context) (req : A) (lg : Logger env)
      → CarriesId metadata ctx req lg
          (request_id_interceptor interceptors (logging env reply calls) metadata ctx req lg).1
  unfolding request_id_interceptor
  request_id_interceptor-CarriesId metadata ctx req lg =
      chosen (str_eq (incoming_id metadata) "") refl
    where
      given : String
      given = incoming_id metadata

      chosen :
          (b : Bool)
          → str_eq given "" ≡ b
          → CarriesId metadata ctx req lg
              (if b
                then logging env reply calls
                    (set ctx (interceptors.new_uuid lg).0)
                    req
                    (interceptors.new_uuid lg).1
                else logging env reply calls (set ctx given) req lg).1
      chosen true absent =
          let (id, lg1) = interceptors.new_uuid lg in
          let passed = set ctx id in
          let (_, entries, printed, those) =
            log_all-Prints env doc id (calls passed req) lg1 (found ctx id req) in
          (
            id,
            ids.fresh lg,
            inr ((eq_iff given "").0 absent),
            entries,
            printed ∙ ap (λ lines. lines ++ map (line env) entries) (ids.prints_nothing lg),
            subst (λ service. EntriesOf env service id (calls passed req) entries)
                (ids.names_nothing lg) those,
          )
      chosen false present =
          let (_, entries, printed, those) =
            log_all-Prints env doc given (calls (set ctx given) req) lg (found ctx given req) in
          (given, (λ empty. ground (arith, eq_iff given "")), inl refl, entries, printed, those)
