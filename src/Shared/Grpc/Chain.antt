-- ===== src/Shared/Grpc/Chain.antt =====
-- The chain of interceptors around a handler.
use order_billing_system.Base.Tests.{
  ◌≡◌, ◌≢◌, arith, refl, ◌⊎◌, inl, inr, Option, none, some, Bool, true, false, if◌then◌else◌,
}
use order_billing_system.Base.Texts.{String, str_eq, eq_iff}
use order_billing_system.Base.Lists.{List, ◌∷◌}
use order_billing_system.Shared.RequestId.{Context, set}
use order_billing_system.Shared.Grpc.{
  Status, Reply, responds, fails, panics, internal, UnaryHandler, Interceptors, incoming_id,
  recovered_reply, request_id_interceptor, metrics_interceptor, recovery_interceptor,
  validation_interceptor, serve_unary,
}

-- The caller is answered: by a response or by a status.
abbrev pub Answered : {B : Type 0} → Reply B → Type 0
Answered {B} r = ((resp : B) × (r ≡ responds resp)) ⊎ ((st : Status) × (r ≡ fails st))

recovered_reply-Answered : {B : Type 0} (r : Reply B) → Answered (recovered_reply r)
recovered_reply-Answered (responds resp) = inl (resp, refl)
recovered_reply-Answered (fails st) = inr (st, refl)
recovered_reply-Answered (panics reason) = inr (_, refl)

module _ {W A B : Type 0} (interceptors : Interceptors W) (validate : A → Option (Option String))
    (method : String) (handler : UnaryHandler W A B) where
  validated-Answered :
      (ctx : Context) (req : A) (w : W) (result : Option (Option String))
      → validate req ≡ result
      → Answered
          (validation_interceptor validate
            (recovery_interceptor (metrics_interceptor interceptors method handler))
            ctx
            req
            w).0
  unfolding validation_interceptor recovery_interceptor
  validated-Answered ctx req w none known =
      rw (known, validation_interceptor) (recovered_reply-Answered _)
  validated-Answered ctx req w (some none) known =
      rw (known, validation_interceptor) (recovered_reply-Answered _)
  validated-Answered ctx req w (some (some problem)) known =
      rw (known, validation_interceptor) (inr (_, refl))

  -- Whatever its handler does, a panic included, a request is answered by a response or a status.
  pub serve_unary-Answered :
      (metadata : Option (List String)) (ctx : Context) (req : A) (w : W)
      → Answered (serve_unary interceptors validate method handler metadata ctx req w).0
  unfolding serve_unary request_id_interceptor
  serve_unary-Answered metadata ctx req w = chosen (str_eq (incoming_id metadata) "")
    where
      inner : Context → A → W → Reply B × W
      inner =
          validation_interceptor validate
            (recovery_interceptor (metrics_interceptor interceptors method handler))

      chosen :
          (b : Bool)
          → Answered
              (if b
                then inner (set ctx (interceptors.new_uuid w).0) req (interceptors.new_uuid w).1
                else inner (set ctx (incoming_id metadata)) req w).0
      chosen true = validated-Answered _ req _ (validate req) refl
      chosen false = validated-Answered _ req w (validate req) refl

  -- A handler that panics is answered by an Internal status, and its request is not counted: the
  -- world is as the handler left it. This is stated of a request that brings its id and has no
  -- method `Validate`.
  pub panic_uncounted :
      (id : String) (values : List String) (ctx : Context) (req : A) (w : W) (reason : String)
      (w' : W)
      → id ≢ ""
      → validate req ≡ none
      → handler (set ctx id) req w ≡ (panics reason, w')
      → serve_unary interceptors validate method handler (some (id ∷ values)) ctx req w
        ≡ (fails (record { code = internal; message = "internal server error" }), w')
  unfolding serve_unary request_id_interceptor validation_interceptor recovery_interceptor
      metrics_interceptor
  panic_uncounted id values ctx req w reason w' given unchecked panicked =
      let known : str_eq id "" ≡ false = ground (arith, eq_iff id "") in
      rw
        (
          known, validation_interceptor, unchecked, recovery_interceptor, metrics_interceptor,
          panicked,
        )
        refl
