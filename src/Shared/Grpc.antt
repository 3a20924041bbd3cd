-- ===== src/Shared/Grpc.antt =====
-- The unary interceptors of shared/middleware and shared/middleware_grpc, and what a gRPC handler
-- ends in.
pub mod Chain
use order_billing_system.Base.Tests.{◌≡◌, Option, none, some, if◌then◌else◌}
use order_billing_system.Base.Texts.{String, str_eq, sprint}
use order_billing_system.Base.Lists.{List, [], ◌∷◌}
use order_billing_system.Shared.RequestId.{Context, set}

-- The codes of google.golang.org/grpc/codes that the services return.
pub data Code : Type 0 where
  invalid_argument not_found failed_precondition internal : Code

-- `Code.String`
abbrev pub code_text : Code → String
code_text invalid_argument = "InvalidArgument"
code_text not_found = "NotFound"
code_text failed_precondition = "FailedPrecondition"
code_text internal = "Internal"

pub record Status : Type 0 where
  pub code : Code
  pub message : String

-- A response with a nil error, an error of `status.Error`, or a panic.
pub data Reply (A : Type 0) : Type 0 where
  responds : A → Reply A
  fails : Status → Reply A
  panics : String → Reply A

-- `grpc.UnaryHandler`
abbrev pub UnaryHandler : Type 0 → Type 0 → Type 0 → Type 0
UnaryHandler W A B = Context → A → W → Reply B × W

-- What the interceptors take from outside: the uuid generator, and the counter of requests by method
-- and status.
pub record Interceptors (W : Type 0) : Type 0 where
  pub new_uuid : W → String × W
  pub count_request : String → String → W → W

-- The first value of the metadata key x-request-id, if the context carries metadata.
abbrev pub incoming_id : Option (List String) → String
incoming_id none = ""
incoming_id (some []) = ""
incoming_id (some (v ∷ values)) = v

-- What follows the call of the handler in `GRPCMetricsInterceptor`; a panic does not reach it.
abbrev pub count_reply : {W B : Type 0} → Interceptors W → String → Reply B → W → W
count_reply interceptors method (responds resp) w = interceptors.count_request method "ok" w
count_reply interceptors method (fails st) w =
    interceptors.count_request method (code_text st.code) w
count_reply interceptors method (panics reason) w = w

-- The deferred function of `RecoveryInterceptor`.
abbrev pub recovered_reply : {B : Type 0} → Reply B → Reply B
recovered_reply (responds resp) = responds resp
recovered_reply (fails st) = fails st
recovered_reply (panics reason) =
    fails (record { code = internal; message = "internal server error" })

module _ {W A B : Type 0} (interceptors : Interceptors W) where
  -- `RequestIDInterceptor`, with the metadata that the context carries, if it does.
  unfoldable pub request_id_interceptor :
      UnaryHandler W A B → Option (List String) → Context → A → W → Reply B × W
  request_id_interceptor handler metadata ctx req w =
      let id = incoming_id metadata in
      if str_eq id ""
      then (let (fresh, w') = interceptors.new_uuid w in handler (set ctx fresh) req w')
      else handler (set ctx id) req w

  -- `GRPCMetricsInterceptor`
  unfoldable pub metrics_interceptor : String → UnaryHandler W A B → UnaryHandler W A B
  metrics_interceptor method handler ctx req w =
      let (reply, w') = handler ctx req w in (reply, count_reply interceptors method reply w')

-- `RecoveryInterceptor`
unfoldable pub recovery_interceptor : {W A B : Type 0} → UnaryHandler W A B → UnaryHandler W A B
recovery_interceptor handler ctx req w =
    let (reply, w') = handler ctx req w in (recovered_reply reply, w')

-- `ValidationInterceptor`; `validate` is none for a request without the method, and the text of
-- the error otherwise.
unfoldable pub validation_interceptor :
    {W A B : Type 0} → (A → Option (Option String)) → UnaryHandler W A B → UnaryHandler W A B
validation_interceptor validate handler ctx req w = elim (validate req) [
  | none ↦ handler ctx req w
  | some result ↦ elim result [
    | none ↦ handler ctx req w
    | some problem ↦ (
      fails (record {
        code = invalid_argument;
        message = sprint ("validation failed: " ∷ problem ∷ []);
      }),
      w,
    )
  ]
]

-- The chain of `grpc.ChainUnaryInterceptor` in both app.go files, the first one outermost.
unfoldable pub serve_unary :
    {W A B : Type 0}
    → Interceptors W
    → (A → Option (Option String))
    → String
    → UnaryHandler W A B
    → Option (List String)
    → Context
    → A
    → W
    → Reply B × W
serve_unary interceptors validate method handler metadata =
    request_id_interceptor interceptors
      (validation_interceptor validate
        (recovery_interceptor (metrics_interceptor interceptors method handler)))
      metadata
