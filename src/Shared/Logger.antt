-- ===== src/Shared/Logger.antt =====
-- shared/logger/logger.go. The clock, encoding/json and the log package are the parameters.
pub mod Carried
pub mod Requests
use order_billing_system.Base.Tests.{◌≡◌, refl, Option, none, some}
use order_billing_system.Base.Texts.{String}
use order_billing_system.Shared.Errors.{GoError, error_text}
use order_billing_system.Shared.Effects.{Result, ok, err, Outcome, returns, panics}
use order_billing_system.Shared.RequestId.{Context, get}

-- A field with the tag omitempty is left out by encoding/json when it is "".
pub record LogEntry : Type 0 where
  pub level : String
  pub time : String
  pub service : String
  pub message : String
  pub error : String
  pub request_id : String

abbrev pub level_info : String
level_info = "INFO"

abbrev pub level_error : String
level_error = "ERROR"

pub record LogEnvironment : Type 1 where
  pub World : Type 0
  -- time.Now().UTC().Format(time.RFC3339)
  pub now_text : World → String × World
  -- json.Marshal
  pub marshal_entry : LogEntry → Result String
  -- log.SetOutput(os.Stdout) and log.SetFlags(0)
  pub set_output : World → World
  -- log.Println
  pub print_line : String → World → World

-- The world with the variable `serviceName`.
pub record Logger (env : LogEnvironment) : Type 0 where
  pub service_name : String
  pub world : env.World

-- `string(b)`, where b is nil after an error.
abbrev pub text_or_nil : Result String → String
text_or_nil (ok b) = b
text_or_nil (err e) = ""

-- `err.Error()`
abbrev pub error_of : Option GoError → Outcome String
error_of none = panics "invalid memory address or nil pointer dereference"
error_of (some e) = returns (ok (error_text e))

module _ (env : LogEnvironment) where
  unfoldable pub init : String → Logger env → Logger env
  init service lg = record { service_name = service; world = env.set_output lg.world }

  unfoldable pub write : LogEntry → Logger env → Logger env
  write entry lg = record lg {
    world = env.print_line (text_or_nil (env.marshal_entry entry)) lg.world;
  }

  -- The end of a call whose fields have been evaluated to a text, or have panicked.
  abbrev pub write_with :
      Outcome String → (String → LogEntry) → Logger env → Outcome (Unit {0}) × Logger env
  write_with (returns (ok id)) entry lg = (returns (ok tt), write (entry id) lg)
  write_with (returns (err e)) entry lg = (returns (err e), lg)
  write_with (panics reason) entry lg = (panics reason, lg)

  unfoldable pub info_ctx : Context → String → Logger env → Outcome (Unit {0}) × Logger env
  info_ctx ctx msg lg =
      let (now, w) = env.now_text lg.world in
      write_with (get ctx)
        (λ id. record {
          level = level_info;
          time = now;
          service = lg.service_name;
          message = msg;
          error = "";
          request_id = id;
        })
        (record lg { world = w })

  -- The error is evaluated before the request id is looked up.
  unfoldable pub error_ctx :
      Context → String → Option GoError → Logger env → Outcome (Unit {0}) × Logger env
  error_ctx ctx msg problem lg =
      let (now, w) = env.now_text lg.world in
      elim (error_of problem) [
        | panics reason ↦ (panics reason, record lg { world = w })
        | returns (err e) ↦ (returns (err e), record lg { world = w })
        | returns (ok problem_text) ↦
            write_with (get ctx)
              (λ id. record {
                level = level_error;
                time = now;
                service = lg.service_name;
                message = msg;
                error = problem_text;
                request_id = id;
              })
              (record lg { world = w })
      ]
