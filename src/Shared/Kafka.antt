-- ===== src/Shared/Kafka.antt =====
-- The fields of kafka-go's `Message` that the services read and write, and `SafeHandle` of
-- shared/middleware/kafka_recovery.go.
use order_billing_system.Base.Texts.{String, sprint}
use order_billing_system.Base.Lists.{List, [], ◌∷◌}
use order_billing_system.Base.Integers.{ℤ}
use order_billing_system.Shared.Errors.{text}
use order_billing_system.Shared.Effects.{Result, err, Outcome, returns, panics, Act}

pub record Header : Type 0 where
  pub key : String
  pub value : String

pub record Message : Type 0 where
  pub topic : String
  pub partition : ℤ
  pub offset : ℤ
  pub key : String
  pub value : String
  pub headers : List Header

-- A handler of messages, which may panic with a value that `%v` prints as a text.
abbrev pub Handler : Type 0 → Type 0
Handler W = Message → W → Outcome (Unit {0}) × W

recovered : Outcome (Unit {0}) → Result (Unit {0})
recovered (returns r) = r
recovered (panics reason) = err (text (sprint ("panic recovered in kafka handler: " ∷ reason ∷ [])))

-- The stack trace that the error text goes on with is left out.
unfoldable pub safe_handle : {W : Type 0} → Handler W → Message → Act W (Unit {0})
unfolding recovered
safe_handle handler msg w = let (o, w') = handler msg w in (recovered o, w')
