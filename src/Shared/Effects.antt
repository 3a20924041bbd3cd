-- ===== src/Shared/Effects.antt =====
-- Go calls that return `(T, error)` and act on a world: databases, brokers, clock, counters.
pub mod Contracts
use order_billing_system.Base.Tests.{◌≡◌, refl, ◌⊎◌, inl, inr, Option, none, some}
use order_billing_system.Base.Texts.{String}
use order_billing_system.Base.Integers.{ℤ}
use order_billing_system.Shared.Errors.{GoError}

-- A `time.Time`: seconds since the epoch, and nanoseconds.
pub record Time : Type 0 where
  pub unix : ℤ
  pub nanos : ℤ

-- What a call returns: a value and a nil error, or an error.
pub data Result (A : Type 0) : Type 0 where
  ok : A → Result A
  err : GoError → Result A

-- What a call ends in, where it may panic.
pub data Outcome (A : Type 0) : Type 0 where
  returns : Result A → Outcome A
  panics : String → Outcome A

-- What was written to the world before an error stays written.
abbrev pub Act : Type 0 → Type 0 → Type 0
Act W A = W → Result A × W

module _ {W A : Type 0} where
  abbrev pub pure : A → Act W A
  pure a w = (ok a, w)

  abbrev pub fail : GoError → Act W A
  fail e w = (err e, w)

  abbrev pub lift : Result A → Act W A
  lift r w = (r, w)

  -- A call that cannot fail.
  abbrev pub call : (W → A × W) → Act W A
  call f w = let (a, w') = f w in (ok a, w')

  -- `if err != nil { return other }`
  abbrev pub or_fail : Act W A → (GoError → GoError) → Act W A
  or_fail m other w = let (r, w') = m w in (elim r [ ok a ↦ ok a | err e ↦ err (other e) ], w')

-- A call whose error is only tested for, or only logged.
abbrev pub attempt : {W A : Type 0} → Act W A → Act W (Option A)
attempt m w = let (r, w') = m w in (ok (elim r [ ok a ↦ some a | err _ ↦ none ]), w')

-- A call whose result is looked at, or dropped, by the code that follows.
abbrev pub reify : {W A : Type 0} → Act W A → Act W (Result A)
reify m w = let (r, w') = m w in (ok r, w')

abbrev pub ignore : {W A : Type 0} → Act W A → Act W (Unit {0})
ignore m w = (ok tt, (m w).1)

abbrev pub notify : {W : Type 0} → (W → W) → Act W (Unit {0})
notify f w = (ok tt, f w)

infixl 5 ◌>>=◌ ◌>>◌
abbrev pub ◌>>=◌ : {W A B : Type 0} → Act W A → (A → Act W B) → Act W B
◌>>=◌ m f w = let (r, w') = m w in elim r [ ok a ↦ f a w' | err e ↦ (err e, w') ]

abbrev pub ◌>>◌ : {W A B : Type 0} → Act W A → Act W B → Act W B
m >> k = m >>= λ _. k

-- The chaining of results that touch no world.
infixl 5 ◌>=>◌
abbrev pub ◌>=>◌ : {A B : Type 0} → Result A → (A → Result B) → Result B
ok a >=> f = f a
err e >=> f = err e

pub Result-cases :
    {A : Type 0} (r : Result A) → ((a : A) × (r ≡ ok a)) ⊎ ((e : GoError) × (r ≡ err e))
Result-cases (ok a) = inl (a, refl)
Result-cases (err e) = inr (e, refl)
