-- ===== src/Shared/Effects/Contracts.antt =====
-- What holds when a call has ended, by how it ended, with a rule for each way to build a call.
use order_billing_system.Base.Tests.{◌≡◌, refl, sym, ap, Bool, true, false, inl, inr, if◌then◌else◌}
use mathlib.Core.Path.{subst}
use order_billing_system.Shared.Errors.{GoError}
use order_billing_system.Shared.Effects.{Result, ok, err, Act, or_fail, ◌>>=◌, Result-cases}

-- `P` holds of a value that is returned, `Q` of an error.
pub record Ends {A W : Type 0} (P : A → W → Type 0) (Q : GoError → W → Type 0) (o : Result A × W)
    : Type 0 where
  pub on_ok : (a : A) → o.0 ≡ ok a → P a o.1
  pub on_err : (e : GoError) → o.0 ≡ err e → Q e o.1

module _ {A W : Type 0} {P : A → W → Type 0} {Q : GoError → W → Type 0} where
  pub Ends-ok : (a : A) (w : W) → P a w → Ends P Q (ok a, w)
  Ends-ok a w h = record {
    on_ok = λ b e. let same : a ≡ b = (cc) in subst (λ x. P x w) same h;
    on_err = λ x e. absurd (cc);
  }

  pub Ends-err : (x : GoError) (w : W) → Q x w → Ends P Q (err x, w)
  Ends-err x w h = record {
    on_ok = λ a e. absurd (cc);
    on_err = λ y e. let same : x ≡ y = (cc) in subst (λ z. Q z w) same h;
  }

  -- A call that is known to end in `ok a`, or in `err x`.
  pub Ends-of_ok : {o : Result A × W} (a : A) → o.0 ≡ ok a → P a o.1 → Ends P Q o
  Ends-of_ok {o} a e h = subst (Ends P Q) (λ i. (sym e i, o.1)) (Ends-ok a o.1 h)

  pub Ends-of_err : {o : Result A × W} (x : GoError) → o.0 ≡ err x → Q x o.1 → Ends P Q o
  Ends-of_err {o} x e h = subst (Ends P Q) (λ i. (sym e i, o.1)) (Ends-err x o.1 h)

  pub Ends-if :
      (b : Bool) (m n : Act W A) (w : W)
      → (b ≡ true → Ends P Q (m w))
      → (b ≡ false → Ends P Q (n w))
      → Ends P Q ((if b then m else n) w)
  Ends-if true m n w hm hn = hm refl
  Ends-if false m n w hm hn = hn refl

module _ {A W : Type 0} {P P' : A → W → Type 0} {Q Q' : GoError → W → Type 0} where
  pub Ends-weaken :
      {o : Result A × W}
      → Ends P Q o
      → ((a : A) → P a o.1 → P' a o.1)
      → ((e : GoError) → Q e o.1 → Q' e o.1)
      → Ends P' Q' o
  Ends-weaken h hp hq = record {
    on_ok = λ a e. hp a (h.on_ok a e);
    on_err = λ x e. hq x (h.on_err x e);
  }

module _ {A B W : Type 0} {P : A → W → Type 0} {P' : B → W → Type 0}
    {Q Q' : GoError → W → Type 0} where
  -- The rest of a block runs from where the first call ended, or the error is handed on.
  pub Ends-bind :
      (m : Act W A) (f : A → Act W B) (w : W)
      → Ends P Q (m w)
      → ((a : A) → P a (m w).1 → Ends P' Q' (f a (m w).1))
      → ((e : GoError) → Q e (m w).1 → Q' e (m w).1)
      → Ends P' Q' ((m >>= f) w)
  Ends-bind m f w h next failed = elim (Result-cases (m w).0) [
    | inl (a, e) ↦ rw (e, ◌>>=◌) (next a (h.on_ok a e))
    | inr (x, e) ↦ rw (e, ◌>>=◌) (Ends-err x (m w).1 (failed x (h.on_err x e)))
  ]

module _ {A W : Type 0} {P : A → W → Type 0} {Q Q' : GoError → W → Type 0} where
  pub Ends-or_fail :
      (m : Act W A) (other : GoError → GoError) (w : W)
      → Ends P Q (m w)
      → ((e : GoError) → Q e (m w).1 → Q' (other e) (m w).1)
      → Ends P Q' (or_fail m other w)
  Ends-or_fail m other w h failed = elim (Result-cases (m w).0) [
    | inl (a, e) ↦ rw (e, or_fail) (Ends-ok a (m w).1 (h.on_ok a e))
    | inr (x, e) ↦ rw (e, or_fail) (Ends-err (other x) (m w).1 (failed x (h.on_err x e)))
  ]

-- A call whose result is known, before what takes it.
bind_result :
    {W A B : Type 0} (m : Act W A) (f : A → Act W B) (w : W) {r : Result A}
    → (m w).0 ≡ r
    → (m >>= f) w
      ≡ (elim r as (λ _. Result B × W) [ ok a ↦ f a (m w).1 | err e ↦ (err e, (m w).1) ])
bind_result {W} {A} {B} m f w known =
    ap
      (λ (r : Result A). elim r as (λ _. Result B × W) [
        | ok a ↦ f a (m w).1
        | err e ↦ (err e, (m w).1)
      ])
      known

pub bind_ok :
    {W A B : Type 0} (m : Act W A) (f : A → Act W B) (w : W) {a : A}
    → (m w).0 ≡ ok a
    → (m >>= f) w ≡ f a (m w).1
bind_ok m f w known = bind_result m f w known

pub bind_err :
    {W A B : Type 0} (m : Act W A) (f : A → Act W B) (w : W) {e : GoError}
    → (m w).0 ≡ err e
    → (m >>= f) w ≡ (err e, (m w).1)
bind_err m f w known = bind_result m f w known

pub or_fail_ok :
    {W A : Type 0} (m : Act W A) (other : GoError → GoError) (w : W) {a : A}
    → (m w).0 ≡ ok a
    → (or_fail m other w).0 ≡ ok a
or_fail_ok {W} {A} m other w known =
    ap (λ (r : Result A). elim r as (λ _. Result A) [ ok a ↦ ok a | err e ↦ err (other e) ]) known

pub or_fail_err :
    {W A : Type 0} (m : Act W A) (other : GoError → GoError) (w : W) {e : GoError}
    → (m w).0 ≡ err e
    → (or_fail m other w).0 ≡ err (other e)
or_fail_err {W} {A} m other w known =
    ap (λ (r : Result A). elim r as (λ _. Result A) [ ok a ↦ ok a | err e ↦ err (other e) ]) known
