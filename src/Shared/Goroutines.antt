-- ===== src/Shared/Goroutines.antt =====
-- The goroutines that have begun and not ended, by a number: the states in which they are, as both
-- services' schedules keep them.
use order_billing_system.Base.Tests.{
  ℕ, ◌==◌, ◌≡◌, sym, ◌∙◌, Bool, true, false, Option, none, some, if◌then◌else◌,
}
use mathlib.Core.Option.{none-ne-some}

-- A loop that a context ends has returned, or the rounds that it was given have been used up.
pub data Progress : Type 0 where
  stopped goes_on : Progress

module _ {A : Type 0} where
  abbrev pub set_running : (ℕ → Option A) → ℕ → Option A → ℕ → Option A
  set_running running i p j = if i == j then p else running j

  abbrev pub Every : (A → Type 0) → (ℕ → Option A) → Type 0
  Every P running = (i : ℕ) (p : A) → running i ≡ some p → P p

module _ {A : Type 0} (P : A → Type 0) where
  pub set-Every :
      (running : ℕ → Option A) (i : ℕ) (q : Option A)
      → Every P running
      → ((p : A) → q ≡ some p → P p)
      → Every P (set_running running i q)
  set-Every running i q before new j p = pick (i == j)
    where
      pick : (b : Bool) → (if b then q else running j) ≡ some p → P p
      pick true found = new p found
      pick false found = before j p found

  pub stop-Every :
      (running : ℕ → Option A) (i : ℕ) → Every P running → Every P (set_running running i none)
  stop-Every running i before =
      set-Every running i none before (λ p stopped. absurd (none-ne-some p stopped))

  pub idle-Every : (running : ℕ → Option A) → ((i : ℕ) → running i ≡ none) → Every P running
  idle-Every running idle i p begun = absurd (none-ne-some p (sym (idle i) ∙ begun))
