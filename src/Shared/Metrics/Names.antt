-- ===== src/Shared/Metrics/Names.antt =====
-- Which full names of collectors differ.
use order_billing_system.Base.Tests.{◌≡◌, ◌≢◌, sym, ◌∙◌, Bool, true, false, not, ◌&&◌, ◌||◌, arith}
use text.Mathlib.TextLemmas.{append_cancel_left}
use order_billing_system.Base.Texts.{String, str_eq, eq_iff, sprint}
use order_billing_system.Base.Lists.{List, [], ◌∷◌, ◌++◌, map, All}
use order_billing_system.Shared.Collectors.{Collector}
use order_billing_system.Shared.Metrics.{Prometheus, PrometheusDocumented}

-- What follows the namespace in the full name.
abbrev pub short_name : Collector → String
short_name c = sprint ("_" ∷ c.subsystem ∷ "_" ∷ c.name ∷ [])

pub taken : String → List String → Bool
taken n [] = false
taken n (m ∷ ms) = str_eq n m || taken n ms

-- No name stands in the list twice.
unfoldable pub apart : List String → Bool
unfolding taken
apart [] = true
apart (n ∷ ns) = not (taken n ns) && apart ns

abbrev pub Apart : List String → Type 0
Apart [] = Unit
Apart (n ∷ ns) = All (λ m. n ≢ m) ns × Apart ns

taken_lem : (n : String) (ms : List String) → taken n ms ≡ false → All (λ m. n ≢ m) ms
unfolding taken
taken_lem n [] h = tt
taken_lem n (m ∷ ms) h =
    ((λ e. ground (arith, eq_iff n m)), taken_lem n ms (ground (arith, eq_iff n m)))

pub apart-Apart : (ns : List String) → apart ns ≡ true → Apart ns
unfolding apart
apart-Apart [] h = tt
apart-Apart (n ∷ ns) h = (taken_lem n ns (ground arith), apart-Apart ns (ground arith))

-- The name of an entry differs from those before it.
pub Apart-before :
    (before : List Collector) (c : Collector) (after : List Collector)
    → Apart (map short_name (before ++ c ∷ after))
    → All (λ d. short_name d ≢ short_name c) before
Apart-before [] c after h = tt
Apart-before (d ∷ before) c after (first, rest) =
    (middle before first, Apart-before before c after rest)
  where
    middle :
        (ds : List Collector)
        → All (λ m. short_name d ≢ m) (map short_name (ds ++ c ∷ after))
        → short_name d ≢ short_name c
    middle [] all = all.0
    middle (x ∷ ds) all = middle ds all.1

-- Nothing of the full name is empty.
abbrev pub Named : String → Collector → Type 0
Named service c = (c.namespace ≡ service) × (service ≢ "") × (c.subsystem ≢ "") × (c.name ≢ "")

module _ (prom : Prometheus) (doc : PrometheusDocumented prom) where
  full_name_lem :
      (service : String) (c : Collector)
      → Named service c
      → prom.full_name c.namespace c.subsystem c.name
        ≡ sprint (service ∷ "_" ∷ c.subsystem ∷ "_" ∷ c.name ∷ [])
  full_name_lem service c (same, given, subsystem, name) =
      rw same (doc.full_name_parts service c.subsystem c.name given subsystem name)

  pub full_name-ne :
      (service : String) (d c : Collector)
      → Named service d
      → Named service c
      → short_name d ≢ short_name c
      → prom.full_name d.namespace d.subsystem d.name
        ≢ prom.full_name c.namespace c.subsystem c.name
  full_name-ne service d c hd hc other e = other (
      append_cancel_left service (short_name d) (short_name c)
        (sym (full_name_lem service d hd) ∙ e ∙ full_name_lem service c hc))
