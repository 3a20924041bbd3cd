-- ===== src/Shared/Config/Required.antt =====
-- When the configuration loads, and with which batch size.
use order_billing_system.Base.Tests.{
  ◌≡◌, ◌≢◌, refl, sym, ◌∙◌, ap, ◌⊎◌, inl, inr, ◌<◌, ℕ, zero, suc, arith, Bool, true, false,
  if◌then◌else◌, Bool-cases,
}
use order_billing_system.Base.Texts.{String, str_eq, eq_iff}
use order_billing_system.Base.Lists.{List, [], ◌∷◌, All, Any, here, there}
use order_billing_system.Base.Integers.{ℤ, pos, negsuc, ltb_ℤ}
use order_billing_system.Shared.Effects.{Result, ok, err}
use order_billing_system.Shared.Strconv.{parse_int}
use order_billing_system.Shared.Config.{
  Boot, boots, exits, ◌>>=◌, Config, OrderConfig, must_getenv, load_config, configured_batch_size,
  load_order_config,
}

-- The variables that must be set.
abbrev pub required : List String
required =
    "DB_HOST" ∷ "DB_USER" ∷ "DB_PASSWORD" ∷ "DB_NAME" ∷ "DB_PORT" ∷ "KAFKA_BROKERS"
    ∷ "ORDER_CREATED_TOPIC" ∷ "ORDER_PAID_TOPIC" ∷ "ORDER_CANCELLED_TOPIC" ∷ []

boots-injective : {a b : OrderConfig} → boots a ≡ boots b → a ≡ b
boots-injective e = cc

exits-not-boots : {key : String} {a : OrderConfig} → exits key ≢ boots a
exits-not-boots e = cc

module _ (getenv : String → String) where
  must_getenv-cases :
      (key : String)
      → ((getenv key ≢ "") × (must_getenv getenv key ≡ boots (getenv key)))
        ⊎ ((getenv key ≡ "") × (must_getenv getenv key ≡ exits key))
  unfolding must_getenv
  must_getenv-cases key = elim (Bool-cases (str_eq (getenv key) "")) [
    | inl unset ↦ inr ((eq_iff (getenv key) "").0 unset, rw unset refl)
    | inr given ↦ inl ((λ e. ground (arith, eq_iff (getenv key) "")), rw given refl)
  ]

  step :
      {A : Type 0} (key : String) (rest : String → Boot A) (P : Boot A → Type 0)
      → (getenv key ≢ "" → P (rest (getenv key)))
      → (getenv key ≡ "" → P (exits key))
      → P (must_getenv getenv key >>= rest)
  step key rest P given unset = elim (must_getenv-cases key) [
    | inl (some_text, known) ↦ rw known (given some_text)
    | inr (no_text, known) ↦ rw known (unset no_text)
  ]

  -- All required variables are set and the configuration is there, or the process has ended for a
  -- required one that is not.
  abbrev pub Loads : {A : Type 0} → Boot A → Type 0
  Loads {A} r =
      (((c : A) × (r ≡ boots c)) × All (λ key. getenv key ≢ "") required)
      ⊎ ((key : String) × (r ≡ exits key) × (getenv key ≡ "") × Any (λ k. k ≡ key) required)

  stop :
      {A : Type 0} (key : String)
      → Any (λ k. k ≡ key) required
      → getenv key ≡ ""
      → Loads {A = A} (exits key)
  stop key listed unset = inr (key, refl, unset, listed)

  load_config-Loads : Loads (load_config getenv)
  unfolding load_config
  load_config-Loads =
      step "DB_HOST" _ Loads
        (λ host.
          step "DB_USER" _ Loads
            (λ user.
              step "DB_PASSWORD" _ Loads
                (λ password.
                  step "DB_NAME" _ Loads
                    (λ name.
                      step "DB_PORT" _ Loads
                        (λ port.
                          step "KAFKA_BROKERS" _ Loads
                            (λ brokers.
                              step "ORDER_CREATED_TOPIC" _ Loads
                                (λ created.
                                  step "ORDER_PAID_TOPIC" _ Loads
                                    (λ paid.
                                      step "ORDER_CANCELLED_TOPIC" _ Loads
                                        (λ cancelled. inl (
                                          (_, refl),
                                          (
                                            host,
                                            (
                                              user,
                                              (
                                                password,
                                                (
                                                  name,
                                                  (
                                                    port,
                                                    (brokers, (created, (paid, (cancelled, tt)))),
                                                  ),
                                                ),
                                              ),
                                            ),
                                          ),
                                        ))
                                        (stop _ (
                                          there (
                                            there (
                                              there (
                                                there
                                                  (there (there (there (there (here refl)))))))))))
                                    (stop _ (
                                      there (
                                        there
                                          (there (there (there (there (there (here refl))))))))))
                                (stop _
                                  (there (there (there (there (there (there (here refl)))))))))
                            (stop _ (there (there (there (there (there (here refl))))))))
                        (stop _ (there (there (there (there (here refl)))))))
                    (stop _ (there (there (there (here refl))))))
                (stop _ (there (there (here refl)))))
            (stop _ (there (here refl))))
        (stop _ (here refl))

  chosen :
      (b : Bool) (r : Result ℤ)
      → (n : ℕ) × ((if b then pos 50 else elim r as (λ _. ℤ) [
        | ok n ↦ if ltb_ℤ (pos 0) n then n else pos 50
        | err e ↦ pos 50
      ])
          ≡ pos n)
        × (0 < n)
  chosen true r = (50, refl, omega arith)
  chosen false (err e) = (50, refl, omega arith)
  chosen false (ok (pos zero)) = (50, refl, omega arith)
  chosen false (ok (pos (suc n))) = (suc n, ground arith, omega arith)
  chosen false (ok (negsuc n)) = (50, ground arith, omega arith)

  configured_batch_size-positive : (n : ℕ) × (configured_batch_size getenv ≡ pos n) × (0 < n)
  unfolding configured_batch_size
  configured_batch_size-positive =
      chosen (str_eq (getenv "OUTBOX_BATCH_SIZE") "") (parse_int (getenv "OUTBOX_BATCH_SIZE"))

  -- The configuration of order_service loads if all nine required variables are set, and the process
  -- ends for one that is not set otherwise. The batch size is positive, whatever OUTBOX_BATCH_SIZE
  -- holds.
  pub load_order_config-Loads :
      Loads (load_order_config getenv)
      × ((c : OrderConfig)
          → load_order_config getenv ≡ boots c
          → (n : ℕ) × (c.outbox_batch_size ≡ pos n) × (0 < n))
  unfolding load_order_config
  load_order_config-Loads = elim load_config-Loads [
    | inl ((c, known), all) ↦
        let loaded = ap with_batch_size known in
        (
          inl ((_, loaded), all),
          λ d same.
              let (n, size, positive) = configured_batch_size-positive in
              let whole = boots-injective (sym loaded ∙ same) in
              (n, ap (λ (x : OrderConfig). x.outbox_batch_size) (sym whole) ∙ size, positive),
        )
    | inr (key, known, unset, listed) ↦
        let stopped = ap with_batch_size known in
        (inr (key, stopped, unset, listed), λ d same. absurd (exits-not-boots (sym stopped ∙ same)))
  ]
    where
      with_batch_size : Boot Config → Boot OrderConfig
      with_batch_size r = r >>= λ common.
          boots (record { common = common; outbox_batch_size = configured_batch_size getenv })
