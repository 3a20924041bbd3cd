-- ===== src/Shared/Database/Attempts.antt =====
-- How often `InitDB` tries, and what it returns.
use order_billing_system.Base.Tests.{ℕ, zero, suc, ◌<◌, ◌≡◌, refl, ◌⊎◌, inl, inr, arith}
use order_billing_system.Base.Texts.{String}
use order_billing_system.Shared.Errors.{GoError}
use order_billing_system.Shared.Effects.{ok, err, Result-cases}
use order_billing_system.Shared.Database.{
  DatabaseEnvironment, retry_interval, connect_from, connect,
}

module _ (env : DatabaseEnvironment) (dsn : String) where
  -- The world of the attempt after `k` failed ones.
  abbrev pub attempt_world : ℕ → env.World → env.World
  attempt_world zero w = w
  attempt_world (suc k) w = attempt_world k (env.sleep retry_interval (env.gorm_open dsn w).1)

  -- What `k` attempts come to: the first that opens, or the error of the last.
  abbrev pub Opened : ℕ → env.World → env.Db → env.World → Type 0
  Opened left w db w' =
      (k : ℕ) × (k < left)
      × ((env.gorm_open dsn (attempt_world k w)).0 ≡ ok db)
      × (w' ≡ (env.gorm_open dsn (attempt_world k w)).1)
      × ((j : ℕ) → j < k → (e : GoError) × ((env.gorm_open dsn (attempt_world j w)).0 ≡ err e))

  abbrev pub NeverOpened : ℕ → env.World → Type 0
  NeverOpened left w =
      (j : ℕ) → j < left → (e : GoError) × ((env.gorm_open dsn (attempt_world j w)).0 ≡ err e)

  failed_before :
      (w : env.World) (k : ℕ) {e : GoError}
      → (env.gorm_open dsn w).0 ≡ err e
      → ((j : ℕ)
          → j < k
          → (x : GoError) × ((env.gorm_open dsn
                (attempt_world j (env.sleep retry_interval (env.gorm_open dsn w).1))).0
              ≡ err x))
      → (j : ℕ) → j < suc k
      → (x : GoError) × ((env.gorm_open dsn (attempt_world j w)).0 ≡ err x)
  failed_before w k failed later zero below = (_, failed)
  failed_before w k failed later (suc j) below = later j (omega arith)

  connect_from_outcome :
      (left : ℕ) (e : GoError) (w : env.World)
      → ((db : env.Db) × ((connect_from env left dsn (err e) w).0 ≡ ok db)
          × Opened left w db (connect_from env left dsn (err e) w).1)
        ⊎ ((x : GoError) × ((connect_from env left dsn (err e) w).0 ≡ err x) × NeverOpened left w)
  unfolding connect_from
  connect_from_outcome zero e w = inr (e, refl, λ j below. absurd (omega arith))
  connect_from_outcome (suc left) e w = elim (Result-cases (env.gorm_open dsn w).0) [
    | inl (db, done) ↦
        rw (done, connect_from)
          (inl (db, refl, (0, omega arith, done, refl, λ j below. absurd (omega arith))))
    | inr (x, failed) ↦
        let w1 = env.sleep retry_interval (env.gorm_open dsn w).1 in
        elim (connect_from_outcome left x w1) [
          | inl (db, done, (k, few, opened, end, before)) ↦
              rw (failed, connect_from)
                (inl (
                  db,
                  done,
                  (suc k, omega (arith, few), opened, end, failed_before w k failed before),
                ))
          | inr (y, gone, never) ↦
              rw (failed, connect_from) (inr (y, gone, failed_before w left failed never))
        ]
  ]

  -- `InitDB` connects by the first of its ten attempts that opens the database, or returns an error
  -- after all ten have failed; between two attempts it sleeps.
  pub connect_outcome :
      (unset : GoError) (w : env.World)
      → ((db : env.Db) × ((connect env unset dsn w).0 ≡ ok db)
          × Opened 10 w db (connect env unset dsn w).1)
        ⊎ ((x : GoError) × ((connect env unset dsn w).0 ≡ err x) × NeverOpened 10 w)
  unfolding connect
  connect_outcome unset w = connect_from_outcome 10 unset w
