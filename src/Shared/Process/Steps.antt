-- ===== src/Shared/Process/Steps.antt =====
-- What the parts of a process do to what runs and what is open.
use order_billing_system.Base.Tests.{
  ◌≡◌, refl, ◌∙◌, ap, ◌⊎◌, inl, inr, Bool, true, false, if◌then◌else◌,
}
use order_billing_system.Base.Texts.{String, str_eq, eq_refl}
use order_billing_system.Shared.Errors.{GoError}
use order_billing_system.Shared.Effects.{Result, ok, err, Act, Outcome, returns, Result-cases}
use order_billing_system.Shared.Effects.Contracts.{Ends}
use order_billing_system.Shared.Metrics.{Guarded}
use order_billing_system.Shared.Process.{
  ProcessEnvironment, ProcessDocumented, Running, set_reader, stop_server, stop_if, close_database,
  close_if, run_with,
}

pub closed_here : (f : String → Bool) (t : String) → set_reader f t false t ≡ false
closed_here f t = rw (eq_refl t) refl

pub stays_closed : (f : String → Bool) (u t : String) → f t ≡ false → set_reader f u false t ≡ false
stays_closed f u t closed = pick (str_eq u t)
  where
    pick : (b : Bool) → (if b then false else f t) ≡ false
    pick true = refl
    pick false = closed

module _ (env : ProcessEnvironment) (doc : ProcessDocumented env) where
  pub stop_server_returns : (w : env.World) → (stop_server env w).0 ≡ ok tt
  unfolding stop_server stop_if
  stop_server_returns w = pick (env.graceful_stop w).0
    where
      pick : (b : Bool) → (stop_if env b (env.graceful_stop w).1).0 ≡ ok tt
      pick true = refl
      pick false = refl

  -- The server is stopped, whether or not it stops in time.
  pub stop_server_stops :
      (w : env.World)
      → doc.running (stop_server env w).1 ≡ record (doc.running w) { serving = false }
  unfolding stop_server stop_if
  stop_server_stops w = pick (env.graceful_stop w).0 (doc.graceful_stop_ends w)
    where
      pick :
          (b : Bool)
          → doc.running (env.graceful_stop w).1
            ≡ (if b then record (doc.running w) { serving = false } else doc.running w)
          → doc.running (stop_if env b (env.graceful_stop w).1).1
            ≡ record (doc.running w) { serving = false }
      pick true stopped = stopped
      pick false late = doc.stop_ends _ ∙ ap (λ (r : Running). record r { serving = false }) late

  -- The database is closed, or the last call was that of `DB`, and it failed.
  abbrev pub Closed : env.Db → Running → env.World → Type 0
  Closed db before w' =
      (doc.running w' ≡ record before { db_open = false })
      ⊎ (((w1 : env.World) × (e : GoError) × (env.sql_db db w1 ≡ (err e, w')))
          × (doc.running w' ≡ before))

  pub close_database_closes :
      (db : env.Db) (w : env.World)
      → ((close_database env db w).0 ≡ ok tt)
        × Closed db (doc.running w) (close_database env db w).1
  unfolding close_database close_if
  close_database_closes db w = elim (Result-cases (env.sql_db db w).0) [
    | inl (_, found) ↦ rw found (
      refl,
      inl (
          doc.close_db_closes db _
          ∙ ap (λ (r : Running). record r { db_open = false }) (doc.sql_db_keeps db w)),
    )
    | inr (e, failed) ↦ rw failed (
      refl,
      inr (
        (w, e, ap (λ (r : Result (Unit {0})). (r, (env.sql_db db w).1)) failed),
        doc.sql_db_keeps db w,
      ),
    )
  ]

module _ (env : ProcessEnvironment) where
  -- A run ends in nil or in an error, and does not panic.
  abbrev pub Finishes :
      (env.World → Type 0) → (env.World → Type 0) → Outcome (Unit {0}) × env.World → Type 0
  Finishes P Q o =
      ((o.0 ≡ returns (ok tt)) × P o.1) ⊎ ((e : GoError) × (o.0 ≡ returns (err e)) × Q o.1)

  pub run_with-Finishes :
      {M : Type 0} (m : M) (opening : Act env.World env.Db)
      (rest : env.Db → Act env.World (Unit {0})) (w : env.World) (P Q : env.World → Type 0)
      → Ends (λ db w1. Ends (λ _. P) (λ _. Q) (rest db w1)) (λ _. Q) (opening w)
      → Finishes P Q (run_with env (Guarded.returns m) opening rest w)
  unfolding run_with
  run_with-Finishes m opening rest w P Q h = elim (Result-cases (opening w).0) [
    | inr (e, failed) ↦ rw (failed, run_with) (inr (e, refl, h.on_err e failed))
    | inl (db, done) ↦
        let w1 = (opening w).1 in
        let inner = h.on_ok db done in
        rw (done, run_with)
          (elim (Result-cases (rest db w1).0) [
            | inl (u, all) ↦ inl (ap returns all, inner.on_ok u all)
            | inr (e, failed) ↦ inr (e, ap returns failed, inner.on_err e failed)
          ])
  ]
