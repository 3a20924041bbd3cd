-- ===== src/Billing/Consumer/Commits.antt =====
-- When `processMessage` commits an offset.
use order_billing_system.Base.Tests.{
  ◌≡◌, refl, ◌∙◌, ap, ◌⊎◌, inl, inr, Option, some, arith, Bool-cases,
}
use order_billing_system.Base.Texts.{String, eq_refl}
use order_billing_system.Base.Lists.{List, [], ◌∷◌, ◌++◌}
use order_billing_system.Shared.Errors.{GoError, is_record_not_found}
use order_billing_system.Shared.Effects.{ok, err, ignore, Result-cases}
use order_billing_system.Shared.Kafka.{Message, Handler, safe_handle}
use order_billing_system.Billing.Model.{ProcessedEvent}
use order_billing_system.Billing.Environment.{Environment, Ledger, Documented, update}
use order_billing_system.Billing.Repository.{exists}
use order_billing_system.Billing.Retry.{retry}
use order_billing_system.Billing.Retry.Outcome.{Stable, retry_outcome}
use order_billing_system.Billing.Consumer.{
  event_key, complete, give_up, conclude, attempt_message, process_message,
}
use order_billing_system.Billing.Consumer.Steps.{commit_outcome, give_up_outcome, complete_outcome}

-- The handler commits no offset itself.
abbrev pub LeavesCommits : (env : Environment) → Documented env → Handler env.World → Type 0
LeavesCommits env doc handler =
    (msg : Message) (w : env.World)
    → (doc.ledger (handler msg w).1).commits ≡ (doc.ledger w).commits

module _ (env : Environment) (doc : Documented env) where
  -- The event is recorded as processed.
  abbrev pub Recorded : String → Ledger → Type 0
  Recorded key l = (row : ProcessedEvent) × (l.processed key ≡ some row)

  -- Every attempt of handling the message, begun at `w`, ended in an error.
  abbrev pub Failed : Handler env.World → Message → env.World → Type 0
  Failed handler msg w = (e : GoError) × ((retry env 3 (safe_handle handler msg) w).0 ≡ err e)

  -- What has become of the offset of a message whose handling began at `w`.
  abbrev pub Settled : Handler env.World → Message → env.World → Ledger → Ledger → Type 0
  Settled handler msg w before after =
      (after.commits ≡ before.commits)
      ⊎ ((after.commits ≡ before.commits ++ msg ∷ [])
          × (Recorded (event_key msg) after ⊎ Failed handler msg w))

module _ (env : Environment) (handler : Handler env.World) (msg : Message) where
  -- A message that the check does not know is attempted.
  pub attempted :
      (w : env.World) {e : GoError}
      → (env.first_processed (event_key msg) w).0 ≡ err e
      → process_message env handler msg w
        ≡ attempt_message env handler msg (env.first_processed (event_key msg) w).1
  unfolding process_message exists
  attempted w {e} missing = elim (Bool-cases (is_record_not_found e)) [
    | inl absent ↦ rw (missing, absent)
    | inr broken ↦ rw (missing, broken)
  ]

  pub skipped :
      (w : env.World) {row : ProcessedEvent}
      → (env.first_processed (event_key msg) w).0 ≡ ok row
      → process_message env handler msg w
        ≡ ignore (env.commit_message msg) (env.first_processed (event_key msg) w).1
  unfolding process_message exists
  skipped w found = rw found

module _ (env : Environment) (doc : Documented env) (handler : Handler env.World)
    (leaves : LeavesCommits env doc handler) (msg : Message) where
  abbrev commits_of : env.World → List Message
  commits_of w = (doc.ledger w).commits

  safe_handle-commits :
      (w : env.World) → (doc.ledger (safe_handle handler msg w).1).commits ≡ (doc.ledger w).commits
  unfolding safe_handle
  safe_handle-commits w = leaves msg w

  retry-commits :
      (w : env.World)
      → (doc.ledger (retry env 3 (safe_handle handler msg) w).1).commits ≡ (doc.ledger w).commits
  retry-commits w =
      let outcome = retry_outcome env (safe_handle handler msg) keeps 3 w (omega arith) refl in
      elim (Result-cases (retry env 3 (safe_handle handler msg) w).0) [
        | inl (_, done) ↦
            let (v, before, _, end) = outcome.on_ok tt done in
            ap commits_of end ∙ safe_handle-commits v ∙ before
        | inr (e, failed) ↦ outcome.on_err e failed
      ]
    where
      keeps : Stable env (safe_handle handler msg) (λ v. commits_of v ≡ commits_of w)
      keeps = record {
        after_failure = λ v e before _. safe_handle-commits v ∙ before;
        after_wait = λ d v before. ap (λ (l : Ledger). l.commits) (doc.wait_keeps d v) ∙ before;
        after_random = λ n v before. ap (λ (l : Ledger). l.commits) (doc.random_keeps n v) ∙ before;
      }

  -- An offset is settled in the same way when the commits at the start are known to be others'.
  after_complete :
      (w : env.World)
      → let after = doc.ledger (complete env msg w).1 in
        (after.commits ≡ commits_of w)
        ⊎ ((after.commits ≡ commits_of w ++ msg ∷ []) × Recorded env doc (event_key msg) after)
  after_complete w = elim (complete_outcome env doc msg w) [
    | inl same ↦ inl (ap (λ (l : Ledger). l.commits) same)
    | inr recorded ↦
        let (row, settled) = recorded in
        elim settled [
          | inl saved ↦ inl (ap (λ (l : Ledger). l.commits) saved)
          | inr committed ↦ inr (
            ap (λ (l : Ledger). l.commits) committed,
            (
              row,
              ap (λ (l : Ledger). l.processed (event_key msg)) committed
                  ∙ updated (doc.ledger w).processed row,
            ),
          )
        ]
  ]
    where
      updated :
          (f : String → Option ProcessedEvent) (row : ProcessedEvent)
          → update f (event_key msg) row (event_key msg) ≡ some row
      updated f row = simp eq_refl

  after_give_up :
      (e : GoError) (w : env.World)
      → let after = doc.ledger (give_up env msg e w).1 in
        (after.commits ≡ commits_of w) ⊎ (after.commits ≡ commits_of w ++ msg ∷ [])
  after_give_up e w =
      let (letters, settled) = give_up_outcome env doc msg e w in
      elim settled [
        | inl kept ↦ inl (ap (λ (l : Ledger). l.commits) kept)
        | inr committed ↦ inr (ap (λ (l : Ledger). l.commits) committed)
      ]

  attempt_settles :
      (w : env.World)
      → Settled env doc handler msg w
          (doc.ledger w)
          (doc.ledger (attempt_message env handler msg w).1)
  unfolding attempt_message
  attempt_settles w =
      let w1 = (retry env 3 (safe_handle handler msg) w).1 in
      let before = retry-commits w in
      elim (Result-cases (retry env 3 (safe_handle handler msg) w).0) [
        | inl (_, done) ↦
            rw (done, conclude)
              (elim (after_complete w1) [
                | inl same ↦ inl (same ∙ before)
                | inr (committed, recorded) ↦
                    inr (committed ∙ ap (λ l. l ++ msg ∷ []) before, inl recorded)
              ])
        | inr (e, failed) ↦
            rw (failed, conclude)
              (elim (after_give_up e w1) [
                | inl same ↦ inl (same ∙ before)
                | inr committed ↦ inr (committed ∙ ap (λ l. l ++ msg ∷ []) before, inr (e, refl))
              ])
      ]

  -- An offset is committed only for a message whose event is recorded as processed, or that failed
  -- on every attempt. Either way at most one offset, that of the message itself, is committed.
  pub process_settles :
      (w : env.World)
      → Settled env doc handler msg
          (env.first_processed (event_key msg) w).1
          (doc.ledger w)
          (doc.ledger (process_message env handler msg w).1)
  process_settles w =
      let key = event_key msg in
      let w1 = (env.first_processed key w).1 in
      let same = doc.first_processed_keeps key w in
      elim (Result-cases (env.first_processed key w).0) [
        | inr (e, missing) ↦
            rw (attempted env handler msg w missing) (rw same at (attempt_settles w1))
        | inl (row, found) ↦
            rw (skipped env handler msg w found) (elim (commit_outcome env doc msg w1) [
              | inl kept ↦ inl (ap (λ (l : Ledger). l.commits) (kept ∙ same))
              | inr committed ↦ inr (
                ap (λ (l : Ledger). l.commits)
                    (committed
                      ∙ ap (λ (l : Ledger). record l { commits = l.commits ++ msg ∷ [] }) same),
                inl (
                  row,
                  ap (λ (l : Ledger). l.processed key)
                        (committed
                          ∙ ap (λ (l : Ledger). record l { commits = l.commits ++ msg ∷ [] }) same)
                      ∙ doc.first_processed_found key w found,
                ),
              )
            ])
      ]
