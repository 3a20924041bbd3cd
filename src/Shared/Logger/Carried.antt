-- ===== src/Shared/Logger/Carried.antt =====
-- What the entries that a request logs carry of it: the id that `RequestIDInterceptor` put into its
-- context.
use order_billing_system.Base.Tests.{◌≡◌, refl, sym, ◌∙◌, ap, some}
use mathlib.Core.Path.{subst}
use order_billing_system.Base.Texts.{String}
use order_billing_system.Base.Lists.{List, [], ◌∷◌, ◌++◌, map, All, append-nil, append_assoc}
use order_billing_system.Shared.Errors.{GoError, error_text}
use order_billing_system.Shared.Effects.{ok, Outcome, returns, panics}
use order_billing_system.Shared.RequestId.{Context, get}
use order_billing_system.Shared.Logger.{
  LogEntry, level_info, level_error, LogEnvironment, Logger, text_or_nil, write, info_ctx,
  error_ctx,
}

-- A call of `InfoCtx`, or of `ErrorCtx` with an error that is not nil.
pub data LogCall : Type 0 where
  informs : Context → String → LogCall
  complains : Context → String → GoError → LogCall

abbrev pub context_of : LogCall → Context
context_of (informs ctx msg) = ctx
context_of (complains ctx msg e) = ctx

-- The entry says what the call was given.
abbrev pub Records : LogCall → LogEntry → Type 0
Records (informs ctx msg) entry =
    (entry.level ≡ level_info) × (entry.message ≡ msg) × (entry.error ≡ "")
Records (complains ctx msg e) entry =
    (entry.level ≡ level_error) × (entry.message ≡ msg) × (entry.error ≡ error_text e)

-- What is known of a line on the output.
pub record LogDocumented (env : LogEnvironment) : Type 0 where
  pub printed : env.World → List String
  pub now_text_keeps : (w : env.World) → printed (env.now_text w).1 ≡ printed w
  pub print_line_adds :
      (line : String) (w : env.World) → printed (env.print_line line w) ≡ printed w ++ line ∷ []

module _ (env : LogEnvironment) where
  unfoldable pub log_call : LogCall → Logger env → Outcome (Unit {0}) × Logger env
  log_call (informs ctx msg) lg = info_ctx env ctx msg lg
  log_call (complains ctx msg e) lg = error_ctx env ctx msg (some e) lg

  -- The calls of a goroutine, until one of them panics.
  unfoldable pub log_all : List LogCall → Logger env → Outcome (Unit {0}) × Logger env
  log_all [] lg = (returns (ok tt), lg)
  log_all (c ∷ calls) lg =
      let (r, lg') = log_call c lg in
      elim r [ panics reason ↦ (panics reason, lg') | returns done ↦ log_all calls lg' ]

  abbrev pub line : LogEntry → String
  line entry = text_or_nil (env.marshal_entry entry)

  -- The entries are those of the calls, one for each, under one service and one request id.
  abbrev pub EntriesOf : String → String → List LogCall → List LogEntry → Type 0
  EntriesOf service id [] [] = Unit
  EntriesOf service id [] (entry ∷ entries) = ⊥
  EntriesOf service id (c ∷ calls) [] = ⊥
  EntriesOf service id (c ∷ calls) (entry ∷ entries) =
      (Records c entry × (entry.service ≡ service) × (entry.request_id ≡ id))
      × EntriesOf service id calls entries

module _ (env : LogEnvironment) where
  -- The one entry that a call writes, after it has read the clock.
  record Logged (id : String) (c : LogCall) (lg : Logger env) : Type 0 where
    entry : LogEntry
    records : Records c entry
    service : entry.service ≡ lg.service_name
    carries : entry.request_id ≡ id
    wrote :
        log_call env c lg
        ≡ (returns (ok tt), write env entry (record lg { world = (env.now_text lg.world).1 }))

  log_call-Logged :
      (id : String) (c : LogCall) (lg : Logger env)
      → get (context_of c) ≡ returns (ok id)
      → Logged id c lg
  unfolding log_call info_ctx error_ctx
  log_call-Logged id (informs ctx msg) lg known = record {
    entry = record {
      level = level_info;
      time = (env.now_text lg.world).0;
      service = lg.service_name;
      message = msg;
      error = "";
      request_id = id;
    };
    records = (refl, refl, refl);
    service = refl;
    carries = refl;
    wrote = rw (known) refl;
  }
  log_call-Logged id (complains ctx msg e) lg known = record {
    entry = record {
      level = level_error;
      time = (env.now_text lg.world).0;
      service = lg.service_name;
      message = msg;
      error = error_text e;
      request_id = id;
    };
    records = (refl, refl, refl);
    service = refl;
    carries = refl;
    wrote = rw (known) refl;
  }

  module _ (doc : LogDocumented env) where
    -- The calls of a goroutine print their entries and return.
    abbrev pub Prints :
        String → List LogCall → Logger env → Outcome (Unit {0}) × Logger env → Type 0
    Prints id calls lg end =
        (end.0 ≡ returns (ok tt))
        × (entries : List LogEntry) × (doc.printed end.1.world
            ≡ doc.printed lg.world ++ map (line env) entries)
        × EntriesOf env lg.service_name id calls entries

    pub log_all-Prints :
        (id : String) (calls : List LogCall) (lg : Logger env)
        → All (λ c. get (context_of c) ≡ returns (ok id)) calls
        → Prints id calls lg (log_all env calls lg)
    unfolding log_all write
    log_all-Prints id [] lg all = (refl, [], sym (append-nil _), tt)
    log_all-Prints id (c ∷ calls) lg (known, all) =
        let logged = log_call-Logged id c lg known in
        let lg1 : Logger env =
          write env logged.entry (record lg { world = (env.now_text lg.world).1 }) in
        let (ends, entries, added, those) = log_all-Prints id calls lg1 all in
        let first : doc.printed lg1.world ≡ doc.printed lg.world ++ line env logged.entry ∷ [] =
          doc.print_line_adds (line env logged.entry) (env.now_text lg.world).1
          ∙ ap (λ lines. lines ++ line env logged.entry ∷ []) (doc.now_text_keeps lg.world) in
        let step : log_all env (c ∷ calls) lg ≡ log_all env calls lg1 =
          ap
            (λ (r : Outcome (Unit {0}) × Logger env).
              elim r.0 as (λ _. Outcome (Unit {0}) × Logger env) [
                | panics reason ↦ (panics reason, r.1)
                | returns done ↦ log_all env calls r.1
              ])
            logged.wrote in
        subst (Prints id (c ∷ calls) lg) (sym step) (
          ends,
          logged.entry ∷ entries,
          added
              ∙ ap (λ lines. lines ++ map (line env) entries) first
              ∙ append_assoc (doc.printed lg.world) (line env logged.entry ∷ [])
                  (map (line env) entries),
          ((logged.records, logged.service, logged.carries), those),
        )
