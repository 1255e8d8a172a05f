-- ===== src/Runner/Events.antt =====
-- src/runner.rs: a cycle does not panic if the configuration was validated, and changes the log by
-- appends alone.
use nexusid_agent.Common.{
  ℕ, ◌≡◌, refl, ◌∙◌, subst, ◌≢◌, inl, inr, String, Bool, true, false, Option, none, some, List, [],
  ◌∷◌, arith, ltb, Bool-cases, Option-cases,
}
use nexusid_agent.Error.{Result, ok, err, AgentError, to_string}
use nexusid_agent.Effect.{M, pure}
use nexusid_agent.Json.{Value, string}
use nexusid_agent.Crypto.{Cipher}
use nexusid_agent.Config.{
  Mode, ad, db, as_str, AdSection, DbSection, Config, RemoteConfig, validate,
}
use nexusid_agent.Config.Remote.{validate-apply_remote}
use nexusid_agent.Audit.Append.{run_start-eq, summary-eq}
use nexusid_agent.Audit.{SyncCounters, summary}
use nexusid_agent.Audit.Evolution.{IsWhole, Evolves, unchanged, Evolves-trans}
use nexusid_agent.Server.{ServerClient, fetch_config, heartbeat}
use nexusid_agent.World.{with_log}
use nexusid_agent.World.Logging.{
  logged, Logs, Logs-bind, within-Logs, log_event-Logs, with_log-Logs,
}
use nexusid_agent.AdMode.Pass.Events.{run_once-Logs}
use nexusid_agent.DbMode.Events.{run_once-Logs_db}
use nexusid_agent.Runner.{
  Host, AgentWorld, ad_pass, db_pass, run_db, run_ad, pass_of, summed, run_pass, try_log,
  after_pass, run_cycle, effective, run_one, started, stop,
}

pub some_inj : {A : Type 0} {x y : A} → ◌≡◌ {A = Option A} (some x) (some y) → x ≡ y
some_inj e = cc

module _ (a : Host) where
  pass_of-ne-none :
      (c : Config) (server : ServerClient) (cipher : Cipher)
      → validate c ≡ ok tt
      → pass_of a c server cipher c.agent.mode ≢ none
  unfolding pass_of validate
  pass_of-ne-none c server cipher v = ground arith

  run_cycle_returns :
      (c : Config) (server : ServerClient) (cipher : Cipher) (id : Option String) (w : AgentWorld a)
      → validate c ≡ ok tt
      → (u : AgentWorld a) × (run_cycle a c server cipher id w ≡ some u)
  unfolding run_cycle run_pass
  run_cycle_returns c server cipher id w v =
      elim (Option-cases (pass_of a c server cipher c.agent.mode)) [
        | inl e ↦ absurd (pass_of-ne-none c server cipher v e)
        | inr (pass, e) ↦
            let beat : AgentWorld a = record w {
              broker =
                  heartbeat a.http server (as_str c.agent.mode) a.hostname a.version id w.broker;
            } in
            let (r, t) = summed a c.agent.mode pass beat in
            (after_pass a c server r t, rw (e, run_cycle, run_pass) refl)
      ]

  effective-validate :
      (base : Config) (r : Result AgentError RemoteConfig)
      → validate (effective a base r) ≡ validate base
  unfolding effective
  effective-validate base (ok remote) = validate-apply_remote remote base
  effective-validate base (err e) = refl

  -- With a validated configuration no cycle panics, whatever the broker sends.
  pub run_one_returns :
      (base : Config) (server : ServerClient) (cipher : Cipher) (id : Option String)
      (w : AgentWorld a)
      → validate base ≡ ok tt
      → (u : AgentWorld a) × (run_one a base server cipher id w ≡ some u)
  unfolding run_one
  run_one_returns base server cipher id w v =
      let (r, s) = fetch_config a.http server w.broker in
      run_cycle_returns (effective a base r) server cipher id (record w { broker = s })
        (effective-validate base r ∙ v)

  module _ (whole : (n : ℕ) → IsWhole (a.moments n).0) where
    ad_pass-Logs :
        (c : Config) (server : ServerClient) (cipher : Cipher) (section : AdSection)
        → Logs a.externals (ad_pass a c server cipher section)
    unfolding ad_pass
    ad_pass-Logs c server cipher section = within-Logs a.externals _ _ _ (
        run_once-Logs a.directory a.http a.externals a.moments whole a.primitives a.env a.formats _
          a.kerberos a.drain)

    db_pass-Logs :
        (server : ServerClient) (section : DbSection) → Logs a.externals (db_pass a server section)
    unfolding db_pass
    db_pass-Logs server section =
        within-Logs a.externals _ _ _
          (run_once-Logs_db a.database a.http a.externals a.moments whole a.primitives a.env _)

    abbrev AllLog : Option (M (AgentWorld a) SyncCounters) → Type 0
    AllLog none = Unit
    AllLog (some m) = Logs a.externals m

    run_ad-Logs :
        (c : Config) (server : ServerClient) (cipher : Cipher) (section : Option AdSection)
        → AllLog (run_ad a c server cipher section)
    unfolding run_ad
    run_ad-Logs c server cipher none = tt
    run_ad-Logs c server cipher (some section) = ad_pass-Logs c server cipher section

    run_db-Logs :
        (feature : Bool) (server : ServerClient) (section : Option DbSection)
        → AllLog (run_db a feature server section)
    unfolding run_db
    run_db-Logs false server none = λ w. unchanged refl
    run_db-Logs false server (some section) = λ w. unchanged refl
    run_db-Logs true server none = tt
    run_db-Logs true server (some section) = db_pass-Logs server section

    pass_of-Logs :
        (c : Config) (server : ServerClient) (cipher : Cipher) (mode : Mode)
        → AllLog (pass_of a c server cipher mode)
    unfolding pass_of
    pass_of-Logs c server cipher ad = run_ad-Logs c server cipher c.ad_section
    pass_of-Logs c server cipher db = run_db-Logs a.db_feature server c.db_section

    summed-Logs :
        (mode : Mode) (pass : M (AgentWorld a) SyncCounters)
        → Logs a.externals pass
        → Logs a.externals (summed a mode pass)
    unfolding summed
    summed-Logs mode pass h = Logs-bind a.externals pass _ h (λ counters.
        Logs-bind a.externals
          (with_log a.moments (λ write ts. summary a.externals write ts (as_str mode) counters))
          (λ _. pure counters)
          (with_log-Logs a.externals a.moments _ _ _
            (λ write ts. summary-eq a.externals write ts (as_str mode) counters) whole)
          (λ _ w. unchanged refl))

    try_log-Evolves :
        (name : String) (fields : List (String × Value)) (w : AgentWorld a)
        → Evolves a.externals (logged a.externals w) (logged a.externals (try_log a name fields w))
    unfolding try_log
    try_log-Evolves name fields w = log_event-Logs a.externals a.moments whole name _ w

    after_pass-Evolves :
        (c : Config) (server : ServerClient) (r : Result AgentError SyncCounters) (w : AgentWorld a)
        → Evolves a.externals
            (logged a.externals w)
            (logged a.externals (after_pass a c server r w))
    unfolding after_pass
    after_pass-Evolves c server (ok counters) w = elim (Bool-cases (ltb 0 counters.inspected)) [
      | inl t ↦ rw t (unchanged refl)
      | inr f ↦ rw f (unchanged refl)
    ]
    after_pass-Evolves c server (err e) w =
        try_log-Evolves "RUN_ERROR" (("error", string (to_string e)) ∷ []) w

    run_cycle-Evolves :
        (c : Config) (server : ServerClient) (cipher : Cipher) (id : Option String)
        (w u : AgentWorld a)
        → run_cycle a c server cipher id w ≡ some u
        → Evolves a.externals (logged a.externals w) (logged a.externals u)
    unfolding run_cycle run_pass
    run_cycle-Evolves c server cipher id w u q =
        elim (Option-cases (pass_of a c server cipher c.agent.mode)) [
          | inl e ↦ cc (rw (e, run_cycle, run_pass) at q)
          | inr (pass, e) ↦
              let q' = (rw (e, run_cycle, run_pass) at q) in
              let logs : Logs a.externals pass =
                subst AllLog e (pass_of-Logs c server cipher c.agent.mode) in
              let beat : AgentWorld a = record w {
                broker =
                    heartbeat a.http server (as_str c.agent.mode) a.hostname a.version id w.broker;
              } in
              let (r, t) = summed a c.agent.mode pass beat in
              subst
                (λ (v : AgentWorld a).
                  Evolves a.externals (logged a.externals w) (logged a.externals v))
                (some_inj q')
                (Evolves-trans a.externals (summed-Logs c.agent.mode pass logs beat)
                  (after_pass-Evolves c server r t))
        ]

    -- A cycle changes the log by appends alone.
    pub run_one-Evolves :
        (base : Config) (server : ServerClient) (cipher : Cipher) (id : Option String)
        (w u : AgentWorld a)
        → run_one a base server cipher id w ≡ some u
        → Evolves a.externals (logged a.externals w) (logged a.externals u)
    unfolding run_one
    run_one-Evolves base server cipher id w u q =
        let (r, s) = fetch_config a.http server w.broker in
        run_cycle-Evolves (effective a base r) server cipher id (record w { broker = s }) u q

    pub stop-Evolves :
        (c : Config) (server : ServerClient) (w : AgentWorld a)
        → Evolves a.externals (logged a.externals w) (logged a.externals (stop a c server w))
    unfolding stop
    stop-Evolves c server w =
        try_log-Evolves "RUN_STOP" (("mode", string (as_str c.agent.mode)) ∷ []) _

    pub started-Logs : (c : Config) → Logs a.externals (started a c)
    unfolding started
    started-Logs c =
        with_log-Logs a.externals a.moments _ _ _
          (λ write ts. run_start-eq a.externals write ts (as_str c.agent.mode)) whole
