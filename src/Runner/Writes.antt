-- ===== src/Runner/Writes.antt =====
-- src/runner.rs: whatever the servers answer, a run makes the calls of its own mode alone, and each of
-- them is one that its configuration and an operation or a change of the broker allow.
use nexusid_agent.Common.{ℕ, ◌≡◌, refl, sym, subst, Bool, true, false, Option, none, some, []}
use nexusid_agent.Error.{Result, ok, err, AgentError}
use nexusid_agent.Effect.{M}
use nexusid_agent.Audit.{SyncCounters}
use nexusid_agent.Trace.{Adds, Emits, Adds-none, Adds-mono, Emits-raise}
use nexusid_agent.Crypto.{Cipher}
use nexusid_agent.Config.{Mode, ad, db, AdSection, DbSection, Config, RemoteConfig}
use nexusid_agent.Config.Remote.{apply_remote-KeepsLocal}
use nexusid_agent.Ldap.Calls.{Call}
use nexusid_agent.Db.Calls.{Query}
use nexusid_agent.Server.{ServerClient, poll_operations}
use nexusid_agent.World.{within}
use nexusid_agent.AdMode.{AdMode}
use nexusid_agent.AdMode.Pass.Writes.{Allowed, run_once-Allowed}
use nexusid_agent.DbMode.Writes.{run_once-Allowed_db}
use nexusid_agent.DbMode.Writes as Queries
use nexusid_agent.Runner.{
  Host, AgentWorld, batch, ad_pass, db_pass, run_db, run_ad, pass_of, effective, Prepared, prepare,
  run,
}
use nexusid_agent.Runner.Calls.{watched, directory_calls, database_calls, AllEmit, run-Adds}

module _ (a : Host) where
  abbrev ad_mode : Config → ServerClient → Cipher → AdSection → AdMode
  ad_mode c server cipher section = record {
    server = server;
    ad = section;
    cipher = cipher;
    verify_tls = c.server.verify_tls;
    batch = batch;
  }

  -- A call of the directory that an agent may make: it is in AD mode, and a pass of it may make the call.
  pub data DirectoryCall (c : Config) (server : ServerClient) (cipher : Cipher) (call : Call)
      : Type 0 where
    in_ad_mode :
        (section : AdSection) (queue : a.http.State)
        → c.agent.mode ≡ ad
        → Allowed a.directory a.primitives a.formats
            (ad_mode c server cipher section)
            (poll_operations a.http server batch queue).0
            call
        → DirectoryCall c server cipher call

  -- A call of the database that an agent may make: it is in DB mode, and a pass of it over the configured
  -- section may make the call.
  pub data DatabaseCall (c : Config) (server : ServerClient) (query : Query) : Type 0 where
    in_db_mode :
        {section : DbSection}
        → c.agent.mode ≡ db
        → c.db_section ≡ some section
        → Queries.Allowed a.http a.primitives a.env
            (record { server = server; section = section })
            query
        → DatabaseCall c server query

  -- What the broker's settings leave as it is.
  record IsLocal (c c' : Config) : Type 0 where
    pub mode : c'.agent.mode ≡ c.agent.mode
    pub server : c'.server ≡ c.server
    pub db_section : c'.db_section ≡ c.db_section

  effective-IsLocal :
      (c : Config) (r : Result AgentError RemoteConfig) → IsLocal c (effective (watched a) c r)
  unfolding effective
  effective-IsLocal c (ok remote) =
      let keeps = apply_remote-KeepsLocal remote c in
      record { mode = keeps.mode; server = keeps.server; db_section = keeps.db_section }
  effective-IsLocal c (err e) = record { mode = refl; server = refl; db_section = refl }

  module _ (c c' : Config) (server : ServerClient) (cipher : Cipher) (keeps : IsLocal c c') where
    ad_pass-DirectoryCall :
        (section : AdSection)
        → c.agent.mode ≡ ad
        → Emits
            (directory_calls a)
            (DirectoryCall c server cipher)
            (ad_pass (watched a) c' server cipher section)
    unfolding ad_pass within
    ad_pass-DirectoryCall section mode = record {
      at = λ w.
          let made =
            run_once-Allowed a.directory a.http a.externals a.moments a.primitives a.env a.formats
              (ad_mode c' server cipher section) a.kerberos a.drain
              (record {
                resource = record { directory = w.resource.directory; forests = [] };
                broker = w.broker;
                log = w.log;
                disk = w.disk;
                writes = w.writes;
              }) in
          Adds-mono _ _
            (λ call allowed. in_ad_mode section w.broker mode (
              subst
                (λ (s : _).
                  Allowed a.directory a.primitives a.formats
                    (record (ad_mode c server cipher section) { verify_tls = s.verify_tls })
                    (poll_operations a.http server batch w.broker).0 call)
                keeps.server allowed))
            (record { new = made.new; added = made.added; all = made.all });
    }

    db_pass-DatabaseCall :
        (section : DbSection)
        → c.agent.mode ≡ db
        → c.db_section ≡ some section
        → Emits (database_calls a) (DatabaseCall c server) (db_pass (watched a) server section)
    unfolding db_pass within
    db_pass-DatabaseCall section mode configured = record {
      at = λ w.
          let made =
            (run_once-Allowed_db a.database a.http a.externals a.moments a.primitives a.env
                (record { server = server; section = section })).at
              (record {
                resource = w.resource.database;
                broker = w.broker;
                log = w.log;
                disk = w.disk;
                writes = w.writes;
              }) in
          Adds-mono _ _ (λ query. in_db_mode mode configured)
            (record { new = made.new; added = made.added; all = made.all });
    }

    abbrev AllDirectory : Option (M (AgentWorld (watched a)) SyncCounters) → Type 0
    AllDirectory = AllEmit a (λ r. r.directory.1) (DirectoryCall c server cipher)

    abbrev AllDatabase : Option (M (AgentWorld (watched a)) SyncCounters) → Type 0
    AllDatabase = AllEmit a (λ r. r.database.1) (DatabaseCall c server)

    run_ad-DirectoryCall :
        (section : Option AdSection)
        → c.agent.mode ≡ ad
        → AllDirectory (run_ad (watched a) c' server cipher section)
    unfolding run_ad
    run_ad-DirectoryCall none mode = tt
    run_ad-DirectoryCall (some section) mode = ad_pass-DirectoryCall section mode

    run_db-no_DirectoryCall :
        (feature : Bool) (section : Option DbSection)
        → AllDirectory (run_db (watched a) feature server section)
    unfolding run_db db_pass within
    run_db-no_DirectoryCall false none = Emits-raise _
    run_db-no_DirectoryCall false (some section) = Emits-raise _
    run_db-no_DirectoryCall true none = tt
    run_db-no_DirectoryCall true (some section) = record { at = λ w. Adds-none refl }

    run_ad-no_DatabaseCall :
        (section : Option AdSection) → AllDatabase (run_ad (watched a) c' server cipher section)
    unfolding run_ad ad_pass within
    run_ad-no_DatabaseCall none = tt
    run_ad-no_DatabaseCall (some section) = record { at = λ w. Adds-none refl }

    run_db-DatabaseCall :
        (feature : Bool) (section : Option DbSection)
        → c.agent.mode ≡ db
        → c.db_section ≡ section
        → AllDatabase (run_db (watched a) feature server section)
    unfolding run_db
    run_db-DatabaseCall false none mode configured = Emits-raise _
    run_db-DatabaseCall false (some section) mode configured = Emits-raise _
    run_db-DatabaseCall true none mode configured = tt
    run_db-DatabaseCall true (some section) mode configured =
        db_pass-DatabaseCall section mode configured

    pass_of-DirectoryCall :
        (mode : Mode)
        → c.agent.mode ≡ mode
        → AllDirectory (pass_of (watched a) c' server cipher mode)
    unfolding pass_of
    pass_of-DirectoryCall ad mode = run_ad-DirectoryCall c'.ad_section mode
    pass_of-DirectoryCall db mode = run_db-no_DirectoryCall a.db_feature c'.db_section

    pass_of-DatabaseCall :
        (mode : Mode)
        → c.agent.mode ≡ mode
        → AllDatabase (pass_of (watched a) c' server cipher mode)
    unfolding pass_of
    pass_of-DatabaseCall ad mode = run_ad-no_DatabaseCall c'.ad_section
    pass_of-DatabaseCall db mode =
        run_db-DatabaseCall a.db_feature c'.db_section mode (sym keeps.db_section)

  -- Whatever the servers answer, and however many cycles the signal leaves a run, each call of the
  -- directory that the run makes is one that a pass in AD mode may make, and each call of the database is
  -- one that a pass in DB mode over the configured section may make; a run in the one mode makes no call
  -- of the other kind.
  pub run-Calls :
      (c : Config) (p : Prepared (watched a)) (n : ℕ) (w u : AgentWorld (watched a))
      {r : Result AgentError (Unit {0})}
      → prepare (watched a) c w.disk ≡ ok p
      → run (watched a) c n w ≡ some (r, u)
      → Adds (directory_calls a) (DirectoryCall c p.server p.cipher) w u
        × Adds (database_calls a) (DatabaseCall c p.server) w u
  run-Calls c p n w u e q = (
    run-Adds a (λ r. r.directory.1) (DirectoryCall c p.server p.cipher) c p n w u
        (λ r.
          let keeps = effective-IsLocal c r in
          pass_of-DirectoryCall c (effective (watched a) c r) p.server p.cipher keeps _
            (sym keeps.mode))
        e q,
    run-Adds a (λ r. r.database.1) (DatabaseCall c p.server) c p n w u
        (λ r.
          let keeps = effective-IsLocal c r in
          pass_of-DatabaseCall c (effective (watched a) c r) p.server p.cipher keeps _
            (sym keeps.mode))
        e q,
  )
