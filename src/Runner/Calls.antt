-- ===== src/Runner/Calls.antt =====
-- src/runner.rs: what a whole run of the agent may do to the directory and the database.
use nexusid_agent.Common.{
  ℕ, zero, suc, ◌≡◌, refl, subst, inl, inr, String, Option, none, some, List, ltb, Bool-cases,
  Option-cases,
}
use nexusid_agent.Error.{Result, ok, err, AgentError}
use nexusid_agent.Effect.{M}
use nexusid_agent.Trace.{Adds, Emits, Adds-none, Adds-trans, Emits-bind, Emits-pure}
use nexusid_agent.Crypto.{Cipher}
use nexusid_agent.Config.{Mode, as_str, Config, RemoteConfig}
use nexusid_agent.Audit.{SyncCounters}
use nexusid_agent.Ldap.Calls.{Call, recorded}
use nexusid_agent.Db.Calls.{Query, noted}
use nexusid_agent.Server.{ServerClient, fetch_config, heartbeat}
use nexusid_agent.World.{with_log, log_event}
use nexusid_agent.Runner.Events.{some_inj}
use nexusid_agent.Runner.{
  Host, AgentWorld, Places, pass_of, summed, run_pass, try_log, after_pass, run_cycle, effective,
  run_one, Prepared, prepare, started, stop, stopped, launched, run_for, run,
}

-- The host, with its directory and its database watched.
abbrev pub watched : Host → Host
watched a = record {
  directory = recorded a.directory;
  database = noted a.database;
  http = a.http;
  primitives = a.primitives;
  formats = a.formats;
  externals = a.externals;
  moments = a.moments;
  env = a.env;
  drain = a.drain;
  http_built = a.http_built;
  kerberos = a.kerberos;
  db_feature = a.db_feature;
  hostname = a.hostname;
  version = a.version;
}

module _ (a : Host) where
  -- The calls of a run.
  abbrev pub directory_calls : AgentWorld (watched a) → List Call
  directory_calls w = w.resource.directory.1

  abbrev pub database_calls : AgentWorld (watched a) → List Query
  database_calls w = w.resource.database.1

  module _ {C : Type 0}
      (look : Places (watched a).directory.State (watched a).database.State → List C)
      (P : C → Type 0) where
    abbrev seen : AgentWorld (watched a) → List C
    seen w = look w.resource

    summed-Emits :
        (mode : Mode) (pass : M (AgentWorld (watched a)) SyncCounters)
        → Emits seen P pass
        → Emits seen P (summed (watched a) mode pass)
    unfolding summed with_log
    summed-Emits mode pass e = Emits-bind pass _ e (λ counters.
        Emits-bind _ _ (record { at = λ w. Adds-none refl }) (λ _. Emits-pure counters))

    after_pass-Adds :
        (c : Config) (server : ServerClient) (r : Result AgentError SyncCounters)
        (w : AgentWorld (watched a))
        → Adds seen P w (after_pass (watched a) c server r w)
    unfolding after_pass try_log log_event
    after_pass-Adds c server (ok counters) w = elim (Bool-cases (ltb 0 counters.inspected)) [
      | inl t ↦ rw t (Adds-none refl)
      | inr f ↦ rw f (Adds-none refl)
    ]
    after_pass-Adds c server (err e) w = Adds-none refl

    -- A pass, if there is one.
    abbrev pub AllEmit : Option (M (AgentWorld (watched a)) SyncCounters) → Type 0
    AllEmit none = Unit
    AllEmit (some m) = Emits seen P m

    run_cycle-Adds :
        (c : Config) (server : ServerClient) (cipher : Cipher) (id : Option String)
        (w u : AgentWorld (watched a))
        → AllEmit (pass_of (watched a) c server cipher c.agent.mode)
        → run_cycle (watched a) c server cipher id w ≡ some u
        → Adds seen P w u
    unfolding run_cycle run_pass
    run_cycle-Adds c server cipher id w u emit q =
        elim (Option-cases (pass_of (watched a) c server cipher c.agent.mode)) [
          | inl e ↦ cc (rw (e, run_cycle, run_pass) at q)
          | inr (pass, e) ↦
              let beat : AgentWorld (watched a) = record w {
                broker =
                    heartbeat a.http server (as_str c.agent.mode) a.hostname a.version id w.broker;
              } in
              let (r, t) = summed (watched a) c.agent.mode pass beat in
              let first = (summed-Emits c.agent.mode pass (subst AllEmit e emit)).at beat in
              subst (Adds seen P w) (some_inj (rw (e, run_cycle, run_pass) at q)) (
                Adds-trans (record { new = first.new; added = first.added; all = first.all })
                  (after_pass-Adds c server r t))
        ]

    run_one-Adds :
        (base : Config) (server : ServerClient) (cipher : Cipher) (id : Option String)
        (w u : AgentWorld (watched a))
        → ((r : Result AgentError RemoteConfig)
            → AllEmit (
                pass_of
                  (watched a)
                  (effective (watched a) base r)
                  server
                  cipher
                  (effective (watched a) base r).agent.mode))
        → run_one (watched a) base server cipher id w ≡ some u
        → Adds seen P w u
    unfolding run_one
    run_one-Adds base server cipher id w u emit q =
        let (r, s) = fetch_config a.http server w.broker in
        let rest =
          run_cycle-Adds (effective (watched a) base r) server cipher id (record w { broker = s }) u
            (emit r) q in
        record { new = rest.new; added = rest.added; all = rest.all }

    run_for-Adds :
        (c : Config) (p : Prepared (watched a)) (n : ℕ) (w u : AgentWorld (watched a))
        → ((r : Result AgentError RemoteConfig)
            → AllEmit (
                pass_of
                  (watched a)
                  (effective (watched a) c r)
                  p.server
                  p.cipher
                  (effective (watched a) c r).agent.mode))
        → run_for (watched a) c p n w ≡ some u
        → Adds seen P w u
    unfolding run_for
    run_for-Adds c p Prim.Native.Nat.zero w u emit q =
        subst (Adds seen P w) (some_inj q) (Adds-none refl)
    run_for-Adds c p (Prim.Native.Nat.suc n) w u emit q =
        elim (Option-cases (run_one (watched a) c p.server p.cipher p.id w)) [
          | inl e ↦ cc (rw (e, run_for) at q)
          | inr (v, e) ↦
              Adds-trans (run_one-Adds c p.server p.cipher p.id w v emit e)
                (run_for-Adds c p n v u emit (rw (e, run_for) at q))
        ]

    stopped-Adds :
        (c : Config) (server : ServerClient) (w : AgentWorld (watched a))
        (o : Option (AgentWorld (watched a))) {r : Result AgentError (Unit {0})}
        {u : AgentWorld (watched a)}
        → ((v : AgentWorld (watched a)) → o ≡ some v → Adds seen P w v)
        → stopped (watched a) c server o ≡ some (r, u)
        → Adds seen P w u
    unfolding stopped stop try_log log_event
    stopped-Adds c server w none before q = cc q
    stopped-Adds c server w (some v) before q =
        let a' = before v refl in
        subst (λ (t : Result AgentError (Unit {0}) × AgentWorld (watched a)). Adds seen P w t.1)
          (some_inj q) (record { new = a'.new; added = a'.added; all = a'.all })

    launched-Adds :
        (c : Config) (n : ℕ) (p : Prepared (watched a)) (w : AgentWorld (watched a))
        (begun : Result AgentError (Unit {0}) × AgentWorld (watched a))
        {r : Result AgentError (Unit {0})} {u : AgentWorld (watched a)}
        → Adds seen P w begun.1
        → ((r : Result AgentError RemoteConfig)
            → AllEmit (
                pass_of
                  (watched a)
                  (effective (watched a) c r)
                  p.server
                  p.cipher
                  (effective (watched a) c r).agent.mode))
        → launched (watched a) c n p begun ≡ some (r, u)
        → Adds seen P w u
    unfolding launched
    launched-Adds c n p w (err e, t) before emit q =
        subst (λ (t : Result AgentError (Unit {0}) × AgentWorld (watched a)). Adds seen P w t.1)
          (some_inj q) before
    launched-Adds c n p w (ok _, t) before emit q =
        stopped-Adds c p.server w (run_for (watched a) c p n t)
          (λ v e. Adds-trans before (run_for-Adds c p n t v emit e)) q

    pub run-Adds :
        (c : Config) (p : Prepared (watched a)) (n : ℕ) (w u : AgentWorld (watched a))
        {r : Result AgentError (Unit {0})}
        → ((r : Result AgentError RemoteConfig)
            → AllEmit (
                pass_of
                  (watched a)
                  (effective (watched a) c r)
                  p.server
                  p.cipher
                  (effective (watched a) c r).agent.mode))
        → prepare (watched a) c w.disk ≡ ok p
        → run (watched a) c n w ≡ some (r, u)
        → Adds seen P w u
    unfolding run started with_log
    run-Adds c p n w u emit e q =
        launched-Adds c n p w (started (watched a) c (record w { log = p.log })) (Adds-none refl)
          emit (rw (e, run) at q)
