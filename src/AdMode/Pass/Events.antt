-- ===== src/AdMode/Pass/Events.antt =====
-- src/modes/ad.rs, `run_once`: whatever comes of a pass, it changes the log by appends alone.
use nexusid_agent.Common.{ℕ, Bool, String, List, [], ◌∷◌, refl}
use nexusid_agent.Error.{Result, AgentError}
use nexusid_agent.Effect.{pure, lift, ◌>>◌}
use nexusid_agent.Json.{Value}
use nexusid_agent.Crypto.{Primitives}
use nexusid_agent.Config.{Env, resolve}
use nexusid_agent.Audit.{SyncCounters, zero_counters, Externals, Write}
use nexusid_agent.Audit.Evolution.{IsWhole, unchanged}
use nexusid_agent.Ldap.{Directory, LdapConnector}
use nexusid_agent.Ldap.Connector.{connect}
use nexusid_agent.Server.{Operation, Http, ServerClient, poll_operations}
use nexusid_agent.World.{on_broker}
use nexusid_agent.World.Logging.{Logs, Logs-bind, on_resource-Logs, on_broker-Logs, log_event-Logs}
use nexusid_agent.AdMode.{Formats, AdMode, route_and_process, on_directory}
use nexusid_agent.AdMode.Pass.{
  Drain, count_outcome, event_of, detail_of, report, run_ops, no_forests, release, drain_queue,
  run_once,
}

module _ (d : Directory) (h : Http) (x : Externals) (moments : ℕ → Write × String)
    (whole : (n : ℕ) → IsWhole (moments n).0) where
  report-Logs :
      (c : ServerClient) (op : Operation) (r : Result AgentError Value)
      → Logs x (report d h x moments c op r)
  unfolding report
  report-Logs c op r w = log_event-Logs x moments whole (event_of r) (detail_of op r) _

  module _ (p : Primitives) (env : Env) (f : Formats) (mode : AdMode) (kerberos : Bool) where
    run_ops-Logs :
        (l : LdapConnector d.Session) (ops : List Operation) (c : SyncCounters)
        → Logs x (run_ops d h x moments p env f mode kerberos l ops c)
    unfolding run_ops
    run_ops-Logs l [] c w = unchanged refl
    run_ops-Logs l (op ∷ ops) c w =
        let (r, s) = route_and_process d p f mode kerberos op l w.resource in
        Logs-bind x (report d h x moments mode.server op r)
          (λ _. run_ops d h x moments p env f mode kerberos l ops (count_outcome op r c))
          (report-Logs mode.server op r) (λ _. run_ops-Logs l ops (count_outcome op r c))
          (record w { resource = s })

    module _ (drain : Drain (LdapConnector d.Session)) where
      drain_queue-Logs :
          (l : LdapConnector d.Session)
          → Logs x (drain_queue d h x moments p env f mode kerberos drain l)
      unfolding drain_queue no_forests release
      drain_queue-Logs l w =
          Logs-bind x (on_broker (poll_operations h mode.server mode.batch)) _
            (on_broker-Logs x (poll_operations h mode.server mode.batch))
            (λ ops.
              Logs-bind x (run_ops d h x moments p env f mode kerberos l ops zero_counters)
                (λ c. release d h x moments p env f mode kerberos drain l >> pure c)
                (run_ops-Logs l ops zero_counters) (λ c t. unchanged refl))
            (record w { resource = record (w.resource) { forests = [] } })

      -- A pass in AD mode changes the log by appends alone, also where it ends with an error.
      pub run_once-Logs : Logs x (run_once d h x moments p env f mode kerberos drain)
      unfolding run_once
      run_once-Logs =
          Logs-bind x (lift (resolve p env mode.ad.bind_password)) _ (λ w. unchanged refl)
            (λ pw.
              Logs-bind x _ _
                (on_resource-Logs x (
                  on_directory d p f mode (
                    connect d kerberos mode.ad.url mode.ad.bind_dn pw mode.ad.base_dn
                      mode.verify_tls mode.ad.use_kerberos mode.ad.password_writeback)))
                drain_queue-Logs)
