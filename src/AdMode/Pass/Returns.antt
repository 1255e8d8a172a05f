-- ===== src/AdMode/Pass/Returns.antt =====
-- src/modes/ad.rs, `run_once`: no outcome of an operation, and no answer of the broker to a report, ends
-- the loop over the operations.
use nexusid_agent.Common.{Bool, ℕ, ◌≡◌, refl, ◌∙◌, ap, String, List, [], ◌∷◌}
use nexusid_agent.Error.{Result, ok, AgentError}
use nexusid_agent.Effect.{M, pure, lift, ◌>>=◌, ◌>>◌, bind-ok}
use nexusid_agent.Json.{Value}
use nexusid_agent.Crypto.{Primitives}
use nexusid_agent.Config.{Env, resolve}
use nexusid_agent.Audit.{AuditRecord, SyncCounters, zero_counters, Externals, Write, succeeds}
use nexusid_agent.Ldap.{Directory, LdapConnector}
use nexusid_agent.Server.{Operation, Http, ServerClient, poll_operations}
use nexusid_agent.World.Logging.{log_event-returns}
use nexusid_agent.World.{on_resource, on_broker}
use nexusid_agent.Ldap.Connector.{connect}
use nexusid_agent.AdMode.{Formats, AdMode, Connections, route_and_process, on_directory}
use nexusid_agent.AdMode.Pass.{
  Drain, AdWorld, count_outcome, event_of, detail_of, report, run_ops, no_forests, release,
  drain_queue, run_once,
}

module _ (d : Directory) (h : Http) (x : Externals) (moments : ℕ → Write × String)
    (written : (n : ℕ) → (moments n).0 ≡ succeeds)
    (printed : (r : AuditRecord) → (line : String) × (x.encode r ≡ ok line)) where
  report-returns :
      (c : ServerClient) (op : Operation) (r : Result AgentError Value) (w : AdWorld d h x moments)
      → report d h x moments c op r w ≡ (ok tt, (report d h x moments c op r w).1)
  unfolding report
  report-returns c op r w =
      log_event-returns x moments written printed (event_of r) (detail_of op r) _

  module _ (p : Primitives) (env : Env) (f : Formats) (mode : AdMode) (kerberos : Bool) where
    -- If every record can be printed and every write of the log succeeds, the loop over the operations
    -- returns counters, whatever the directory and the broker answer.
    pub run_ops-returns :
        (l : LdapConnector d.Session) (ops : List Operation) (c : SyncCounters)
        (w : AdWorld d h x moments)
        → (c' : SyncCounters) × (w' : AdWorld d h x moments) × (run_ops d h x moments p env f mode
              kerberos l ops c w
            ≡ (ok c', w'))
    unfolding run_ops report
    run_ops-returns l [] c w = (c, w, refl)
    run_ops-returns l (op ∷ ops) c w =
        let (r, s) = route_and_process d p f mode kerberos op l w.resource in
        let w₁ : AdWorld d h x moments = record w { resource = s } in
        let (c', w', rest) =
          run_ops-returns l ops (count_outcome op r c)
            (report d h x moments mode.server op r w₁).1 in
        (
          c',
          w',
          bind-ok (report d h x moments mode.server op r)
                (λ _. run_ops d h x moments p env f mode kerberos l ops (count_outcome op r c)) w₁
                (report-returns mode.server op r w₁)
              ∙ rest,
        )

    module _ (drain : Drain (LdapConnector d.Session)) where
      drain_queue-returns :
          (l : LdapConnector d.Session) {ops : List Operation} {queue : h.State}
          (w : AdWorld d h x moments)
          → poll_operations h mode.server mode.batch w.broker ≡ (ok ops, queue)
          → (c : SyncCounters) × (w' : AdWorld d h x moments) × (drain_queue d h x moments p env f
                mode kerberos drain l w
              ≡ (ok c, w'))
      unfolding drain_queue no_forests release on_broker
      drain_queue-returns l {ops} {queue} w polled =
          let w₁ : AdWorld d h x moments = record w {
            resource = record (w.resource) { forests = [] };
          } in
          let (c, w₂, ran) = run_ops-returns l ops zero_counters (record w₁ { broker = queue }) in
          let close : SyncCounters → M (AdWorld d h x moments) SyncCounters =
            λ c. release d h x moments p env f mode kerberos drain l >> pure c in
          (
            c,
            (release d h x moments p env f mode kerberos drain l w₂).1,
            bind-ok (on_broker (poll_operations h mode.server mode.batch))
                  (λ ops. run_ops d h x moments p env f mode kerberos l ops zero_counters >>= close)
                  w₁ (ap (λ (r : _ × h.State). (r.0, record w₁ { broker = r.1 })) polled)
                ∙ bind-ok (run_ops d h x moments p env f mode kerberos l ops zero_counters) close
                    (record w₁ { broker = queue }) ran,
          )

      -- If every record can be printed and every write of the log succeeds, a pass whose password
      -- resolves, whose directory is bound and whose poll is answered returns counters, whatever becomes
      -- of the operations and of the reports.
      pub run_once-returns :
          (w : AdWorld d h x moments) {pw : String} {l : LdapConnector d.Session}
          {bound : Connections d.State (LdapConnector d.Session)} {ops : List Operation}
          {queue : h.State}
          → resolve p env mode.ad.bind_password ≡ ok pw
          → on_directory d p f mode
              (connect d kerberos mode.ad.url mode.ad.bind_dn pw mode.ad.base_dn mode.verify_tls
                mode.ad.use_kerberos mode.ad.password_writeback)
              w.resource
            ≡ (ok l, bound)
          → poll_operations h mode.server mode.batch w.broker ≡ (ok ops, queue)
          → (c : SyncCounters) × (w' : AdWorld d h x moments) × (run_once d h x moments p env f mode
                kerberos drain w
              ≡ (ok c, w'))
      unfolding run_once on_resource
      run_once-returns w {pw} {l} {bound} known connected polled =
          let dial : String → M (AdWorld d h x moments) (LdapConnector d.Session) = λ pw.
            on_resource (
              on_directory d p f mode (
                connect d kerberos mode.ad.url mode.ad.bind_dn pw mode.ad.base_dn mode.verify_tls
                  mode.ad.use_kerberos mode.ad.password_writeback)) in
          let go = drain_queue d h x moments p env f mode kerberos drain in
          let (c, w', ran) = drain_queue-returns l (record w { resource = bound }) polled in
          (
            c,
            w',
            bind-ok (lift (resolve p env mode.ad.bind_password)) (λ pw. dial pw >>= go) w
                  (ap (λ r. (r, w)) known)
                ∙ bind-ok (dial pw) go w (
                    ap
                      (λ (r : _ × Connections d.State (LdapConnector d.Session)).
                        (r.0, record w { resource = r.1 }))
                      connected)
                ∙ ran,
          )
