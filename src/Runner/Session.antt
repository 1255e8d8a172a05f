-- ===== src/Runner/Session.antt =====
-- src/runner.rs: what any run of the agent leaves of the audit log, wherever the signal falls.
--
-- The signal drops the work at an await. The calls of the log have none inside, so what a dropped cycle has
-- done to the log is some number of whole appends; `dropped` allows any.
use nexusid_agent.Common.{ℕ, ◌≡◌, sym, ◌∙◌, ap, subst, ◌%◌, ◌^◌, some, List, ◌++◌, length}
use nexusid_agent.Error.{ok, err, AgentError, >>=-eq-ok, ok_inj}
use nexusid_agent.Config.{Config, resolve, server_cipher}
use nexusid_agent.Server.{new_client}
use nexusid_agent.Audit.{AuditRecord, Disk, read, open_log, verify}
use nexusid_agent.Audit.Append.{Laws, IsIntact}
use nexusid_agent.Audit.Chain.{intact, verify-eq_intact}
use nexusid_agent.Audit.History.{open-IsIntact}
use nexusid_agent.Audit.Evolution.{IsWhole, Evolves, unchanged, Evolves-trans, Evolves-IsIntact}
use nexusid_agent.World.Logging.{logged}
use nexusid_agent.Runner.{Host, AgentWorld, Prepared, prepare, run_one, started, stop}
use nexusid_agent.Runner.Events.{run_one-Evolves, stop-Evolves, started-Logs}

module _ (a : Host) where
  -- The loop: cycles, the last of which may have been dropped.
  pub data Loop (c : Config) (p : Prepared a) (w : AgentWorld a) : AgentWorld a → Type 0 where
    begun : {u : AgentWorld a} → w ≡ u → Loop c p w u
    cycled :
        {t u : AgentWorld a}
        → Loop c p w t
        → run_one a c p.server p.cipher p.id t ≡ some u
        → Loop c p w u
    dropped :
        {t u : AgentWorld a}
        → Loop c p w t
        → Evolves a.externals (logged a.externals t) (logged a.externals u)
        → Loop c p w u

  -- A run from its start event on.
  pub data Session (c : Config) (p : Prepared a) (w : AgentWorld a) : AgentWorld a → Type 0 where
    refused : {u : AgentWorld a} (e : AgentError) → started a c w ≡ (err e, u) → Session c p w u
    ran :
        {t u v : AgentWorld a}
        → started a c w ≡ (ok tt, t)
        → Loop c p t u
        → v ≡ stop a c p.server u
        → Session c p w v

  pub prepare-open_log :
      (c : Config) (disk : Disk) (p : Prepared a)
      → prepare a c disk ≡ ok p
      → open_log a.externals c.agent.audit_log (read disk) ≡ ok p.log
  unfolding prepare
  prepare-open_log c disk p e =
      let (log, o, e1) = >>=-eq-ok (open_log a.externals c.agent.audit_log (read disk)) _ e in
      let (token, _, e2) = >>=-eq-ok (resolve a.primitives a.env c.server.agent_token) _ e1 in
      let (server, _, e3) =
        >>=-eq-ok (new_client a.http_built c.server.base_url token c.agent.id c.server.verify_tls) _
          e2 in
      let (cipher, _, e4) = >>=-eq-ok (server_cipher a.primitives a.env c) _ e3 in
      o ∙ ap (λ (q : Prepared a). ok q.log) (ok_inj e4)

  module _ (whole : (n : ℕ) → IsWhole (a.moments n).0) (c : Config) (p : Prepared a) where
    Loop-Evolves :
        {w u : AgentWorld a}
        → Loop c p w u
        → Evolves a.externals (logged a.externals w) (logged a.externals u)
    Loop-Evolves (begun e) = unchanged (ap (λ (v : AgentWorld a). logged a.externals v) e)
    Loop-Evolves (cycled {t = t} {u = u} l e) =
        Evolves-trans a.externals (Loop-Evolves l)
          (run_one-Evolves a whole c p.server p.cipher p.id t u e)
    Loop-Evolves (dropped l e) = Evolves-trans a.externals (Loop-Evolves l) e

    Session-Evolves :
        {w u : AgentWorld a}
        → Session c p w u
        → Evolves a.externals (logged a.externals w) (logged a.externals u)
    Session-Evolves {w} (refused e q) =
        subst
          (λ (t : _ × AgentWorld a).
            Evolves a.externals (logged a.externals w) (logged a.externals t.1))
          q (started-Logs a whole c w)
    Session-Evolves {w} (ran {u = u} q l e) =
        subst
          (λ (v : AgentWorld a). Evolves a.externals (logged a.externals w) (logged a.externals v))
          (sym e)
          (Evolves-trans a.externals
            (subst
              (λ (t : _ × AgentWorld a).
                Evolves a.externals (logged a.externals w) (logged a.externals t.1))
              q (started-Logs a whole c w))
            (Evolves-trans a.externals (Loop-Evolves l) (stop-Evolves a whole c p.server u)))

  -- If the agent is started on an intact log, and no write breaks off, then whatever it does and wherever
  -- the signal ends its loop, the log is intact afterwards, has all the records that it had, and verifies.
  pub Session-verify :
      (laws : Laws a.externals) (whole : (n : ℕ) → IsWhole (a.moments n).0) (c : Config)
      (p : Prepared a) (recs : List AuditRecord) (w u : AgentWorld a)
      → IsIntact a.externals recs w.log w.disk
      → prepare a c w.disk ≡ ok p
      → Session c p (record w { log = p.log }) u
      → (new : List AuditRecord) × IsIntact a.externals (recs ++ new) u.log u.disk
        × (verify a.externals (read u.disk)
            ≡ ok (intact a.externals (length (recs ++ new) % 2 ^ 64)))
  Session-verify laws whole c p recs w u i e s =
      let i' =
        open-IsIntact a.externals laws c.agent.audit_log recs w.log p.log w.disk i
          (prepare-open_log c w.disk p e) in
      let (new, k) = Evolves-IsIntact a.externals laws i' (Session-Evolves whole c p s) in
      (new, k, verify-eq_intact a.externals (read u.disk) (recs ++ new) k.parsed k.chained)
