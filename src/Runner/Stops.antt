-- ===== src/Runner/Stops.antt =====
-- src/runner.rs: a run comes to its end, and the log says so.
use mathlib.Core.List.{append_assoc}
use nexusid_agent.Common.{
  ℕ, zero, suc, ◌≡◌, refl, sym, ◌∙◌, ap, subst, ◌⊎◌, inl, inr, some, List, [], ◌∷◌, ◌++◌,
}
use nexusid_agent.Error.{ok, err, AgentError, Result-cases}
use nexusid_agent.Effect.{M}
use nexusid_agent.Json.{string, json}
use nexusid_agent.Config.{Config, as_str, validate}
use nexusid_agent.Server.{ServerClient, disconnect}
use nexusid_agent.Audit.{AuditRecord}
use nexusid_agent.Audit.Append.{Laws, IsIntact, run_start-eq}
use nexusid_agent.Audit.History.{open-IsIntact}
use nexusid_agent.Audit.Evolution.{IsWhole, Evolves, unchanged, Evolves-trans, Evolves-IsIntact}
use nexusid_agent.World.{log_event}
use nexusid_agent.World.Logging.{logged, with_log-eq, log_event-IsIntact, log_event-Logs}
use nexusid_agent.Runner.{
  Host, AgentWorld, Prepared, prepare, run_one, run_for, try_log, started, stop, stopped, launched,
  run,
}
use nexusid_agent.Runner.Events.{run_one_returns, run_one-Evolves}
use nexusid_agent.Runner.Session.{prepare-open_log}

module _ (a : Host) (laws : Laws a.externals) (whole : (n : ℕ) → IsWhole (a.moments n).0) where
  abbrev Holds : List AuditRecord → AgentWorld a → Type 0
  Holds recs w = IsIntact a.externals recs w.log w.disk

  started-Holds :
      (c : Config) (recs : List AuditRecord) (w t : AgentWorld a)
      → Holds recs w
      → started a c w ≡ (ok tt, t)
      → (rec : AuditRecord) × Holds (recs ++ rec ∷ []) t × (rec.event ≡ "RUN_START")
  unfolding started
  started-Holds c recs w t i s =
      let detail = json (("mode", string (as_str c.agent.mode)) ∷ []) in
      let q =
        sym (
          with_log-eq a.externals a.moments _ "RUN_START" detail
            (λ write ts. run_start-eq a.externals write ts (as_str c.agent.mode)) w)
        ∙ s in
      let (rec, k, name, _) =
        log_event-IsIntact a.externals a.moments laws "RUN_START" detail w t recs i q in
      (rec, k, name)

  -- The event that ends a run, logged when the broker has been told.
  abbrev pub farewell : Config → ServerClient → M (AgentWorld a) (Unit {0})
  farewell c server w =
      log_event a.moments a.externals "RUN_STOP"
        (json (("mode", string (as_str c.agent.mode)) ∷ []))
        (record w { broker = disconnect a.http server "agent shutdown" w.broker })

  stop-Holds :
      (c : Config) (server : ServerClient) (recs : List AuditRecord) (w : AgentWorld a)
      → Holds recs w
      → (new : List AuditRecord) × Holds (recs ++ new) (stop a c server w)
        × (((last : AuditRecord) × (new ≡ last ∷ []) × (last.event ≡ "RUN_STOP"))
            ⊎ ((e : AgentError) × ((farewell c server w).0 ≡ err e)))
  unfolding stop try_log
  stop-Holds c server recs w i =
      let w' : AgentWorld a = record w {
        broker = disconnect a.http server "agent shutdown" w.broker;
      } in
      let detail = json (("mode", string (as_str c.agent.mode)) ∷ []) in
      elim (Result-cases (farewell c server w).0) [
        | inl (e, q) ↦
            let (new, k) =
              Evolves-IsIntact a.externals laws i
                (log_event-Logs a.externals a.moments whole "RUN_STOP" detail w') in
            (new, k, inr (e, q))
        | inr (_, q) ↦
            let (rec, k, name, _) =
              log_event-IsIntact a.externals a.moments laws "RUN_STOP" detail w' (stop a c server w)
                recs i (ap (λ r. (r, stop a c server w)) q) in
            (rec ∷ [], k, inl (rec, refl, name))
      ]

  -- A number of cycles, each on the world that the one before it left.
  pub data Cycles (c : Config) (p : Prepared a) : ℕ → AgentWorld a → AgentWorld a → Type 0 where
    over : {w : AgentWorld a} → Cycles c p zero w w
    cycle :
        {n : ℕ} {w v u : AgentWorld a}
        → run_one a c p.server p.cipher p.id w ≡ some v
        → Cycles c p n v u
        → Cycles c p (suc n) w u

  run_for_returns :
      (c : Config) (p : Prepared a) (n : ℕ) (w : AgentWorld a)
      → validate c ≡ ok tt
      → (u : AgentWorld a) × (run_for a c p n w ≡ some u)
        × Cycles c p n w u
        × Evolves a.externals (logged a.externals w) (logged a.externals u)
  unfolding run_for
  run_for_returns c p zero w v = (w, refl, over, unchanged refl)
  run_for_returns c p (suc n) w v =
      let (t, e) = run_one_returns a c p.server p.cipher p.id w v in
      let (u, q, k, l) = run_for_returns c p n t v in
      (
        u,
        rw (run_for, e) q,
        cycle e k,
        Evolves-trans a.externals (run_one-Evolves a whole c p.server p.cipher p.id w t e) l,
      )

  -- With a validated configuration and an intact log, the agent that has been prepared and whose start is
  -- logged runs as many cycles as the signal leaves it, each on the world that the one before it left,
  -- whatever the broker, the directory and the database answer, and then the shutdown, and returns without
  -- an error. The log is intact, and its new records begin with RUN_START and end with RUN_STOP, unless the
  -- log refused this last one. No write breaks off.
  pub run_stops :
      (c : Config) (n : ℕ) (p : Prepared a) (recs : List AuditRecord) (w t : AgentWorld a)
      → validate c ≡ ok tt
      → IsIntact a.externals recs w.log w.disk
      → prepare a c w.disk ≡ ok p
      → started a c (record w { log = p.log }) ≡ (ok tt, t)
      → (u : AgentWorld a) × (first : AuditRecord) × (rest : List AuditRecord) × (run a c n w
          ≡ some (ok tt, u))
        × IsIntact a.externals (recs ++ first ∷ rest) u.log u.disk
        × (first.event ≡ "RUN_START")
        × ((v : AgentWorld a) × Cycles c p n t v
            × (u ≡ stop a c p.server v)
            × (((between : List AuditRecord) × (last : AuditRecord) × (rest ≡ between ++ last ∷ [])
                  × (last.event ≡ "RUN_STOP"))
                ⊎ ((e : AgentError) × ((farewell c p.server v).0 ≡ err e))))
  unfolding run launched stopped
  run_stops c n p recs w t v i e s =
      let w₀ : AgentWorld a = record w { log = p.log } in
      let i₀ =
        open-IsIntact a.externals laws c.agent.audit_log recs w.log p.log w.disk i
          (prepare-open_log a c w.disk p e) in
      let (first, i₁, name) = started-Holds c recs w₀ t i₀ s in
      let (u, q, k, l) = run_for_returns c p n t v in
      let (between, i₂) = Evolves-IsIntact a.externals laws i₁ l in
      let (new, i₃, ends) = stop-Holds c p.server ((recs ++ first ∷ []) ++ between) u i₂ in
      (
        stop a c p.server u,
        first,
        between ++ new,
        rw (run, e) (ap (launched a c n p) s ∙ ap (stopped a c p.server) q),
        subst (λ rs. Holds rs (stop a c p.server u))
            (append_assoc (recs ++ first ∷ []) between new
              ∙ append_assoc recs (first ∷ []) (between ++ new))
            i₃,
        name,
        (
          u,
          k,
          refl,
          elim ends [
            | inl (last, same, stops) ↦ inl (between, last, ap (λ rs. between ++ rs) same, stops)
            | inr (x, f) ↦ inr (x, f)
          ],
        ),
      )
