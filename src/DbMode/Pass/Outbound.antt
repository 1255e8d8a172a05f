-- ===== src/DbMode/Pass/Outbound.antt =====
-- src/modes/db.rs, `run_once`: what the outbound half of a pass has done when it returns.
use nexusid_agent.Common.{
  ℕ, ◌+◌, ◌^◌, ◌<◌, ◌≡◌, sym, ◌∙◌, ap, subst, String, List, [], ◌∷◌, ◌++◌, length, arith,
}
use nexusid_agent.Error.{Result, ok, AgentError, ok_inj}
use nexusid_agent.Effect.{M, pure, ◌>>=◌, ◌>>◌, bind-ok_inv}
use nexusid_agent.Json.{Value, string, number, json}
use nexusid_agent.Crypto.{Primitives}
use nexusid_agent.Config.{Env}
use nexusid_agent.Audit.{AuditRecord, SyncCounters, zero_counters, Externals, Write}
use nexusid_agent.Audit.Append.{Laws, IsIntact}
use nexusid_agent.Server.{Http}
use nexusid_agent.Db.{Row, Database, DbConnector, pull_records}
use nexusid_agent.Db.Bounds.{pull_records-bounded}
use nexusid_agent.World.{on_resource, log_event}
use nexusid_agent.World.Noted.{Grown, Grown-trans, Noted, log_event-Noted}
use nexusid_agent.DbMode.{DbMode, DbWorld, push_all, outbound}
use nexusid_agent.DbMode.Push.{failures, push_entries, pushes, push_all-PushDone}

abbrev pub pull_entry : (table : String) → List Value → String × Value
pull_entry table values =
    ("DB_PULL", json (("table", string table) ∷ ("rows", number (length values)) ∷ []))

module _ (d : Database) (h : Http) (x : Externals) (laws : Laws x) (moments : ℕ → Write × String)
    (p : Primitives) (env : Env) (mode : DbMode) where
  abbrev pub sent : String → List Value → h.State → List (Result AgentError (Unit {0})) × h.State
  sent = pushes d h x laws moments mode.server mode.section.push_path

  pub record OutboundDone (conn : DbConnector d.Pool) (secret : String) (counters : SyncCounters)
      (recs : List AuditRecord) (w w' : DbWorld d h x moments) : Type 0 where
    pub values : List Value
    pub read : pull_records d conn w.resource ≡ (ok values, w'.resource)
    pub pushed : w'.broker ≡ (sent secret values w.broker).1
    pub grown :
        Grown x recs
          (push_entries (sent secret values w.broker).0
            ++ pull_entry mode.section.table values ∷ [])
          w'
    pub fits : length values < 2 ^ 63
    pub inspected : counters.inspected ≡ length values
    pub failed : counters.failed ≡ failures (sent secret values w.broker).0
    pub split : counters.updated + counters.failed ≡ counters.inspected

  OutboundDone-at :
      (conn : DbConnector d.Pool) (secret : String) {counters c : SyncCounters}
      {recs : List AuditRecord} {w w' v : DbWorld d h x moments}
      → ◌≡◌ {A = Result AgentError SyncCounters × DbWorld d h x moments} (ok c, v) (ok counters, w')
      → OutboundDone conn secret c recs w v
      → OutboundDone conn secret counters recs w w'
  OutboundDone-at conn secret {counters} {c} {recs} {w} {w'} q done =
      subst (λ (k : SyncCounters). OutboundDone conn secret k recs w w') (ok_inj (ap (λ t. t.0) q))
        (subst (OutboundDone conn secret c recs w) (ap (λ t. t.1) q) done)

  module _
      (rows_fit : (pool : d.Pool) (sql : String) (s : d.State) (rows : List Row) (t : d.State)
        → d.fetch_all pool sql s ≡ (ok rows, t)
        → length rows < 2 ^ 63) where
    abbrev push : String → List Value → M (DbWorld d h x moments) SyncCounters
    push secret values =
        push_all d h x moments mode.server mode.section.push_path secret values zero_counters

    abbrev log_pull : List Value → M (DbWorld d h x moments) (Unit {0})
    log_pull values = log_event moments x "DB_PULL" (pull_entry mode.section.table values).1

    parts-OutboundDone :
        (conn : DbConnector d.Pool) (secret : String) (values : List Value) (c : SyncCounters)
        (recs : List AuditRecord) (w w₁ w₂ w₃ : DbWorld d h x moments)
        → IsIntact x recs w.log w.disk
        → on_resource (pull_records d conn) w ≡ (ok values, w₁)
        → push secret values w₁ ≡ (ok c, w₂)
        → log_pull values w₂ ≡ (ok tt, w₃)
        → OutboundDone conn secret c recs w w₃
    unfolding on_resource
    parts-OutboundDone conn secret values c recs w w₁ w₂ w₃ i pull run note =
        let kept : w₁.broker ≡ w.broker =
          ap (λ (r : _ × DbWorld d h x moments). r.1.broker) (sym pull) in
        let j : IsIntact x recs w₁.log w₁.disk =
          subst (λ (u : DbWorld d h x moments). IsIntact x recs u.log u.disk) (ap (λ r. r.1) pull)
            i in
        let read : pull_records d conn w.resource ≡ (ok values, w₁.resource) =
          ap (λ (r : _ × DbWorld d h x moments). (r.0, r.1.resource)) pull in
        let fit : length values < 2 ^ 63 =
          pull_records-bounded d (2 ^ 63) rows_fit conn w.resource read in
        let done =
          push_all-PushDone d h x laws moments mode.server mode.section.push_path secret values recs
            w₁ w₂ {counters = c} (omega (arith, fit)) j run in
        let noted : Noted x (recs ++ done.grown.new) (pull_entry mode.section.table values ∷ []) w₂
            w₃ =
          log_event-Noted x moments laws done.grown.intact note in
        let outs : sent secret values w₁.broker ≡ sent secret values w.broker =
          ap (sent secret values) kept in
        record {
          values = values;
          read = read ∙ ap (λ s. (ok values, s)) (sym (noted.resource_kept ∙ done.kept));
          pushed = noted.broker_kept ∙ done.pushed ∙ ap (λ u. u.1) outs;
          grown =
              subst
                (λ u.
                  Grown x recs (push_entries u.0 ++ pull_entry mode.section.table values ∷ []) w₃)
                outs (Grown-trans x done.grown noted.grown);
          fits = fit;
          inspected = omega (arith, done.inspected);
          failed = omega (arith, done.failed, ap (λ u. failures u.0) outs);
          split = done.split;
        }

    pub outbound-OutboundDone :
        (conn : DbConnector d.Pool) (secret : String) (counters : SyncCounters)
        (recs : List AuditRecord) (w w' : DbWorld d h x moments)
        → IsIntact x recs w.log w.disk
        → outbound d h x moments p env mode conn secret w ≡ (ok counters, w')
        → OutboundDone conn secret counters recs w w'
    unfolding outbound
    outbound-OutboundDone conn secret counters recs w w' i q =
        let close : List Value → SyncCounters → M (DbWorld d h x moments) SyncCounters =
          λ values c. log_pull values >> pure c in
        let (values, w₁, pull, a) =
          bind-ok_inv (on_resource (pull_records d conn))
            (λ values. push secret values >>= close values) w q in
        let (c, w₂, run, e) = bind-ok_inv (push secret values) (close values) w₁ a in
        let (_, w₃, note, end) = bind-ok_inv (log_pull values) (λ _. pure c) w₂ e in
        OutboundDone-at conn secret end
          (parts-OutboundDone conn secret values c recs w w₁ w₂ w₃ i pull run note)
