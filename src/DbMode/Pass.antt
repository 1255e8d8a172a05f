-- ===== src/DbMode/Pass.antt =====
-- src/modes/db.rs, `run_once`: what a pass that returns has done to the database, the broker and the log.
pub mod Inbound
pub mod Outbound
mod Tests
use nexusid_agent.Common.{
  ℕ, ◌+◌, ◌^◌, ◌<◌, ◌≤◌, ◌≡◌, refl, sym, ◌∙◌, ap, subst, String, List, [], ◌∷◌, ◌++◌, length, arith,
}
use mathlib.Core.List.{append_assoc}
use nexusid_agent.Error.{Result, ok, AgentError}
use nexusid_agent.Effect.{M, lift, ◌>>=◌, bind-ok_inv}
use nexusid_agent.Json.{Value}
use nexusid_agent.Crypto.{Primitives}
use nexusid_agent.Config.{Env, resolve}
use nexusid_agent.Audit.{AuditRecord, SyncCounters, Externals, Write}
use nexusid_agent.Audit.Append.{Laws, IsIntact}
use nexusid_agent.Server.{Http, WritebackChange}
use nexusid_agent.Db.{Row, Database, DbConnector, connect, pull_records}
use nexusid_agent.World.{on_resource}
use nexusid_agent.World.Noted.{Grown, Grown-trans}
use nexusid_agent.DbMode.{DbMode, DbWorld, inbound, outbound, run_once}
use nexusid_agent.DbMode.Push.{failures, push_entries}
use nexusid_agent.DbMode.Apply.{hits, change_entries, applies}
use nexusid_agent.DbMode.Pass.Outbound.{pull_entry, sent, OutboundDone, outbound-OutboundDone}
use nexusid_agent.DbMode.Pass.Inbound.{summary_entries, Served, InboundDone, inbound-InboundDone}

module _ (d : Database) (h : Http) (x : Externals) (laws : Laws x) (moments : ℕ → Write × String)
    (p : Primitives) (env : Env) (mode : DbMode) where
  -- The writebacks of the pass, in order.
  abbrev tried :
      DbConnector d.Pool → List WritebackChange → d.State → List (Result AgentError ℕ) × d.State
  tried = applies d h x laws moments

  -- What the pass logs: the pushes that failed, the pull, the writebacks that failed, the writeback.
  abbrev said :
      DbConnector d.Pool
      → (secret : String) → List Value
      → List WritebackChange
      → h.State
      → d.State
      → List (String × Value)
  said conn secret values changes b s =
      push_entries (sent d h x laws moments p env mode secret values b).0
      ++ (pull_entry mode.section.table values
          ∷ (change_entries changes (tried conn changes s).0
              ++ summary_entries mode.section.table changes))

  pub record DbDone (counters : SyncCounters) (recs : List AuditRecord)
      (w w' : DbWorld d h x moments) : Type 0 where
    pub url : String
    pub secret : String
    pub located : resolve p env mode.section.url ≡ ok url
    pub known : resolve p env mode.section.push_secret ≡ ok secret
    pub conn : DbConnector d.Pool
    pub opened : d.State
    pub connected :
        connect d url mode.section.driver mode.section.table mode.section.key_column
          mode.section.fields w.resource
        ≡ (ok conn, opened)
    pub values : List Value
    pub pulled : d.State
    pub read : pull_records d conn opened ≡ (ok values, pulled)
    pub requested : List WritebackChange
    pub served :
        Served d h x laws moments p env mode mode.section.writeback mode.section.writeback_pull_path
          secret requested
          (sent d h x laws moments p env mode secret values w.broker).1
          w'.broker
    pub applied : w'.resource ≡ (tried conn requested pulled).1
    pub grown : Grown x recs (said conn secret values requested w.broker pulled) w'
    pub inspected : counters.inspected ≡ length values + length requested
    pub failed :
        counters.failed
        ≡ failures (sent d h x laws moments p env mode secret values w.broker).0
          + failures (tried conn requested pulled).0
    pub updated :
        counters.updated + failures (sent d h x laws moments p env mode secret values w.broker).0
        ≡ length values + hits (tried conn requested pulled).0

  module _
      (rows_fit : (pool : d.Pool) (sql : String) (s : d.State) (rows : List Row) (t : d.State)
        → d.fetch_all pool sql s ≡ (ok rows, t)
        → length rows < 2 ^ 63)
      (changes_fit : (body : String) (changes : List WritebackChange)
        → h.changes_of body ≡ ok changes
        → length changes < 2 ^ 63) where
    parts-DbDone :
        (url secret : String) (conn : DbConnector d.Pool) (k counters : SyncCounters)
        (recs : List AuditRecord) (w w₃ w₄ w' : DbWorld d h x moments)
        → IsIntact x recs w.log w.disk
        → resolve p env mode.section.url ≡ ok url
        → resolve p env mode.section.push_secret ≡ ok secret
        → on_resource
            (connect d url mode.section.driver mode.section.table mode.section.key_column
              mode.section.fields)
            w
          ≡ (ok conn, w₃)
        → outbound d h x moments p env mode conn secret w₃ ≡ (ok k, w₄)
        → inbound d h x moments p env mode mode.section.writeback mode.section.writeback_pull_path
            conn secret k w₄
          ≡ (ok counters, w')
        → DbDone counters recs w w'
    unfolding on_resource
    parts-DbDone url secret conn k counters recs w w₃ w₄ w' i located known dialled outward inward =
        let j : IsIntact x recs w₃.log w₃.disk =
          subst (λ (u : DbWorld d h x moments). IsIntact x recs u.log u.disk)
            (ap (λ r. r.1) dialled) i in
        let kept : w₃.broker ≡ w.broker =
          ap (λ (r : _ × DbWorld d h x moments). r.1.broker) (sym dialled) in
        let out =
          outbound-OutboundDone d h x laws moments p env mode rows_fit conn secret k recs w₃ w₄ j
            outward in
        let inn =
          inbound-InboundDone d h x laws moments p env mode changes_fit mode.section.writeback
            mode.section.writeback_pull_path conn secret k counters (recs ++ out.grown.new) w₄ w'
            (omega (arith, out.inspected, out.fits)) (omega (arith, out.split)) out.grown.intact
            inward in
        let outs : sent d h x laws moments p env mode secret out.values w₃.broker
            ≡ sent d h x laws moments p env mode secret out.values w.broker =
          ap (sent d h x laws moments p env mode secret out.values) kept in
        record {
          url = url;
          secret = secret;
          located = located;
          known = known;
          conn = conn;
          opened = w₃.resource;
          connected = ap (λ (r : _ × DbWorld d h x moments). (r.0, r.1.resource)) dialled;
          values = out.values;
          pulled = w₄.resource;
          read = out.read;
          requested = inn.requested;
          served =
              subst
                (λ b.
                  Served d h x laws moments p env mode mode.section.writeback
                    mode.section.writeback_pull_path secret inn.requested b w'.broker)
                (out.pushed ∙ ap (λ u. u.1) outs) inn.served;
          applied = inn.applied;
          grown =
              subst (λ es. Grown x recs es w')
                (ap
                    (λ u.
                      (push_entries u.0 ++ pull_entry mode.section.table out.values ∷ [])
                      ++ (change_entries inn.requested (tried conn inn.requested w₄.resource).0
                          ++ summary_entries mode.section.table inn.requested))
                    outs
                  ∙ append_assoc
                      (push_entries
                        (sent d h x laws moments p env mode secret out.values w.broker).0)
                      (pull_entry mode.section.table out.values ∷ []) _)
                (Grown-trans x out.grown inn.grown);
          inspected = omega (arith, inn.inspected, out.inspected);
          failed = omega (arith, inn.failed, out.failed, ap (λ u. failures u.0) outs);
          updated = omega (
            arith,
            inn.updated,
            out.split,
            out.failed,
            out.inspected,
            ap (λ u. failures u.0) outs,
          );
        }

    -- If neither a query nor a body gives as many as 2 ^ 63 items, a pass that returns on an intact log
    -- has read the rows once, pushed each record once and in order, and, with writeback on, pulled once
    -- and written each change back once and in order; the new records of the intact log are, in order,
    -- the pushes that failed, the pull, the writebacks that failed and the writeback, each with its
    -- error or number; and the counters are the numbers of the records and changes, of the failures, and
    -- of the pushes that succeeded and the changes that met a row.
    pub run_once-DbDone :
        (w w' : DbWorld d h x moments) (recs : List AuditRecord) {counters : SyncCounters}
        → IsIntact x recs w.log w.disk
        → run_once d h x moments p env mode w ≡ (ok counters, w')
        → DbDone counters recs w w'
    unfolding run_once
    run_once-DbDone w w' recs {counters} i q =
        let finish : DbConnector d.Pool
            → String
            → SyncCounters
            → M (DbWorld d h x moments) SyncCounters =
          λ conn secret.
            inbound d h x moments p env mode mode.section.writeback mode.section.writeback_pull_path
              conn secret in
        let go : String → DbConnector d.Pool → M (DbWorld d h x moments) SyncCounters =
          λ secret conn. outbound d h x moments p env mode conn secret >>= finish conn secret in
        let dial : String → M (DbWorld d h x moments) (DbConnector d.Pool) = λ url. on_resource (
          connect d url mode.section.driver mode.section.table mode.section.key_column
            mode.section.fields) in
        let (url, w₁, located, a) =
          bind-ok_inv (lift (resolve p env mode.section.url))
            (λ url.
              lift (resolve p env mode.section.push_secret) >>= λ secret. dial url >>= go secret)
            w q in
        let (secret, w₂, known, b) =
          bind-ok_inv (lift (resolve p env mode.section.push_secret))
            (λ secret. dial url >>= go secret) w₁ a in
        let (conn, w₃, dialled, c) = bind-ok_inv (dial url) (go secret) w₂ b in
        let (k, w₄, pushed, e) =
          bind-ok_inv (outbound d h x moments p env mode conn secret) (finish conn secret) w₃ c in
        let same : w ≡ w₂ = ap (λ r. r.1) located ∙ ap (λ r. r.1) known in
        parts-DbDone url secret conn k counters recs w w₃ w₄ w' i (ap (λ r. r.0) located)
          (ap (λ r. r.0) known) (ap (dial url) same ∙ dialled) pushed e
