-- ===== src/DbMode/Pass/Inbound.antt =====
-- src/modes/db.rs, `run_once`: what the inbound half of a pass has done when it returns.
use nexusid_agent.Common.{
  ℕ, ◌+◌, ◌^◌, ◌<◌, ◌≤◌, ◌≡◌, refl, sym, ◌∙◌, ap, subst, ◌⊎◌, inl, inr, String, Bool, true, false,
  Option, none, some, List, [], ◌∷◌, ◌++◌, length, arith,
}
use nexusid_agent.Error.{Result, ok, AgentError, ok_inj}
use nexusid_agent.Effect.{M, pure, ◌>>=◌, ◌>>◌, bind-ok_inv}
use nexusid_agent.Json.{Value, string, number, json}
use nexusid_agent.Crypto.{Primitives}
use nexusid_agent.Config.{Env}
use nexusid_agent.Audit.{AuditRecord, SyncCounters, Externals, Write}
use nexusid_agent.Audit.Append.{Laws, IsIntact}
use nexusid_agent.Server.{Http, WritebackChange, pull_writeback}
use nexusid_agent.Server.Bounds.{pull_writeback-bounded}
use nexusid_agent.Db.{Database, DbConnector}
use nexusid_agent.World.{on_broker}
use nexusid_agent.World.Noted.{Grown, Grown-trans, Noted, Noted-none, log_event-Noted}
use nexusid_agent.DbMode.{DbMode, DbWorld, apply_all, note_changes, pull_changes, inbound}
use nexusid_agent.DbMode.Push.{failures}
use nexusid_agent.DbMode.Apply.{hits, change_entries, applies, ApplyDone-none, apply_all-ApplyDone}

-- What the log says of the changes as a whole.
abbrev pub summary_entries : (table : String) → List WritebackChange → List (String × Value)
summary_entries table [] = []
summary_entries table (change ∷ changes) =
    (
      "DB_WRITEBACK",
      json (("table", string table) ∷ ("applied", number (length (change ∷ changes))) ∷ []),
    )
    ∷ []

module _ (d : Database) (h : Http) (x : Externals) (laws : Laws x) (moments : ℕ → Write × String)
    (p : Primitives) (env : Env) (mode : DbMode) where
  -- Where the changes come from: nowhere unless writeback is on and has a path, and else from one pull.
  pub data Served (writeback : Bool) (from : Option String) (secret : String)
      (changes : List WritebackChange) (b b' : h.State) : Type 0 where
    idle :
        (writeback ≡ false) ⊎ (from ≡ none)
        → changes ≡ []
        → b' ≡ b
        → Served writeback from secret changes b b'
    pulled :
        {path : String}
        → writeback ≡ true
        → from ≡ some path
        → pull_writeback h mode.server path secret b ≡ (ok changes, b')
        → Served writeback from secret changes b b'

  -- The inbound half.
  pub record InboundDone (writeback : Bool) (from : Option String) (conn : DbConnector d.Pool)
      (secret : String) (start counters : SyncCounters) (recs : List AuditRecord)
      (w w' : DbWorld d h x moments) : Type 0 where
    pub requested : List WritebackChange
    pub served : Served writeback from secret requested w.broker w'.broker
    pub applied : w'.resource ≡ (applies d h x laws moments conn requested w.resource).1
    pub grown :
        Grown x recs
          (change_entries requested (applies d h x laws moments conn requested w.resource).0
            ++ summary_entries mode.section.table requested)
          w'
    pub inspected : counters.inspected ≡ start.inspected + length requested
    pub failed :
        counters.failed
        ≡ start.failed + failures (applies d h x laws moments conn requested w.resource).0
    pub updated :
        counters.updated
        ≡ start.updated + hits (applies d h x laws moments conn requested w.resource).0

  note_changes-Noted :
      (changes : List WritebackChange) (w : DbWorld d h x moments) {w' : DbWorld d h x moments}
      {recs : List AuditRecord}
      → IsIntact x recs w.log w.disk
      → note_changes d h x moments p env mode changes w ≡ (ok tt, w')
      → Noted x recs (summary_entries mode.section.table changes) w w'
  unfolding note_changes
  note_changes-Noted [] w i q = Noted-none x i q
  note_changes-Noted (change ∷ changes) w i q = log_event-Noted x moments laws i q

  InboundDone-at :
      {writeback : Bool} {from : Option String} (conn : DbConnector d.Pool) (secret : String)
      {start counters c : SyncCounters} {recs : List AuditRecord} {w w' v : DbWorld d h x moments}
      → ◌≡◌ {A = Result AgentError SyncCounters × DbWorld d h x moments} (ok c, v) (ok counters, w')
      → InboundDone writeback from conn secret start c recs w v
      → InboundDone writeback from conn secret start counters recs w w'
  InboundDone-at {writeback} {from} conn secret {start} {counters} {c} {recs} {w} {w'} q done =
      subst (λ (k : SyncCounters). InboundDone writeback from conn secret start k recs w w')
        (ok_inj (ap (λ t. t.0) q))
        (subst (InboundDone writeback from conn secret start c recs w) (ap (λ t. t.1) q) done)

  nothing-InboundDone :
      {writeback : Bool} {from : Option String} (conn : DbConnector d.Pool) (secret : String)
      {start counters : SyncCounters} {recs : List AuditRecord} {w w' : DbWorld d h x moments}
      → (writeback ≡ false) ⊎ (from ≡ none)
      → IsIntact x recs w.log w.disk
      → ◌≡◌ {A = Result AgentError SyncCounters × DbWorld d h x moments}
          (ok start, w)
          (ok counters, w')
      → InboundDone writeback from conn secret start counters recs w w'
  nothing-InboundDone conn secret off i q =
      let done = ApplyDone-none d h x laws moments conn i q in
      record {
        requested = [];
        served = idle off refl done.kept;
        applied = done.applied;
        grown = done.grown;
        inspected = done.inspected;
        failed = done.failed;
        updated = done.updated;
      }

  module _
      (changes_fit : (body : String) (changes : List WritebackChange)
        → h.changes_of body ≡ ok changes
        → length changes < 2 ^ 63) where
    parts-InboundDone :
        (conn : DbConnector d.Pool) (secret path : String) (changes : List WritebackChange)
        (start c : SyncCounters) (recs : List AuditRecord) (w w₁ w₂ w₃ : DbWorld d h x moments)
        → start.inspected < 2 ^ 63
        → start.updated + start.failed ≤ start.inspected
        → IsIntact x recs w.log w.disk
        → on_broker (pull_writeback h mode.server path secret) w ≡ (ok changes, w₁)
        → apply_all d h x moments conn changes start w₁ ≡ (ok c, w₂)
        → note_changes d h x moments p env mode changes w₂ ≡ (ok tt, w₃)
        → InboundDone true (some path) conn secret start c recs w w₃
    unfolding on_broker
    parts-InboundDone conn secret path changes start c recs w w₁ w₂ w₃ b s i pull run note =
        let kept : w₁.resource ≡ w.resource =
          ap (λ (r : _ × DbWorld d h x moments). r.1.resource) (sym pull) in
        let j : IsIntact x recs w₁.log w₁.disk =
          subst (λ (u : DbWorld d h x moments). IsIntact x recs u.log u.disk) (ap (λ r. r.1) pull)
            i in
        let got : pull_writeback h mode.server path secret w.broker ≡ (ok changes, w₁.broker) =
          ap (λ (r : _ × DbWorld d h x moments). (r.0, r.1.broker)) pull in
        let fit : length changes < 2 ^ 63 =
          pull_writeback-bounded h (2 ^ 63) (omega arith) changes_fit mode.server path secret
            w.broker got in
        let done =
          apply_all-ApplyDone d h x laws moments conn changes start c recs w₁ w₂
            (omega (arith, b, fit)) s j run in
        let noted = note_changes-Noted changes w₂ done.grown.intact note in
        let outs : applies d h x laws moments conn changes w₁.resource
            ≡ applies d h x laws moments conn changes w.resource =
          ap (applies d h x laws moments conn changes) kept in
        record {
          requested = changes;
          served =
              pulled refl refl
                (got ∙ ap (λ b. (ok changes, b)) (sym (noted.broker_kept ∙ done.kept)));
          applied = noted.resource_kept ∙ done.applied ∙ ap (λ u. u.1) outs;
          grown =
              subst
                (λ u.
                  Grown x recs
                    (change_entries changes u.0 ++ summary_entries mode.section.table changes) w₃)
                outs (Grown-trans x done.grown noted.grown);
          inspected = done.inspected;
          failed = done.failed ∙ ap (λ u. start.failed + failures u.0) outs;
          updated = done.updated ∙ ap (λ u. start.updated + hits u.0) outs;
        }

    pull_changes-InboundDone :
        (conn : DbConnector d.Pool) (secret path : String) (start counters : SyncCounters)
        (recs : List AuditRecord) (w w' : DbWorld d h x moments)
        → start.inspected < 2 ^ 63
        → start.updated + start.failed ≤ start.inspected
        → IsIntact x recs w.log w.disk
        → pull_changes d h x moments p env mode conn secret path start w ≡ (ok counters, w')
        → InboundDone true (some path) conn secret start counters recs w w'
    unfolding pull_changes
    pull_changes-InboundDone conn secret path start counters recs w w' b s i q =
        let close : List WritebackChange → SyncCounters → M (DbWorld d h x moments) SyncCounters =
          λ changes c. note_changes d h x moments p env mode changes >> pure c in
        let (changes, w₁, pull, a) =
          bind-ok_inv (on_broker (pull_writeback h mode.server path secret))
            (λ changes. apply_all d h x moments conn changes start >>= close changes) w q in
        let (c, w₂, run, e) =
          bind-ok_inv (apply_all d h x moments conn changes start) (close changes) w₁ a in
        let (_, w₃, note, end) =
          bind-ok_inv (note_changes d h x moments p env mode changes) (λ _. pure c) w₂ e in
        InboundDone-at conn secret end
          (parts-InboundDone conn secret path changes start c recs w w₁ w₂ w₃ b s i pull run note)

    pub inbound-InboundDone :
        (writeback : Bool) (from : Option String) (conn : DbConnector d.Pool) (secret : String)
        (start counters : SyncCounters) (recs : List AuditRecord) (w w' : DbWorld d h x moments)
        → start.inspected < 2 ^ 63
        → start.updated + start.failed ≤ start.inspected
        → IsIntact x recs w.log w.disk
        → inbound d h x moments p env mode writeback from conn secret start w ≡ (ok counters, w')
        → InboundDone writeback from conn secret start counters recs w w'
    unfolding inbound
    inbound-InboundDone true (some path) conn secret start counters recs w w' b s i q =
        pull_changes-InboundDone conn secret path start counters recs w w' b s i q
    inbound-InboundDone true none conn secret start counters recs w w' b s i q =
        nothing-InboundDone conn secret (inr refl) i q
    inbound-InboundDone false none conn secret start counters recs w w' b s i q =
        nothing-InboundDone conn secret (inl refl) i q
    inbound-InboundDone false (some path) conn secret start counters recs w w' b s i q =
        nothing-InboundDone conn secret (inl refl) i q
