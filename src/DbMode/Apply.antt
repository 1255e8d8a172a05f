-- ===== src/DbMode/Apply.antt =====
-- src/modes/db.rs, the inbound loop: every change is written back, and every failure is counted and
-- logged.
use nexusid_agent.Common.{
  ℕ, suc, ◌+◌, ◌^◌, ◌<◌, ◌≤◌, ◌≡◌, refl, ◌∙◌, ap, subst, String, List, [], ◌∷◌, ◌++◌, length, ltb,
  arith, if◌then◌else◌,
}
use nexusid_agent.Error.{Result, ok, err, AgentError, ok_inj, to_string}
use nexusid_agent.Effect.{bind-ok_inv}
use nexusid_agent.Json.{Value, string, json}
use nexusid_agent.Audit.{AuditRecord, SyncCounters, Externals, Write}
use nexusid_agent.Audit.Append.{Laws, IsIntact}
use nexusid_agent.Server.{Http, WritebackChange}
use nexusid_agent.Db.{Database, DbConnector, apply_writeback}
use nexusid_agent.World.Noted.{Grown, Grown-none, Grown-trans, Noted, Noted-none, log_event-Noted}
use nexusid_agent.DbMode.{DbWorld, count_change, note_change, apply_all}
use nexusid_agent.DbMode.Push.{failures}

abbrev Outcome : Type 0
Outcome = Result AgentError ℕ

-- The changes that met a row.
abbrev pub hits : List Outcome → ℕ
hits [] = 0
hits (ok n ∷ rest) = if ltb 0 n then suc (hits rest) else hits rest
hits (err _ ∷ rest) = hits rest

-- What the log says of a change, and of all.
abbrev pub change_entry : String → Outcome → List (String × Value)
change_entry key (ok _) = []
change_entry key (err e) =
    ("DB_WRITEBACK_FAIL", json (("key", string key) ∷ ("error", string (to_string e)) ∷ [])) ∷ []

abbrev pub change_entries : List WritebackChange → List Outcome → List (String × Value)
change_entries (change ∷ changes) (r ∷ rs) = change_entry change.key r ++ change_entries changes rs
change_entries _ _ = []

count_change-counts :
    (r : Outcome) (c : SyncCounters)
    → c.inspected + 1 < 2 ^ 64
    → c.updated + c.failed ≤ c.inspected
    → ((count_change r c).inspected ≡ c.inspected + 1)
      × ((count_change r c).failed ≡ c.failed + failures (r ∷ []))
      × ((count_change r c).updated ≡ c.updated + hits (r ∷ []))
      × ((count_change r c).updated + (count_change r c).failed ≤ c.inspected + 1)
unfolding count_change
count_change-counts r c h s = ground arith

failures-step :
    (r : Outcome) (rs : List Outcome) → failures (r ∷ rs) ≡ failures (r ∷ []) + failures rs
failures-step r rs = ground arith

hits-step : (r : Outcome) (rs : List Outcome) → hits (r ∷ rs) ≡ hits (r ∷ []) + hits rs
hits-step r rs = ground arith

module _ (d : Database) (h : Http) (x : Externals) (laws : Laws x)
    (moments : ℕ → Write × String) where
  note_change-Noted :
      (key : String) (r : Outcome) (w : DbWorld d h x moments) {w' : DbWorld d h x moments}
      {recs : List AuditRecord}
      → IsIntact x recs w.log w.disk
      → note_change d h x moments key r w ≡ (ok tt, w')
      → Noted x recs (change_entry key r) w w'
  unfolding note_change
  note_change-Noted key (ok _) w i q = Noted-none x i q
  note_change-Noted key (err e) w i q = log_event-Noted x moments laws i q

  module _ (conn : DbConnector d.Pool) where
    -- The writebacks alone, in order.
    abbrev pub applies : List WritebackChange → d.State → List Outcome × d.State
    applies [] s = ([], s)
    applies (change ∷ changes) s =
        let (r, s') = apply_writeback d conn change.key change.fields s in
        let (rs, t) = applies changes s' in (r ∷ rs, t)

    -- What the loop has done when it returns.
    pub record ApplyDone (changes : List WritebackChange) (start counters : SyncCounters)
        (recs : List AuditRecord) (w w' : DbWorld d h x moments) : Type 0 where
      pub applied : w'.resource ≡ (applies changes w.resource).1
      pub kept : w'.broker ≡ w.broker
      pub grown : Grown x recs (change_entries changes (applies changes w.resource).0) w'
      pub inspected : counters.inspected ≡ start.inspected + length changes
      pub failed : counters.failed ≡ start.failed + failures (applies changes w.resource).0
      pub updated : counters.updated ≡ start.updated + hits (applies changes w.resource).0

    pub ApplyDone-none :
        {start counters : SyncCounters} {recs : List AuditRecord} {w w' : DbWorld d h x moments}
        → IsIntact x recs w.log w.disk
        → ◌≡◌ {A = Result AgentError SyncCounters × DbWorld d h x moments}
            (ok start, w)
            (ok counters, w')
        → ApplyDone [] start counters recs w w'
    ApplyDone-none {start} {counters} {recs} {w} {w'} i q =
        subst (λ (k : SyncCounters). ApplyDone [] start k recs w w') (ok_inj (ap (λ t. t.0) q))
          (subst (ApplyDone [] start start recs w) (ap (λ t. t.1) q) (record {
            applied = refl;
            kept = refl;
            grown = Grown-none x i;
            inspected = omega arith;
            failed = omega arith;
            updated = omega arith;
          }))

    -- When the inbound loop returns, every change was written back once and in their order, whatever
    -- became of the ones before; the intact log has one DB_WRITEBACK_FAIL with the key and the error for
    -- each change that failed, in order, and nothing else that is new; and the counters have grown by
    -- the numbers of the changes, of the failures and of the changes that met a row.
    pub apply_all-ApplyDone :
        (changes : List WritebackChange) (start counters : SyncCounters) (recs : List AuditRecord)
        (w w' : DbWorld d h x moments)
        → start.inspected + length changes < 2 ^ 64
        → start.updated + start.failed ≤ start.inspected
        → IsIntact x recs w.log w.disk
        → apply_all d h x moments conn changes start w ≡ (ok counters, w')
        → ApplyDone changes start counters recs w w'
    unfolding apply_all
    apply_all-ApplyDone [] start counters recs w w' b s i q = ApplyDone-none i q
    apply_all-ApplyDone (change ∷ changes) start counters recs w w' b s i q =
        let (r, t) = apply_writeback d conn change.key change.fields w.resource in
        let w₁ : DbWorld d h x moments = record w { resource = t } in
        let (_, w₂, a, rest) =
          bind-ok_inv (note_change d h x moments change.key r)
            (λ _. apply_all d h x moments conn changes (count_change r start)) w₁ q in
        let note = note_change-Noted change.key r w₁ i a in
        let (k, f, n, sum) = count_change-counts r start (omega arith) s in
        let done =
          apply_all-ApplyDone changes (count_change r start) counters (recs ++ note.grown.new) w₂ w'
            (omega arith) (omega arith) note.grown.intact rest in
        let outs : applies changes w₂.resource ≡ applies changes t =
          ap (applies changes) note.resource_kept in
        let more : failures (applies changes w₂.resource).0 ≡ failures (applies changes t).0 =
          ap (λ u. failures u.0) outs in
        let met : hits (applies changes w₂.resource).0 ≡ hits (applies changes t).0 =
          ap (λ u. hits u.0) outs in
        record {
          applied = done.applied ∙ ap (λ u. u.1) outs;
          kept = done.kept ∙ note.broker_kept;
          grown =
              subst (λ es. Grown x recs es w')
                (ap (λ u. change_entry change.key r ++ change_entries changes u.0) outs)
                (Grown-trans x note.grown done.grown);
          inspected = omega (arith, done.inspected);
          failed = omega (arith, done.failed, more, failures-step r (applies changes t).0);
          updated = omega (arith, done.updated, met, hits-step r (applies changes t).0);
        }
