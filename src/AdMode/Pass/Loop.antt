-- ===== src/AdMode/Pass/Loop.antt =====
-- src/modes/ad.rs, `run_once`: what the loop over the operations has done when it returns.
use nexusid_agent.Common.{
  ℕ, ◌≡◌, refl, ◌∙◌, ap, subst, String, Bool, true, false, Option, none, some, List, [], ◌∷◌, ◌++◌,
}
use nexusid_agent.Error.{Result, ok, err, AgentError, ok_inj, to_string}
use nexusid_agent.Effect.{bind-ok_inv}
use nexusid_agent.Json.{Value, string, json}
use nexusid_agent.Crypto.{Primitives}
use nexusid_agent.Config.{Env}
use nexusid_agent.Audit.{AuditRecord, SyncCounters, Externals, Write}
use nexusid_agent.Audit.Append.{Laws, IsIntact}
use nexusid_agent.Audit.Counters.{tally}
use nexusid_agent.Ldap.{Directory, LdapConnector}
use nexusid_agent.Server.{Operation, Http, ServerClient, complete}
use nexusid_agent.World.Noted.{Grown, Grown-none, Grown-trans, Noted, log_event-Noted}
use nexusid_agent.AdMode.{Formats, AdMode, Connections, route_and_process}
use nexusid_agent.AdMode.Pass.{
  AdWorld, count_outcome, event_of, detail_of, report, completed, run_ops,
}

abbrev Outcome : Type 0
Outcome = Result AgentError Value

-- What the log, the broker and the counters are told of an outcome.
abbrev pub entry_of : Operation → Outcome → String × Value
entry_of op (ok v) =
    ("AD_OP_OK", json (("id", string op.id) ∷ ("op", string op.op_type) ∷ ("result", v) ∷ []))
entry_of op (err e) = (
  "AD_OP_FAIL",
  json (("id", string op.id) ∷ ("op", string op.op_type) ∷ ("error", string (to_string e)) ∷ []),
)

abbrev pub told_of : (render : Value → String) → Outcome → Bool × Option String × Option String
told_of render (ok v) = (true, some (render v), none)
told_of render (err e) = (false, none, some (to_string e))

abbrev pub label : Operation → Outcome → Option String
label op (ok v) = some op.op_type
label op (err e) = none

abbrev pub entries_of : List Operation → List Outcome → List (String × Value)
entries_of (op ∷ ops) (r ∷ rs) = entry_of op r ∷ entries_of ops rs
entries_of _ _ = []

abbrev pub labels : List Operation → List Outcome → List (Option String)
labels (op ∷ ops) (r ∷ rs) = label op r ∷ labels ops rs
labels _ _ = []

count_outcome-tally :
    (op : Operation) (r : Outcome) (os : List (Option String)) (c : SyncCounters)
    → tally os (count_outcome op r c) ≡ tally (label op r ∷ os) c
unfolding count_outcome
count_outcome-tally op (ok v) os c = refl
count_outcome-tally op (err e) os c = refl

entry_of-eq : (op : Operation) (r : Outcome) → (event_of r, detail_of op r) ≡ entry_of op r
unfolding event_of detail_of
entry_of-eq op (ok v) = refl
entry_of-eq op (err e) = refl

module _ (d : Directory) (h : Http) (x : Externals) (laws : Laws x)
    (moments : ℕ → Write × String) where
  -- The reports to the broker alone, in order.
  abbrev pub reports : ServerClient → List Operation → List Outcome → h.State → h.State
  reports c (op ∷ ops) (r ∷ rs) s =
      let (success, result, error) = told_of x.render r in
      reports c ops rs (complete h c op.id success result error s).1
  reports c _ _ s = s

  completed-eq :
      (c : ServerClient) (op : Operation) (r : Outcome) (s : h.State)
      → completed d h x moments c op r s ≡ (
          let (success, result, error) = told_of x.render r in
          (complete h c op.id success result error s).1)
  unfolding completed
  completed-eq c op (ok v) s = refl
  completed-eq c op (err e) s = refl

  report-Noted :
      (c : ServerClient) (op : Operation) (r : Outcome) (w w' : AdWorld d h x moments)
      (recs : List AuditRecord)
      → IsIntact x recs w.log w.disk
      → report d h x moments c op r w ≡ (ok tt, w')
      → Noted x recs
          (entry_of op r ∷ [])
          (record w { broker = completed d h x moments c op r w.broker })
          w'
  unfolding report
  report-Noted c op r w w' recs i q =
      subst
        (λ e.
          Noted x recs (e ∷ []) (record w { broker = completed d h x moments c op r w.broker }) w')
        (entry_of-eq op r) (log_event-Noted x moments laws i q)

  module _ (p : Primitives) (env : Env) (f : Formats) (mode : AdMode) (kerberos : Bool) where
    -- The operations alone, in order.
    abbrev pub outcomes :
        LdapConnector d.Session
        → List Operation
        → Connections d.State (LdapConnector d.Session)
        → List Outcome × Connections d.State (LdapConnector d.Session)
    outcomes l [] s = ([], s)
    outcomes l (op ∷ ops) s =
        let (r, s') = route_and_process d p f mode kerberos op l s in
        let (rs, t) = outcomes l ops s' in (r ∷ rs, t)

    -- What the loop has done when it returns.
    pub record OpsDone (l : LdapConnector d.Session) (ops : List Operation)
        (start counters : SyncCounters) (recs : List AuditRecord) (w w' : AdWorld d h x moments)
        : Type 0 where
      pub worked : w'.resource ≡ (outcomes l ops w.resource).1
      pub reported : w'.broker ≡ reports mode.server ops (outcomes l ops w.resource).0 w.broker
      pub grown : Grown x recs (entries_of ops (outcomes l ops w.resource).0) w'
      pub counted : counters ≡ tally (labels ops (outcomes l ops w.resource).0) start

    OpsDone-none :
        (l : LdapConnector d.Session) {start counters : SyncCounters} {recs : List AuditRecord}
        {w w' : AdWorld d h x moments}
        → IsIntact x recs w.log w.disk
        → ◌≡◌ {A = Result AgentError SyncCounters × AdWorld d h x moments}
            (ok start, w)
            (ok counters, w')
        → OpsDone l [] start counters recs w w'
    OpsDone-none l {start} {counters} {recs} {w} {w'} i q =
        subst (λ (k : SyncCounters). OpsDone l [] start k recs w w') (ok_inj (ap (λ t. t.0) q))
          (subst (OpsDone l [] start start recs w) (ap (λ t. t.1) q)
            (record { worked = refl; reported = refl; grown = Grown-none x i; counted = refl }))

    pub run_ops-OpsDone :
        (l : LdapConnector d.Session) (ops : List Operation) (c counters : SyncCounters)
        (w w' : AdWorld d h x moments) (recs : List AuditRecord)
        → IsIntact x recs w.log w.disk
        → run_ops d h x moments p env f mode kerberos l ops c w ≡ (ok counters, w')
        → OpsDone l ops c counters recs w w'
    unfolding run_ops
    run_ops-OpsDone l [] c counters w w' recs i q = OpsDone-none l i q
    run_ops-OpsDone l (op ∷ ops) c counters w w' recs i q =
        let (r, s) = route_and_process d p f mode kerberos op l w.resource in
        let w₁ : AdWorld d h x moments = record w { resource = s } in
        let (_, w₂, a, b) =
          bind-ok_inv (report d h x moments mode.server op r)
            (λ _. run_ops d h x moments p env f mode kerberos l ops (count_outcome op r c)) w₁ q in
        let note = report-Noted mode.server op r w₁ w₂ recs i a in
        let done =
          run_ops-OpsDone l ops (count_outcome op r c) counters w₂ w' (recs ++ note.grown.new)
            note.grown.intact b in
        let outs : outcomes l ops w₂.resource ≡ outcomes l ops s =
          ap (outcomes l ops) note.resource_kept in
        record {
          worked = done.worked ∙ ap (λ u. u.1) outs;
          reported =
              done.reported
              ∙ ap (λ u. reports mode.server ops u.0 w₂.broker) outs
              ∙ ap (reports mode.server ops (outcomes l ops s).0)
                  (note.broker_kept ∙ completed-eq mode.server op r w.broker);
          grown =
              subst (λ u. Grown x recs (entry_of op r ∷ entries_of ops u.0) w') outs
                (Grown-trans x note.grown done.grown);
          counted =
              done.counted
              ∙ ap (λ u. tally (labels ops u.0) (count_outcome op r c)) outs
              ∙ count_outcome-tally op r (labels ops (outcomes l ops s).0) c;
        }
