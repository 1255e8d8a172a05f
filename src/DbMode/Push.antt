-- ===== src/DbMode/Push.antt =====
-- src/modes/db.rs, the outbound loop: every row is pushed, and every failure is counted and logged.
use nexusid_agent.Common.{
  ℕ, suc, ◌+◌, ◌^◌, ◌<◌, ◌≡◌, refl, sym, ◌∙◌, ap, subst, String, List, [], ◌∷◌, ◌++◌, length, arith,
}
use nexusid_agent.Error.{Result, ok, err, AgentError, ok_inj, to_string}
use nexusid_agent.Effect.{bind-ok_inv}
use nexusid_agent.Json.{Value, string, json}
use nexusid_agent.Audit.{AuditRecord, SyncCounters, zero_counters, Externals, Write}
use nexusid_agent.Audit.Append.{Laws, IsIntact}
use nexusid_agent.Server.{Http, ServerClient, push_record}
use nexusid_agent.Db.{Database}
use nexusid_agent.World.Noted.{Grown, Grown-none, Grown-trans, Noted, Noted-none, log_event-Noted}
use nexusid_agent.DbMode.{DbWorld, count_push, note_push, push_all}

abbrev Outcome : Type 0
Outcome = Result AgentError (Unit {0})

abbrev pub failures : {A : Type 0} → List (Result AgentError A) → ℕ
failures [] = 0
failures (ok _ ∷ rest) = failures rest
failures (err _ ∷ rest) = suc (failures rest)

-- What the log says of the pushes.
abbrev pub push_entries : List Outcome → List (String × Value)
push_entries [] = []
push_entries (ok _ ∷ rest) = push_entries rest
push_entries (err e ∷ rest) =
    ("DB_PUSH_FAIL", json (("error", string (to_string e)) ∷ [])) ∷ push_entries rest

push_entries-step :
    (r : Outcome) (rs : List Outcome)
    → push_entries (r ∷ []) ++ push_entries rs ≡ push_entries (r ∷ rs)
push_entries-step (ok _) rs = refl
push_entries-step (err e) rs = refl

count_push-counts :
    (r : Outcome) (c : SyncCounters)
    → c.inspected + 1 < 2 ^ 64
    → c.updated + c.failed ≡ c.inspected
    → ((count_push r c).inspected ≡ c.inspected + 1)
      × ((count_push r c).failed ≡ c.failed + failures (r ∷ []))
      × ((count_push r c).updated + (count_push r c).failed ≡ c.inspected + 1)
unfolding count_push
count_push-counts r c h s = ground arith

module _ (d : Database) (h : Http) (x : Externals) (laws : Laws x)
    (moments : ℕ → Write × String) where
  note_push-Noted :
      (r : Outcome) (w : DbWorld d h x moments) {w' : DbWorld d h x moments}
      {recs : List AuditRecord}
      → IsIntact x recs w.log w.disk
      → note_push d h x moments r w ≡ (ok tt, w')
      → Noted x recs (push_entries (r ∷ [])) w w'
  unfolding note_push
  note_push-Noted (ok _) w i q = Noted-none x i q
  note_push-Noted (err e) w i q = log_event-Noted x moments laws i q

  module _ (c : ServerClient) (path secret : String) where
    -- The pushes alone, in order.
    abbrev pub pushes : List Value → h.State → List Outcome × h.State
    pushes [] s = ([], s)
    pushes (v ∷ vs) s =
        let (r, s') = push_record h c path secret v s in let (rs, t) = pushes vs s' in (r ∷ rs, t)

    -- What the loop has done when it returns.
    pub record PushDone (values : List Value) (start counters : SyncCounters)
        (recs : List AuditRecord) (w w' : DbWorld d h x moments) : Type 0 where
      pub pushed : w'.broker ≡ (pushes values w.broker).1
      pub kept : w'.resource ≡ w.resource
      pub grown : Grown x recs (push_entries (pushes values w.broker).0) w'
      pub inspected : counters.inspected ≡ start.inspected + length values
      pub failed : counters.failed ≡ start.failed + failures (pushes values w.broker).0
      pub split : counters.updated + counters.failed ≡ counters.inspected

    failures-step :
        (r : Outcome) (rs : List Outcome) → failures (r ∷ rs) ≡ failures (r ∷ []) + failures rs
    failures-step r rs = ground arith

    PushDone-none :
        {start counters : SyncCounters} {recs : List AuditRecord} {w w' : DbWorld d h x moments}
        → start.updated + start.failed ≡ start.inspected
        → IsIntact x recs w.log w.disk
        → ◌≡◌ {A = Result AgentError SyncCounters × DbWorld d h x moments}
            (ok start, w)
            (ok counters, w')
        → PushDone [] start counters recs w w'
    PushDone-none {start} {counters} {recs} {w} {w'} s i q =
        subst (λ (k : SyncCounters). PushDone [] start k recs w w') (ok_inj (ap (λ t. t.0) q))
          (subst (PushDone [] start start recs w) (ap (λ t. t.1) q) (record {
            pushed = refl;
            kept = refl;
            grown = Grown-none x i;
            inspected = omega arith;
            failed = omega arith;
            split = s;
          }))

    push_all_from :
        (values : List Value) (start counters : SyncCounters) (recs : List AuditRecord)
        (w w' : DbWorld d h x moments)
        → start.inspected + length values < 2 ^ 64
        → start.updated + start.failed ≡ start.inspected
        → IsIntact x recs w.log w.disk
        → push_all d h x moments c path secret values start w ≡ (ok counters, w')
        → PushDone values start counters recs w w'
    unfolding push_all
    push_all_from [] start counters recs w w' b s i q = PushDone-none s i q
    push_all_from (v ∷ vs) start counters recs w w' b s i q =
        let (r, t) = push_record h c path secret v w.broker in
        let w₁ : DbWorld d h x moments = record w { broker = t } in
        let (_, w₂, a, rest) =
          bind-ok_inv (note_push d h x moments r)
            (λ _. push_all d h x moments c path secret vs (count_push r start)) w₁ q in
        let note = note_push-Noted r w₁ i a in
        let (k, f, sum) = count_push-counts r start (omega arith) s in
        let done =
          push_all_from vs (count_push r start) counters (recs ++ note.grown.new) w₂ w'
            (omega arith) (sum ∙ sym k) note.grown.intact rest in
        let outs : pushes vs w₂.broker ≡ pushes vs t = ap (pushes vs) note.broker_kept in
        let more : failures (pushes vs w₂.broker).0 ≡ failures (pushes vs t).0 =
          ap (λ u. failures u.0) outs in
        record {
          pushed = done.pushed ∙ ap (λ u. u.1) outs;
          kept = done.kept ∙ note.resource_kept;
          grown =
              subst (λ es. Grown x recs es w')
                (ap (λ u. push_entries (r ∷ []) ++ push_entries u.0) outs
                  ∙ push_entries-step r (pushes vs t).0)
                (Grown-trans x note.grown done.grown);
          inspected = omega (arith, done.inspected);
          failed = omega (arith, done.failed, more, failures-step r (pushes vs t).0);
          split = done.split;
        }

    -- When the outbound loop returns, the broker was sent every record once and in their order, whatever
    -- became of the ones before; the intact log has one DB_PUSH_FAIL with its error for each push that
    -- failed, in order, and nothing else that is new; and from zero counters the inspected ones are all
    -- records, the failed ones the failures, and the updated ones the others.
    pub push_all-PushDone :
        (values : List Value) (recs : List AuditRecord) (w w' : DbWorld d h x moments)
        {counters : SyncCounters}
        → length values < 2 ^ 64
        → IsIntact x recs w.log w.disk
        → push_all d h x moments c path secret values zero_counters w ≡ (ok counters, w')
        → PushDone values zero_counters counters recs w w'
    push_all-PushDone values recs w w' {counters} b i q =
        push_all_from values zero_counters counters recs w w' (omega arith) refl i q
