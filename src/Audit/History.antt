-- ===== src/Audit/History.antt =====
-- src/audit.rs over the life of a log: the agent opens it, appends, meets errors and is restarted.
use nexusid_agent.Common.{
  ◌%◌, ◌^◌, ◌≡◌, refl, sym, ◌∙◌, ap, ◌≢◌, inl, inr, String, none, List, [], ◌∷◌, ◌++◌, length,
  segments,
}
use nexusid_agent.Error.{ok, err, AgentError, ok_inj}
use nexusid_agent.Json.{Value}
use nexusid_agent.Audit.{
  genesis, AuditRecord, AuditLog, Externals, Write, write_fails, Disk, read, append, open_log,
  verify,
}
use nexusid_agent.Audit.Chain.{records_of, intact, verify-eq_intact, log_at, open_log-eq}
use nexusid_agent.Audit.Append.{Laws, IsIntact, append-IsIntact, append_fails}

-- What can have happened to a log since there was no file: appends that succeed, appends that fail
-- with no part of the line written, and restarts. The list holds the records that were returned.
pub data History (x : Externals) : List AuditRecord → AuditLog → Disk → Type 0 where
  created :
      {log : AuditLog} {recs : List AuditRecord} (path : String)
      → open_log x path (read none) ≡ ok log
      → recs ≡ []
      → History x recs log none
  appended :
      {recs recs' : List AuditRecord} {log log' : AuditLog} {disk disk' : Disk} (write : Write)
      (ts event : String) (detail : Value) (rec : AuditRecord)
      → History x recs log disk
      → append x write ts event detail log disk ≡ (ok rec, log', disk')
      → recs' ≡ recs ++ rec ∷ []
      → History x recs' log' disk'
  refused :
      {recs : List AuditRecord} {log log' : AuditLog} {disk disk' : Disk} (write : Write)
      (ts event : String) (detail : Value) (e : AgentError)
      → History x recs log disk
      → append x write ts event detail log disk ≡ (err e, log', disk')
      → ((part m : String) → write ≢ write_fails part m)
      → History x recs log' disk'
  restarted :
      {recs : List AuditRecord} {log log' : AuditLog} {disk : Disk} (path : String)
      → History x recs log disk
      → open_log x path (read disk) ≡ ok log'
      → History x recs log' disk

module _ (x : Externals) (laws : Laws x) where
  -- A log that is opened again stands at the end of the chain on disk.
  pub open-IsIntact :
      (path : String) (recs : List AuditRecord) (log log' : AuditLog) (disk : Disk)
      → IsIntact x recs log disk
      → open_log x path (read disk) ≡ ok log'
      → IsIntact x recs log' disk
  open-IsIntact path recs log log' disk h o =
      let e = sym (open_log-eq x path (read disk)) ∙ o in
      let e' = (rw h.parsed at e) in
      record {
        parsed = h.parsed;
        chained = h.chained;
        at_head = ap (λ (l : AuditLog). (l.last_seq, l.last_hash)) (ok_inj e');
        terminated = h.terminated;
      }

  pub empty-IsIntact : {path : String} → IsIntact x [] (log_at x path (0, genesis)) none
  unfolding records_of read segments
  empty-IsIntact = record { parsed = refl; chained = tt; at_head = refl; terminated = refl }

  -- Whatever has happened, the file holds the chain of the records that were returned.
  pub History-IsIntact :
      {recs : List AuditRecord} {log : AuditLog} {disk : Disk}
      → History x recs log disk
      → IsIntact x recs log disk
  History-IsIntact (created {log = log} path o e) =
      rw e (open-IsIntact path [] (log_at x path (0, genesis)) log none empty-IsIntact o)
  History-IsIntact
        (appended {recs = recs} {log = log} {disk = disk} write ts event detail rec h a e) =
      let (same, i) =
        append-IsIntact x laws write ts event detail recs log disk (ap (λ t. t.0) a)
          (History-IsIntact h) in
      rw e (rw a at i)
  History-IsIntact (refused {recs = recs} {log = log} {disk = disk} write ts event detail e h a n) =
      let (l, d) = append_fails x write ts event detail log disk (ap (λ t. t.0) a) in
      let l' = (rw a at l) in
      rw l' (elim d [
        | inl kept ↦ rw (rw a at kept) (History-IsIntact h)
        | inr (part, m, w, _) ↦ absurd (n part m w)
      ])
  History-IsIntact (restarted {recs = recs} {log = log} {log' = log'} {disk = disk} path h o) =
      open-IsIntact path recs log log' disk (History-IsIntact h) o

  -- Whatever has happened to it in this way, the file verifies, and the report counts the records.
  pub History-verify :
      {recs : List AuditRecord} {log : AuditLog} {disk : Disk}
      → History x recs log disk
      → verify x (read disk) ≡ ok (intact x (length recs % 2 ^ 64))
  History-verify {recs} {disk = disk} h =
      let i = History-IsIntact h in verify-eq_intact x (read disk) recs i.parsed i.chained
