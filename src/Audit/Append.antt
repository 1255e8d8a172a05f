-- ===== src/Audit/Append.antt =====
-- src/audit.rs, `AuditLog::append`: a record that is written extends the chain on disk, and a failure
-- leaves the log's head where it was.
use mathlib.Core.List.{map-append}
use nexusid_agent.Common.{
  ℕ, ◌≡◌, refl, sym, ◌∙◌, ap, inl, inr, ◌⊎◌, subst, String, some, none, List, [], ◌∷◌, ◌++◌, map,
  arith, cat, lines, strip_cr,
}
use nexusid_agent.Common.Newlines.{
  nl_count, IsTerminated, lines-cat_line, cat_line-IsTerminated, braced, strip_cr-braced,
  trim-braced,
}
use nexusid_agent.Error.{
  Result, ok, err, AgentError, ◌>>=◌, >>=-eq-ok, >>=-assoc, ok_inj, Result-cases,
}
use nexusid_agent.Json.{Value, string, json}
use nexusid_agent.Audit.{
  genesis, AuditRecord, AuditLog, Externals, Write, open_fails, write_fails, succeeds, Disk,
  contents, read, next, decoded, decode_line, new_record, store, append, append_event, run_start,
  summary, counts_json, SyncCounters,
}
use nexusid_agent.Audit.Chain.{parse, Line-cases, records_of, Follows, IsChain, head_after}

-- What serde_json documents of a struct: it is printed as one object on one line, and parsing gives
-- back what was printed.
pub record Laws (x : Externals) : Type 0 where
  pub framed :
      (r : AuditRecord) (l : String) → x.encode r ≡ ok l → (body : String) × (l ≡ braced body)
  pub one_line : (r : AuditRecord) (l : String) → x.encode r ≡ ok l → nl_count l ≡ 0
  pub round_trip : (r : AuditRecord) (l : String) → x.encode r ≡ ok l → x.decode l ≡ ok r

-- `disk` holds the chain of `recs`, and `log` stands at its end.
pub record IsIntact (x : Externals) (recs : List AuditRecord) (log : AuditLog) (disk : Disk)
    : Type 0 where
  pub parsed : records_of x (read disk) ≡ ok recs
  pub chained : IsChain x genesis 1 recs
  pub at_head : ◌≡◌ {A = ℕ × String} (head_after x 0 genesis recs) (log.last_seq, log.last_hash)
  pub terminated : IsTerminated (contents disk)

module _ (x : Externals) where
  IsChain-snoc :
      (recs : List AuditRecord) (s : ℕ) (prev : String) (rec : AuditRecord)
      → IsChain x prev (next s) recs
      → Follows x (head_after x s prev recs).1 (next (head_after x s prev recs).0) rec
      → IsChain x prev (next s) (recs ++ rec ∷ [])
  IsChain-snoc [] s prev rec c f = (f, tt)
  IsChain-snoc (r ∷ recs) s prev rec (h, c) f = (
    h,
    subst (λ k. IsChain x r.hash (next k) (recs ++ rec ∷ [])) h.0
        (IsChain-snoc recs r.seq r.hash rec
          (subst (λ k. IsChain x r.hash (next k) recs) (sym h.0) c) f),
  )

  head_after-snoc :
      (recs : List AuditRecord) (s : ℕ) (prev : String) (rec : AuditRecord)
      → head_after x s prev (recs ++ rec ∷ []) ≡ (rec.seq, rec.hash)
  head_after-snoc [] s prev rec = refl
  head_after-snoc (r ∷ recs) s prev rec = head_after-snoc recs r.seq r.hash rec

  parse-snoc :
      (ls : List (Result String String)) (l : Result String String) (rec : AuditRecord)
      → decode_line x l ≡ decoded rec
      → parse x (ls ++ l ∷ []) ≡ (parse x ls >>= λ recs. ok (recs ++ rec ∷ []))
  unfolding parse
  parse-snoc [] l rec d = rw (d, parse) refl
  parse-snoc (m ∷ ls) l rec d = elim (Line-cases x (decode_line x m)) [
    | inl e ↦ rw (e, parse) (parse-snoc ls l rec d)
    | inr (inl (a, e)) ↦ rw (e, parse) refl
    | inr (inr (r, e)) ↦
        rw (e, parse)
          (ap (λ m. m >>= λ recs. ok (r ∷ recs)) (parse-snoc ls l rec d)
            ∙ >>=-assoc (parse x ls) _ _
            ∙ sym (>>=-assoc (parse x ls) _ _))
  ]

  -- The record that is built has the event and the detail that are appended.
  pub new_record-holds :
      (log : AuditLog) (ts event : String) (detail : Value)
      → ((new_record x log ts event detail).event ≡ event)
        × ((new_record x log ts event detail).detail ≡ detail)
  unfolding new_record
  new_record-holds log ts event detail = (refl, refl)

  records_of-contents :
      (disk : Disk) → records_of x (read disk) ≡ parse x (map ok (lines (contents disk)))
  unfolding records_of read lines parse
  records_of-contents none = refl
  records_of-contents (some s) = refl

  store-ok :
      (new : AuditRecord) (write : Write) (line : String) (log : AuditLog) (disk : Disk)
      {rec : AuditRecord}
      → (store x new write line log disk).0 ≡ ok rec
      → (rec ≡ new)
        × (store x new write line log disk ≡ (
          ok new,
          record log { last_seq = new.seq; last_hash = new.hash },
          some (cat (contents disk) (cat line "\n")),
        ))
  unfolding store
  store-ok new (open_fails m) line log disk r = cc
  store-ok new (write_fails part m) line log disk r = cc
  store-ok new succeeds line log disk r = (sym (ok_inj r), refl)

  module _ (laws : Laws x) where
    -- A printed record is read back from its line.
    decode_line-encode :
        (r : AuditRecord) (l : String)
        → x.encode r ≡ ok l
        → decode_line x (ok (strip_cr l)) ≡ decoded r
    unfolding decode_line
    decode_line-encode r l e =
        let (body, f) = laws.framed r l e in
        rw (f, strip_cr-braced body, trim-braced body, ← f, laws.round_trip r l e) refl

    store-IsIntact :
        (recs : List AuditRecord) (log : AuditLog) (disk : Disk) (rec : AuditRecord) (line : String)
        → x.encode rec ≡ ok line
        → Follows x log.last_hash (next log.last_seq) rec
        → IsIntact x recs log disk
        → IsIntact x
            (recs ++ rec ∷ [])
            (record log { last_seq = rec.seq; last_hash = rec.hash })
            (some (cat (contents disk) (cat line "\n")))
    store-IsIntact recs log disk rec line e f h = record {
      parsed =
          records_of-contents (some (cat (contents disk) (cat line "\n")))
          ∙ rw
              (
                lines-cat_line (contents disk) line (laws.one_line rec line e) h.terminated,
                map-append,
                parse-snoc (map ok (lines (contents disk))) (ok (strip_cr line)) rec
                    (decode_line-encode rec line e),
                ← records_of-contents disk,
                h.parsed,
              )
              refl;
      chained = IsChain-snoc recs 0 genesis rec h.chained (rw h.at_head f);
      at_head = head_after-snoc recs 0 genesis rec;
      terminated = cat_line-IsTerminated (contents disk) line (laws.one_line rec line e);
    }

    -- A successful append adds one record, the one that it returns, to the intact chain on disk, and
    -- moves the log's head to it.
    pub append-IsIntact :
        (write : Write) (ts event : String) (detail : Value) (recs : List AuditRecord)
        (log : AuditLog) (disk : Disk) {rec : AuditRecord}
        → (append x write ts event detail log disk).0 ≡ ok rec
        → IsIntact x recs log disk
        → (rec ≡ new_record x log ts event detail)
          × IsIntact x
              (recs ++ rec ∷ [])
              (append x write ts event detail log disk).1
              (append x write ts event detail log disk).2
    unfolding append
    append-IsIntact write ts event detail recs log disk {rec} r h =
        elim (Result-cases (x.encode (new_record x log ts event detail))) [
          | inl (e, n) ↦ cc (rw (n, append) at r)
          | inr (line, n) ↦
              let new = new_record x log ts event detail in
              let (same, stored) = store-ok new write line log disk (rw (n, append) at r) in
              (
                same,
                rw (same, n, append, stored)
                    (store-IsIntact recs log disk new line n (refl, refl, refl) h),
              )
        ]

-- An append returns its record if that can be printed and the write succeeds.
pub append-new_record :
    (x : Externals) (ts event : String) (detail : Value) (log : AuditLog) (disk : Disk)
    {line : String}
    → x.encode (new_record x log ts event detail) ≡ ok line
    → (append x succeeds ts event detail log disk).0 ≡ ok (new_record x log ts event detail)
unfolding append store
append-new_record x ts event detail log disk e = rw (e, append) refl

-- The first and the last event of a pass are events like others.
pub run_start-eq :
    (x : Externals) (write : Write) (ts mode : String)
    → run_start x write ts mode
      ≡ append_event x write ts "RUN_START" (json (("mode", string mode) ∷ []))
unfolding run_start
run_start-eq x write ts mode = refl

pub summary-eq :
    (x : Externals) (write : Write) (ts mode : String) (c : SyncCounters)
    → summary x write ts mode c
      ≡ append_event x write ts "SYNC_SUMMARY"
          (json (("mode", string mode) ∷ ("counts", counts_json c) ∷ []))
unfolding summary
summary-eq x write ts mode c = refl

module _ (x : Externals) (write : Write) (ts event : String) (detail : Value) (log : AuditLog)
    (disk : Disk) where
  -- Only the record is dropped.
  pub append_event-eq : append_event x write ts event detail log disk ≡ (
    (append x write ts event detail log disk).0 >>= λ _. ok tt,
    (append x write ts event detail log disk).1,
    (append x write ts event detail log disk).2,
  )
  unfolding append_event
  append_event-eq = refl

  pub append_event-eq-ok :
      (append_event x write ts event detail log disk).0 ≡ ok tt
      → (rec : AuditRecord) × ((append x write ts event detail log disk).0 ≡ ok rec)
  unfolding append_event
  append_event-eq-ok e =
      let (rec, q, _) = >>=-eq-ok (append x write ts event detail log disk).0 (λ _. ok tt) e in
      (rec, q)

-- A failed append leaves the log's head alone, and the file too unless a write broke off.
pub append_fails :
    (x : Externals) (write : Write) (ts event : String) (detail : Value) (log : AuditLog)
    (disk : Disk) {e : AgentError}
    → (append x write ts event detail log disk).0 ≡ err e
    → ((append x write ts event detail log disk).1 ≡ log)
      × (((append x write ts event detail log disk).2 ≡ disk)
          ⊎ ((part : String) × (m : String) × (write ≡ write_fails part m)
              × ((append x write ts event detail log disk).2 ≡ some (cat (contents disk) part))))
unfolding append
append_fails x (open_fails m) ts event detail log disk r = ground arith
append_fails x (write_fails part m) ts event detail log disk r = ground arith
append_fails x succeeds ts event detail log disk r = ground arith
