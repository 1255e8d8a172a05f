-- ===== src/Audit/Reading.antt =====
-- src/audit.rs, `AuditLog::verify` and `AuditLog::open`: the two loops against a relation that says which
-- records the lines of a file hold.
use nexusid_agent.Common.{
  ◌≡◌, refl, sym, ◌∙◌, ◌↔◌, inl, inr, String, true, false, List, [], ◌∷◌, Bool-cases, is_empty,
  trim,
}
use nexusid_agent.Error.{Result, ok, err, Result-cases, >>=-eq-ok, ok_inj}
use nexusid_agent.Audit.{
  genesis, AuditRecord, Externals, FileRead, found, not_found, failed, decode_line, VerifyReport,
  verify, AuditLog, open_log,
}
use nexusid_agent.Audit.Chain.{
  parse, records_of, IsChain, verify-parsed, head_after, log_at, open_log-eq,
}

module _ (x : Externals) where
  -- Every line can be read; it is blank, or the decoder gives its record.
  pub data Reads : List (Result String String) → List AuditRecord → Type 0 where
    none_left : Reads [] []
    skipped :
        {line : String} {ls : List (Result String String)} {recs : List AuditRecord}
        → is_empty (trim line) ≡ true
        → Reads ls recs
        → Reads (ok line ∷ ls) recs
    taken :
        {line : String} {ls : List (Result String String)} {rec : AuditRecord}
        {recs : List AuditRecord}
        → is_empty (trim line) ≡ false
        → x.decode line ≡ ok rec
        → Reads ls recs
        → Reads (ok line ∷ ls) (rec ∷ recs)

  -- A file that is missing holds no record; one that cannot be opened is not read.
  abbrev pub Holds : FileRead → List AuditRecord → Type 0
  Holds (found ls) recs = Reads ls recs
  Holds not_found recs = recs ≡ []
  Holds (failed e) recs = ⊥

  parse-Reads :
      {ls : List (Result String String)} {recs : List AuditRecord}
      → Reads ls recs
      → parse x ls ≡ ok recs
  unfolding parse decode_line
  parse-Reads none_left = refl
  parse-Reads (skipped b r) = rw (parse, decode_line, b) (parse-Reads r)
  parse-Reads (taken b d r) = rw (parse, decode_line, b, d, parse-Reads r) refl

  Reads-parse :
      (ls : List (Result String String)) (recs : List AuditRecord)
      → parse x ls ≡ ok recs
      → Reads ls recs
  unfolding parse decode_line
  Reads-parse [] [] p = none_left
  Reads-parse [] (r ∷ recs) p = cc p
  Reads-parse (err e ∷ ls) recs p = cc p
  Reads-parse (ok line ∷ ls) recs p = elim (Bool-cases (is_empty (trim line))) [
    | inl b ↦ skipped b (Reads-parse ls recs (rw (parse, decode_line, b) at p))
    | inr b ↦ elim (Result-cases (x.decode line)) [
      | inl (e, d) ↦ cc (rw (parse, decode_line, b, d) at p)
      | inr (rec, d) ↦
          let (rest, q, r) =
            >>=-eq-ok (parse x ls) (λ recs. ok (rec ∷ recs)) (rw (parse, decode_line, b, d) at p) in
          rw (← ok_inj r) (taken b d (Reads-parse ls rest q))
    ]
  ]

  Holds-iff :
      (file : FileRead) (recs : List AuditRecord) → (records_of x file ≡ ok recs) ↔ Holds file recs
  unfolding records_of
  Holds-iff (found ls) recs = (Reads-parse ls recs, parse-Reads)
  Holds-iff not_found recs = (λ p. sym (ok_inj p), λ h. rw h refl)
  Holds-iff (failed e) recs = (λ p. cc p, λ h. absurd h)

  -- `verify` reports a file intact exactly when it is missing, or all its lines can be read, each that is
  -- not blank decodes, and their records form a chain from the genesis hash and the sequence number 1.
  pub verify-IsChain :
      (file : FileRead)
      → ((rep : VerifyReport) × (verify x file ≡ ok rep) × (rep.is_ok ≡ true))
        ↔ ((recs : List AuditRecord) × Holds file recs × IsChain x genesis 1 recs)
  verify-IsChain file =
      let same = verify-parsed x file in
      (
        λ v. let (recs, p, c) = same.0 v in (recs, (Holds-iff file recs).0 p, c),
        λ (recs, h, c). same.1 (recs, (Holds-iff file recs).1 h, c),
      )

  -- `open` returns a log exactly when the file is missing, or all its lines can be read and each that is
  -- not blank decodes; the log then has the number and the hash of the last record, or 0 and the
  -- genesis hash where there is none.
  pub open_log_iff :
      (path : String) (file : FileRead) (log : AuditLog)
      → (open_log x path file ≡ ok log) ↔ (
          (recs : List AuditRecord) × Holds file recs
          × (log ≡ log_at x path (head_after x 0 genesis recs)))
  open_log_iff path file log = (
    λ o.
        let (recs, p, l) =
          >>=-eq-ok (records_of x file) (λ recs. ok (log_at x path (head_after x 0 genesis recs)))
            (sym (open_log-eq x path file) ∙ o) in
        (recs, (Holds-iff file recs).0 p, ok_inj (sym l)),
    λ (recs, h, l). open_log-eq x path file ∙ rw ((Holds-iff file recs).1 h, l) refl,
  )
