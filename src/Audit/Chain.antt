-- ===== src/Audit/Chain.antt =====
-- src/audit.rs, `AuditLog::verify` and `AuditLog::open`: what an independent reading of the chain
-- says about the two loops.
use Prim.Native.Nat.add
use nexusid_agent.Common.{
  ℕ, suc, ◌+◌, ◌%◌, ◌^◌, ◌<◌, ◌≡◌, refl, sym, ◌∙◌, ◌↔◌, ◌⊎◌, inl, inr, String, true, false, none,
  List, [], ◌∷◌, length, arith, Bool-cases, eq_iff,
}
use nexusid_agent.Error.{Result, ok, err, AgentError, io, ◌>>=◌, >>=-eq-ok, >>=-assoc, ok_inj}
use nexusid_agent.Audit.{
  genesis, AuditRecord, Line, blank, bad, decoded, decode_line, is_broken, VerifyReport, Externals,
  FileRead, found, not_found, failed, next, compute_hash, verify_loop, verify, open_loop, head_of,
  AuditLog, open_log,
}

module _ (x : Externals) where
  -- Every line that is not blank, decoded.
  unfoldable pub parse : List (Result String String) → Result AgentError (List AuditRecord)
  unfolding decode_line
  parse [] = ok []
  parse (l ∷ ls) = elim (decode_line x l) [
    | blank ↦ parse ls
    | bad e ↦ err e
    | decoded rec ↦ parse ls >>= λ recs. ok (rec ∷ recs)
  ]

  -- The records of a file; a file that is missing has none.
  unfoldable pub records_of : FileRead → Result AgentError (List AuditRecord)
  unfolding parse
  records_of (found ls) = parse ls
  records_of not_found = ok []
  records_of (failed e) = err (io e)

  -- `rec` stands behind the hash `prev` at the place `seq`.
  abbrev pub Follows : String → ℕ → AuditRecord → Type 0
  Follows prev seq rec =
      (rec.seq ≡ seq)
      × (rec.prev_hash ≡ prev)
      × (rec.hash ≡ compute_hash x rec.seq rec.ts rec.event rec.detail prev)

  -- The chain, read off without a loop over lines.
  abbrev pub IsChain : String → ℕ → List AuditRecord → Type 0
  IsChain prev seq [] = Unit
  IsChain prev seq (rec ∷ recs) = Follows prev seq rec × IsChain rec.hash (next seq) recs

  abbrev pub intact : ℕ → VerifyReport
  intact n = record { records = n; is_ok = true; broken_at = none }

  pub is_broken-false :
      (prev : String) (seq : ℕ) (rec : AuditRecord)
      → (is_broken x prev seq rec ≡ false) ↔ Follows prev seq rec
  unfolding is_broken
  is_broken-false prev seq rec = ground (
    arith,
    eq_iff rec.prev_hash prev,
    eq_iff rec.hash (compute_hash x rec.seq rec.ts rec.event rec.detail prev),
  )

  pub Line-cases :
      (l : Line)
      → (l ≡ blank) ⊎ ((e : AgentError) × (l ≡ bad e)) ⊎ ((r : AuditRecord) × (l ≡ decoded r))
  Line-cases blank = inl refl
  Line-cases (bad e) = inr (inl (e, refl))
  Line-cases (decoded r) = inr (inr (r, refl))

  pub parse_decoded :
      (l : Result String String) (ls : List (Result String String)) {rec : AuditRecord}
      {recs : List AuditRecord}
      → decode_line x l ≡ decoded rec
      → parse (l ∷ ls) ≡ ok recs
      → (rest : List AuditRecord) × (parse ls ≡ ok rest) × (recs ≡ rec ∷ rest)
  unfolding parse
  parse_decoded l ls {rec} d p =
      let p' = (rw (d, parse) at p) in
      let (rest, q, r) = >>=-eq-ok (parse ls) (λ recs. ok (rec ∷ recs)) p' in
      (rest, q, ok_inj (sym r))

  pub count_next : (c n : ℕ) → (next c + n) % 2 ^ 64 ≡ (c + suc n) % 2 ^ 64
  count_next c n = omega arith

  -- A readable chain is reported intact, with its length.
  verify_loop_complete :
      (ls : List (Result String String)) (recs : List AuditRecord) (prev : String) (seq count : ℕ)
      → parse ls ≡ ok recs
      → IsChain prev seq recs
      → count < 2 ^ 64
      → verify_loop x prev seq count ls ≡ ok (intact ((count + length recs) % 2 ^ 64))
  unfolding verify_loop parse
  verify_loop_complete [] [] prev seq count p c h = ground arith
  verify_loop_complete [] (r ∷ recs) prev seq count p c h = cc
  verify_loop_complete (l ∷ ls) recs prev seq count p c h = elim (Line-cases (decode_line x l)) [
    | inl e ↦
        rw (e, verify_loop) (verify_loop_complete ls recs prev seq count (rw (e, parse) at p) c h)
    | inr (inl (a, e)) ↦ cc (rw (e, parse) at p)
    | inr (inr (rec, e)) ↦
        let (rest, q, r) = parse_decoded l ls e p in
        let c' = (rw r at c) in
        rw (e, r, verify_loop, (is_broken-false prev seq rec).1 c'.0)
          (rw (← count_next count (length rest))
            (verify_loop_complete ls rest rec.hash (next seq) (next count) q c'.1 (omega arith)))
  ]

  -- What is reported intact is a readable chain.
  verify_loop_sound :
      (ls : List (Result String String)) (prev : String) (seq count : ℕ) {rep : VerifyReport}
      → verify_loop x prev seq count ls ≡ ok rep
      → rep.is_ok ≡ true
      → (recs : List AuditRecord) × (parse ls ≡ ok recs) × IsChain prev seq recs
  unfolding verify_loop parse
  verify_loop_sound [] prev seq count v t = ([], refl, tt)
  verify_loop_sound (l ∷ ls) prev seq count v t = elim (Line-cases (decode_line x l)) [
    | inl e ↦
        let (recs, p, c) = verify_loop_sound ls prev seq count (rw (e, verify_loop) at v) t in
        (recs, rw (e, parse) p, c)
    | inr (inl (a, e)) ↦ cc (rw (e, verify_loop) at v)
    | inr (inr (rec, e)) ↦ elim (Bool-cases (is_broken x prev seq rec)) [
      | inl b ↦ absurd (ground arith)
      | inr b ↦
          let (recs, p, c) =
            verify_loop_sound ls rec.hash (next seq) (next count)
              (rw (b, verify_loop) at rw (e, verify_loop) at v) t in
          (rec ∷ recs, rw (e, parse, p) refl, ((is_broken-false prev seq rec).0 b, c))
    ]
  ]

  -- `verify` reports a file intact exactly when every line that is not blank decodes and the records
  -- form a chain from the genesis hash and the sequence number 1.
  pub verify-parsed :
      (file : FileRead)
      → ((rep : VerifyReport) × (verify x file ≡ ok rep) × (rep.is_ok ≡ true))
        ↔ ((recs : List AuditRecord) × (records_of file ≡ ok recs) × IsChain genesis 1 recs)
  unfolding verify records_of
  verify-parsed (found ls) = (
    λ (rep, v, t). verify_loop_sound ls genesis 1 0 v t,
    λ (recs, p, c). (_, verify_loop_complete ls recs genesis 1 0 p c (omega arith), refl),
  )
  verify-parsed not_found = (λ (rep, v, t). ([], refl, tt), λ (recs, p, c). (_, refl, refl))
  verify-parsed (failed e) = (λ (rep, v, t). cc, λ (recs, p, c). cc)

  pub verify-eq_intact :
      (file : FileRead) (recs : List AuditRecord)
      → records_of file ≡ ok recs
      → IsChain genesis 1 recs
      → verify x file ≡ ok (intact (length recs % 2 ^ 64))
  unfolding verify records_of
  verify-eq_intact (found ls) recs p c =
      verify_loop_complete ls recs genesis 1 0 p c (omega arith) ∙ rw (add.zero (length recs)) refl
  verify-eq_intact not_found recs p c = rw (← ok_inj p) refl
  verify-eq_intact (failed e) recs p c = cc

  -- The number and the hash of the last record, or what stands before the first.
  abbrev pub head_after : ℕ → String → List AuditRecord → ℕ × String
  head_after seq hash [] = (seq, hash)
  head_after seq hash (rec ∷ recs) = head_after rec.seq rec.hash recs

  open_loop-eq :
      (ls : List (Result String String)) (seq : ℕ) (hash : String)
      → open_loop x seq hash ls ≡ (parse ls >>= λ recs. ok (head_after seq hash recs))
  unfolding open_loop parse
  open_loop-eq [] seq hash = refl
  open_loop-eq (l ∷ ls) seq hash = elim (Line-cases (decode_line x l)) [
    | inl e ↦ rw (e, open_loop, parse) (open_loop-eq ls seq hash)
    | inr (inl (a, e)) ↦ rw (e, open_loop, parse) refl
    | inr (inr (rec, e)) ↦
        rw (e, open_loop, parse) (open_loop-eq ls rec.seq rec.hash ∙ sym (>>=-assoc (parse ls) _ _))
  ]

  head_of-eq :
      (file : FileRead)
      → head_of x file ≡ (records_of file >>= λ recs. ok (head_after 0 genesis recs))
  unfolding head_of records_of
  head_of-eq (found ls) = open_loop-eq ls 0 genesis
  head_of-eq not_found = refl
  head_of-eq (failed e) = refl

  abbrev pub log_at : String → ℕ × String → AuditLog
  log_at path (seq, hash) = record { path = path; last_seq = seq; last_hash = hash }

  -- `open` fails exactly where a line cannot be read or decoded, and otherwise recovers the number
  -- and the hash of the last record (0 and the genesis hash where there is none).
  pub open_log-eq :
      (path : String) (file : FileRead)
      → open_log x path file
        ≡ (records_of file >>= λ recs. ok (log_at path (head_after 0 genesis recs)))
  unfolding open_log
  open_log-eq path file = rw (head_of-eq file) (>>=-assoc (records_of file) _ _)
