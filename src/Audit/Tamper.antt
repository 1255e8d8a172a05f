-- ===== src/Audit/Tamper.antt =====
-- src/audit.rs: what the hash chain does and does not say of a file that somebody else has edited.
use text.Mathlib.TextLemmas.{append_cancel_left, cons-eq-cons}
use nexusid_agent.Common.{
  ℕ, ◌+◌, ◌^◌, ◌<◌, ◌≡◌, sym, ◌∙◌, ap, ◌≢◌, ◌⊎◌, inl, inr, String, true, List, [], ◌∷◌, length,
  arith, cat, show, All, str_eq, eq_iff, Bool-cases, subst,
}
use nexusid_agent.Common.Newlines.{nl_count, nl_count-cat, cut_at_newline}
use nexusid_agent.Error.{ok, ok_inj}
use nexusid_agent.Audit.{
  genesis, AuditRecord, AuditLog, Externals, FileRead, next, preimage, compute_hash, open_log,
  verify, VerifyReport,
}
use nexusid_agent.Audit.Chain.{records_of, IsChain, verify-parsed, head_after, open_log-eq}

module _ (x : Externals) where
  -- No field that is hashed in front of the last holds a line feed.
  pub record IsClean (r : AuditRecord) : Type 0 where
    pub ts : nl_count r.ts ≡ 0
    pub event : nl_count r.event ≡ 0
    pub detail : nl_count (x.render r.detail) ≡ 0
    pub prev_hash : nl_count r.prev_hash ≡ 0

  -- Two texts with one hash.
  abbrev pub Collision : Type 0
  Collision = (s t : String) × (s ≢ t) × (x.sha256_hex s ≡ x.sha256_hex t)

  -- The fields agree; the details do as they are printed.
  pub record SameRecord (r q : AuditRecord) : Type 0 where
    pub seq : r.seq ≡ q.seq
    pub ts : r.ts ≡ q.ts
    pub event : r.event ≡ q.event
    pub detail : x.render r.detail ≡ x.render q.detail
    pub prev_hash : r.prev_hash ≡ q.prev_hash
    pub hash : r.hash ≡ q.hash

  abbrev pub SameRecords : List AuditRecord → List AuditRecord → Type 0
  SameRecords [] [] = Unit
  SameRecords (r ∷ rs) (q ∷ qs) = SameRecord r q × SameRecords rs qs
  SameRecords [] (q ∷ qs) = ⊥
  SameRecords (r ∷ rs) [] = ⊥

  -- four parts that are joined by line feeds
  abbrev joined : String → String → String → String → String
  joined a b c d = cat a (String.◌∷◌ "\n" (cat b (String.◌∷◌ "\n" (cat c (String.◌∷◌ "\n" d)))))

  nl_count-joined :
      (a b c d : String)
      → nl_count (joined a b c d) ≡ nl_count a + nl_count b + nl_count c + nl_count d + 3
  nl_count-joined a b c d = omega (
    arith,
    nl_count-cat a (String.◌∷◌ "\n" (cat b (String.◌∷◌ "\n" (cat c (String.◌∷◌ "\n" d))))),
    nl_count-cat b (String.◌∷◌ "\n" (cat c (String.◌∷◌ "\n" d))),
    nl_count-cat c (String.◌∷◌ "\n" d),
  )

  joined_inj :
      (a b c d a' b' c' d' : String)
      → nl_count a ≡ 0
      → nl_count b ≡ 0
      → nl_count c ≡ 0
      → nl_count d ≡ 0
      → joined a b c d ≡ joined a' b' c' d'
      → (a ≡ a') × (b ≡ b') × (c ≡ c') × (d ≡ d')
  joined_inj a b c d a' b' c' d' ha hb hc hd e =
      let n : nl_count (joined a b c d) ≡ nl_count (joined a' b' c' d') = ap nl_count e in
      let m = nl_count-joined a b c d in
      let m' = nl_count-joined a' b' c' d' in
      let (ea, e₁) = cut_at_newline a a' _ _ ha (omega arith) e in
      let (eb, e₂) = cut_at_newline b b' _ _ hb (omega arith) e₁ in
      let (ec, ed) = cut_at_newline c c' _ _ hc (omega arith) e₂ in (ea, eb, ec, ed)

  -- Equal hashes come from equal fields, or are a collision.
  same_or_collision :
      (r q : AuditRecord) (p p' : String)
      → IsClean r
      → nl_count p ≡ 0
      → compute_hash x r.seq r.ts r.event r.detail p ≡ compute_hash x r.seq q.ts q.event q.detail p'
      → ((r.ts ≡ q.ts) × (r.event ≡ q.event) × (x.render r.detail ≡ x.render q.detail) × (p ≡ p'))
        ⊎ Collision
  unfolding compute_hash
  same_or_collision r q p p' c hp e =
      let s = preimage x r.seq r.ts r.event r.detail p in
      let t = preimage x r.seq q.ts q.event q.detail p' in
      elim (Bool-cases (str_eq s t)) [
        | inl same ↦ inl (
            joined_inj _ _ _ _ _ _ _ _ c.ts c.event c.detail hp
              (cons-eq-cons.0 (append_cancel_left (show r.seq) _ _ ((eq_iff s t).0 same))).1)
        | inr other ↦ inr (s, t, (λ h. cc (other, (eq_iff s t).1 h)), e)
      ]

  chains_agree :
      (rs qs : List AuditRecord) (seq s s' : ℕ) (p p' : String)
      → IsChain x p seq rs
      → IsChain x p' seq qs
      → All IsClean rs
      → length rs ≡ length qs
      → (head_after x s p rs).1 ≡ (head_after x s' p' qs).1
      → (SameRecords rs qs × (p ≡ p')) ⊎ Collision
  chains_agree [] [] seq s s' p p' c d k n h = inl (tt, h)
  chains_agree [] (q ∷ qs) seq s s' p p' c d k n h = absurd (omega arith)
  chains_agree (r ∷ rs) [] seq s s' p p' c d k n h = absurd (omega arith)
  chains_agree (r ∷ rs) (q ∷ qs) seq s s' p p' (c, cs) (d, ds) (k, ks) n h =
      elim (chains_agree rs qs (next seq) r.seq q.seq r.hash q.hash cs ds ks (omega arith) h) [
        | inr col ↦ inr col
        | inl (same, hashes) ↦
            elim (same_or_collision r q p p' k (subst (λ t. nl_count t ≡ 0) c.1 k.prev_hash) (
              sym c.2
              ∙ hashes
              ∙ d.2
              ∙ ap (λ n. compute_hash x n q.ts q.event q.detail p') (d.0 ∙ sym c.0))) [
                | inr col ↦ inr col
                | inl (ts, event, detail, prev) ↦ inl (
                  (
                    record {
                      seq = c.0 ∙ sym d.0;
                      ts = ts;
                      event = event;
                      detail = detail;
                      prev_hash = c.1 ∙ prev ∙ sym d.1;
                      hash = hashes;
                    },
                    same,
                  ),
                  prev,
                )
              ]
      ]

  -- In a chain, the last number is the length, below 2 ^ 64.
  head_after-length :
      (rs : List AuditRecord) (s : ℕ) (p : String)
      → IsChain x p (next s) rs
      → s + length rs < 2 ^ 64
      → (head_after x s p rs).0 ≡ s + length rs
  head_after-length [] s p c h = omega arith
  head_after-length (r ∷ rs) s p (f, c) h =
      let step : r.seq ≡ s + 1 = f.0 ∙ omega arith in
      omega (
        arith,
        head_after-length rs r.seq r.hash (subst (λ k. IsChain x r.hash (next k) rs) (sym f.0) c)
            (omega arith),
      )

  IsChain-of :
      (file : FileRead) (rs : List AuditRecord)
      → records_of x file ≡ ok rs
      → (rep : VerifyReport) × (verify x file ≡ ok rep) × (rep.is_ok ≡ true)
      → IsChain x genesis 1 rs
  IsChain-of file rs p v =
      let (recs, p', c) = (verify-parsed x file).0 v in
      subst (IsChain x genesis 1) (ok_inj (sym p' ∙ p)) c

  head_of_open :
      (path : String) (file : FileRead) (rs : List AuditRecord) {log : AuditLog}
      → records_of x file ≡ ok rs
      → open_log x path file ≡ ok log
      → ◌≡◌ {A = ℕ × String} (head_after x 0 genesis rs) (log.last_seq, log.last_hash)
  head_of_open path file rs p o =
      let e = (rw p at (sym (open_log-eq x path file) ∙ o)) in
      ap (λ (l : AuditLog). (l.last_seq, l.last_hash)) (ok_inj e)

  -- Who edits a log whose hashed fields hold no line feeds, so that it still verifies and `open` still
  -- recovers the same head, has changed no record, or has found two texts with one hash.
  pub tamper_evident :
      (path : String) (kept edited : FileRead) {log : AuditLog} {rep rep' : VerifyReport}
      {rs qs : List AuditRecord}
      → records_of x kept ≡ ok rs
      → records_of x edited ≡ ok qs
      → length rs < 2 ^ 64
      → length qs < 2 ^ 64
      → All IsClean rs
      → verify x kept ≡ ok rep
      → rep.is_ok ≡ true
      → verify x edited ≡ ok rep'
      → rep'.is_ok ≡ true
      → open_log x path kept ≡ ok log
      → open_log x path edited ≡ ok log
      → SameRecords rs qs ⊎ Collision
  tamper_evident path kept edited {log} {rs = rs} {qs = qs} pk pe lk le clean vk tk ve te ok_k
        ok_e =
      let c = IsChain-of kept rs pk (_, vk, tk) in
      let d = IsChain-of edited qs pe (_, ve, te) in
      let hk = head_of_open path kept rs pk ok_k in
      let he = head_of_open path edited qs pe ok_e in
      let nk = head_after-length rs 0 genesis c (omega arith) in
      let ne = head_after-length qs 0 genesis d (omega arith) in
      elim (chains_agree rs qs 1 0 0 genesis genesis c d clean
        (omega (arith, ap (λ t. t.0) hk, ap (λ t. t.0) he))
        (ap (λ t. t.1) hk ∙ sym (ap (λ t. t.1) he))) [
          | inl (same, _) ↦ inl same
          | inr col ↦ inr col
        ]
