-- ===== src/Audit/Broken.antt =====
-- src/audit.rs, `AuditLog::verify` on a chain that is broken: where it stops, and what it reports.
use Prim.Native.Nat.add
use nexusid_agent.Common.{
  ℕ, ◌+◌, ◌%◌, ◌^◌, ◌<◌, ◌≡◌, refl, sym, ◌∙◌, ap, subst, inl, inr, String, true, false, some, List,
  [], ◌∷◌, ◌++◌, length, arith, Bool-cases,
}
use nexusid_agent.Error.{Result, ok, ok_inj}
use nexusid_agent.Audit.{
  genesis, AuditRecord, VerifyReport, Externals, found, next, blank, decoded, decode_line,
  is_broken, verify_loop, verify,
}
use nexusid_agent.Audit.Chain.{
  parse, Line-cases, Follows, IsChain, is_broken-false, count_next, parse_decoded, head_after,
}

abbrev pub broken : ℕ → ℕ → VerifyReport
broken n seq = record { records = n; is_ok = false; broken_at = some seq }

module _ (x : Externals) where
  -- A line that decodes to a record which does not stand behind those in front of it.
  pub record Break (prev : String) (s seq : ℕ) (ls : List (Result String String)) : Type 0 where
    pub front : List (Result String String)
    pub line : Result String String
    pub back : List (Result String String)
    pub good : List AuditRecord
    pub culprit : AuditRecord
    pub split : ls ≡ front ++ line ∷ back
    pub parsed : parse x front ≡ ok good
    pub chained : IsChain x prev seq good
    pub decodes : decode_line x line ≡ decoded culprit
    pub misplaced :
        ¬ Follows x (head_after x s prev good).1 (next (head_after x s prev good).0) culprit

  is_broken-true :
      (prev : String) (seq : ℕ) (rec : AuditRecord)
      → ¬ Follows x prev seq rec
      → is_broken x prev seq rec ≡ true
  is_broken-true prev seq rec n = elim (Bool-cases (is_broken x prev seq rec)) [
    | inl t ↦ t
    | inr f ↦ absurd (n ((is_broken-false x prev seq rec).0 f))
  ]

  loop_detects :
      (front : List (Result String String)) (line : Result String String)
      (back : List (Result String String)) (good : List AuditRecord) (culprit : AuditRecord)
      (prev : String) (s seq count : ℕ)
      → seq ≡ next s
      → parse x front ≡ ok good
      → IsChain x prev seq good
      → decode_line x line ≡ decoded culprit
      → ¬ Follows x (head_after x s prev good).1 (next (head_after x s prev good).0) culprit
      → count < 2 ^ 64
      → verify_loop x prev seq count (front ++ line ∷ back)
        ≡ ok (broken ((count + length good) % 2 ^ 64) culprit.seq)
  unfolding verify_loop parse
  loop_detects [] line back [] culprit prev s seq count i p c d n h =
      rw (d, verify_loop, is_broken-true prev seq culprit (rw i n)) (ground arith)
  loop_detects [] line back (r ∷ good) culprit prev s seq count i p c d n h = cc
  loop_detects (l ∷ front) line back good culprit prev s seq count i p c d n h =
      elim (Line-cases x (decode_line x l)) [
        | inl e ↦
            rw (e, verify_loop)
              (loop_detects front line back good culprit prev s seq count i (rw (e, parse) at p) c d
                n h)
        | inr (inl (m, e)) ↦ cc (rw (e, parse) at p)
        | inr (inr (rec, e)) ↦
            let (rest, q, r) = parse_decoded x l front e p in
            let c' = (rw r at c) in
            let n' = (rw r at n) in
            rw (e, r, verify_loop, (is_broken-false x prev seq rec).1 c'.0)
              (rw (← count_next x count (length rest)) (
                loop_detects front line back rest culprit rec.hash rec.seq (next seq) (next count)
                  (ap next (sym c'.0.0)) q c'.1 d n' (omega arith)))
      ]

  module _ {prev : String} {s seq : ℕ} (l : Result String String)
      (ls : List (Result String String)) where
    Break-skip : decode_line x l ≡ blank → Break prev s seq ls → Break prev s seq (l ∷ ls)
    unfolding parse
    Break-skip e b = record {
      front = l ∷ b.front;
      line = b.line;
      back = b.back;
      good = b.good;
      culprit = b.culprit;
      split = ap (λ t. l ∷ t) b.split;
      parsed = rw (e, parse) b.parsed;
      chained = b.chained;
      decodes = b.decodes;
      misplaced = b.misplaced;
    }

    module _ (rec : AuditRecord) (e : decode_line x l ≡ decoded rec) where
      Break-here : is_broken x prev (next s) rec ≡ true → Break prev s seq (l ∷ ls)
      unfolding parse
      Break-here t = record {
        front = [];
        line = l;
        back = ls;
        good = [];
        culprit = rec;
        split = refl;
        parsed = refl;
        chained = tt;
        decodes = e;
        misplaced = λ f. cc (t, (is_broken-false x prev (next s) rec).1 f);
      }

      Break-next :
          Follows x prev seq rec → Break rec.hash rec.seq (next seq) ls → Break prev s seq (l ∷ ls)
      unfolding parse
      Break-next f b = record {
        front = l ∷ b.front;
        line = b.line;
        back = b.back;
        good = rec ∷ b.good;
        culprit = b.culprit;
        split = ap (λ t. l ∷ t) b.split;
        parsed = rw (e, parse, b.parsed) refl;
        chained = (f, b.chained);
        decodes = b.decodes;
        misplaced = b.misplaced;
      }

  loop_blames :
      (ls : List (Result String String)) (prev : String) (s seq count : ℕ) {rep : VerifyReport}
      → seq ≡ next s
      → count < 2 ^ 64
      → verify_loop x prev seq count ls ≡ ok rep
      → rep.is_ok ≡ false
      → (b : Break prev s seq ls) × (rep ≡ broken ((count + length b.good) % 2 ^ 64) b.culprit.seq)
  unfolding verify_loop parse Break-skip Break-here Break-next
  loop_blames [] prev s seq count i h v t = absurd (ground arith)
  loop_blames (l ∷ ls) prev s seq count i h v t = elim (Line-cases x (decode_line x l)) [
    | inl e ↦
        let (b, r) = loop_blames ls prev s seq count i h (rw (e, verify_loop) at v) t in
        (Break-skip l ls e b, r)
    | inr (inl (m, e)) ↦ cc (rw (e, verify_loop) at v)
    | inr (inr (rec, e)) ↦ elim (Bool-cases (is_broken x prev seq rec)) [
      | inl t' ↦ (
        Break-here l ls rec e (subst (λ k. is_broken x prev k rec ≡ true) i t'),
        sym (ok_inj (rw (t', verify_loop) at rw (e, verify_loop) at v)) ∙ ground arith,
      )
      | inr f ↦
          let (b, r) =
            loop_blames ls rec.hash rec.seq (next seq) (next count)
              (ap next (sym ((is_broken-false x prev seq rec).0 f).0)) (omega arith)
              (rw (f, verify_loop) at rw (e, verify_loop) at v) t in
          (
            Break-next l ls rec e ((is_broken-false x prev seq rec).0 f) b,
            r ∙ rw (count_next x count (length b.good)) refl,
          )
    ]
  ]

  -- `verify` detects a record that does not stand behind the intact chain in front of it, whatever
  -- comes behind it: it reports the number of records in front and the culprit's own number.
  pub verify_detects :
      (ls : List (Result String String)) (b : Break genesis 0 1 ls)
      → verify x (found ls) ≡ ok (broken (length b.good % 2 ^ 64) b.culprit.seq)
  unfolding verify
  verify_detects ls b = rw b.split (
      loop_detects b.front b.line b.back b.good b.culprit genesis 0 1 0 refl b.parsed b.chained
        b.decodes b.misplaced (omega arith)
      ∙ rw (add.zero (length b.good)) refl)

  -- A report of a broken chain is always of such a record: the first that does not follow.
  pub verify_blames :
      (ls : List (Result String String)) {rep : VerifyReport}
      → verify x (found ls) ≡ ok rep
      → rep.is_ok ≡ false
      → (b : Break genesis 0 1 ls) × (rep ≡ broken (length b.good % 2 ^ 64) b.culprit.seq)
  unfolding verify
  verify_blames ls v t =
      let (b, r) = loop_blames ls genesis 0 1 0 refl (omega arith) v t in
      (b, r ∙ rw (add.zero (length b.good)) refl)
