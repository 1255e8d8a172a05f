-- ===== src/Audit/Tests.antt =====
-- Runs of the audit log on a small instance of its libraries.
use Prim.Native.String.{count}
use nexusid_agent.Common.{
  segments, ◌↔◌, Option, ◌≤◌, ◌%◌, ◌^◌, ◌≡◌, refl, inl, inr, ◌⊎◌, String, Bool, true, false, ◌&&◌,
  none, some, List, [], ◌∷◌, length, ◌==◌, str_eq, eq_iff, show, arith, cat, Bool-cases,
  if◌then◌else◌, lines, trim,
}
use nexusid_agent.Error.{Result, ok, err, AgentError, io}
use nexusid_agent.Json.{Value, null}
use nexusid_agent.Audit.{
  zero_counters, genesis, AuditRecord, AuditLog, Externals, found, open_fails, write_fails,
  succeeds, Disk, read, append, open_log, verify, decode_line, compute_hash,
}
use nexusid_agent.Audit.Chain.{parse, records_of, IsChain, intact, log_at, head_after}
use nexusid_agent.Audit.Reading.{Reads, verify-IsChain, open_log_iff}
use nexusid_agent.Audit.Append.{Laws, IsIntact, append-IsIntact, append_fails}
use nexusid_agent.Audit.History.{History, created, appended, refused, restarted, History-verify}
use nexusid_agent.Audit.Tamper.{Collision, SameRecords, tamper_evident}
use nexusid_agent.Audit.Broken.{broken, Break, verify_detects, verify_blames}
use nexusid_agent.Audit.Counters.{tally, classified, pass-counts}

abbrev first : AuditRecord
first = record {
  seq = 1;
  ts = "t1";
  event = "RUN_START";
  detail = null;
  prev_hash = genesis;
  hash = "84";
}

abbrev second : AuditRecord
second = record {
  seq = 2;
  ts = "t2";
  event = "SYNC_SUMMARY";
  detail = null;
  prev_hash = "84";
  hash = "25";
}

abbrev is_null : Value → Bool
is_null null = true
is_null _ = false

abbrev is_same : AuditRecord → AuditRecord → Bool
is_same q r =
    r.seq == q.seq
    && str_eq r.ts q.ts
    && str_eq r.event q.event
    && is_null r.detail
    && str_eq r.prev_hash q.prev_hash
    && str_eq r.hash q.hash

-- A hash that counts characters, and records of which two can be printed.
abbrev small : Externals
small = record {
  render = λ v. "null";
  encode = λ r.
      if is_same first r
      then ok "{1}"
      else if is_same second r
      then ok "{2}"
      else err "unsupported";
  decode = λ l.
      if str_eq l "{1}" then ok first else if str_eq l "{2}" then ok second else err "not a record";
  sha256_hex = λ s. show (count s);
}

is_null-eq : (v : Value) → is_null v ≡ true → v ≡ null
is_null-eq v h = ground arith

is_same-first : (r : AuditRecord) → is_same first r ≡ true → r ≡ first
is_same-first r h = ground (
  arith,
  eq_iff r.ts "t1",
  eq_iff r.event "RUN_START",
  eq_iff r.prev_hash genesis,
  eq_iff r.hash "84",
  is_null-eq r.detail,
)

is_same-second : (r : AuditRecord) → is_same second r ≡ true → r ≡ second
is_same-second r h = ground (
  arith,
  eq_iff r.ts "t2",
  eq_iff r.event "SYNC_SUMMARY",
  eq_iff r.prev_hash "84",
  eq_iff r.hash "25",
  is_null-eq r.detail,
)

printed :
    (r : AuditRecord) (l : String)
    → small.encode r ≡ ok l
    → ((r ≡ first) × (l ≡ "{1}")) ⊎ ((r ≡ second) × (l ≡ "{2}"))
printed r l e = elim (Bool-cases (is_same first r)) [
  | inl t ↦ inl (is_same-first r t, cc (rw t at e))
  | inr f ↦ elim (Bool-cases (is_same second r)) [
    | inl t ↦ inr (is_same-second r t, cc (rw (f, t) at e))
    | inr g ↦ cc (rw (f, g) at e)
  ]
]

small-Laws : Laws small
small-Laws = record {
  framed = λ r l e. elim (printed r l e) [ inl (_, q) ↦ ("1", q) | inr (_, q) ↦ ("2", q) ];
  one_line = λ r l e. elim (printed r l e) [ inl (_, q) ↦ rw q refl | inr (_, q) ↦ rw q refl ];
  round_trip =
      λ r l e. elim (printed r l e) [ inl (p, q) ↦ rw (p, q) refl | inr (p, q) ↦ rw (p, q) refl ];
}

abbrev log₀ : AuditLog
log₀ = record { path = "audit.jsonl"; last_seq = 0; last_hash = genesis }

abbrev log₁ : AuditLog
log₁ = record { path = "audit.jsonl"; last_seq = 1; last_hash = "84" }

abbrev log₂ : AuditLog
log₂ = record { path = "audit.jsonl"; last_seq = 2; last_hash = "25" }

append-first :
    append small succeeds "t1" "RUN_START" null log₀ none ≡ (ok first, log₁, some "{1}\n")
unfolding append show
append-first = refl

append-second :
    append small succeeds "t2" "SYNC_SUMMARY" null log₁ (some "{1}\n")
    ≡ (ok second, log₂, some "{1}\n{2}\n")
unfolding append show
append-second = refl

append-unopened :
    append small (open_fails "denied") "t2" "SYNC_SUMMARY" null log₁ (some "{1}\n")
    ≡ (err (io "denied"), log₁, some "{1}\n")
unfolding append show
append-unopened = refl

-- Opened on no file, appended to, refused a write, restarted, and appended to again.
two_runs : History small (first ∷ second ∷ []) log₂ (some "{1}\n{2}\n")
unfolding open_log read lines trim
two_runs =
    appended succeeds "t2" "SYNC_SUMMARY" null second
      (restarted "audit.jsonl"
        (refused (open_fails "denied") "t2" "SYNC_SUMMARY" null (io "denied")
          (appended succeeds "t1" "RUN_START" null first (created "audit.jsonl" refl refl)
            append-first refl)
          append-unopened (λ part m. λ h. cc h))
        refl)
      append-second refl

History-verify_example : verify small (read (some "{1}\n{2}\n")) ≡ ok (intact small 2)
History-verify_example = History-verify small small-Laws two_runs

first-IsIntact : IsIntact small (first ∷ []) log₁ (some "{1}\n")
unfolding records_of read lines trim segments show compute_hash
first-IsIntact = record {
  parsed = refl;
  chained = ((refl, refl, refl), tt);
  at_head = refl;
  terminated = refl;
}

append-IsIntact_example :
    (second ≡ second) × IsIntact small (first ∷ second ∷ []) log₂ (some "{1}\n{2}\n")
unfolding append show
append-IsIntact_example =
    append-IsIntact small small-Laws succeeds "t2" "SYNC_SUMMARY" null (first ∷ []) log₁
      (some "{1}\n") {rec = second} refl first-IsIntact

abbrev torn : Result AgentError AuditRecord × AuditLog × Disk
torn = append small (write_fails "{2" "full") "t2" "SYNC_SUMMARY" null log₁ (some "{1}\n")

append_fails_example :
    (torn.1 ≡ log₁)
    × ((torn.2 ≡ some "{1}\n")
        ⊎ ((part : String) × (m : String) × (write_fails "{2" "full" ≡ write_fails part m)
            × (torn.2 ≡ some (cat "{1}\n" part))))
unfolding append show
append_fails_example =
    append_fails small (write_fails "{2" "full") "t2" "SYNC_SUMMARY" null log₁ (some "{1}\n")
      {e = io "full"} refl

abbrev kept : List (Result String String)
kept = ok "{1}" ∷ ok "{2}" ∷ []

abbrev padded : List (Result String String)
padded = ok "{1}" ∷ ok "  " ∷ ok "{2}" ∷ []

verify-IsChain_example :
    ((rep : _) × (verify small (found padded) ≡ ok rep) × (rep.is_ok ≡ true))
    ↔ ((recs : List AuditRecord) × Reads small padded recs × IsChain small genesis 1 recs)
verify-IsChain_example = verify-IsChain small (found padded)

open_log_iff_example : (open_log small "audit.jsonl" (found padded) ≡ ok log₂) ↔ (
    (recs : List AuditRecord) × Reads small padded recs
    × (log₂ ≡ log_at small "audit.jsonl" (head_after small 0 genesis recs)))
open_log_iff_example = open_log_iff small "audit.jsonl" (found padded) log₂

tamper_evident_example :
    SameRecords small (first ∷ second ∷ []) (first ∷ second ∷ []) ⊎ Collision small
unfolding records_of verify open_log trim show
tamper_evident_example =
    tamper_evident small "audit.jsonl" (found kept) (found padded) {log = log₂}
      {rep = intact small 2} {rep' = intact small 2} refl refl (omega arith) (omega arith)
      (
        record { ts = refl; event = refl; detail = refl; prev_hash = refl },
        (record { ts = refl; event = refl; detail = refl; prev_hash = refl }, tt),
      )
      refl refl refl refl refl refl

-- The first record was deleted.
abbrev beheaded : List (Result String String)
beheaded = ok "" ∷ ok "{2}" ∷ []

beheaded-Break : Break small genesis 0 1 beheaded
unfolding parse decode_line trim
beheaded-Break = record {
  front = ok "" ∷ [];
  line = ok "{2}";
  back = [];
  good = [];
  culprit = second;
  split = refl;
  parsed = refl;
  chained = tt;
  decodes = refl;
  misplaced = λ f. absurd (omega (arith, f.0));
}

verify_detects_example : verify small (found beheaded) ≡ ok (broken 0 2)
unfolding beheaded-Break
verify_detects_example = verify_detects small beheaded beheaded-Break

verify_blames_example :
    (b : Break small genesis 0 1 beheaded) × (broken 0 2
      ≡ broken (length b.good % 2 ^ 64) b.culprit.seq)
unfolding verify trim show
verify_blames_example = verify_blames small beheaded {rep = broken 0 2} refl refl

abbrev outcomes : List (Option String)
outcomes = some "CREATE_ACCOUNT" ∷ none ∷ some "ENABLE_ACCOUNT" ∷ some "RESYNC" ∷ []

pass-counts_example :
    ((tally outcomes zero_counters).inspected ≡ 4)
    × ((tally outcomes zero_counters).failed ≡ 1)
    × (classified (tally outcomes zero_counters) ≤ 4)
pass-counts_example = pass-counts outcomes (omega arith)
