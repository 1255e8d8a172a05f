-- ===== src/Audit.antt =====
-- src/audit.rs: the hash-chained event log. `Audit` holds the records, the counters and the
-- operations of `AuditLog`; the children hold what is proved of them.
--
-- The file is its text. serde_json's printing and parsing, and SHA-256 with its hexadecimal form, are
-- the fields of `Externals`; the clock's reading and the outcome of a write are arguments.
pub mod Chain
pub mod Reading
pub mod Append
pub mod History
pub mod Tamper
pub mod Broken
pub mod Counters
pub mod Evolution
mod Tests
use nexusid_agent.Common.{
  ℕ, ◌+◌, ◌%◌, ◌^◌, String, Bool, true, false, not, ◌||◌, Option, none, some, List, [], ◌∷◌, map,
  ◌==◌, str_eq, cat, concat, is_empty, trim, lines, show, if◌then◌else◌,
}
use nexusid_agent.Error.{Result, ok, err, AgentError, audit, io, ◌>>=◌}
use nexusid_agent.Json.{Value, string, number, json}

abbrev pub genesis : String
genesis = "0000000000000000000000000000000000000000000000000000000000000000"

pub record AuditRecord : Type 0 where
  pub seq : ℕ
  pub ts : String
  pub event : String
  pub detail : Value
  pub prev_hash : String
  pub hash : String

-- The counters are `u64`.
pub record SyncCounters : Type 0 where
  pub inspected : ℕ
  pub created : ℕ
  pub updated : ℕ
  pub disabled : ℕ
  pub failed : ℕ

abbrev pub zero_counters : SyncCounters
zero_counters = record { inspected = 0; created = 0; updated = 0; disabled = 0; failed = 0 }

-- `n + 1` on `u64`, as a release build computes it.
abbrev pub next : ℕ → ℕ
next n = (n + 1) % 2 ^ 64

pub record_ok : String → SyncCounters → SyncCounters
record_ok op c =
    let c' : SyncCounters = record c { inspected = next c.inspected } in
    if str_eq op "CREATE_ACCOUNT"
    then record c' { created = next c.created }
    else if str_eq op "UPDATE_ATTRIBUTES" || str_eq op "ENABLE_ACCOUNT"
    then record c' { updated = next c.updated }
    else if str_eq op "DISABLE_ACCOUNT"
    then record c' { disabled = next c.disabled }
    else c'

unfoldable pub record_failure : SyncCounters → SyncCounters
record_failure c = record c { inspected = next c.inspected; failed = next c.failed }

pub record AuditLog : Type 0 where
  pub path : String
  pub last_seq : ℕ
  pub last_hash : String

pub record VerifyReport : Type 0 where
  pub records : ℕ
  pub is_ok : Bool
  pub broken_at : Option ℕ

-- What the log uses of its libraries: `Value::to_string`, `serde_json::to_string` and `from_str` at
-- records, and the SHA-256 of a text in hexadecimal.
pub record Externals : Type 0 where
  pub render : Value → String
  pub encode : AuditRecord → Result String String
  pub decode : String → Result String AuditRecord
  pub sha256_hex : String → String

-- `File::open` and the items of `lines()`: each is a line or the error of the read.
pub data FileRead : Type 0 where
  found : List (Result String String) → FileRead
  not_found : FileRead
  failed : String → FileRead

-- What a write does: opening can fail, and a failing `writeln!` may leave a part of the line.
pub data Write : Type 0 where
  open_fails : String → Write
  write_fails : (part : String) (e : String) → Write
  succeeds : Write

-- The file, if there is one.
abbrev pub Disk : Type 0
Disk = Option String

abbrev pub contents : Disk → String
contents none = ""
contents (some s) = s

-- A readable file.
unfoldable pub read : Disk → FileRead
read none = not_found
read (some s) = found (map ok (lines s))

-- the derived `Serialize` of the counters
pub counts_json : SyncCounters → Value
counts_json c = json (
    ("inspected", number c.inspected)
    ∷ ("created", number c.created)
    ∷ ("updated", number c.updated)
    ∷ ("disabled", number c.disabled)
    ∷ ("failed", number c.failed)
    ∷ [])

pub data Line : Type 0 where
  blank : Line
  bad : AgentError → Line
  decoded : AuditRecord → Line

corrupt : String → AgentError
corrupt e = audit (concat ("corrupt audit line: " ∷ e ∷ []))

module _ (x : Externals) where
  -- The text that is hashed: the fields with a line feed behind each but the last.
  pub preimage : ℕ → String → String → Value → String → String
  preimage seq ts event detail prev = cat (show seq) (
      String.◌∷◌ "\n" (
        cat ts (
          String.◌∷◌ "\n"
            (cat event (String.◌∷◌ "\n" (cat (x.render detail) (String.◌∷◌ "\n" prev)))))))

  pub compute_hash : ℕ → String → String → Value → String → String
  unfolding preimage
  compute_hash seq ts event detail prev = x.sha256_hex (preimage seq ts event detail prev)

  -- The head of both loops: `line?`, the test for a blank line, and the decoding.
  pub decode_line : Result String String → Line
  unfolding corrupt
  decode_line (err e) = bad (io e)
  decode_line (ok line) =
      if is_empty (trim line)
      then blank
      else elim (x.decode line) [ err e ↦ bad (corrupt e) | ok rec ↦ decoded rec ]

  -- the loop of `open`
  open_loop : ℕ → String → List (Result String String) → Result AgentError (ℕ × String)
  unfolding decode_line
  open_loop seq hash [] = ok (seq, hash)
  open_loop seq hash (l ∷ ls) = elim (decode_line l) [
    | blank ↦ open_loop seq hash ls
    | bad e ↦ err e
    | decoded rec ↦ open_loop rec.seq rec.hash ls
  ]

  head_of : FileRead → Result AgentError (ℕ × String)
  unfolding open_loop
  head_of (found ls) = open_loop 0 genesis ls
  head_of not_found = ok (0, genesis)
  head_of (failed e) = err (io e)

  unfoldable pub open_log : String → FileRead → Result AgentError AuditLog
  unfolding head_of
  open_log path file = do
    (seq, hash) ← head_of file
    ok (record { path = path; last_seq = seq; last_hash = hash })

  -- The record that `append` builds: it follows the log's head.
  pub new_record : AuditLog → String → String → Value → AuditRecord
  unfolding compute_hash
  new_record log ts event detail =
      let seq = next log.last_seq in
      record {
        seq = seq;
        ts = ts;
        event = event;
        detail = detail;
        prev_hash = log.last_hash;
        hash = compute_hash seq ts event detail log.last_hash;
      }

  -- The log in memory moves only if the whole line was written.
  store :
      AuditRecord
      → Write
      → String
      → AuditLog
      → Disk
      → Result AgentError AuditRecord × AuditLog × Disk
  store rec (open_fails e) line log disk = (err (io e), log, disk)
  store rec (write_fails part e) line log disk = (err (io e), log, some (cat (contents disk) part))
  store rec succeeds line log disk = (
    ok rec,
    record log { last_seq = rec.seq; last_hash = rec.hash },
    some (cat (contents disk) (cat line "\n")),
  )

  unfoldable pub append :
      Write
      → String
      → String
      → Value
      → AuditLog
      → Disk
      → Result AgentError AuditRecord × AuditLog × Disk
  unfolding new_record store
  append write ts event detail log disk =
      let rec = new_record log ts event detail in
      elim (x.encode rec) [
        | err e ↦ (err (audit (concat ("serialize: " ∷ e ∷ []))), log, disk)
        | ok line ↦ store rec write line log disk
      ]

  -- `self.append(…)?; Ok(())`
  unfoldable pub append_event :
      Write
      → String
      → String
      → Value
      → AuditLog
      → Disk
      → Result AgentError (Unit {0}) × AuditLog × Disk
  unfolding append
  append_event write ts event detail log disk =
      let (r, log', disk') = append write ts event detail log disk in
      ((r >>= λ _. ok tt), log', disk')

  unfoldable pub run_start :
      Write → String → String → AuditLog → Disk → Result AgentError (Unit {0}) × AuditLog × Disk
  unfolding append_event
  run_start write ts mode = append_event write ts "RUN_START" (json (("mode", string mode) ∷ []))

  pub summary :
      Write
      → String
      → String
      → SyncCounters
      → AuditLog
      → Disk
      → Result AgentError (Unit {0}) × AuditLog × Disk
  unfolding append_event
  summary write ts mode counters =
      append_event write ts "SYNC_SUMMARY"
        (json (("mode", string mode) ∷ ("counts", counts_json counters) ∷ []))

  -- the test of `verify` at a record
  pub is_broken : String → ℕ → AuditRecord → Bool
  unfolding compute_hash
  is_broken prev expected rec =
      not (rec.seq == expected)
      || not (str_eq rec.prev_hash prev)
      || not (str_eq rec.hash (compute_hash rec.seq rec.ts rec.event rec.detail prev))

  -- the loop of `verify`
  verify_loop : String → ℕ → ℕ → List (Result String String) → Result AgentError VerifyReport
  unfolding decode_line is_broken
  verify_loop prev expected count [] =
      ok (record { records = count; is_ok = true; broken_at = none })
  verify_loop prev expected count (l ∷ ls) = elim (decode_line l) [
    | blank ↦ verify_loop prev expected count ls
    | bad e ↦ err e
    | decoded rec ↦ elim (is_broken prev expected rec) [
      | true ↦ ok (record { records = count; is_ok = false; broken_at = some rec.seq })
      | false ↦ verify_loop rec.hash (next expected) (next count) ls
    ]
  ]

  pub verify : FileRead → Result AgentError VerifyReport
  unfolding verify_loop
  verify (found ls) = verify_loop genesis 1 0 ls
  verify not_found = ok (record { records = 0; is_ok = true; broken_at = none })
  verify (failed e) = err (io e)
