-- ===== src/DbMode/Pass/Tests.antt =====
-- A pass that pushes one record and writes one change back.
use nexusid_agent.Common.{
  ℕ, ◌+◌, ◌≡◌, refl, ap, inl, inr, String, Bool, true, false, ◌&&◌, none, some, List, [], ◌∷◌, ◌==◌,
  str_eq, eq_iff, show, arith, length, ◌<◌, ◌^◌, subst, if◌then◌else◌, Bool-cases, strip_prefix,
}
use nexusid_agent.Error.{Result, ok, err, ok_inj}
use nexusid_agent.Json.{Value, number, string, object, entry, end}
use nexusid_agent.Crypto.Toy.{toy}
use nexusid_agent.Config.{Env, resolve}
use nexusid_agent.Audit.{
  genesis, AuditRecord, SyncCounters, Externals, Write, succeeds, append, append_event,
}
use nexusid_agent.Audit.Append.{Laws, IsIntact}
use nexusid_agent.Audit.History.{empty-IsIntact}
use nexusid_agent.Server.{Http, WritebackChange, push_record, pull_writeback}
use nexusid_agent.Db.{Row, Database, writable, by_canonical, connect, pull_records, apply_writeback}
use nexusid_agent.Db.Calls.{noted}
use nexusid_agent.Trace.{Emits}
use nexusid_agent.World.{on_resource, on_broker, with_log, log_event}
use nexusid_agent.DbMode.{DbMode, DbWorld, run_once}
use nexusid_agent.DbMode.Returns.{run_once-returns_db}
use nexusid_agent.DbMode.Writes.{queries_of, Allowed, run_once-Allowed_db}
use nexusid_agent.DbMode.Pass.{DbDone, run_once-DbDone}

abbrev is_summary : String → Value → Bool
is_summary key (object (entry a (number n) (entry b (string t) end))) =
    str_eq a key && n == 1 && str_eq b "table" && str_eq t "people"
is_summary key _ = false

abbrev listed : String → Value
listed key = object (entry key (number 1) (entry "table" (string "people") end))

is_summary-eq : (key : String) (v : Value) → is_summary key v ≡ true → v ≡ listed key
is_summary-eq key (object (entry a (number n) (entry b (string t) end))) h =
    ground (arith, eq_iff a key, eq_iff b "table", eq_iff t "people")
is_summary-eq key v h = ground arith

abbrev record_at : ℕ → (event key prev : String) → AuditRecord
record_at seq event key prev = record {
  seq = seq;
  ts = "t";
  event = event;
  detail = listed key;
  prev_hash = prev;
  hash = "h";
}

abbrev is_record : ℕ → (event key prev : String) → AuditRecord → Bool
is_record seq event key prev r =
    r.seq == seq
    && str_eq r.ts "t"
    && str_eq r.event event
    && is_summary key r.detail
    && str_eq r.prev_hash prev
    && str_eq r.hash "h"

is_record-eq :
    (seq : ℕ) (event key prev : String) (r : AuditRecord)
    → is_record seq event key prev r ≡ true
    → r ≡ record_at seq event key prev
is_record-eq seq event key prev r h = ground (
  arith,
  eq_iff r.ts "t",
  eq_iff r.event event,
  eq_iff r.prev_hash prev,
  eq_iff r.hash "h",
  is_summary-eq key r.detail,
)

abbrev is_pull : AuditRecord → Bool
is_pull = is_record 1 "DB_PULL" "rows" genesis

abbrev is_writeback : AuditRecord → Bool
is_writeback = is_record 2 "DB_WRITEBACK" "applied" "h"

abbrev pull_record : AuditRecord
pull_record = record_at 1 "DB_PULL" "rows" genesis

abbrev writeback_record : AuditRecord
writeback_record = record_at 2 "DB_WRITEBACK" "applied" "h"

abbrev small : Externals
small = record {
  render = λ v. "{}";
  encode =
      λ r. if is_pull r then ok "{1}" else if is_writeback r then ok "{2}" else err "unsupported";
  decode = λ l.
      if str_eq l "{1}"
      then ok pull_record
      else if str_eq l "{2}"
      then ok writeback_record
      else err "not a record";
  sha256_hex = λ s. "h";
}

data Printed (r : AuditRecord) (l : String) : Type 0 where
  first : r ≡ pull_record → l ≡ "{1}" → Printed r l
  second : r ≡ writeback_record → l ≡ "{2}" → Printed r l

printed : (r : AuditRecord) (l : String) → small.encode r ≡ ok l → Printed r l
printed r l e = elim (Bool-cases (is_pull r)) [
  | inl t ↦ first (is_record-eq 1 "DB_PULL" "rows" genesis r t) (cc (rw t at e))
  | inr f ↦ elim (Bool-cases (is_writeback r)) [
    | inl t ↦ second (is_record-eq 2 "DB_WRITEBACK" "applied" "h" r t) (cc (rw (f, t) at e))
    | inr g ↦ cc (rw (f, g) at e)
  ]
]

small-Laws : Laws small
small-Laws = record {
  framed = λ r l e. elim (printed r l e) [ first a b ↦ ("1", b) | second a b ↦ ("2", b) ];
  one_line = λ r l e. elim (printed r l e) [ first a b ↦ rw b refl | second a b ↦ rw b refl ];
  round_trip =
      λ r l e. elim (printed r l e) [ first a b ↦ rw (a, b) refl | second a b ↦ rw (a, b) refl ];
}

abbrev row : Row
row = record {
  columns = "mail" ∷ [];
  try_string = λ column. some (some "a@corp");
  try_i64 = λ column. none;
  try_f64 = λ column. none;
  try_bool = λ column. none;
}

-- One row, and the state counts the updates.
abbrev people : Database
people = record {
  State = ℕ;
  Pool = Unit {0};
  open_pool = λ url s. (ok tt, s);
  fetch_all = λ p sql s. (ok (row ∷ []), s);
  execute = λ p sql bound s. (ok 1, s + 1);
}

abbrev change : WritebackChange
change = record { key = "7"; fields = ("email", "b@corp") ∷ [] }

abbrev broker : Http
broker = record {
  State = ℕ;
  send = λ certs req n. (ok (record { status = 200; body = "" }), n + 1);
  status_text = show;
  config_of = λ s. err "none";
  operations_of = λ s. ok [];
  changes_of = λ s. ok (change ∷ []);
}

abbrev clock : ℕ → Write × String
clock n = (succeeds, "t")

abbrev env : Env
env name = none

abbrev mode : DbMode
mode = record {
  server = record {
    accept_invalid_certs = false;
    base_url = "https://idp";
    agent_token = "t";
    agent_id = "a";
  };
  section = record {
    url = "postgres://db";
    driver = "postgres";
    table = "people";
    key_column = "id";
    fields = ("mail", "email") ∷ [];
    push_path = "/push";
    push_secret = "s";
    writeback = true;
    writeback_pull_path = some "/changes";
  };
}

abbrev before : DbWorld people broker small clock
before = record {
  resource = 0;
  broker = 0;
  log = record { path = "audit.jsonl"; last_seq = 0; last_hash = genesis };
  disk = none;
  writes = 0;
}

abbrev after : DbWorld people broker small clock
after = record {
  resource = 1;
  broker = 2;
  log = record { path = "audit.jsonl"; last_seq = 2; last_hash = "h" };
  disk = some "{1}\n{2}\n";
  writes = 2;
}

abbrev counted : SyncCounters
counted = record { inspected = 2; created = 0; updated = 2; disabled = 0; failed = 0 }

before-IsIntact : IsIntact small [] before.log before.disk
before-IsIntact = empty-IsIntact small small-Laws

row-fits :
    (rows : List Row) (s t : ℕ)
    → ◌≡◌ {A = Result String (List Row) × ℕ} (ok (row ∷ []), s) (ok rows, t)
    → length rows < 2 ^ 63
row-fits rows s t q =
    subst (λ (rs : List Row). length rs < 2 ^ 63) (ok_inj (ap (λ r. r.0) q)) (omega arith)

change-fits :
    (changes : List WritebackChange)
    → ◌≡◌ {A = Result String (List WritebackChange)} (ok (change ∷ [])) (ok changes)
    → length changes < 2 ^ 63
change-fits changes q =
    subst (λ (cs : List WritebackChange). length cs < 2 ^ 63) (ok_inj q) (omega arith)

run_once-DbDone_example :
    DbDone people broker small small-Laws clock toy env mode counted [] before after
unfolding run_once resolve strip_prefix connect pull_records apply_writeback push_record
    pull_writeback log_event with_log append append_event show on_resource on_broker writable
    by_canonical
run_once-DbDone_example =
    run_once-DbDone people broker small small-Laws clock toy env mode
      (λ pool sql s rows t. row-fits rows s t) (λ body. change-fits) before after []
      {counters = counted} before-IsIntact refl

run_once-Allowed_db_example :
    Emits
      (queries_of people broker small clock)
      (Allowed broker toy env mode)
      (run_once (noted people) broker small clock toy env mode)
run_once-Allowed_db_example = run_once-Allowed_db people broker small clock toy env mode

abbrev printing : Externals
printing = record small { encode = λ r. ok "{}" }

abbrev start : DbWorld people broker printing clock
start = record {
  resource = 0;
  broker = 0;
  log = record { path = "audit.jsonl"; last_seq = 0; last_hash = genesis };
  disk = none;
  writes = 0;
}

answered :
    (path secret : String) (b : ℕ)
    → (changes : List WritebackChange) × (b' : ℕ) × (pull_writeback broker mode.server path secret b
        ≡ (ok changes, b'))
unfolding pull_writeback
answered path secret b = (change ∷ [], b + 1, refl)

run_once-returns_db_example :
    (c : SyncCounters) × (w' : DbWorld people broker printing clock) × (run_once people broker
        printing clock toy env mode start
      ≡ (ok c, w'))
unfolding resolve strip_prefix connect pull_records
run_once-returns_db_example =
    run_once-returns_db people broker printing clock (λ n. refl) (λ r. ("{}", refl)) toy env mode
      answered start refl refl refl refl
