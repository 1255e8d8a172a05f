-- ===== src/AdMode/Pass/Tests.antt =====
-- A pass over two operations on small instances of the directory, the broker and the log's libraries.
use Prim.Native.String.{count}
use mathlib.Core.List.Perm
use nexusid_agent.Instances.{small_directory}
use nexusid_agent.Common.{
  ◌+◌, map, ℕ, ◌≡◌, refl, inl, inr, String, Bool, true, false, ◌&&◌, none, some, [], ◌∷◌, ◌==◌,
  str_eq, eq_iff, show, arith, if◌then◌else◌, Bool-cases, strip_prefix,
}
use nexusid_agent.Error.{ok, err, to_string}
use nexusid_agent.Json.{Value, string, object, entry, end, json}
use nexusid_agent.Crypto.Toy.{toy}
use nexusid_agent.Config.{Env, resolve}
use nexusid_agent.Audit.{
  genesis, AuditRecord, SyncCounters, Externals, Write, succeeds, append, append_event,
  record_failure,
}
use nexusid_agent.Audit.Append.{Laws, IsIntact}
use nexusid_agent.Audit.History.{empty-IsIntact}
use nexusid_agent.Ldap.Connector.{connect, unbind}
use nexusid_agent.Ldap.{LdapConnector}
use nexusid_agent.Server.{Operation, Http, poll_operations, complete}
use nexusid_agent.World.{on_resource, on_broker, log_event}
use nexusid_agent.AdMode.{Formats, AdMode, on_directory, route_and_process}
use nexusid_agent.AdMode.Pass.{Drain, AdWorld, run_once}
use nexusid_agent.Trace.{Adds}
use nexusid_agent.Ldap.Calls.{recorded}
use nexusid_agent.AdMode.Pass.Writes.{calls_of, Allowed, run_once-Allowed}
use nexusid_agent.AdMode.Pass.Returns.{run_once-returns}
use nexusid_agent.AdMode.Pass.Records.{PassDone, run_once-PassDone}

abbrev detail : Value
detail = json (
    ("id", string "7")
    ∷ ("op", string "RESYNC")
    ∷ ("error", string "LDAP error: unknown op type: RESYNC")
    ∷ [])

-- The record of an operation of an unknown type.
abbrev only : AuditRecord
only = record {
  seq = 1;
  ts = "t1";
  event = "AD_OP_FAIL";
  detail = detail;
  prev_hash = genesis;
  hash = "85";
}

abbrev is_detail : Value → Bool
is_detail (object (entry c (string m) (entry a (string i) (entry b (string o) end)))) =
    str_eq a "id"
    && str_eq i "7"
    && str_eq b "op"
    && str_eq o "RESYNC"
    && str_eq c "error"
    && str_eq m "LDAP error: unknown op type: RESYNC"
is_detail _ = false

is_detail-eq : (v : Value) → is_detail v ≡ true → v ≡ detail
is_detail-eq (object (entry c (string m) (entry a (string i) (entry b (string o) end)))) h =
    ground (
      arith,
      eq_iff a "id",
      eq_iff i "7",
      eq_iff b "op",
      eq_iff o "RESYNC",
      eq_iff c "error",
      eq_iff m "LDAP error: unknown op type: RESYNC",
    )
is_detail-eq v h = ground arith

abbrev is_only : AuditRecord → Bool
is_only r =
    r.seq == 1
    && str_eq r.ts "t1"
    && str_eq r.event "AD_OP_FAIL"
    && is_detail r.detail
    && str_eq r.prev_hash genesis
    && str_eq r.hash "85"

abbrev log_libraries : Externals
log_libraries = record {
  render = λ v. "null";
  encode = λ r. if is_only r then ok "{1}" else err "unsupported";
  decode = λ l. if str_eq l "{1}" then ok only else err "not a record";
  sha256_hex = λ s. show (count s);
}

is_only-eq : (r : AuditRecord) → is_only r ≡ true → r ≡ only
is_only-eq r h = ground (
  arith,
  eq_iff r.ts "t1",
  eq_iff r.event "AD_OP_FAIL",
  eq_iff r.prev_hash genesis,
  eq_iff r.hash "85",
  is_detail-eq r.detail,
)

printed : (r : AuditRecord) (l : String) → log_libraries.encode r ≡ ok l → (r ≡ only) × (l ≡ "{1}")
printed r l e = elim (Bool-cases (is_only r)) [
  | inl t ↦ (is_only-eq r t, cc (rw t at e))
  | inr f ↦ cc (rw f at e)
]

log_libraries-Laws : Laws log_libraries
log_libraries-Laws = record {
  framed = λ r l e. ("1", (printed r l e).1);
  one_line = λ r l e. rw (printed r l e).1 refl;
  round_trip = λ r l e. rw ((printed r l e).0, (printed r l e).1) refl;
}

abbrev op : Operation
op = record {
  id = "7";
  op_type = "RESYNC";
  user_id = "u";
  user_email = none;
  attributes_json = none;
  encrypted_password = none;
  directory_integration_id = none;
  target_base_dn = none;
  forest_context_json = none;
}

-- Every request is answered, and the state counts them.
abbrev broker : Http
broker = record {
  State = ℕ;
  send = λ certs req n. (ok (record { status = 200; body = "[]" }), n + 1);
  status_text = show;
  config_of = λ s. err "none";
  operations_of = λ s. ok (op ∷ []);
  changes_of = λ s. ok [];
}

abbrev mode : AdMode
mode = record {
  server = record {
    accept_invalid_certs = false;
    base_url = "https://idp";
    agent_token = "t";
    agent_id = "a";
  };
  ad = record {
    url = "ldaps://dc";
    bind_dn = "CN=svc";
    bind_password = "env:P";
    base_dn = "DC=corp";
    use_kerberos = false;
    password_writeback = true;
  };
  cipher = record { key = []; key_id = "k" };
  verify_tls = true;
  batch = 10;
}

abbrev formats : Formats
formats = record { attributes = λ s. err "none"; forest_context = λ s. err "none" }

abbrev env : Env
env name = some "secret"

abbrev clock : ℕ → Write × String
clock n = (succeeds, "t1")

abbrev before : AdWorld small_directory broker log_libraries clock
before = record {
  resource = record { directory = 0; forests = [] };
  broker = 0;
  log = record { path = "audit.jsonl"; last_seq = 0; last_hash = genesis };
  disk = none;
  writes = 0;
}

abbrev after : AdWorld small_directory broker log_libraries clock
after = record {
  resource = record { directory = 1; forests = [] };
  broker = 2;
  log = record { path = "audit.jsonl"; last_seq = 1; last_hash = "85" };
  disk = some "{1}\n";
  writes = 1;
}

abbrev counted : SyncCounters
counted = record { inspected = 1; created = 0; updated = 0; disabled = 0; failed = 1 }

before-IsIntact : IsIntact log_libraries [] before.log before.disk
before-IsIntact = empty-IsIntact log_libraries log_libraries-Laws

abbrev in_order : Drain (LdapConnector String)
in_order = record { order = λ m. map (λ e. e.1) m; each_once = λ m. Perm.rfl }

run_once-PassDone_example :
    PassDone small_directory broker log_libraries log_libraries-Laws clock toy env formats mode
      false in_order [] counted before after
unfolding run_once resolve strip_prefix on_directory connect poll_operations complete append
    append_event route_and_process show to_string record_failure unbind on_resource on_broker
    log_event
run_once-PassDone_example =
    run_once-PassDone small_directory broker log_libraries log_libraries-Laws clock toy env formats
      mode false in_order before after [] {counters = counted} before-IsIntact refl

abbrev printing : Externals
printing = record log_libraries { encode = λ r. ok "{}" }

abbrev start : AdWorld small_directory broker printing clock
start = record {
  resource = record { directory = 0; forests = [] };
  broker = 0;
  log = record { path = "audit.jsonl"; last_seq = 0; last_hash = genesis };
  disk = none;
  writes = 0;
}

abbrev session : LdapConnector String
session = record { ldap = "ldaps://dc"; base_dn = "DC=corp"; password_writeback = true }

abbrev disabling : Operation
disabling = record op { op_type = "DISABLE_ACCOUNT"; user_email = some "jo@corp" }

abbrev disabling_broker : Http
disabling_broker = record broker { operations_of = λ s. ok (disabling ∷ []) }

abbrev unseen : AdWorld (recorded small_directory) disabling_broker printing clock
unseen = record {
  resource = record { directory = (0, []); forests = [] };
  broker = 0;
  log = record { path = "audit.jsonl"; last_seq = 0; last_hash = genesis };
  disk = none;
  writes = 0;
}

run_once-Allowed_example :
    Adds
      (calls_of small_directory disabling_broker printing clock)
      (Allowed small_directory toy formats mode (ok (disabling ∷ [])))
      unseen
      (run_once
        (recorded small_directory)
        disabling_broker
        printing
        clock
        toy
        env
        formats
        mode
        false
        in_order
        unseen).1
unfolding poll_operations
run_once-Allowed_example =
    run_once-Allowed small_directory disabling_broker printing clock toy env formats mode false
      in_order unseen

run_once-returns_example :
    (c : SyncCounters) × (w' : AdWorld small_directory broker printing clock) × (run_once
        small_directory broker printing clock toy env formats mode false in_order start
      ≡ (ok c, w'))
unfolding resolve strip_prefix on_directory connect poll_operations
run_once-returns_example =
    run_once-returns small_directory broker printing clock (λ n. refl) (λ r. ("{}", refl)) toy env
      formats mode false in_order start refl refl refl
