-- ===== src/Runner/Tests.antt =====
-- Runs of the agent in AD mode, on small instances of what it runs on.
mod Watched
mod Heard
use nexusid_agent.Instances.{small_directory, no_database, answering}
use mathlib.Core.List.Perm
use nexusid_agent.Common.{
  map, ℕ, ◌≡◌, ◌⊎◌, ◌%◌, ◌^◌, refl, inl, inr, String, Bool, true, false, ◌&&◌, none, some, List, [],
  ◌∷◌, ◌++◌, ◌==◌, str_eq, eq_iff, show, arith, length, if◌then◌else◌, Bool-cases, strip_prefix,
  trim, trim_end_matches,
}
use nexusid_agent.Error.{ok, err, AgentError}
use nexusid_agent.Json.{Value, string, object, entry, end, json}
use nexusid_agent.Crypto.{from_base64_key}
use nexusid_agent.Crypto.Toy.{toy, zero_key}
use nexusid_agent.Config.{ad, as_str, Config, Env, resolve, server_cipher, validate}
use nexusid_agent.Audit.{
  genesis, AuditRecord, AuditLog, Externals, Write, succeeds, append_event, append, run_start,
  open_log, read, verify,
}
use nexusid_agent.Audit.Append.{Laws, IsIntact}
use nexusid_agent.Audit.Chain.{intact}
use nexusid_agent.Audit.History.{empty-IsIntact}
use nexusid_agent.Audit.Evolution.{IsWhole, unchanged}
use nexusid_agent.Server.{ServerClient, new_client}
use nexusid_agent.World.{with_log}
use nexusid_agent.Runner.{
  Host, directory_id, AgentWorld, Prepared, prepare, run_one, run_for, started, stop, run,
}
use nexusid_agent.Runner.Events.{run_one_returns}
use nexusid_agent.Runner.Session.{Session, ran, begun, cycled, dropped, Session-verify}
use nexusid_agent.Runner.Stops.{Cycles, run_stops, farewell}

abbrev mode_detail : Value
mode_detail = json (("mode", string "ad") ∷ [])

abbrev is_detail : Value → Bool
is_detail (object (entry k (string m) end)) = str_eq k "mode" && str_eq m "ad"
is_detail _ = false

is_detail-eq : (v : Value) → is_detail v ≡ true → v ≡ mode_detail
is_detail-eq (object (entry k (string m) end)) h = ground (arith, eq_iff k "mode", eq_iff m "ad")
is_detail-eq v h = ground arith

abbrev first : AuditRecord
first = record {
  seq = 1;
  ts = "t";
  event = "RUN_START";
  detail = mode_detail;
  prev_hash = genesis;
  hash = "h";
}

abbrev last : AuditRecord
last = record {
  seq = 2;
  ts = "t";
  event = "RUN_STOP";
  detail = mode_detail;
  prev_hash = "h";
  hash = "h";
}

abbrev is_same : AuditRecord → AuditRecord → Bool
is_same q r =
    r.seq == q.seq
    && str_eq r.ts q.ts
    && str_eq r.event q.event
    && is_detail r.detail
    && str_eq r.prev_hash q.prev_hash
    && str_eq r.hash q.hash

-- Two records can be printed, and there is one hash.
abbrev small : Externals
small = record {
  render = λ v. "{}";
  encode = λ r.
      if is_same first r then ok "{1}" else if is_same last r then ok "{2}" else err "unsupported";
  decode = λ l.
      if str_eq l "{1}" then ok first else if str_eq l "{2}" then ok last else err "not a record";
  sha256_hex = λ s. "h";
}

is_same-first : (r : AuditRecord) → is_same first r ≡ true → r ≡ first
is_same-first r h = ground (
  arith,
  eq_iff r.ts "t",
  eq_iff r.event "RUN_START",
  eq_iff r.prev_hash genesis,
  eq_iff r.hash "h",
  is_detail-eq r.detail,
)

is_same-last : (r : AuditRecord) → is_same last r ≡ true → r ≡ last
is_same-last r h = ground (
  arith,
  eq_iff r.ts "t",
  eq_iff r.event "RUN_STOP",
  eq_iff r.prev_hash "h",
  eq_iff r.hash "h",
  is_detail-eq r.detail,
)

printed :
    (r : AuditRecord) (l : String)
    → small.encode r ≡ ok l
    → ((r ≡ first) × (l ≡ "{1}")) ⊎ ((r ≡ last) × (l ≡ "{2}"))
printed r l e = elim (Bool-cases (is_same first r)) [
  | inl t ↦ inl (is_same-first r t, cc (rw t at e))
  | inr f ↦ elim (Bool-cases (is_same last r)) [
    | inl t ↦ inr (is_same-last r t, cc (rw (f, t) at e))
    | inr g ↦ cc (rw (f, g) at e)
  ]
]

small-Laws : Laws small
small-Laws = record {
  framed = λ r l e. elim (printed r l e) [ inl (_, q) ↦ ("1", q) | inr (_, q) ↦ ("2", q) ];
  one_line = λ r l e. elim (printed r l e) [ inl (_, q) ↦ rw q refl | inr (_, q) ↦ rw q refl ];
  round_trip =
      λ r l e. elim (printed r l e) [ inl (p, q) ↦ rw (p, q) refl | inr (p, q) ↦ rw (p, q) refl ];
}

abbrev clock : ℕ → Write × String
clock n = (succeeds, "t")

abbrev env : Env
env name = some zero_key

abbrev host : Host
host = record {
  directory = small_directory;
  database = no_database;
  http = answering;
  primitives = toy;
  formats = record { attributes = λ s. err "none"; forest_context = λ s. err "none" };
  externals = small;
  moments = clock;
  env = env;
  drain = record { order = λ m. map (λ e. e.1) m; each_once = λ m. Perm.rfl };
  http_built = λ b. ok tt;
  kerberos = false;
  db_feature = false;
  hostname = "dc-01";
  version = "1";
}

abbrev cfg : Config
cfg = record {
  agent = record {
    id = "a";
    mode = ad;
    poll_interval_secs = 30;
    audit_log = "audit.jsonl";
    directory_integration_id = none;
  };
  server = record {
    base_url = "https://idp";
    agent_token = "t";
    secret_key = "env:K";
    verify_tls = true;
  };
  ad_section = some (record {
    url = "ldaps://dc";
    bind_dn = "CN=svc";
    bind_password = "env:P";
    base_dn = "DC=corp";
    use_kerberos = false;
    password_writeback = true;
  });
  db_section = none;
}

whole : (n : ℕ) → IsWhole (clock n).0
whole n part m e = cc e

abbrev fresh : AuditLog
fresh = record { path = "audit.jsonl"; last_seq = 0; last_hash = genesis }

abbrev client : ServerClient
client = record {
  accept_invalid_certs = false;
  base_url = "https://idp";
  agent_token = "t";
  agent_id = "a";
}

abbrev zeros : List ℕ
zeros =
    0 ∷ 0 ∷ 0 ∷ 0 ∷ 0 ∷ 0 ∷ 0 ∷ 0 ∷ 0 ∷ 0 ∷ 0 ∷ 0 ∷ 0 ∷ 0 ∷ 0 ∷ 0 ∷ 0 ∷ 0 ∷ 0 ∷ 0 ∷ 0 ∷ 0 ∷ 0 ∷ 0
    ∷ 0 ∷ 0 ∷ 0 ∷ 0 ∷ 0 ∷ 0 ∷ 0 ∷ 0 ∷ []

abbrev ready : Prepared host
ready = record {
  log = fresh;
  server = client;
  cipher = record { key = zeros; key_id = "local-default" };
  id = some zero_key;
}

abbrev before : AgentWorld host
before = record {
  resource = record { directory = 0; database = tt };
  broker = 0;
  log = fresh;
  disk = none;
  writes = 0;
}

abbrev running : AgentWorld host
running = record {
  resource = record { directory = 0; database = tt };
  broker = 0;
  log = record { path = "audit.jsonl"; last_seq = 1; last_hash = "h" };
  disk = some "{1}\n";
  writes = 1;
}

before-IsIntact : IsIntact small [] fresh none
before-IsIntact = empty-IsIntact small small-Laws

valid : validate cfg ≡ ok tt
unfolding validate
valid = refl

run_one_returns_example :
    (u : AgentWorld host) × (run_one host cfg client ready.cipher ready.id running ≡ some u)
run_one_returns_example = run_one_returns host cfg client ready.cipher ready.id running valid

prepared : prepare host cfg none ≡ ok ready
unfolding prepare open_log read resolve strip_prefix from_base64_key trim new_client server_cipher
    directory_id trim_end_matches
prepared = refl

start_logged : started host cfg before ≡ (ok tt, running)
unfolding started as_str run_start with_log append_event append show
start_logged = refl

-- The world after one cycle.
abbrev cycled_once : AgentWorld host
cycled_once = (run_one_returns host cfg client ready.cipher ready.id running valid).0

-- One cycle, and a second one that the signal drops at once.
abbrev session : Session host cfg ready before (stop host cfg client cycled_once)
session =
    ran start_logged
      (dropped
        (cycled (begun refl)
          (run_one_returns host cfg client ready.cipher ready.id running valid).1)
        (unchanged refl))
      refl

Session-verify_example :
    (new : List AuditRecord) × IsIntact small new
      (stop host cfg client cycled_once).log
      (stop host cfg client cycled_once).disk
    × (verify small (read (stop host cfg client cycled_once).disk)
        ≡ ok (intact small (length new % 2 ^ 64)))
Session-verify_example =
    Session-verify host small-Laws whole cfg ready [] before (stop host cfg client cycled_once)
      before-IsIntact prepared session

run_stops_example :
    (u : AgentWorld host) × (new : AuditRecord) × (rest : List AuditRecord) × (run host cfg 2 before
      ≡ some (ok tt, u))
    × IsIntact small (new ∷ rest) u.log u.disk
    × (new.event ≡ "RUN_START")
    × ((v : AgentWorld host) × Cycles host small-Laws whole cfg ready 2 running v
        × (u ≡ stop host cfg client v)
        × (((between : List AuditRecord) × (final : AuditRecord) × (rest ≡ between ++ final ∷ [])
              × (final.event ≡ "RUN_STOP"))
            ⊎ ((e : AgentError) × ((farewell host small-Laws whole cfg client v).0 ≡ err e))))
run_stops_example =
    run_stops host small-Laws whole cfg 2 ready [] before running valid before-IsIntact prepared
      start_logged
