-- ===== src/Runner.antt =====
-- src/runner.rs: the loop of the agent, from the opening of the log to the shutdown.
--
-- What the agent runs on is the record `Host`. A panic of `expect` is `none`. The wait between two cycles
-- changes no state.
pub mod Events
pub mod Session
pub mod Stops
pub mod Calls
pub mod Writes
pub mod Requests
mod Tests
use nexusid_agent.Common.{
  ℕ, zero, suc, String, Bool, true, false, Option, none, some, List, [], ◌∷◌, ltb, is_empty,
  if◌then◌else◌,
}
use nexusid_agent.Common.Dict.{Dict}
use nexusid_agent.Error.{Result, ok, err, AgentError, config, to_string}
use nexusid_agent.Error
use nexusid_agent.Effect.{M, pure, raise, ◌>>=◌, ◌>>◌}
use nexusid_agent.Json.{Value, string, json}
use nexusid_agent.Crypto.{Primitives, Cipher}
use nexusid_agent.Config.{
  Mode, ad, db, as_str, AdSection, DbSection, Config, Env, resolve, server_cipher, RemoteConfig,
  apply_remote,
}
use nexusid_agent.Audit.{
  SyncCounters, Externals, Write, Disk, AuditLog, read, open_log, run_start, summary,
}
use nexusid_agent.Ldap.{Directory, LdapConnector}
use nexusid_agent.Server.{
  Http, ServerClient, new_client, fetch_config, heartbeat, report_run, disconnect,
}
use nexusid_agent.Db.{Database}
use nexusid_agent.World.{World, within, with_log, log_event}
use nexusid_agent.AdMode.{Formats, Connections}
use nexusid_agent.AdMode
use nexusid_agent.AdMode.Pass
use nexusid_agent.AdMode.Pass.{Drain}
use nexusid_agent.DbMode

-- What the agent is built with and runs on; `drain` is the order in which it closes the connections to forests.
pub record Host : Type 1 where
  pub directory : Directory
  pub database : Database
  pub http : Http
  pub primitives : Primitives
  pub formats : Formats
  pub externals : Externals
  pub moments : ℕ → Write × String
  pub env : Env
  pub drain : Drain (LdapConnector directory.Session)
  pub http_built : Bool → Result String (Unit {0})
  pub kerberos : Bool
  pub db_feature : Bool
  pub hostname : String
  pub version : String

abbrev pub batch : ℕ
batch = 25

pub record Places (D E : Type 0) : Type 0 where
  pub directory : D
  pub database : E

non_empty : Option String → Option String
non_empty none = none
non_empty (some s) = if is_empty s then none else some s

or_env : Option String → Option String → Option String
or_env none s = s
or_env (some s) _ = some s

-- Only an agent with an [ad] section has a directory id; the environment stands in for the file.
directory_id_of : Env → Option String → Option AdSection → Option String
unfolding non_empty or_env
directory_id_of env id none = none
directory_id_of env id (some section) =
    or_env (non_empty id) (non_empty (env "NEXUS_AGENT_DIRECTORY_ID"))

pub directory_id : Env → Config → Option String
unfolding directory_id_of
directory_id env c = directory_id_of env c.agent.directory_integration_id c.ad_section

module _ (a : Host) where
  open a use {
    directory, database, http, primitives, formats, externals, moments, env, drain, kerberos,
    db_feature,
  }

  abbrev pub AgentWorld : Type 0
  AgentWorld = World (Places directory.State database.State) http.State

  -- A pass has its own connections to forests.
  ad_pass : Config → ServerClient → Cipher → AdSection → M AgentWorld SyncCounters
  ad_pass c server cipher section =
      within (λ r. record { directory = r.directory; forests = [] })
        (λ v r. record r { directory = v.directory })
        (Pass.run_once directory http externals moments primitives env formats
          (record {
            server = server;
            ad = section;
            cipher = cipher;
            verify_tls = c.server.verify_tls;
            batch = batch;
          })
          kerberos drain)

  db_pass : ServerClient → DbSection → M AgentWorld SyncCounters
  db_pass server section =
      within (λ r. r.database) (λ v r. record r { database = v })
        (DbMode.run_once database http externals moments primitives env
          (record { server = server; section = section }))

  run_db : Bool → ServerClient → Option DbSection → Option (M AgentWorld SyncCounters)
  unfolding db_pass
  run_db false server _ =
      some (raise (config "mode=db requires the agent to be built with the `db` feature"))
  run_db true server none = none
  run_db true server (some section) = some (db_pass server section)

  run_ad : Config → ServerClient → Cipher → Option AdSection → Option (M AgentWorld SyncCounters)
  unfolding ad_pass
  run_ad c server cipher none = none
  run_ad c server cipher (some section) = some (ad_pass c server cipher section)

  pub pass_of : Config → ServerClient → Cipher → Mode → Option (M AgentWorld SyncCounters)
  unfolding run_ad run_db
  pass_of c server cipher ad = run_ad c server cipher c.ad_section
  pass_of c server cipher db = run_db db_feature server c.db_section

  -- The pass, and its summary in the log.
  summed : Mode → M AgentWorld SyncCounters → M AgentWorld SyncCounters
  summed mode pass = do
    counters ← pass
    with_log moments (λ write ts. summary externals write ts (as_str mode) counters)
    pure counters

  pub run_pass : Config → ServerClient → Cipher → Option (M AgentWorld SyncCounters)
  unfolding pass_of summed
  run_pass c server cipher = elim (pass_of c server cipher c.agent.mode) [
    | none ↦ none
    | some pass ↦ some (summed c.agent.mode pass)
  ]

  -- `let _ = audit.append(…)`
  pub try_log : String → List (String × Value) → AgentWorld → AgentWorld
  try_log event fields w = (log_event moments externals event (json fields) w).1

  -- Only a pass that did some work is reported; an error is logged.
  after_pass : Config → ServerClient → Result AgentError SyncCounters → AgentWorld → AgentWorld
  unfolding try_log
  after_pass c server (ok counters) w =
      if ltb 0 counters.inspected
      then record w { broker = report_run http server (as_str c.agent.mode) counters w.broker }
      else w
  after_pass c server (err e) w = try_log "RUN_ERROR" (("error", string (to_string e)) ∷ []) w

  -- The cycle up to its wait for `poll_interval_secs`.
  pub run_cycle : Config → ServerClient → Cipher → Option String → AgentWorld → Option AgentWorld
  unfolding run_pass after_pass
  run_cycle c server cipher id w =
      let beat : AgentWorld = record w {
        broker = heartbeat http server (as_str c.agent.mode) a.hostname a.version id w.broker;
      } in
      elim (run_pass c server cipher) [
        | none ↦ none
        | some pass ↦ let (r, w') = pass beat in some (after_pass c server r w')
      ]

  pub effective : Config → Result AgentError RemoteConfig → Config
  effective base (ok remote) = apply_remote remote base
  effective base (err e) = base

  pub run_one : Config → ServerClient → Cipher → Option String → AgentWorld → Option AgentWorld
  unfolding effective run_cycle
  run_one base server cipher id w =
      let (r, s) = fetch_config http server w.broker in
      run_cycle (effective base r) server cipher id (record w { broker = s })

  -- What `run` makes before it writes: the log, the client, and the cipher.
  pub record Prepared : Type 0 where
    pub log : AuditLog
    pub server : ServerClient
    pub cipher : Cipher
    pub id : Option String

  pub prepare : Config → Disk → Result AgentError Prepared
  unfolding directory_id
  prepare c disk = Error.◌>>=◌ (open_log externals c.agent.audit_log (read disk)) λ log.
      Error.◌>>=◌ (resolve primitives env c.server.agent_token) λ token.
        Error.◌>>=◌ (new_client a.http_built c.server.base_url token c.agent.id c.server.verify_tls)
          λ server. Error.◌>>=◌ (server_cipher primitives env c) λ cipher.
            ok (record { log = log; server = server; cipher = cipher; id = directory_id env c })

  pub started : Config → M AgentWorld (Unit {0})
  started c = with_log moments (λ write ts. run_start externals write ts (as_str c.agent.mode))

  -- What follows the loop.
  pub stop : Config → ServerClient → AgentWorld → AgentWorld
  unfolding try_log
  stop c server w =
      try_log "RUN_STOP" (("mode", string (as_str c.agent.mode)) ∷ [])
        (record w { broker = disconnect http server "agent shutdown" w.broker })

  -- The loop of `run` up to the wait that ends its `n`-th cycle.
  pub run_for : Config → Prepared → ℕ → AgentWorld → Option AgentWorld
  run_for c p zero w = some w
  run_for c p (suc n) w = elim (run_one c p.server p.cipher p.id w) [
    | none ↦ none
    | some u ↦ run_for c p n u
  ]

  pub stopped :
      Config → ServerClient → Option AgentWorld → Option (Result AgentError (Unit {0}) × AgentWorld)
  unfolding stop
  stopped c server none = none
  stopped c server (some w) = some (ok tt, stop c server w)

  pub launched :
      Config
      → ℕ
      → Prepared
      → Result AgentError (Unit {0}) × AgentWorld
      → Option (Result AgentError (Unit {0}) × AgentWorld)
  unfolding run_for stopped
  launched c n p (err e, u) = some (err e, u)
  launched c n p (ok _, u) = stopped c p.server (run_for c p n u)

  -- A whole run that the signal ends in the wait of its `n`-th cycle. The log that `w` holds is that of an
  -- earlier process; this one opens its own.
  pub run : Config → ℕ → AgentWorld → Option (Result AgentError (Unit {0}) × AgentWorld)
  unfolding prepare started launched
  run c n w = elim (prepare c w.disk) [
    | err e ↦ some (err e, w)
    | ok p ↦ launched c n p (started c (record w { log = p.log }))
  ]
