-- ===== src/Lib.antt =====
-- The nexusID sync agent runs beside a directory. It claims provisioning operations from a broker,
-- carries them out over LDAP, reports each outcome to the broker, and keeps a hash-chained log of what
-- it did. These files model the agent's code and prove what makes it correct.
--
-- The parts, each with the source that it models:
--
--   * Error (src/error.rs): `AgentError` with its messages, and `Result` with `?`.
--   * Audit (src/audit.rs): `AuditLog` with `open` (`open_log`), `append`, `run_start`, `summary` and
--     `verify`, and `SyncCounters`. The file is its text, a `Disk`; an operation on the log takes the log
--     in memory and the disk and returns both. Audit/Reading says which records the lines of a file hold,
--     and Audit/Chain what a chain of them is, both without the code's loops; Audit/Append, Audit/History, Audit/Broken, Audit/Tamper and Audit/Counters follow.
--   * Crypto (src/crypto.rs): `Cipher` with its serialized form `AES-256-GCM|<key id>|<base64>`.
--     Crypto/Toy is a small instance of its libraries, for runs at concrete inputs.
--   * Config (src/config.rs): `Config` with `validate`, `vault`, `resolve`, `describe`, `server_cipher`
--     and `apply_remote`. The fields `ad` and `db` of `Config` are `ad_section` and `db_section`.
--   * Setup (src/main.rs): the setup's values, `prompt`, `effective_config_path`, `harden_secret`, and the
--     text of the config.toml that `finalize_setup` writes (`config_text`).
--     Setup/Finalize is `finalize_setup` with its effects, in order, on a `Site`: the file system, the
--     console, the broker and the service manager; and `setup_wizard` and `setup_noninteractive`.
--   * Command (src/main.rs): `Command`, `dispatch` and the exit code that `main` makes of its result, on the
--     same site.
--     The runs of the agent and of the service's dispatcher are arguments of `dispatch`.
--   * Service (src/service.rs): `install`, `ensure_running` and `uninstall` over the manager `Scm`, and
--     `run_service` over the controls that the manager sends; a list of controls that ends before a stop
--     leaves it waiting. Service/Worker is `run` and the thread that runs the agent: how the
--     configuration's path comes to it in the environment.
--   * Ldap (src/connectors/ldap.rs): the data that the connector writes and reads; Ldap/Connector is
--     `LdapConnector` with all its operations. ldap3 is the record `Directory`; Ldap/Calls notes the calls
--     of any directory, and Ldap/Connector/Opening and Ldap/Connector/Writes say which of them each operation
--     makes.
--   * Server (src/server.rs): `ServerClient` with all its requests. reqwest is the record `Http`;
--     Server/Requests notes the requests of any client.
--   * AdMode (src/modes/ad.rs): `process` and `route_and_process`; AdMode/Pass is `run_once`. A pass joins
--     the parts: it resolves the bind password by Config, binds by Ldap/Connector, polls and reports by
--     Server, decrypts by Crypto, and counts and logs by Audit. AdMode/Permitted, AdMode/Writes and
--     AdMode/Pass/Writes say which calls of the directory an operation and a pass may make;
--     AdMode/Pass/Loop and AdMode/Pass/Records say what the loop and the pass have done when they return.
--   * Db (src/connectors/db.rs): `DbConnector` with `connect`, `pull_records` and `apply_writeback`, and
--     the SQL texts that they send. Db/Statement writes them out apart from the loops that
--     build them.
--     sqlx is the record `Database`; Db/Calls notes the calls of any database.
--   * DbMode (src/modes/db.rs): `run_once`, the push of every row and the writeback of the broker's changes.
--     DbMode/Push and DbMode/Apply are about its two loops, DbMode/Pass and DbMode/Returns about the
--     whole, and DbMode/Writes about the calls of the database that it may make.
--   * Runner (src/runner.rs): `run` from the opening of the log to the shutdown, with `run_one`, `run_cycle`
--     and `run_pass`, over a `Host` that joins all parameters. A panic of `expect` is `none`. `Runner.run`
--     is a run that the signal ends in a wait between two cycles; the relation `Session` of Runner/Session
--     has the runs in which the signal drops a cycle at an await, too. Runner/Calls, Runner/Writes
--     and Runner/Requests follow the calls of the directory and the database and the requests to the
--     broker through a whole run.
--   * World: the state that a pass of either mode works on (its directory or database, the broker, the log
--     and the file), and the events that it logs. Audit/Evolution says how a log changes under a pass,
--     and World/Noted which records a part that returns has added. Trace says what a part adds to a list
--     that its state keeps, such as the calls of a directory, whether it returns or fails.
--   * Instances: small instances of the directory, the database and the broker, for runs at concrete inputs.
--   * Common, Json and Effect: texts, lists and maps; JSON values as `serde_json::json!` builds them; and
--     the state passing with errors (`M`) of the code that calls a directory or a broker. What was
--     changed before an error stays changed.
--
-- What is no code of the repository is a parameter: serde_json's printing and parsing and SHA-256
-- (`Externals`), base64 and AES-256-GCM (`Primitives`), ldap3 (`Directory`), reqwest (`Http`), sqlx
-- (`Database`), windows_service (`Scm`), the file system of a setup (`FileSystem`), TOML
-- parsing, the clock, the random bytes, the environment, the outcome of each write, and the order in which
-- a `HashMap` is drained (`Drain`, which gives each entry once). Two records of
-- laws say what the proofs take from the libraries' documentation: `Audit.Append.Laws` (a record is
-- printed as one object on one line, and is parsed back from it) and `Crypto.RoundTrip.Laws` (base64
-- decodes what it encoded, a sealed text opens under the same key and nonce). Nothing is assumed of
-- SHA-256: where a theorem needs that two texts have different hashes, it offers the collision instead.
--
-- Numbers: sequence numbers, counters and the report's count are `u64` and wrap at 2 ^ 64, as in a release
-- build. A byte is a number. No loop needs fuel but the decimal digits of a number, which stop after 20,
-- as many as a number below 2 ^ 64 has.
--
-- Not modelled: `service_main` of src/service.rs, which only logs an error, and the dispatcher of
-- the platform, which is an argument of Service/Worker; clap's parsing, and the logging that `main`
-- of src/main.rs sets up before it dispatches (its directory, its rolling file and what it tells of
-- them on the standard error); what is logged by tracing, and the wait for the signal in
-- src/runner.rs; the defaults that serde gives missing keys of config.toml, which belong to its
-- parsing; and src/ad_e2e.rs, a test against a live directory.
pub mod AdMode
pub mod Audit
pub mod Command
pub mod Common
pub mod Config
pub mod Crypto
pub mod Db
pub mod DbMode
pub mod Effect
pub mod Error
pub mod Instances
pub mod Json
pub mod Ldap
pub mod Runner
pub mod Server
pub mod Service
pub mod Setup
pub mod Trace
pub mod World
