-- ===== src/Command.antt =====
-- src/main.rs: the commands (`Command`, `dispatch`, and the end of `main`), on the site of a setup.
--
-- Not modelled: the logging that `main` sets up before it dispatches (its directory, its rolling file and
-- what it tells of them on the standard error).
--
-- `agent` is the run of the agent (`runner::run`) and `dispatcher` the hand-over to the platform
-- (`service::run`). `read_log` is how the file system gives a log to `AuditLog::verify`.
pub mod Verdict
mod Tests
use nexusid_agent.Common.{
  ℕ, String, Bool, true, false, Option, none, some, [], ◌∷◌, concat, cat, show, if◌then◌else◌,
}
use nexusid_agent.Error.{Result, ok, err, AgentError, config, audit, to_string}
use nexusid_agent.Effect.{M, pure, raise, lift, ◌>>=◌, ◌>>◌}
use nexusid_agent.Crypto.{Bytes, or_err, encrypt_serialized, generate_base64_key}
use nexusid_agent.Config.{Config, as_str, vault, load}
use nexusid_agent.Audit.{Externals, FileRead, VerifyReport, verify}
use nexusid_agent.Service.{install, uninstall}
use nexusid_agent.Setup.{SetupFlags, values_of_flags}
use nexusid_agent.Setup.Finalize.{
  Site, SiteWorld, absolute, println, setup_noninteractive, setup_wizard,
}

pub data ServiceAction : Type 0 where
  install_service : (config : String) → ServiceAction
  uninstall_service : ServiceAction

pub data Command : Type 0 where
  run_agent run_as_service : (config : String) → Command
  setup : (config : String) → (non_interactive : Bool) → SetupFlags → Command
  service : ServiceAction → Command
  verify_log : (path : String) → Command
  status : (config : String) → Command
  gen_key : Command
  encrypt_secret : (value : String) → Command

verdict : Bool → String
verdict is_ok = if is_ok then "OK" else "BROKEN"

place : Option ℕ → String
place none = ""
place (some seq) = cat " at seq " (show seq)

report_line : VerifyReport → String
unfolding verdict place
report_line r = concat (
    "audit log: "
    ∷ show r.records
    ∷ " record(s); integrity "
    ∷ verdict r.is_ok
    ∷ place r.broken_at
    ∷ [])

pub data ExitCode : Type 0 where
  success failure : ExitCode

-- What `main` makes of a command's result: the exit code, and what is printed to the standard error.
pub exit_of : Result AgentError (Unit {0}) → ExitCode × Option String
exit_of (ok _) = (success, none)
exit_of (err e) = (failure, some (cat "error: " (to_string e)))

module _ (a : Site) where
  on_services : {A : Type 0} → M a.scm.State A → M (SiteWorld a) A
  on_services m w = let (r, s) = m w.services in (r, record w { services = s })

  do_install : String → M (SiteWorld a) (Unit {0})
  unfolding on_services
  do_install path = do
    on_services (install a.scm a.exe path)
    println a
        (concat ("Installed + started Windows Service 'NexusAgent' (config: " ∷ path ∷ ")" ∷ []))

  do_service : (windows : Bool) → ServiceAction → M (SiteWorld a) (Unit {0})
  unfolding do_install on_services
  do_service false action w = raise (config "the 'service' command is Windows-only") w
  do_service true (install_service path) w =
      do_install (absolute a path (a.file_system.canonicalize path w.files)) w
  do_service true uninstall_service w =
      (on_services (uninstall a.scm) >> println a "Removed Windows Service 'NexusAgent'") w

  do_setup : (iv₁ iv₂ : Bytes) → String → Bool → SetupFlags → M (SiteWorld a) (Unit {0})
  do_setup iv₁ iv₂ path true flags = setup_noninteractive a iv₁ iv₂ path (values_of_flags flags)
  do_setup iv₁ iv₂ path false flags = setup_wizard a iv₁ iv₂ path

  load_config : String → M (SiteWorld a) Config
  load_config path w = (load a.parse_toml (a.file_system.read_to_string path w.files), w)

  do_gen_key : (random : Bytes) → M (SiteWorld a) (Unit {0})
  do_gen_key random = println a (generate_base64_key a.primitives random)

  do_encrypt_secret : (iv : Bytes) → String → M (SiteWorld a) (Unit {0})
  do_encrypt_secret iv value = do
    found ← lift (vault a.primitives a.env)
    c ← lift (or_err (config "set NEXUS_AGENT_KEY (base64 32 bytes) first") found)
    enc ← lift (encrypt_serialized a.primitives iv c value)
    println a (cat "enc:" enc)

  module _ (x : Externals) (read_log : String → a.file_system.State → FileRead) where
    verify_file : String → M (SiteWorld a) VerifyReport
    verify_file path w = (verify x (read_log path w.files), w)

    -- the exit code of `verify-log`
    judged : VerifyReport → M (SiteWorld a) (Unit {0})
    judged report w = if report.is_ok then (ok tt, w) else raise (audit "integrity check failed") w

    do_verify_log : String → M (SiteWorld a) (Unit {0})
    unfolding verify_file report_line judged
    do_verify_log path = do report ← verify_file path; println a (report_line report); judged report

    do_status : String → M (SiteWorld a) (Unit {0})
    unfolding load_config verify_file verdict
    do_status path = do
      c ← load_config path
      report ← verify_file c.agent.audit_log
      println a (concat ("agent id   : " ∷ c.agent.id ∷ []))
      println a (concat ("mode       : " ∷ as_str c.agent.mode ∷ []))
      println a (concat ("server     : " ∷ c.server.base_url ∷ []))
      println a (
          concat (
            "audit log  : "
            ∷ show report.records
            ∷ " record(s), integrity "
            ∷ verdict report.is_ok
            ∷ []))

    module _ (agent : Config → M (SiteWorld a) (Unit {0}))
        (dispatcher : String → M (SiteWorld a) (Unit {0})) where
      do_run_service : (windows : Bool) → String → M (SiteWorld a) (Unit {0})
      do_run_service true path = dispatcher path
      do_run_service false path = raise (config "run-service is Windows-only")

      -- The nonces and `random` are what the random generator gives the commands that ask for them.
      pub dispatch : (iv₁ iv₂ random : Bytes) → Command → M (SiteWorld a) (Unit {0})
      unfolding load_config do_setup do_service do_run_service do_verify_log do_status do_gen_key
          do_encrypt_secret
      dispatch iv₁ iv₂ random (run_agent path) = load_config path >>= agent
      dispatch iv₁ iv₂ random (setup path non_interactive flags) =
          do_setup iv₁ iv₂ path non_interactive flags
      dispatch iv₁ iv₂ random (service action) = do_service a.windows action
      dispatch iv₁ iv₂ random (run_as_service path) = do_run_service a.windows path
      dispatch iv₁ iv₂ random (verify_log path) = do_verify_log path
      dispatch iv₁ iv₂ random (status path) = do_status path
      dispatch iv₁ iv₂ random gen_key = do_gen_key random
      dispatch iv₁ iv₂ random (encrypt_secret value) = do_encrypt_secret iv₁ value
