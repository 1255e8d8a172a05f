-- ===== src/Setup/Finalize.antt =====
-- src/main.rs: the effects of a setup (`finalize_setup`, `setup_wizard`, `setup_noninteractive`).
--
-- A setup runs on a `Site`: the file system, the console, the broker and the service manager. `parent` and
-- `canonicalize` depend on the platform and stand for std's functions.
pub mod Traces
mod Tests
use nexusid_agent.Common.{
  String, Bool, true, false, not, Option, none, some, List, [], ◌∷◌, ◌++◌, concat, cat, is_empty,
  if◌then◌else◌,
}
use nexusid_agent.Error.{Result, ok, err, AgentError, config, to_string, map_err}
use nexusid_agent.Effect.{M, pure, lift, ◌>>=◌, ◌>>◌}
use nexusid_agent.Crypto.{Bytes, Primitives, Cipher}
use nexusid_agent.Config.{Config, Env, RemoteConfig, vault, resolve, load}
use nexusid_agent.Ldap.{eq_ignore_ascii_case}
use nexusid_agent.Server.{Http, ServerClient, new_client, fetch_config}
use nexusid_agent.Service.{Scm, ensure_running}
use nexusid_agent.Setup.{SetupValues, prompt, effective_config_path, harden_secret, config_text}

pub record FileSystem : Type 1 where
  pub State : Type 0
  pub parent : String → Option String
  pub canonicalize : String → State → Option String
  pub create_dir_all : String → State → State
  pub write : (path text : String) → State → Result String (Unit {0}) × State
  pub read_to_string : String → State → Result String String

pub record Site : Type 1 where
  pub windows : Bool
  pub file_system : FileSystem
  pub http : Http
  pub scm : Scm
  pub primitives : Primitives
  pub env : Env
  pub http_built : Bool → Result String (Unit {0})
  pub parse_toml : String → Result String Config
  pub exe : Result String String

-- `printed` is what was written to the standard output, `input` the lines that are still to be read.
pub record SetupWorld (F B S : Type 0) : Type 0 where
  pub files : F
  pub broker : B
  pub services : S
  pub printed : List String
  pub input : List (Result String String)

-- At the end of the input an empty line is read.
next_line : List (Result String String) → Result String String × List (Result String String)
next_line [] = (ok "", [])
next_line (line ∷ lines) = (line, lines)

question : (label default : String) → String
question label default =
    if is_empty default
    then concat (label ∷ ": " ∷ [])
    else concat (label ∷ " [" ∷ default ∷ "]: " ∷ [])

note : String → Option String → List String
note field none = []
note field (some n) = concat (field ∷ ": " ∷ n ∷ []) ∷ []

module _ (a : Site) where
  open a use {windows, file_system, http, scm, primitives, env, parse_toml}

  abbrev pub SiteWorld : Type 0
  SiteWorld = SetupWorld file_system.State http.State scm.State

  -- `print!`
  unfoldable pub print : String → M SiteWorld (Unit {0})
  print t w = (ok tt, record w { printed = w.printed ++ t ∷ [] })

  unfoldable pub println : String → M SiteWorld (Unit {0})
  unfolding print
  println t = print (cat t "\n")

  print_actions : List String → M SiteWorld (Unit {0})
  unfolding println
  print_actions [] = pure tt
  print_actions (n ∷ ns) = println (concat ("[action] " ∷ n ∷ [])) >> print_actions ns

  read_line : String → M SiteWorld String
  read_line default w =
      let (line, rest) = next_line w.input in (prompt default line, record w { input = rest })

  ask : (label default : String) → M SiteWorld String
  unfolding print question read_line next_line
  ask label default = print (question label default) >> read_line default

  pub make_dirs : Option String → M SiteWorld (Unit {0})
  make_dirs none w = (ok tt, w)
  make_dirs (some dir) w =
      if is_empty dir
      then (ok tt, w)
      else (ok tt, record w { files = file_system.create_dir_all dir w.files })

  -- `std::fs::write(…).map_err(…)?`
  write_config : (path text : String) → M SiteWorld (Unit {0})
  write_config path text w =
      let (r, f) = file_system.write path text w.files in
      (map_err (λ e. config (concat ("writing " ∷ path ∷ ": " ∷ e ∷ []))) r, record w { files = f })

  print_check :
      (base_url agent_id : String) → Result AgentError RemoteConfig → M SiteWorld (Unit {0})
  unfolding println
  print_check base_url agent_id (ok _) = println (
      concat (
        "[ok] reached " ∷ base_url ∷ " — agent '" ∷ agent_id ∷ "' is registered and authorized"
        ∷ []))
  print_check base_url agent_id (err e) = println (
      concat (
        "[warn] config written, but the broker check failed: "
        ∷ to_string e
        ∷ "\n       register the agent in the SyncAgent UI, then run 'nexus-agent run'"
        ∷ []))

  ask_broker : (base_url agent_id : String) → ServerClient → M SiteWorld (Unit {0})
  unfolding print_check
  ask_broker base_url agent_id client w =
      let (r, s) = fetch_config http client w.broker in
      print_check base_url agent_id r (record w { broker = s })

  -- The file that was written is loaded, and the broker is asked.
  check_config : (base_url agent_id : String) → Result AgentError Config → M SiteWorld (Unit {0})
  unfolding ask_broker println
  check_config base_url agent_id (ok c) = do
    token ← lift (resolve primitives env c.server.agent_token)
    client ← lift (new_client a.http_built c.server.base_url token c.agent.id c.server.verify_tls)
    ask_broker base_url agent_id client
  check_config base_url agent_id (err e) =
      println (concat ("[warn] config written but did not validate: " ∷ to_string e ∷ []))

  check_written : (path base_url agent_id : String) → M SiteWorld (Unit {0})
  unfolding check_config
  check_written path base_url agent_id w =
      check_config base_url agent_id (load parse_toml (file_system.read_to_string path w.files)) w

  print_service : String → Result AgentError (Unit {0}) → M SiteWorld (Unit {0})
  unfolding println
  print_service path (ok _) = println "[ok] Windows Service 'NexusAgent' is running"
  print_service path (err e) = println (
      concat (
        "[warn] could not start the service ("
        ∷ to_string e
        ∷ ")\n       run an elevated prompt, then:  nexus-agent service install -c \""
        ∷ path
        ∷ "\""
        ∷ []))

  start_windows_service : String → Bool → M SiteWorld (Unit {0})
  unfolding print_service println
  start_windows_service path true w =
      let (r, s) = ensure_running scm a.exe path w.services in
      print_service path r (record w { services = s })
  start_windows_service path false w =
      println
        (concat
          ("Start it later (elevated):  nexus-agent service install -c \"" ∷ path ∷ "\"" ∷ []))
        w

  wants_start : Bool → M SiteWorld Bool
  unfolding ask
  wants_start true = do
    reply ←
        ask
          "Start the NexusAgent Windows Service now (runs on boot; needs an elevated prompt)? [Y/n]"
          "y"
    pure (not (eq_ignore_ascii_case reply "n"))
  wants_start false = pure true

  pub absolute : String → Option String → String
  absolute path none = path
  absolute path (some p) = p

  offer_service : (windows interactive : Bool) → String → M SiteWorld (Unit {0})
  unfolding wants_start start_windows_service absolute println
  offer_service true interactive path w =
      let abs = absolute path (file_system.canonicalize path w.files) in
      (wants_start interactive >>= start_windows_service abs) w
  offer_service false interactive path w =
      println (concat ("\nNext: nexus-agent run -c " ∷ path ∷ "\n" ∷ [])) w

  -- What follows the writing of the file.
  after_write : (path base_url agent_id : String) → Bool → List String → M SiteWorld (Unit {0})
  unfolding println print_actions check_written offer_service
  after_write path base_url agent_id interactive notes = do
    println (concat ("\n[ok] wrote " ∷ path ∷ " (no plaintext secrets)" ∷ []))
    print_actions notes
    check_written path base_url agent_id
    offer_service windows interactive path

  pub hardened_key : (iv : Bytes) → SetupValues → Option Cipher → String × Option String
  hardened_key iv v found = harden_secret primitives iv v.secret_key found "SECRET_ENCRYPTION_KEY"

  pub hardened_password : (iv : Bytes) → SetupValues → Option Cipher → String × Option String
  hardened_password iv v found =
      harden_secret primitives iv v.bind_password found "NEXUS_AGENT_BIND_PASSWORD"

  write_setup :
      (iv₁ iv₂ : Bytes) → String → SetupValues → Bool → Option Cipher → M SiteWorld (Unit {0})
  unfolding hardened_key hardened_password write_config after_write note
  write_setup iv₁ iv₂ path v interactive found =
      let (secret_key, n₁) = hardened_key iv₁ v found in
      let (bind_password, n₂) = hardened_password iv₂ v found in
      write_config path (config_text v secret_key bind_password)
      >> after_write path v.base_url v.agent_id interactive
          (note "secret_key" n₁ ++ note "bind_password" n₂)

  -- The two nonces are what the random generator fills in if the two secrets are encrypted.
  pub finalize_setup : (iv₁ iv₂ : Bytes) → String → SetupValues → Bool → M SiteWorld (Unit {0})
  unfolding make_dirs write_setup
  finalize_setup iv₁ iv₂ config_path v interactive =
      let path = effective_config_path windows config_path in
      make_dirs (file_system.parent path)
      >> (lift (vault primitives env) >>= write_setup iv₁ iv₂ path v interactive)

  pub setup_noninteractive : (iv₁ iv₂ : Bytes) → String → SetupValues → M SiteWorld (Unit {0})
  unfolding finalize_setup
  setup_noninteractive iv₁ iv₂ config_path v = finalize_setup iv₁ iv₂ config_path v false

  pub setup_wizard : (iv₁ iv₂ : Bytes) → String → M SiteWorld (Unit {0})
  unfolding println ask finalize_setup
  setup_wizard iv₁ iv₂ config_path = do
    println "\nnexusID sync agent — setup\n"
    base_url ← ask "IDP / broker URL" "https://demo.nexusid.ai"
    agent_id ← ask "Agent id" "dc-01-agent"
    agent_token ← ask "Agent token (from 'Register agent')" ""
    mode ← ask "Mode (ad/db)" "ad"
    secret_key ←
        ask "Secret key — env:, enc:, or the per-agent key from the downloaded config"
          "env:SECRET_ENCRYPTION_KEY"
    ad_url ← ask "AD url (the broker can override this live)" "ldaps://dc01.corp.example.com:636"
    bind_dn ← ask "AD bind DN" "CN=svc-nexus,OU=Service Accounts,DC=corp,DC=example,DC=com"
    bind_password ← ask "AD bind password" ""
    base_dn ← ask "AD base DN" "DC=corp,DC=example,DC=com"
    finalize_setup iv₁ iv₂ config_path
        (record {
          base_url = base_url;
          agent_id = agent_id;
          agent_token = agent_token;
          mode = mode;
          secret_key = secret_key;
          ad_url = ad_url;
          bind_dn = bind_dn;
          bind_password = bind_password;
          base_dn = base_dn;
        })
        true
