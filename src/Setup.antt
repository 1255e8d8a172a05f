-- ===== src/Setup.antt =====
-- src/main.rs: the values of the first-run setup, the hardening of secrets, and the text of the
-- config.toml that it writes.
pub mod Harden
pub mod Finalize
mod Tests
use nexusid_agent.Common.{
  String, Bool, true, false, ◌||◌, ◌&&◌, Option, none, some, List, [], ◌∷◌, map, str_eq, concat,
  is_empty, trim, starts_with, if◌then◌else◌,
}
use nexusid_agent.Error.{Result, ok, err, AgentError, config, ◌>>=◌, map_err}
use nexusid_agent.Crypto.{Bytes, Primitives, Cipher, encrypt_serialized}

pub record SetupValues : Type 0 where
  pub base_url : String
  pub agent_id : String
  pub agent_token : String
  pub mode : String
  pub secret_key : String
  pub ad_url : String
  pub bind_dn : String
  pub bind_password : String
  pub base_dn : String

-- The flags of a non-interactive setup, in the order of the fields.
pub record SetupFlags : Type 0 where
  pub idp_url : Option String
  pub agent_id : Option String
  pub token : Option String
  pub mode : Option String
  pub secret_key : Option String
  pub ad_url : Option String
  pub bind_dn : Option String
  pub bind_password : Option String
  pub base_dn : Option String

abbrev unwrap_or : String → Option String → String
unwrap_or d none = d
unwrap_or d (some s) = s

pub values_of_flags : SetupFlags → SetupValues
values_of_flags f = record {
  base_url = unwrap_or "" f.idp_url;
  agent_id = unwrap_or "dc-01-agent" f.agent_id;
  agent_token = unwrap_or "" f.token;
  mode = unwrap_or "ad" f.mode;
  secret_key = unwrap_or "env:SECRET_ENCRYPTION_KEY" f.secret_key;
  ad_url = unwrap_or "" f.ad_url;
  bind_dn = unwrap_or "" f.bind_dn;
  bind_password = unwrap_or "" f.bind_password;
  base_dn = unwrap_or "" f.base_dn;
}

-- `line` is what reading standard input gives, or the message of its error.
pub prompt : (default : String) → (line : Result String String) → Result AgentError String
prompt default line = do
  read ← map_err (λ e. config (concat ("reading input: " ∷ e ∷ []))) line
  ok (if is_empty (trim read) then default else trim read)

-- `windows` says for which system the agent was built.
pub effective_config_path : (windows : Bool) → String → String
effective_config_path windows path =
    if windows && str_eq path "config.toml"
    then "C:\\ProgramData\\NexusAgent\\config.toml"
    else path

-- An `env:` reference, and the note that asks for the variable.
env_reference : (env_name note : String) → String × Option String
env_reference env_name note = (concat ("env:" ∷ env_name ∷ []), some note)

pub harden_raw :
    Primitives
    → (iv : Bytes) → String
    → Option Cipher
    → (env_name : String) → String × Option String
unfolding env_reference
harden_raw p iv v none env_name = env_reference env_name (
    concat (
      "set the env var " ∷ env_name ∷ " to the value on the host (kept off disk), "
      ∷ "or set NEXUS_AGENT_KEY and re-run setup to store it encrypted (enc:)" ∷ []))
harden_raw p iv v (some c) env_name = elim (encrypt_serialized p iv c v) [
  | ok enc ↦ (concat ("enc:" ∷ enc ∷ []), none)
  | err _ ↦
      env_reference env_name
        (concat ("encryption failed — set the env var " ∷ env_name ∷ " on the host instead" ∷ []))
]

-- the test for what is passed through unchanged
is_reference : String → Bool
is_reference v = is_empty v || starts_with "env:" v || starts_with "enc:" v

-- `iv` is what the random generator fills in if the value is encrypted.
pub harden_secret :
    Primitives
    → (iv : Bytes) → String
    → Option Cipher
    → (env_name : String) → String × Option String
unfolding harden_raw is_reference
harden_secret p iv value vault env_name =
    let v = trim value in
    let hardened = harden_raw p iv v vault env_name in
    if is_reference v then (v, none) else hardened

-- The text of config.toml, with the two hardened secrets.
pub config_text : SetupValues → (secret_key bind_password : String) → String
config_text v secret_key bind_password = concat (
    "[agent]\nid = \"" ∷ v.agent_id ∷ "\"\nmode = \"" ∷ v.mode
    ∷ "\"\npoll_interval_secs = 30\naudit_log = \"./nexus-agent.audit.jsonl\"\n\n[server]\nbase_url = \""
    ∷ v.base_url ∷ "\"\nagent_token = \"" ∷ v.agent_token ∷ "\"\nsecret_key = \"" ∷ secret_key
    ∷ "\"\nverify_tls = true\n\n[ad]\nurl = \"" ∷ v.ad_url ∷ "\"\nbind_dn = \"" ∷ v.bind_dn
    ∷ "\"\nbind_password = \"" ∷ bind_password ∷ "\"\nbase_dn = \"" ∷ v.base_dn
    ∷ "\"\nuse_kerberos = false\npassword_writeback = true\n" ∷ [])
