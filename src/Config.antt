-- ===== src/Config.antt =====
-- src/config.rs: the agent's configuration, the three forms of a secret, and the broker's live
-- settings.
--
-- The process environment is a function from names to values; reading the file and parsing TOML, with
-- the defaults that serde fills in, is the field `parse_toml`.
pub mod Secrets
pub mod Remote
mod Tests
use Prim.Native.String.{count}
use nexusid_agent.Common.{
  ℕ, ◌+◌, String, Bool, true, false, not, Option, none, some, List, [], ◌∷◌, ◌==◌, ltb, cat, concat,
  is_empty, trim, show, starts_with, strip_prefix, if◌then◌else◌,
}
use nexusid_agent.Error.{Result, ok, err, AgentError, config, to_string, ◌>>=◌, ◌>>◌, map_err}
use nexusid_agent.Crypto.{Primitives, Cipher, or_err, from_base64_key, decrypt_serialized}

pub data Mode : Type 0 where
  ad db : Mode

unfoldable pub as_str : Mode → String
as_str ad = "ad"
as_str db = "db"

pub record AgentSection : Type 0 where
  pub id : String
  pub mode : Mode
  pub poll_interval_secs : ℕ
  pub audit_log : String
  pub directory_integration_id : Option String

pub record ServerSection : Type 0 where
  pub base_url : String
  pub agent_token : String
  pub secret_key : String
  pub verify_tls : Bool

pub record AdSection : Type 0 where
  pub url : String
  pub bind_dn : String
  pub bind_password : String
  pub base_dn : String
  pub use_kerberos : Bool
  pub password_writeback : Bool

-- `fields` lists the entries of the map in the order of their keys.
pub record DbSection : Type 0 where
  pub url : String
  pub driver : String
  pub table : String
  pub key_column : String
  pub fields : List (String × String)
  pub push_path : String
  pub push_secret : String
  pub writeback : Bool
  pub writeback_pull_path : Option String

pub record Config : Type 0 where
  pub agent : AgentSection
  pub server : ServerSection
  pub ad_section : Option AdSection
  pub db_section : Option DbSection

-- `std::env::var`, where a value that is not Unicode counts as none
abbrev pub Env : Type 0
Env = String → Option String

validate_mode : Mode → Option AdSection → Option DbSection → Result AgentError (Unit {0})
validate_mode ad none _ = err (config "mode=ad requires an [ad] section")
validate_mode ad (some _) _ = ok tt
validate_mode db _ none = err (config "mode=db requires a [db] section")
validate_mode db _ (some _) = ok tt

unfoldable pub validate : Config → Result AgentError (Unit {0})
unfolding validate_mode
validate c = validate_mode c.agent.mode c.ad_section c.db_section

-- `raw` is what reading the file gives, or the message of its error.
pub load :
    (parse_toml : String → Result String Config) → Result String String → Result AgentError Config
unfolding validate
load parse_toml raw = do
  text ← map_err (λ e. config (concat ("reading config: " ∷ e ∷ []))) raw
  cfg ← map_err (λ e. config (concat ("parsing TOML: " ∷ e ∷ []))) (parse_toml text)
  validate cfg
  ok cfg

secret_source : String → String
secret_source raw = elim (strip_prefix "env:" raw) [
  | some v ↦ concat ("env:" ∷ v ∷ [])
  | none ↦ if starts_with "enc:" raw then "enc:(vault)" else "inline"
]

describe_as : String → Result AgentError String → String
describe_as src (ok v) =
    if is_empty (trim v)
    then concat ("[" ∷ src ∷ "] -> EMPTY/unresolved" ∷ [])
    else concat ("[" ∷ src ∷ "] -> ok (" ∷ show (count v) ∷ " chars)" ∷ [])
describe_as src (err e) = concat ("[" ∷ src ∷ "] -> ERROR: " ∷ to_string e ∷ [])

module _ (p : Primitives) (env : Env) where
  unfoldable pub vault : Result AgentError (Option Cipher)
  vault = elim (env "NEXUS_AGENT_KEY") [
    | none ↦ ok none
    | some k ↦
        if is_empty (trim k) then ok none else from_base64_key p k "local" >>= λ c. ok (some c)
  ]

  resolve_enc : String → Result AgentError String
  unfolding vault
  resolve_enc enc = do
    found ← vault
    key ← or_err (config "an enc: secret requires NEXUS_AGENT_KEY to be set") found
    decrypt_serialized p key enc

  unfoldable pub resolve : String → Result AgentError String
  unfolding resolve_enc
  resolve raw = elim (strip_prefix "env:" raw) [
    | some var ↦ or_err (config (concat ("env var '" ∷ var ∷ "' not set" ∷ []))) (env var)
    | none ↦ elim (strip_prefix "enc:" raw) [ some enc ↦ resolve_enc enc | none ↦ ok raw ]
  ]

  pub describe : String → String
  unfolding resolve secret_source describe_as
  describe raw = describe_as (secret_source raw) (resolve raw)

  unfoldable pub server_cipher : Config → Result AgentError Cipher
  unfolding resolve
  server_cipher c = do key ← resolve c.server.secret_key; from_base64_key p key "local-default"

pub record RemoteDirectory : Type 0 where
  pub url : Option String
  pub bind_dn : Option String
  pub base_dn : Option String
  pub password_writeback : Option Bool

pub record RemoteConfig : Type 0 where
  pub mode : Option String
  pub poll_interval_secs : Option ℕ
  pub directory : Option RemoteDirectory

-- `.filter(|s| !s.is_empty())` and the assignment
or_keep : Option String → String → String
or_keep none old = old
or_keep (some s) old = if is_empty s then old else s

or_keep_flag : Option Bool → Bool → Bool
or_keep_flag none old = old
or_keep_flag (some w) old = w

merge_poll : Option ℕ → ℕ → ℕ
merge_poll none old = old
merge_poll (some p) old = if ltb 0 p then p else old

merge_directory : Option RemoteDirectory → Option AdSection → Option AdSection
unfolding or_keep or_keep_flag
merge_directory none local = local
merge_directory (some dir) none = none
merge_directory (some dir) (some local) = some (record local {
  url = or_keep dir.url local.url;
  bind_dn = or_keep dir.bind_dn local.bind_dn;
  base_dn = or_keep dir.base_dn local.base_dn;
  password_writeback = or_keep_flag dir.password_writeback local.password_writeback;
})

pub apply_remote : RemoteConfig → Config → Config
unfolding merge_poll merge_directory
apply_remote remote c = record c {
  agent = record (c.agent) {
    poll_interval_secs = merge_poll remote.poll_interval_secs c.agent.poll_interval_secs;
  };
  ad_section = merge_directory remote.directory c.ad_section;
}
