-- ===== src/AdMode.antt =====
-- src/modes/ad.rs: one pass in AD mode.
--
-- The formats of the operations' JSON texts are the record `Formats`.
pub mod Pass
pub mod Forests
pub mod Permitted
pub mod Writes
mod Tests
use nexusid_agent.Common.{
  ℕ, ◌+◌, String, Bool, true, false, Option, none, some, List, [], ◌∷◌, length, concat, is_empty,
  str_eq, if◌then◌else◌,
}
use nexusid_agent.Common.Dict.{Dict, get, insert}
use nexusid_agent.Error.{Result, ok, err, AgentError, ldap, to_string, map_err}
use nexusid_agent.Effect.{M, pure, raise, lift, and_then, ◌>>=◌, ◌>>◌}
use nexusid_agent.Json.{Value, Items, nil, cons, object, entries, bool, number, string, array, json}
use nexusid_agent.Crypto.{Primitives, Cipher, or_err, decrypt_serialized}
use nexusid_agent.Config.{AdSection, Env, resolve}
use nexusid_agent.Audit.{
  SyncCounters, zero_counters, record_ok, record_failure, AuditLog, Externals, Write, Disk, append,
}
use nexusid_agent.Ldap.{ForestContext, Directory, LdapConnector}
use nexusid_agent.Ldap.Connector.{
  connect, connect_forest, create_account, enable_account, disable_account, update_attributes,
  test_base, search_users, unbind,
}
use nexusid_agent.Server.{Operation, Http, ServerClient, poll_operations, complete}

-- `serde_json::from_str` at the two texts that an operation carries.
pub record Formats : Type 0 where
  pub attributes : String → Result String (Dict String)
  pub forest_context : String → Result String ForestContext

pub record AdMode : Type 0 where
  pub server : ServerClient
  pub ad : AdSection
  pub cipher : Cipher
  pub verify_tls : Bool
  pub batch : ℕ

-- The directory, and the connections to forests by their ids.
pub record Connections (D C : Type 0) : Type 0 where
  pub directory : D
  pub forests : Dict C

pub parse_attrs : Formats → Option String → Result AgentError (Dict String)
parse_attrs f none = ok []
parse_attrs f (some s) =
    map_err (λ e. ldap (concat ("bad attributesJson: " ∷ e ∷ []))) (f.attributes s)

email : Operation → Result AgentError String
email op = or_err (ldap "operation has no userEmail to locate the account") op.user_email

-- `.filter(|s| !s.is_empty())`
non_empty : Option String → Option String
non_empty none = none
non_empty (some s) = if is_empty s then none else some s

or_option : Option String → Option String → Option String
or_option none o = o
or_option (some s) o = some s

or_default : String → Option String → String
or_default d none = d
or_default d (some s) = s

users_json : List (Dict Value) → Items
users_json [] = nil
users_json (u ∷ us) = cons (object (entries u)) (users_json us)

string_values : Dict String → Dict Value
string_values [] = []
string_values ((k, v) ∷ m) = (k, string v) ∷ string_values m

all_values : List (Dict String) → List (Dict Value)
unfolding string_values
all_values [] = []
all_values (u ∷ us) = string_values u ∷ all_values us

module _ (d : Directory) (p : Primitives) (f : Formats) (mode : AdMode) where
  open d use {State, Session}

  decrypted : Option String → Result AgentError (Option String)
  decrypted none = ok none
  decrypted (some enc) = elim (decrypt_serialized p mode.cipher enc) [
    | err e ↦ err e
    | ok pw ↦ ok (some pw)
  ]

  sync_users : Operation → LdapConnector Session → M State Value
  unfolding parse_attrs non_empty or_option or_default users_json all_values
  sync_users op l = do
    params ← lift (parse_attrs f op.attributes_json)
    base ← lift (
        or_err (ldap "SYNC_USERS missing base DN")
          (or_option (non_empty (get "userBaseDn" params)) op.target_base_dn))
    users ← search_users d l base (
        or_default "(&(objectClass=user)(objectCategory=person))" (non_empty (get "filter" params)))
    pure (
        json (
          ("users", array (users_json (all_values users)))
          ∷ ("inspected", number (length users))
          ∷ []))

  create : Operation → LdapConnector Session → M State Value
  unfolding parse_attrs decrypted
  create op l = do
    attrs ← lift (parse_attrs f op.attributes_json)
    pw ← lift (decrypted op.encrypted_password)
    dn ← create_account d l attrs pw
    pure (json (("dn", string dn) ∷ []))

  enable : Operation → LdapConnector Session → M State Value
  unfolding email
  enable op l = do
    who ← lift (email op)
    dn ← enable_account d l who
    pure (json (("dn", string dn) ∷ ("state", string "enabled") ∷ []))

  disable : Operation → LdapConnector Session → M State Value
  unfolding email
  disable op l = do
    who ← lift (email op)
    dn ← disable_account d l who
    pure (json (("dn", string dn) ∷ ("state", string "disabled") ∷ []))

  update : Operation → LdapConnector Session → M State Value
  unfolding parse_attrs email
  update op l = do
    attrs ← lift (parse_attrs f op.attributes_json)
    who ← lift (email op)
    dn ← update_attributes d l who attrs
    pure (json (("dn", string dn) ∷ ("updated", number (length attrs)) ∷ []))

  probe : LdapConnector Session → M State Value
  probe l = do
    n ← test_base d l
    pure (json (("ok", bool true) ∷ ("base_dn_entries", number n) ∷ []))

  pub process : Operation → LdapConnector Session → M State Value
  unfolding create enable disable update probe sync_users
  process op l =
      if str_eq op.op_type "CREATE_ACCOUNT"
      then create op l
      else if str_eq op.op_type "ENABLE_ACCOUNT"
      then enable op l
      else if str_eq op.op_type "DISABLE_ACCOUNT"
      then disable op l
      else if str_eq op.op_type "UPDATE_ATTRIBUTES"
      then update op l
      else if str_eq op.op_type "TEST_CONNECTION"
      then probe l
      else if str_eq op.op_type "SYNC_USERS"
      then sync_users op l
      else raise (ldap (concat ("unknown op type: " ∷ op.op_type ∷ [])))

  -- A call of the directory leaves the map of forests alone.
  pub on_directory : {A : Type 0} → M State A → M (Connections State (LdapConnector Session)) A
  on_directory m w = let (r, s) = m w.directory in (r, record w { directory = s })

  keep_forest :
      String
      → LdapConnector Session
      → M (Connections State (LdapConnector Session)) (LdapConnector Session)
  keep_forest id conn w = (ok conn, record w { forests = insert id conn w.forests })

  -- The connection of the forest; the first operation of a forest makes it. After the insertion the
  -- source looks the connection up again, which gives the one inserted.
  pub forest_connection :
      (kerberos : Bool)
      → ForestContext
      → Option String
      → M (Connections State (LdapConnector Session)) (LdapConnector Session)
  unfolding on_directory keep_forest
  forest_connection kerberos ctx target w = elim (get ctx.forest_id w.forests) [
    | some conn ↦ (ok conn, w)
    | none ↦
        (on_directory (connect_forest d p kerberos mode.cipher mode.verify_tls ctx target)
            >>= λ conn. keep_forest ctx.forest_id conn)
          w
  ]

  -- `context` is the operation's forest context.
  route :
      (kerberos : Bool)
      → Operation
      → LdapConnector Session
      → (context : Option String) → M (Connections State (LdapConnector Session)) Value
  unfolding process forest_connection on_directory
  route kerberos op default_ldap none = on_directory (process op default_ldap)
  route kerberos op default_ldap (some text) = do
    ctx ←
        lift (
          map_err (λ e. ldap (concat ("bad forestContextJson: " ∷ e ∷ []))) (f.forest_context text))
    conn ← forest_connection kerberos ctx op.target_base_dn
    on_directory (process op conn)

  pub route_and_process :
      (kerberos : Bool)
      → Operation
      → LdapConnector Session
      → M (Connections State (LdapConnector Session)) Value
  unfolding route
  route_and_process kerberos op default_ldap = route kerberos op default_ldap op.forest_context_json
