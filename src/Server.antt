-- ===== src/Server.antt =====
-- src/server.rs: the client of the broker.
--
-- reqwest is the record `Http`: sending a request gives the message of a failed transport or a response,
-- and the bodies are decoded by serde_json.
pub mod Bounds
pub mod Requests
use nexusid_agent.Common.{
  ℕ, String, Bool, not, ◌&&◌, Option, none, some, List, [], ◌∷◌, ◌==◌, leb, ltb, concat, show,
  trim_end_matches, if◌then◌else◌,
}
use nexusid_agent.Common.Dict.{Dict}
use nexusid_agent.Error.{Result, ok, err, AgentError, server, map_err}
use nexusid_agent.Effect.{M, pure, lift, ◌>>=◌}
use nexusid_agent.Json.{Value, bool, number, string, json, or_null}
use nexusid_agent.Audit.{SyncCounters}
use nexusid_agent.Config.{RemoteConfig}

pub record Operation : Type 0 where
  pub id : String
  pub op_type : String
  pub user_id : String
  pub user_email : Option String
  pub attributes_json : Option String
  pub encrypted_password : Option String
  pub directory_integration_id : Option String
  pub target_base_dn : Option String
  pub forest_context_json : Option String

pub record WritebackChange : Type 0 where
  pub key : String
  pub fields : Dict String

pub data Method : Type 0 where
  get post : Method

pub record Request : Type 0 where
  pub method : Method
  pub url : String
  pub headers : List (String × String)
  pub body : Option Value

pub record Response : Type 0 where
  pub status : ℕ
  pub body : String

-- `status_text` is how a status is printed.
pub record Http : Type 1 where
  pub State : Type 0
  pub send : (accept_invalid_certs : Bool) → Request → State → Result String Response × State
  pub status_text : ℕ → String
  pub config_of : String → Result String RemoteConfig
  pub operations_of : String → Result String (List Operation)
  pub changes_of : String → Result String (List WritebackChange)

-- `accept_invalid_certs` is what the HTTP client was built with.
pub record ServerClient : Type 0 where
  pub accept_invalid_certs : Bool
  pub base_url : String
  pub agent_token : String
  pub agent_id : String

-- `built` is the outcome of building the HTTP client.
unfoldable pub new_client :
    (built : Bool → Result String (Unit {0}))
    → (base_url agent_token agent_id : String) → (verify_tls : Bool)
    → Result AgentError ServerClient
new_client built base_url agent_token agent_id verify_tls =
    let insecure = not verify_tls in
    elim (built insecure) [
      | err e ↦ err (server (concat ("building HTTP client: " ∷ e ∷ [])))
      | ok _ ↦ ok (record {
        accept_invalid_certs = insecure;
        base_url = trim_end_matches b'/' base_url;
        agent_token = agent_token;
        agent_id = agent_id;
      })
    ]

abbrev agent_headers : ServerClient → List (String × String)
agent_headers c = ("X-Agent-Token", c.agent_token) ∷ ("X-Agent-Id", c.agent_id) ∷ []

is_success : ℕ → Bool
is_success status = leb 200 status && ltb status 300

module _ (h : Http) where
  open h use {State, send, status_text}

  -- The body of a successful response.
  accepted : (sent returned : String) → Result String Response → Result AgentError String
  unfolding is_success
  accepted sent returned (err e) = err (server (concat (sent ∷ ": " ∷ e ∷ [])))
  accepted sent returned (ok r) =
      if is_success r.status
      then ok r.body
      else err (server (concat (returned ∷ " HTTP " ∷ status_text r.status ∷ [])))

  exchange : ServerClient → (sent returned : String) → Request → M State String
  unfolding accepted
  exchange c sent returned req s =
      let (r, s') = send c.accept_invalid_certs req s in (accepted sent returned r, s')

  pub fetch_config : ServerClient → M State RemoteConfig
  unfolding exchange
  fetch_config c = do
    body ← exchange c "fetch config" "config returned" (record {
      method = get;
      url = concat (c.base_url ∷ "/agent/ad/config" ∷ []);
      headers = agent_headers c;
      body = none;
    })
    lift (map_err (λ e. server (concat ("config decode: " ∷ e ∷ []))) (h.config_of body))

  unfoldable pub poll_operations : ServerClient → ℕ → M State (List Operation)
  unfolding exchange
  poll_operations c limit = do
    body ← exchange c "poll" "poll returned" (record {
      method = get;
      url = concat (c.base_url ∷ "/agent/ad/operations?limit=" ∷ show limit ∷ []);
      headers = agent_headers c;
      body = none;
    })
    lift (map_err (λ e. server (concat ("poll decode: " ∷ e ∷ []))) (h.operations_of body))

  unfoldable pub complete :
      ServerClient → String → Bool → (result_json error : Option String) → M State (Unit {0})
  unfolding exchange
  complete c op_id success result_json error = do
    body ← exchange c "complete" "complete returned" (record {
      method = post;
      url = concat (c.base_url ∷ "/agent/ad/operations/" ∷ op_id ∷ "/complete" ∷ []);
      headers = ("X-Agent-Token", c.agent_token) ∷ [];
      body = some (
          json (
            ("success", bool success)
            ∷ ("resultJson", or_null result_json)
            ∷ ("error", or_null error)
            ∷ []));
    })
    pure tt

  unfoldable pub push_record : ServerClient → (path secret : String) → Value → M State (Unit {0})
  unfolding exchange
  push_record c path secret rec = do
    body ← exchange c "push" "push returned" (record {
      method = post;
      url = concat (c.base_url ∷ path ∷ []);
      headers = ("x-sync-secret", secret) ∷ [];
      body = some rec;
    })
    pure tt

  -- A change feed that is not there, status 404, has no changes.
  changes : Result String Response → Result AgentError (List WritebackChange)
  unfolding is_success
  changes (err e) = err (server (concat ("writeback pull: " ∷ e ∷ [])))
  changes (ok r) =
      if r.status == 404
      then ok []
      else if is_success r.status
      then map_err (λ e. server (concat ("writeback decode: " ∷ e ∷ []))) (h.changes_of r.body)
      else err (server (concat ("writeback pull HTTP " ∷ status_text r.status ∷ [])))

  unfoldable pub pull_writeback :
      ServerClient → (path secret : String) → M State (List WritebackChange)
  unfolding changes
  pull_writeback c path secret s =
      let (r, s') =
        send c.accept_invalid_certs
          (record {
            method = get;
            url = concat (c.base_url ∷ path ∷ []);
            headers = ("x-sync-secret", secret) ∷ [];
            body = none;
          })
          s in
      (changes r, s')

  -- A post whose outcome is only logged.
  post_quietly : ServerClient → (path : String) → Value → State → State
  post_quietly c path body s =
      (send c.accept_invalid_certs
        (record {
          method = post;
          url = concat (c.base_url ∷ path ∷ []);
          headers = ("X-Agent-Token", c.agent_token) ∷ [];
          body = some body;
        })
        s).1

  pub heartbeat :
      ServerClient
      → (mode hostname version : String) → (directory_integration_id : Option String) → State
      → State
  unfolding post_quietly
  heartbeat c mode hostname version directory_integration_id = post_quietly c "/agent/heartbeat" (
      json (
        ("agentId", string c.agent_id)
        ∷ ("mode", string mode)
        ∷ ("hostname", string hostname)
        ∷ ("version", string version)
        ∷ ("status", string "ONLINE")
        ∷ ("directoryIntegrationId", or_null directory_integration_id)
        ∷ []))

  pub report_run : ServerClient → (mode : String) → SyncCounters → State → State
  unfolding post_quietly
  report_run c mode counters = post_quietly c "/agent/run" (
      json (
        ("agentId", string c.agent_id)
        ∷ ("mode", string mode)
        ∷ ("inspected", number counters.inspected)
        ∷ ("created", number counters.created)
        ∷ ("updated", number counters.updated)
        ∷ ("disabled", number counters.disabled)
        ∷ ("failed", number counters.failed)
        ∷ []))

  pub disconnect : ServerClient → (reason : String) → State → State
  unfolding post_quietly
  disconnect c reason =
      post_quietly c "/agent/disconnect"
        (json (("agentId", string c.agent_id) ∷ ("reason", string reason) ∷ []))
