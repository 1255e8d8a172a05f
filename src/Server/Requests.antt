-- ===== src/Server/Requests.antt =====
-- src/server.rs: the requests of the client, noted in the order in which they are sent.
use nexusid_agent.Common.{ℕ, ◌≡◌, refl, String, Bool, Option, List, [], ◌∷◌, concat, show}
use nexusid_agent.Json.{Value}
use nexusid_agent.Audit.{SyncCounters}
use nexusid_agent.Trace.{noting, Adds, Emits, Adds-one, Adds-none, Emits-bind, Emits-pure}
use nexusid_agent.Server.{
  Request, Http, ServerClient, exchange, fetch_config, poll_operations, complete, push_record,
  pull_writeback, post_quietly, heartbeat, report_run, disconnect,
}

-- Any HTTP client, with a list of the requests sent so far.
abbrev pub listening : Http → Http
listening h = record {
  State = h.State × List Request;
  send = λ insecure req. noting req (h.send insecure req);
  status_text = h.status_text;
  config_of = h.config_of;
  operations_of = h.operations_of;
  changes_of = h.changes_of;
}

-- A request is the client's own if it goes below the client's base URL, and shows who sends it by the
-- client's token or by a secret that it may show.
pub data IsOwn (c : ServerClient) (MayShow : String → Type 0) (req : Request) : Type 0 where
  by_agent :
      (path : List String)
      → req.url ≡ concat (c.base_url ∷ path)
      → req.headers ≡ ("X-Agent-Token", c.agent_token) ∷ ("X-Agent-Id", c.agent_id) ∷ []
      → IsOwn c MayShow req
  by_token :
      (path : List String)
      → req.url ≡ concat (c.base_url ∷ path)
      → req.headers ≡ ("X-Agent-Token", c.agent_token) ∷ []
      → IsOwn c MayShow req
  by_secret :
      (path : List String) (secret : String)
      → MayShow secret
      → req.url ≡ concat (c.base_url ∷ path)
      → req.headers ≡ ("x-sync-secret", secret) ∷ []
      → IsOwn c MayShow req

module _ (h : Http) (c : ServerClient) (MayShow : String → Type 0) where
  abbrev pub requests : (listening h).State → List Request
  requests s = s.1

  exchange-Emits :
      (sent returned : String) (req : Request)
      → IsOwn c MayShow req
      → Emits requests (IsOwn c MayShow) (exchange (listening h) c sent returned req)
  unfolding exchange
  exchange-Emits sent returned req own = record { at = λ s. Adds-one req refl own }

  pub fetch_config-Emits : Emits requests (IsOwn c MayShow) (fetch_config (listening h) c)
  unfolding fetch_config
  fetch_config-Emits =
      Emits-bind _ _ (exchange-Emits _ _ _ (by_agent ("/agent/ad/config" ∷ []) refl refl))
        (λ body. record { at = λ s. Adds-none refl })

  pub poll_operations-Emits :
      (limit : ℕ) → Emits requests (IsOwn c MayShow) (poll_operations (listening h) c limit)
  unfolding poll_operations
  poll_operations-Emits limit =
      Emits-bind _ _
        (exchange-Emits _ _ _
          (by_agent ("/agent/ad/operations?limit=" ∷ show limit ∷ []) refl refl))
        (λ body. record { at = λ s. Adds-none refl })

  pub complete-Emits :
      (op_id : String) (success : Bool) (result error : Option String)
      → Emits requests (IsOwn c MayShow) (complete (listening h) c op_id success result error)
  unfolding complete
  complete-Emits op_id success result error =
      Emits-bind _ _
        (exchange-Emits _ _ _
          (by_token ("/agent/ad/operations/" ∷ op_id ∷ "/complete" ∷ []) refl refl))
        (λ body. Emits-pure tt)

  pub push_record-Emits :
      (path secret : String) (v : Value)
      → MayShow secret
      → Emits requests (IsOwn c MayShow) (push_record (listening h) c path secret v)
  unfolding push_record
  push_record-Emits path secret v may =
      Emits-bind _ _ (exchange-Emits _ _ _ (by_secret (path ∷ []) secret may refl refl))
        (λ body. Emits-pure tt)

  pub pull_writeback-Emits :
      (path secret : String)
      → MayShow secret
      → Emits requests (IsOwn c MayShow) (pull_writeback (listening h) c path secret)
  unfolding pull_writeback
  pull_writeback-Emits path secret may = record {
    at = λ s. Adds-one _ refl (by_secret (path ∷ []) secret may refl refl);
  }

  post_quietly-Adds :
      (path : String) (body : Value) (s : (listening h).State)
      → Adds requests (IsOwn c MayShow) s (post_quietly (listening h) c path body s)
  unfolding post_quietly
  post_quietly-Adds path body s = Adds-one _ refl (by_token (path ∷ []) refl refl)

  pub heartbeat-Adds :
      (mode hostname version : String) (id : Option String) (s : (listening h).State)
      → Adds requests (IsOwn c MayShow) s (heartbeat (listening h) c mode hostname version id s)
  unfolding heartbeat
  heartbeat-Adds mode hostname version id s = post_quietly-Adds _ _ s

  pub report_run-Adds :
      (mode : String) (counters : SyncCounters) (s : (listening h).State)
      → Adds requests (IsOwn c MayShow) s (report_run (listening h) c mode counters s)
  unfolding report_run
  report_run-Adds mode counters s = post_quietly-Adds _ _ s

  pub disconnect-Adds :
      (reason : String) (s : (listening h).State)
      → Adds requests (IsOwn c MayShow) s (disconnect (listening h) c reason s)
  unfolding disconnect
  disconnect-Adds reason s = post_quietly-Adds _ _ s
