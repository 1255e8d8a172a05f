-- ===== src/Service/Restart.antt =====
-- src/service.rs: what `ensure_running` makes of a service that is registered.
use nexusid_agent.Common.{String, [], ◌∷◌, concat}
use nexusid_agent.Error.{Result, ok, err, AgentError, config}
use nexusid_agent.Service.{Scm}

module _ (m : Scm) where
  -- The answer to a start: a failure is an error of the configuration with the manager's message.
  pub data Started
      : Result String (Unit {0}) × m.State → Result AgentError (Unit {0}) × m.State → Type 0 where
    runs : {s : m.State} → Started (ok tt, s) (ok tt, s)
    refuses :
        {s : m.State} {e : String}
        → Started (err e, s) (err (config (concat ("start service" ∷ ": " ∷ e ∷ []))), s)
