-- ===== src/Service/Worker.antt =====
-- src/service.rs, `run` and the thread of `run_service`: how the configuration's path comes to the agent.
--
-- The environment of the process is a function; the service dispatcher, which starts the service in it,
-- the loading of a configuration and the agent are arguments.
use nexusid_agent.Common.{
  ◌≡◌, ap, String, Option, none, some, concat, str_eq, [], ◌∷◌, if◌then◌else◌,
}
use nexusid_agent.Error.{Result, ok, err, AgentError, config, map_err}
use nexusid_agent.Config.{Env}

config_variable : String
config_variable = "NEXUS_AGENT_CONFIG"

-- `std::env::set_var`
set_var : String → String → Env → Env
set_var name value env other = if str_eq name other then some value else env other

or_fallback : String → Option String → String
or_fallback default none = default
or_fallback default (some s) = s

pub config_path : Env → String
unfolding config_variable or_fallback
config_path env = or_fallback "config.toml" (env config_variable)

module _ {S : Type 0} where
  dispatched : Result String (Unit {0}) × S → Result AgentError (Unit {0}) × S
  dispatched (r, s) = (map_err (λ e. config (concat ("service dispatcher: " ∷ e ∷ []))) r, s)

  pub run :
      (start : Env → S → Result String (Unit {0}) × S)
      → (path : String) → Env
      → S
      → Result AgentError (Unit {0}) × S
  unfolding set_var config_variable dispatched
  run start path env s = dispatched (start (set_var config_variable path env) s)

module _ {C S : Type 0} where
  -- A configuration that cannot be loaded is only logged, and the agent's result is dropped.
  run_loaded : (agent : C → S → Result AgentError (Unit {0}) × S) → Result AgentError C → S → S
  run_loaded agent (ok c) s = (agent c s).1
  run_loaded agent (err e) s = s

  -- The thread: without a runtime it does nothing.
  pub worker :
      (runtime : Result String (Unit {0})) (load : String → S → Result AgentError C)
      (agent : C → S → Result AgentError (Unit {0}) × S)
      → Env
      → S
      → S
  unfolding config_path run_loaded
  worker (ok _) load agent env s = run_loaded agent (load (config_path env) s) s
  worker (err e) load agent env s = s

  -- A service that the dispatcher starts in the environment it is given runs the agent with the
  -- configuration at the path that `run` was called with, whatever the environment held.
  pub run-worker :
      (load : String → S → Result AgentError C) (agent : C → S → Result AgentError (Unit {0}) × S)
      (path : String) (env : Env) (s : S) {c : C}
      → load path s ≡ ok c
      → run (λ env s. (ok tt, worker (ok tt) load agent env s)) path env s ≡ (ok tt, (agent c s).1)
  unfolding run worker dispatched set_var config_path config_variable or_fallback run_loaded
  run-worker load agent path env s e = ap (λ r. (ok tt, run_loaded agent r s)) e
